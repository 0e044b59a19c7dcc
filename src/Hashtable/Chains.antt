-- ===== src/Hashtable/Chains.antt =====
-- The walks along a chain, against the search for the first entry of a key.
use mathlib.Core.Option
use seron.Prelude.{
  ◌≡◌, refl, true, false, [], ◌∷◌, ◌++◌, Option, none, some, Bytes, if◌then◌else◌, arith,
  Bool-cases, inl, inr,
}
use seron.Outcome.{done}
use seron.Hashtable.{Symbol, Entry, Chain, key_size, new_entry, chain_insert, chain_get}
use seron.Hashtable.Keys.{IsKey, same, same_key-same}

abbrev pub AreKeys : Chain → Type 0
AreKeys [] = Unit
AreKeys (e ∷ chain) = IsKey e.key × AreKeys chain

unfoldable pub find : Bytes → Chain → Option Symbol
find key [] = none
find key (e ∷ chain) = if same e.key key then some e.value else find key chain

-- The first of two results.
abbrev pub or_else : Option Symbol → Option Symbol → Option Symbol
or_else none o = o
or_else (some s) o = some s

pub chain_get-find :
    (key : Bytes) (chain : Chain) → AreKeys chain → chain_get key chain ≡ done (find key chain)
unfolding chain_get find
chain_get-find key [] h = refl
chain_get-find key (e ∷ chain) (k, ks) =
    rw (same_key-same key_size e.key key k, chain_get-find key chain ks)
      (elim (same e.key key)
        as (λ b.
          (if b then done (some e.value) else done (find key chain))
          ≡ done (if b then some e.value else find key chain)) [ true ↦ refl | false ↦ refl ])

-- What `chain_insert` gives: nothing if the key is found, else the chain with the entry behind it.
abbrev pub inserted : Bytes → Symbol → Chain → Option Symbol → Option Chain
inserted key value chain none = some (chain ++ new_entry key value ∷ [])
inserted key value chain (some _) = none

pub chain_insert-inserted :
    (key : Bytes) (value : Symbol) (chain : Chain)
    → AreKeys chain
    → chain_insert key value chain ≡ done (inserted key value chain (find key chain))
unfolding chain_insert find
chain_insert-inserted key value [] h = refl
chain_insert-inserted key value (e ∷ chain) (k, ks) =
    rw (same_key-same key_size e.key key k, chain_insert-inserted key value chain ks)
      (elim (Bool-cases (same e.key key)) [
        | inl h ↦ rw h
        | inr h ↦
            rw h
              (elim (find key chain)
                as (λ o.
                  (done (Option.map (λ c. e ∷ c) (inserted key value chain o)))
                  ≡ done (inserted key value (e ∷ chain) o)) [ none ↦ refl | some s ↦ refl ])
      ])

pub find-append :
    (key : Bytes) (chain more : Chain)
    → find key (chain ++ more) ≡ or_else (find key chain) (find key more)
unfolding find
find-append key [] more = refl
find-append key (e ∷ chain) more = ground (arith, find-append key chain more)

pub AreKeys-append :
    (chain : Chain) (e : Entry) → AreKeys chain → IsKey e.key → AreKeys (chain ++ e ∷ [])
AreKeys-append [] e h k = (k, tt)
AreKeys-append (x ∷ chain) e (h, hs) k = (h, AreKeys-append chain e hs k)
