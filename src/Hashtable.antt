-- ===== src/Hashtable.antt =====
-- seronc/hashtable.c: the hash table with chains that holds the symbols of one scope.
pub mod Keys
pub mod Chains
pub mod Methods
pub mod FullKey
use mathlib.Core.Option
use seron.Prelude.{
  ℕ, zero, suc, ◌+◌, ◌-◌, ◌*◌, ◌%◌, ◌^◌, ◌==◌, Bool, true, false, List, [], ◌∷◌, ◌++◌, Option, none,
  some, Bytes, leb, if◌then◌else◌, get_elem?, set, take, replicate,
}
use seron.Outcome.{Outcome, done, undefined, ◌>>=◌, overrun, division_by_zero}
use seron.Types.{Ty}

pub data SymbolKind : Type 0 where
  invalid none_kind variable parameter procedure table : SymbolKind

pub record Symbol : Type 0 where
  pub kind : SymbolKind
  pub ty : Ty
  pub offset : ℕ

-- The size of the array `key` of an entry.
abbrev pub key_size : ℕ
key_size = 64

-- `key` is what `strncpy` has copied. With 64 bytes of it the array has no terminator.
pub record Entry : Type 0 where
  pub key : Bytes
  pub value : Symbol

abbrev pub Chain : Type 0
Chain = List Entry

-- A table's `parent` is a table of the same arena, by its index there.
pub record Hashtable : Type 0 where
  pub size : ℕ
  pub buckets : List Chain
  pub parent : Option ℕ

-- `(size_t) key[i]`, with `char` signed
abbrev pub to_size : ℕ → ℕ
to_size c = if leb 128 c then c + 2 ^ 64 - 256 else c

-- The loop of `hash` from index `i` on.
unfoldable pub hash_sum : ℕ → ℕ → Bytes → ℕ
hash_sum sum i [] = sum
hash_sum sum i (c ∷ key) = hash_sum ((sum + to_size c * i) % 2 ^ 64) (i + 1) key

unfoldable pub hash : ℕ → Bytes → Outcome ℕ
hash zero key = undefined division_by_zero
hash (suc n) key = done (hash_sum 0 0 key % suc n)

unfoldable pub new_entry : Bytes → Symbol → Entry
new_entry key value = record { key = take key_size key; value = value }

-- `!strcmp(stored, key)`, where `room` elements of the array of `stored` are left: behind them
-- there is nothing to read.
unfoldable pub same_key : ℕ → Bytes → Bytes → Outcome Bool
same_key zero stored key = undefined overrun
same_key (suc room) [] [] = done true
same_key (suc room) [] (k ∷ key) = done false
same_key (suc room) (c ∷ stored) [] = done false
same_key (suc room) (c ∷ stored) (k ∷ key) =
    let rest = same_key room stored key in if c == k then rest else done false

-- A bucket in memory that was never written.
pub data Unwritten : Type 0 where
  unwritten : Unwritten

-- The loop that sets the buckets to NULL, from one of them on; each is written and none is read.
abbrev pub clear_buckets : List Unwritten → List Chain
clear_buckets [] = []
clear_buckets (unwritten ∷ rest) = [] ∷ clear_buckets rest

-- The arena gives memory for `size` buckets.
unfoldable pub hashtable_init : ℕ → Hashtable
hashtable_init size = record {
  size = size;
  buckets = clear_buckets (replicate size unwritten);
  parent = none;
}

-- The walk along a chain; `none` if the key is there already.
unfoldable pub chain_insert : Bytes → Symbol → Chain → Outcome (Option Chain)
chain_insert key value [] = done (some (new_entry key value ∷ []))
chain_insert key value (e ∷ chain) =
    let rest = chain_insert key value chain in
    do
      found ← same_key key_size e.key key
      if found then done none else do longer ← rest; done (Option.map (λ c. e ∷ c) longer)

unfoldable pub chain_get : Bytes → Chain → Outcome (Option Symbol)
chain_get key [] = done none
chain_get key (e ∷ chain) =
    let rest = chain_get key chain in
    do found ← same_key key_size e.key key; if found then done (some e.value) else rest

-- `ht->buckets[index]`
unfoldable pub bucket : Hashtable → ℕ → Outcome Chain
bucket ht index = elim (get_elem? ht.buckets index) [
  | none ↦ undefined overrun
  | some chain ↦ done chain
]

-- The table, and whether the key was new: `true` for the result 0, `false` for -1.
unfoldable pub hashtable_insert : Hashtable → Bytes → Symbol → Outcome (Bool × Hashtable)
hashtable_insert ht key value = do
  index ← hash ht.size key
  chain ← bucket ht index
  longer ← chain_insert key value chain
  elim longer [
    | none ↦ done (false, ht)
    | some c ↦ done (true, record ht { buckets = set ht.buckets index c })
  ]

-- The result points at the symbol in its entry; nothing is written through it.
unfoldable pub hashtable_get : Hashtable → Bytes → Outcome (Option Symbol)
hashtable_get ht key = do index ← hash ht.size key; chain ← bucket ht index; chain_get key chain
