-- ===== src/Hashtable/Methods.antt =====
-- `hashtable_init`, `hashtable_insert` and `hashtable_get` of seronc/hashtable.c, against the map from
-- keys to symbols that a table stands for.
use seron.Prelude.{
  ℕ, zero, suc, ◌<◌, ◌≡◌, ◌≢◌, ◌⊎◌, refl, ap, sym, ◌∙◌, Bool, true, false, [], ◌∷◌, ◌++◌, Option,
  none, some, Bytes, if◌then◌else◌, length, get_or, get_elem?-get_or, set, length-set,
  get_or-set_self, get_or-set_ne, take_all, replicate, length-replicate, get_or-replicate, arith,
  Bool-cases, Option-cases, inl, inr, List,
}
use native.Mathlib.Decide.{ℕ_discrete}
use seron.Outcome.{done}
use seron.Hashtable.{
  Symbol, Chain, Hashtable, key_size, new_entry, bucket, unwritten, clear_buckets, hashtable_init,
  hashtable_insert, hashtable_get,
}
use seron.Hashtable.Keys.{
  IsKey, same, same_refl, same_iff, index, hash-index, index-lt, new_entry-key,
}
use seron.Hashtable.Chains.{
  AreKeys, find, or_else, chain_get-find, chain_insert-inserted, find-append, AreKeys-append,
}

abbrev pub AllKeys : List Chain → Type 0
AllKeys [] = Unit
AllKeys (c ∷ cs) = AreKeys c × AllKeys cs

pub record IsValid (ht : Hashtable) : Type 0 where
  pub roomy : 0 < ht.size
  pub counted : length ht.buckets ≡ ht.size
  pub keys : AllKeys ht.buckets

abbrev pub chain_of : Hashtable → Bytes → Chain
chain_of ht key = get_or ht.buckets (index ht.size key) []

-- The map that the table stands for.
unfoldable pub view : Hashtable → Bytes → Option Symbol
view ht key = find key (chain_of ht key)

AllKeys-get_or : (cs : List Chain) (i : ℕ) → AllKeys cs → AreKeys (get_or cs i [])
AllKeys-get_or [] i h = tt
AllKeys-get_or (c ∷ cs) zero h = h.0
AllKeys-get_or (c ∷ cs) (suc i) h = AllKeys-get_or cs i h.1

AllKeys-set : (cs : List Chain) (i : ℕ) (c : Chain) → AllKeys cs → AreKeys c → AllKeys (set cs i c)
AllKeys-set [] i c h k = tt
AllKeys-set (x ∷ cs) zero c h k = (k, h.1)
AllKeys-set (x ∷ cs) (suc i) c h k = (h.0, AllKeys-set cs i c h.1 k)

bucket-chain_of :
    {ht : Hashtable} (key : Bytes)
    → IsValid ht
    → bucket ht (index ht.size key) ≡ done (chain_of ht key)
unfolding bucket
bucket-chain_of {ht} key v = rw (
  bucket,
  get_elem?-get_or ht.buckets (index ht.size key) []
      (omega (arith, index-lt ht.size key v.roomy, v.counted)),
)

-- On a valid table `hashtable_get` reads the map, without a fault.
pub hashtable_get-view :
    {ht : Hashtable} (key : Bytes) → IsValid ht → hashtable_get ht key ≡ done (view ht key)
unfolding hashtable_get view
hashtable_get-view {ht} key v = rw (hash-index ht.size key v.roomy) (
    rw (bucket-chain_of key v)
      (chain_get-find key (chain_of ht key) (AllKeys-get_or ht.buckets (index ht.size key) v.keys)))

clear_buckets-replicate : (n : ℕ) → clear_buckets (replicate n unwritten) ≡ replicate n []
clear_buckets-replicate zero = refl
clear_buckets-replicate (suc n) = ap (λ rest. [] ∷ rest) (clear_buckets-replicate n)

AllKeys-replicate : (n : ℕ) → AllKeys (replicate n [])
AllKeys-replicate zero = tt
AllKeys-replicate (suc n) = (tt, AllKeys-replicate n)

-- A new table of any size but 0 is valid, and the map is empty.
pub hashtable_init-view :
    (size : ℕ)
    → 0 < size
    → IsValid (hashtable_init size) × ((key : Bytes) → view (hashtable_init size) key ≡ none)
unfolding hashtable_init view find
hashtable_init-view size h =
    let cleared = clear_buckets-replicate size in
    (
      record {
        roomy = h;
        counted = rw cleared (length-replicate size []);
        keys = rw cleared (AllKeys-replicate size);
      },
      λ key. rw cleared (ap (find key) (get_or-replicate size (index size key) [])),
    )

pub hashtable_init-chain_of : (size : ℕ) (key : Bytes) → chain_of (hashtable_init size) key ≡ []
unfolding hashtable_init
hashtable_init-chain_of size key =
    rw (clear_buckets-replicate size) (get_or-replicate size (index size key) [])

-- The result of an insertion: the code says whether the key was new. A key that was there keeps
-- its old symbol; every other key keeps what it had.
pub record Inserts (ht : Hashtable) (key : Bytes) (value : Symbol) (r : Bool × Hashtable)
    : Type 0 where
  pub valid : IsValid r.1
  pub parent : r.1.parent ≡ ht.parent
  pub code : r.0 ≡ (elim (view ht key) [ none ↦ true | some _ ↦ false ])
  pub found : view r.1 key ≡ some (elim (view ht key) [ none ↦ value | some old ↦ old ])
  pub others : (k : Bytes) → (k ≡ key) ⊎ (view r.1 k ≡ view ht k)

-- The chain with a new entry behind it, for a key that it does not hold.
unfoldable pub extended : Hashtable → Bytes → Symbol → Hashtable
extended ht key value = record ht {
  buckets = set ht.buckets (index ht.size key) (chain_of ht key ++ new_entry key value ∷ []);
}

pub insert_step :
    {ht : Hashtable} (key : Bytes) (value : Symbol)
    → IsValid ht
    → hashtable_insert ht key value ≡ (elim (view ht key) [
      | none ↦ done (true, extended ht key value)
      | some _ ↦ done (false, ht)
    ])
unfolding hashtable_insert view extended
insert_step {ht} key value v =
    let c = chain_of ht key in
    rw (hash-index ht.size key v.roomy) (
      rw (bucket-chain_of key v) (
        rw
          (chain_insert-inserted key value c (AllKeys-get_or ht.buckets (index ht.size key) v.keys))
          (ground arith)))

or_else-none : (o : Option Symbol) → or_else o none ≡ o
or_else-none none = refl
or_else-none (some s) = refl

module _ {ht : Hashtable} (key : Bytes) (value : Symbol) (v : IsValid ht) (short : IsKey key) where
  in_range : index ht.size key < length ht.buckets
  in_range = omega (arith, index-lt ht.size key v.roomy, v.counted)

  extended-IsValid : IsValid (extended ht key value)
  unfolding extended
  extended-IsValid = record {
    roomy = v.roomy;
    counted = length-set ht.buckets _ _ ∙ v.counted;
    keys = AllKeys-set ht.buckets _ _ v.keys (
        AreKeys-append (chain_of ht key) (new_entry key value)
          (AllKeys-get_or ht.buckets (index ht.size key) v.keys)
          (rw (new_entry-key key value short) short));
  }

  find_new :
      (k : Bytes) → find k (new_entry key value ∷ []) ≡ (if same key k then some value else none)
  unfolding find new_entry
  find_new k = rw (take_all key_size key (omega arith))

  other : (k : Bytes) → index ht.size key ≢ index ht.size k → same key k ≡ false
  other k n = elim (Bool-cases (same key k)) [
    | inl e ↦ absurd (n (ap (index ht.size) ((same_iff key k).0 e)))
    | inr e ↦ e
  ]

  view-extended :
      (k : Bytes)
      → view (extended ht key value) k
        ≡ or_else (view ht k) (if same key k then some value else none)
  unfolding view extended
  view-extended k = elim (ℕ_discrete (index ht.size key) (index ht.size k)) [
    | yes e ↦
        rw
          (
            ← e,
            get_or-set_self ht.buckets (index ht.size key)
                (chain_of ht key ++ new_entry key value ∷ []) [] in_range,
          )
          (find-append k (chain_of ht key) (new_entry key value ∷ [])
            ∙ ap (or_else (find k (chain_of ht key))) (find_new k))
    | no n ↦
        rw
          (
            get_or-set_ne ht.buckets (index ht.size key) (index ht.size k)
                (chain_of ht key ++ new_entry key value ∷ []) [] n,
            other k n,
          )
          (sym (or_else-none (find k (chain_of ht k))))
  ]

  -- On a valid table the insertion of a key of fewer than 64 bytes returns, with a valid table of
  -- the same parent. Its code says whether the key was new; a new key gets the symbol, one that was
  -- there keeps its old symbol, and no other key is touched.
  pub hashtable_insert-Inserts :
      (r : Bool × Hashtable) × (hashtable_insert ht key value ≡ done r) × Inserts ht key value r
  hashtable_insert-Inserts = elim (Option-cases (view ht key)) [
    | inl e ↦ (
      (true, extended ht key value),
      insert_step key value v ∙ rw e,
      record {
        valid = extended-IsValid;
        parent = unfold extended in refl;
        code = rw e;
        found = view-extended key ∙ rw (e, same_refl);
        others = λ k. elim (Bool-cases (same key k)) [
          | inl s ↦ inl (sym ((same_iff key k).0 s))
          | inr s ↦ inr (view-extended k ∙ rw s (or_else-none (view ht k)))
        ];
      },
    )
    | inr (old, e) ↦ (
      (false, ht),
      insert_step key value v ∙ rw e,
      record { valid = v; parent = refl; code = rw e; found = rw e; others = λ k. inr refl },
    )
  ]

pub with_parent-IsValid :
    {ht : Hashtable} (parent : Option ℕ) → IsValid ht → IsValid (record ht { parent = parent })
with_parent-IsValid parent v = record { roomy = v.roomy; counted = v.counted; keys = v.keys }
