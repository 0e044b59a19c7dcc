-- ===== src/Hashtable/FullKey.antt =====
-- What the tables do with a key that fills the array of its entry.
use seron.Prelude.{
  ◌<◌, ◌≡◌, ◌∙◌, true, [], ◌∷◌, ◌++◌, none, Bytes, length, get_elem?-get_or, set, length-set,
  get_or-set_self, take_all, arith,
}
use seron.Outcome.{done, undefined, overrun}
use seron.Hashtable.{
  Symbol, Hashtable, key_size, hash, new_entry, bucket, chain_get, hashtable_insert, hashtable_get,
}
use seron.Hashtable.Keys.{same_key_full, index, hash-index, index-lt}
use seron.Hashtable.Chains.{find}
use seron.Hashtable.Methods.{IsValid, view, chain_of, extended, insert_step}

view_empty : (ht : Hashtable) (key : Bytes) → chain_of ht key ≡ [] → view ht key ≡ none
unfolding view find
view_empty ht key e = rw e

hash-extended :
    (ht : Hashtable) (key : Bytes) (value : Symbol)
    → 0 < ht.size
    → hash (extended ht key value).size key ≡ done (index ht.size key)
unfolding extended
hash-extended ht key value h = hash-index ht.size key h

bucket-extended :
    (ht : Hashtable) (key : Bytes) (value : Symbol)
    → index ht.size key < length ht.buckets
    → bucket (extended ht key value) (index ht.size key)
      ≡ done (chain_of ht key ++ new_entry key value ∷ [])
unfolding bucket extended
bucket-extended ht key value here =
    let i = index ht.size key in
    let c = chain_of ht key ++ new_entry key value ∷ [] in
    rw (
      bucket,
      get_elem?-get_or (set ht.buckets i c) i [] (omega (arith, length-set ht.buckets i c)),
      get_or-set_self ht.buckets i c [] here,
    )

chain_get_full :
    (key : Bytes) (value : Symbol)
    → length key ≡ key_size
    → chain_get key (new_entry key value ∷ []) ≡ undefined overrun
unfolding chain_get new_entry
chain_get_full key value h = rw (take_all key_size key (omega arith), same_key_full key_size key h)

-- A key of exactly 64 bytes, inserted into an empty chain of a valid table, is accepted as new, and
-- looking it up then reads past the end of the array of its entry.
pub hashtable_get_full_key :
    {ht : Hashtable} (key : Bytes) (value : Symbol)
    → IsValid ht
    → length key ≡ key_size
    → chain_of ht key ≡ []
    → (ht' : Hashtable) × (hashtable_insert ht key value ≡ done (true, ht'))
      × (hashtable_get ht' key ≡ undefined overrun)
unfolding hashtable_get
hashtable_get_full_key {ht} key value v full empty =
    let here : index ht.size key < length ht.buckets =
      omega (arith, index-lt ht.size key v.roomy, v.counted) in
    (
      extended ht key value,
      insert_step key value v ∙ rw (view_empty ht key empty),
      rw (hash-extended ht key value v.roomy, bucket-extended ht key value here, empty)
          (chain_get_full key value full),
    )
