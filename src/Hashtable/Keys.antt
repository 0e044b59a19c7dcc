-- ===== src/Hashtable/Keys.antt =====
-- `strcmp` on stored keys, and the bucket of a key.
use seron.Prelude.{
  ℕ, zero, suc, ◌%◌, ◌<◌, ◌≡◌, ◌↔◌, refl, Bool, true, false, ◌&&◌, [], ◌∷◌, Bytes, ◌==◌, length,
  take_all, arith,
}
use seron.Outcome.{done, undefined, overrun}
use seron.Hashtable.{Symbol, key_size, hash_sum, hash, new_entry, same_key}

-- The key and its terminator fit the array of an entry.
abbrev pub IsKey : Bytes → Type 0
IsKey key = length key < key_size

pub same : Bytes → Bytes → Bool
same [] [] = true
same [] (k ∷ key) = false
same (c ∷ s) [] = false
same (c ∷ s) (k ∷ key) = c == k && same s key

pub same_iff : (a b : Bytes) → (same a b ≡ true) ↔ (a ≡ b)
unfolding same
same_iff [] [] = (λ _. refl, λ _. refl)
same_iff [] (k ∷ b) = (λ h. cc, λ h. cc)
same_iff (c ∷ a) [] = (λ h. cc, λ h. cc)
same_iff (c ∷ a) (k ∷ b) = (λ h. ground (arith, same_iff a b), λ h. ground (arith, same_iff a b))

pub same_refl : (a : Bytes) → same a a ≡ true
same_refl a = (same_iff a a).1 refl

-- A stored key with a terminator is compared as the text that it is.
pub same_key-same :
    (room : ℕ) (stored key : Bytes)
    → length stored < room
    → same_key room stored key ≡ done (same stored key)
unfolding same_key same
same_key-same zero stored key h = absurd (omega arith)
same_key-same (suc room) [] [] h = refl
same_key-same (suc room) [] (k ∷ key) h = refl
same_key-same (suc room) (c ∷ stored) [] h = refl
same_key-same (suc room) (c ∷ stored) (k ∷ key) h =
    ground (arith, same_key-same room stored key (omega arith))

-- A key that fills the array is read past its end when it is compared with itself.
pub same_key_full :
    (room : ℕ) (key : Bytes) → length key ≡ room → same_key room key key ≡ undefined overrun
unfolding same_key
same_key_full zero key h = refl
same_key_full (suc room) [] h = absurd (omega arith)
same_key_full (suc room) (c ∷ key) h = ground (arith, same_key_full room key (omega arith))

abbrev pub index : ℕ → Bytes → ℕ
index size key = hash_sum 0 0 key % size

pub hash-index : (size : ℕ) (key : Bytes) → 0 < size → hash size key ≡ done (index size key)
unfolding hash
hash-index zero key h = absurd (omega arith)
hash-index (suc n) key h = refl

pub index-lt : (size : ℕ) (key : Bytes) → 0 < size → index size key < size
index-lt size key h = grind arith

pub new_entry-key : (key : Bytes) (value : Symbol) → IsKey key → (new_entry key value).key ≡ key
unfolding new_entry
new_entry-key key value h = take_all key_size key (omega arith)
