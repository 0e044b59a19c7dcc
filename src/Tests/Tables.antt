-- ===== src/Tests/Tables.antt =====
-- The theorems on hash tables and on sizes at concrete inputs.
use seron.Prelude.{◌^◌, ◌≡◌, ◌<◌, ◌≤◌, ◌%◌, refl, Bool, true, Bytes, codes, replicate, arith}
use seron.Outcome.{done, undefined, overrun}
use seron.Types.{int_type, align_16, align_16_lem}
use seron.Hashtable.{Symbol, variable, Hashtable, hashtable_init, hashtable_insert, hashtable_get}
use seron.Hashtable.FullKey.{hashtable_get_full_key}
use seron.Hashtable.Methods.{
  IsValid, view, Inserts, hashtable_init-view, hashtable_insert-Inserts, hashtable_get-view,
  hashtable_init-chain_of,
}

abbrev empty : Hashtable
empty = hashtable_init 5

empty-IsValid : IsValid empty
empty-IsValid = (hashtable_init-view 5 (omega arith)).0

abbrev symbol : Symbol
symbol = record { kind = variable; ty = int_type; offset = 4 }

hashtable_insert-Inserts_example :
    (r : Bool × Hashtable) × (hashtable_insert empty (codes "x") symbol ≡ done r)
    × Inserts empty (codes "x") symbol r
hashtable_insert-Inserts_example =
    hashtable_insert-Inserts (codes "x") symbol empty-IsValid (omega arith)

hashtable_get-view_example : hashtable_get empty (codes "x") ≡ done (view empty (codes "x"))
hashtable_get-view_example = hashtable_get-view (codes "x") empty-IsValid

-- A name of 64 bytes.
abbrev long_name : Bytes
long_name = replicate 64 b'a'

hashtable_get_full_key_example :
    (ht' : Hashtable) × (hashtable_insert empty long_name symbol ≡ done (true, ht'))
    × (hashtable_get ht' long_name ≡ undefined overrun)
hashtable_get_full_key_example =
    hashtable_get_full_key long_name symbol empty-IsValid refl (hashtable_init-chain_of 5 long_name)

align_16_lem_example :
    (align_16 32 % 16 ≡ 0) × (32 < align_16 32) × (align_16 32 ≤ 48) × (align_16 32 < 2 ^ 31)
align_16_lem_example = align_16_lem 32 (omega arith)
