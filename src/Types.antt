-- ===== src/Types.antt =====
-- seronc/types.h and seronc/types.c: the types of the language, their sizes, and `align_16`.
-- An `int` is a natural number here: sizes and offsets start at 0 and only grow.
use seron.Prelude.{ℕ, ◌^◌, ◌+◌, ◌-◌, ◌%◌, ◌≤◌, ◌<◌, ◌≡◌, Bytes, arith, codes, Bool, ◌==◌}
use seron.Outcome.{Outcome, done, panic}

pub data TypeKind : Type 0 where
  invalid void char int long pointer procedure table object : TypeKind

-- The value of the enumerator.
abbrev pub ordinal : TypeKind → ℕ
ordinal invalid = 0
ordinal void = 1
ordinal char = 2
ordinal int = 3
ordinal long = 4
ordinal pointer = 5
ordinal procedure = 6
ordinal table = 7
ordinal object = 8

abbrev pub same_kind : TypeKind → TypeKind → Bool
same_kind a b = ordinal a == ordinal b

-- A `Type` with the member of its union; `ProcSignature` and the list of `Param`s (`Field`s), with
-- the offset that `proc_post` writes. `unknown_pointer` is a `TYPE_POINTER` whose `pointee` is NULL.
mutual
  pub data Ty : Type 0 where
    invalid_type void_type char_type int_type long_type : Ty
    pointer_to : Ty → Ty
    unknown_pointer : Ty
    procedure_type : Signature → Ty
    table_type : Params → Ty
    object_type : Bytes → Ty

  pub data Signature : Type 0 where
    signature : Params → Ty → Signature

  pub data Params : Type 0 where
    no_params : Params
    param : Ty → Bytes → ℕ → Params → Params

abbrev pub kind_of : Ty → TypeKind
kind_of invalid_type = invalid
kind_of void_type = void
kind_of char_type = char
kind_of int_type = int
kind_of long_type = long
kind_of (pointer_to t) = pointer
kind_of unknown_pointer = pointer
kind_of (procedure_type s) = procedure
kind_of (table_type fs) = table
kind_of (object_type name) = object

unfoldable pub type_primitive_size : TypeKind → Outcome ℕ
type_primitive_size procedure = done 8
type_primitive_size long = done 8
type_primitive_size object = done 8
type_primitive_size pointer = done 8
type_primitive_size int = done 4
type_primitive_size char = done 1
type_primitive_size invalid = panic
type_primitive_size void = panic
type_primitive_size table = panic

-- Of an `int` whose sum with the padding is an `int`: the addition of the code overflows from
-- 2 ^ 31 - 16 on, which is undefined.
unfoldable pub align_16 : ℕ → ℕ
align_16 i = i + (16 - i % 16)

unfoldable pub stringify_typekind : TypeKind → Outcome Bytes
stringify_typekind char = done (codes "char")
stringify_typekind int = done (codes "int")
stringify_typekind long = done (codes "long")
stringify_typekind pointer = done (codes "pointer")
stringify_typekind void = done (codes "void")
stringify_typekind procedure = done (codes "proc")
stringify_typekind _ = panic

-- For a number below 2 ^ 31 - 16, `align_16` stays inside an `int`, and gives the next multiple of 16 that is
-- greater than its argument: one that is greater, by 16 at most.
pub align_16_lem :
    (i : ℕ)
    → i < 2 ^ 31 - 16
    → (align_16 i % 16 ≡ 0) × (i < align_16 i) × (align_16 i ≤ i + 16) × (align_16 i < 2 ^ 31)
unfolding align_16
align_16_lem i h = (omega arith, omega arith, omega arith, omega (arith, h))
