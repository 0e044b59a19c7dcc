-- ===== src/Codegen/State.antt =====
-- seronc/codegen.c: the state of the generator, and helpers of the walk.
use seron.Prelude.{ℕ, ◌+◌, Bool, List, [], ◌∷◌, ◌++◌, Option, none, some}
use seron.Outcome.{Outcome, done, panic, ◌>>=◌, null_pointer, invalid_types}
use seron.Token.{Token, NumberLiteralType, number_long, number_int, number_char, number_any}
use seron.Types
use seron.Types.{
  TypeKind, Ty, pointer_to, unknown_pointer, void_type, char_type, int_type, long_type,
  procedure_type, Signature, signature, Params, no_params, param, kind_of, type_primitive_size,
  stringify_typekind,
}
use seron.Hashtable.{Symbol}
use seron.Asm.{Instr, DataLine}

-- The global `gen`, with the lines in its buffers.
pub record Gen : Type 0 where
  pub buf_data : List DataLine
  pub buf_text : List Instr
  pub label_count : ℕ
  pub data_count : ℕ
  pub scope : Option ℕ

abbrev pub gen_init : Gen
gen_init = record { buf_data = []; buf_text = []; label_count = 0; data_count = 0; scope = none }

abbrev pub gen_write : Instr → Gen → Gen
gen_write i gen = record gen { buf_text = gen.buf_text ++ i ∷ [] }

abbrev pub gen_write_data : DataLine → Gen → Gen
gen_write_data d gen = record gen { buf_data = gen.buf_data ++ d ∷ [] }

-- `*ty.pointee`; another member of the union is read as a pointer that points nowhere.
abbrev pub pointee : Ty → Outcome Ty
pointee (pointer_to ty) = done ty
pointee _ = Outcome.undefined null_pointer

abbrev pub is_pointer : Ty → Bool
is_pointer ty = Types.same_kind (kind_of ty) TypeKind.pointer

-- Parents that go round in a circle, which no valid tables have, are taken for a panic.
abbrev pub found : Option (Outcome (Option Symbol)) → Outcome (Option Symbol)
found none = panic
found (some r) = r

-- The error at a token that names two types.
abbrev pub refuse_types {ℓ} : {A : Type ℓ} → Token → TypeKind → TypeKind → Outcome A
refuse_types op a b = do
  _ ← stringify_typekind a
  _ ← stringify_typekind b
  Outcome.exit (invalid_types op)

unfoldable pub type_from_token_literal : NumberLiteralType → Ty
type_from_token_literal number_char = char_type
type_from_token_literal number_long = long_type
type_from_token_literal number_any = int_type
type_from_token_literal number_int = int_type

abbrev pub gen_write_all : List Instr → Gen → Gen
gen_write_all code gen = record gen { buf_text = gen.buf_text ++ code }

abbrev pub next_label : Gen → Gen
next_label gen = record gen { label_count = gen.label_count + 1 }

abbrev pub in_scope : Option ℕ → Gen → Gen
in_scope scope gen = record gen { scope = scope }
