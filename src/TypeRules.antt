-- ===== src/TypeRules.antt =====
-- The grammar rules of seronc/parser.c for types, parameters and fields. Each takes fuel for its
-- loops and for the recovery from an error; `rule_util_type` recurs on it.
pub mod Progress
use seron.Prelude.{
  ℕ, zero, suc, ◌+◌, ◌-◌, Bool, true, false, ◌||◌, List, [], ◌∷◌, Option, none, some, Bytes, ◌==◌,
  leb, take, if◌then◌else◌,
}
use seron.Outcome.{overrun, uninitialised}
use seron.Token.{
  Token, TokenKind, literal_ident, asterisk, colon, comma, lparen, rparen, lbrace, rbrace, kw_proc,
  kw_type_int, kw_type_char, kw_type_long, kw_type_void,
}
use seron.Types.{
  Ty, invalid_type, void_type, char_type, int_type, long_type, pointer_to, procedure_type,
  object_type, Signature, signature, Params, no_params, param,
}
use seron.Parser.{
  Parser, Rule, ok, panic, undefined, no_fuel, ◌>>=◌, ◌>>◌, bind, pure, matches, matches_any,
  choose, peek, parser_advance, parser_sync, parser_consume,
}

abbrev pub max_param_count : ℕ
max_param_count = 255

-- MAX_IDENT_LEN, the size of `object_name`
abbrev pub name_size : ℕ
name_size = 64

unfoldable pub type_from_token_keyword : TokenKind → Ty
type_from_token_keyword kw_type_int = int_type
type_from_token_keyword kw_type_long = long_type
type_from_token_keyword kw_type_char = char_type
type_from_token_keyword kw_type_void = void_type
type_from_token_keyword _ = invalid_type

abbrev pub token_is_type : Parser → Bool
token_is_type =
    matches_any (kw_type_int ∷ kw_type_char ∷ kw_type_long ∷ kw_type_void ∷ asterisk ∷ [])

-- `assert(ty.kind != TYPE_INVALID)`
abbrev pub assert_valid : Ty → Rule Ty
assert_valid invalid_type p = panic
assert_valid ty p = ok ty p

-- `if (parser_match_token(p, TOK_COMMA)) parser_consume(p, TOK_COMMA);`
unfoldable pub skip_comma : ℕ → Rule (Unit {0})
skip_comma n = choose (matches comma) (do _ ← parser_consume n comma; pure tt) (pure tt)

-- The rules below are given the rule for the types inside.
unfoldable pub rule_util_param : ℕ → Rule Ty → Rule (Ty × Bytes)
rule_util_param n type = do
  tok ← parser_consume n literal_ident
  _ ← parser_consume n colon
  ty ← type
  pure (ty, take name_size tok.value)

-- The test against the number of parameters, behind the increment.
unfoldable pub check_count : ℕ → ℕ → Rule (Unit {0})
check_count n count = if leb max_param_count count then parser_sync n else pure tt

-- The loop of `rule_util_paramlist`, with `count` parameters read.
unfoldable pub param_loop : ℕ → Rule Ty → ℕ → ℕ → Rule Params
param_loop n type zero count p = no_fuel
param_loop n type (suc rounds) count p =
    choose (matches rparen) (pure no_params)
      (do
        (ty, name) ← rule_util_param n type
        _ ← check_count n (count + 1)
        _ ← skip_comma n
        rest ← param_loop n type rounds (count + 1)
        pure (param ty name 0 rest))
      p

unfoldable pub rule_util_paramlist : ℕ → Rule Ty → Rule Params
rule_util_paramlist n type = do
  _ ← parser_consume n lparen
  params ← param_loop n type n 0
  _ ← parser_consume n rparen
  pure params

-- `table->fields[table->field_count++] = …`, where the count was never set before the first field.
unfoldable pub check_field : ℕ → Rule (Unit {0})
check_field count p =
    if p.table_memory == 0
    then if leb max_param_count count then undefined overrun else ok tt p
    else undefined uninitialised

unfoldable pub field_loop : ℕ → Rule Ty → ℕ → ℕ → Rule Params
field_loop n type zero count p = no_fuel
field_loop n type (suc rounds) count p =
    choose (matches rbrace) (pure no_params)
      (do
        (ty, name) ← rule_util_param n type
        _ ← check_field count
        _ ← skip_comma n
        rest ← field_loop n type rounds (count + 1)
        pure (param ty name 0 rest))
      p

unfoldable pub rule_util_fieldlist : ℕ → Rule Ty → Rule Params
rule_util_fieldlist n type = do
  _ ← parser_consume n lbrace
  fields ← field_loop n type n 0
  _ ← parser_consume n rbrace
  pure fields

-- The name, if `out_ident` is not NULL.
abbrev pub proc_name : ℕ → Bool → Rule (Option Token)
proc_name n true = do ident ← parser_consume n literal_ident; pure (some ident)
proc_name n false = pure none

-- The operator token, the name and the type.
unfoldable pub rule_util_proc_type : ℕ → Rule Ty → Bool → Rule (Token × Option Token × Ty)
rule_util_proc_type n type named = do
  op ← parser_consume n kw_proc
  ident ← proc_name n named
  params ← rule_util_paramlist n type
  returntype ← type
  pure (op, ident, procedure_type (signature params returntype))

unfoldable pub rule_util_type : ℕ → Rule Ty
rule_util_type zero p = no_fuel
rule_util_type (suc f) p =
    choose (matches asterisk) (do _ ← parser_advance; ty ← rule_util_type f; pure (pointer_to ty))
      (choose (matches kw_proc)
        (do (_, _, ty) ← rule_util_proc_type (suc f) (rule_util_type f) false; pure ty)
        (choose (matches literal_ident)
          (do tok ← parser_advance; pure (object_type (take (name_size - 1) tok.value)))
          (choose token_is_type
            (do tok ← parser_advance; assert_valid (type_from_token_keyword tok.kind))
            (parser_sync (suc f)))))
      p
