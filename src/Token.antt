-- ===== src/Token.antt =====
-- The token types of seronc/lexer.h.
use seron.Prelude.{ℕ, Bytes, Bool, ◌==◌, []}

pub data TokenKind : Type 0 where
  invalid sentinel eof : TokenKind
  literal_ident literal_number literal_string : TokenKind
  plus minus asterisk slash bang : TokenKind
  semicolon colon comma assign eq neq gt gt_eq lt lt_eq : TokenKind
  ampersand pipe log_or log_and : TokenKind
  lparen rparen lbrace rbrace lbracket rbracket : TokenKind
  kw_proc kw_vardecl kw_if kw_else kw_elsif kw_while kw_return kw_table kw_for : TokenKind
  kw_type_void kw_type_char kw_type_int kw_type_long : TokenKind

-- The value of the enumerator, by which C compares two kinds.
abbrev pub ordinal : TokenKind → ℕ
ordinal invalid = 0
ordinal sentinel = 1
ordinal eof = 2
ordinal literal_ident = 3
ordinal literal_number = 4
ordinal literal_string = 5
ordinal plus = 6
ordinal minus = 7
ordinal asterisk = 8
ordinal slash = 9
ordinal bang = 10
ordinal semicolon = 11
ordinal colon = 12
ordinal comma = 13
ordinal assign = 14
ordinal eq = 15
ordinal neq = 16
ordinal gt = 17
ordinal gt_eq = 18
ordinal lt = 19
ordinal lt_eq = 20
ordinal ampersand = 21
ordinal pipe = 22
ordinal log_or = 23
ordinal log_and = 24
ordinal lparen = 25
ordinal rparen = 26
ordinal lbrace = 27
ordinal rbrace = 28
ordinal lbracket = 29
ordinal rbracket = 30
ordinal kw_proc = 31
ordinal kw_vardecl = 32
ordinal kw_if = 33
ordinal kw_else = 34
ordinal kw_elsif = 35
ordinal kw_while = 36
ordinal kw_return = 37
ordinal kw_table = 38
ordinal kw_for = 39
ordinal kw_type_void = 40
ordinal kw_type_char = 41
ordinal kw_type_int = 42
ordinal kw_type_long = 43

abbrev pub same_kind : TokenKind → TokenKind → Bool
same_kind a b = ordinal a == ordinal b

pub data NumberLiteralType : Type 0 where
  number_long number_int number_char number_any : NumberLiteralType

-- `value` holds the bytes that were copied into the zeroed buffer.
pub record Token : Type 0 where
  pub kind : TokenKind
  pub value : Bytes
  pub number_type : NumberLiteralType
  pub number : ℕ
  pub position : ℕ
  pub len : ℕ

-- `(Token) { .kind = TOK_INVALID, .position = …, .len = 1 }`; what is not named is zero.
abbrev pub fresh : ℕ → Token
fresh position = record {
  kind = invalid;
  value = [];
  number_type = number_long;
  number = 0;
  position = position;
  len = 1;
}
