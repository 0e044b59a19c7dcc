-- ===== src/Lexer.antt =====
-- `lexer_init`, `lexer_next`, `get_tokencount` and `lexer_collect_tokens` of seronc/lexer.c.
pub mod Gaps
pub mod Reads
pub mod Calls
pub mod Stream
pub mod Front
pub mod RoundTrip
use seron.Prelude.{
  ℕ, zero, suc, ◌+◌, Bool, true, false, not, ◌||◌, List, [], ◌∷◌, Option, none, some, Bytes, ◌==◌,
  if◌then◌else◌, length,
}
use seron.Outcome.{Outcome, done, exit, panic, undefined, ◌>>=◌, unknown_token, overrun}
use seron.Token.{
  TokenKind, eof, plus, minus, asterisk, slash, bang, semicolon, colon, comma, assign, eq, neq, gt,
  gt_eq, lt, lt_eq, ampersand, pipe, log_or, log_and, lparen, rparen, lbrace, rbrace, lbracket,
  rbracket, Token, fresh, same_kind,
}
use seron.Scan.{
  Scanned, is_digit, is_ident_head, tokenize_string, tokenize_char, tokenize_number, tokenize_ident,
  tokenize_single, tokenize_double,
}

-- `src` is what the pointer has in front of it. The `tok` of the struct is the result of the calls.
pub record Lexer : Type 0 where
  pub src : Bytes
  pub position : ℕ

abbrev pub lexer_init : Bytes → Lexer
lexer_init src = record { src = src; position = 0 }

abbrev pub is_blank : ℕ → Bool
is_blank c = c == b'\t' || c == b'\r' || c == b' ' || c == b'\n'

-- The calls of `lexer_next` by itself: a blank moves the pointer and `position`, a comment moves
-- the pointer alone, up to and behind the next newline, which is sought without a look at the
-- terminator. The flag says that a comment is being passed over.
unfoldable pub skip : Bool → Bytes → ℕ → Outcome Lexer
skip true [] position = undefined overrun
skip true (c ∷ cs) position = skip (not (c == b'\n')) cs position
skip false [] position = done (record { src = []; position = position })
skip false (c ∷ cs) position =
    let blank = skip false cs (position + 1) in
    let comment = skip true cs position in
    if is_blank c
    then blank
    else if c == b'#'
    then comment
    else done (record { src = c ∷ cs; position = position })

-- The `default` of the `switch`.
unfoldable pub tokenize_default : Token → ℕ → Bytes → Scanned
tokenize_default tok c cs =
    if is_digit c
    then tokenize_number tok c cs
    else if is_ident_head c
    then tokenize_ident tok c cs
    else exit unknown_token

-- The cases that read more than one byte.
unfoldable pub tokenize_long : Token → ℕ → Bytes → Scanned
tokenize_long tok c cs =
    if c == b'<'
    then tokenize_double tok lt b'=' lt_eq cs
    else if c == b'>'
    then tokenize_double tok gt b'=' gt_eq cs
    else if c == b'!'
    then tokenize_double tok bang b'=' neq cs
    else if c == b'='
    then tokenize_double tok assign b'=' eq cs
    else if c == b'|'
    then tokenize_double tok pipe b'|' log_or cs
    else if c == b'&'
    then tokenize_double tok ampersand b'&' log_and cs
    else if c == b'\''
    then tokenize_char tok cs
    else if c == b'"'
    then tokenize_string tok cs
    else tokenize_default tok c cs

-- The `switch` on the byte `c`, behind the blanks and comments.
unfoldable pub tokenize : Token → ℕ → Bytes → Scanned
tokenize tok c cs =
    if c == b'+'
    then tokenize_single tok plus cs
    else if c == b'-'
    then tokenize_single tok minus cs
    else if c == b'*'
    then tokenize_single tok asterisk cs
    else if c == b'/'
    then tokenize_single tok slash cs
    else if c == b'('
    then tokenize_single tok lparen cs
    else if c == b')'
    then tokenize_single tok rparen cs
    else if c == b'{'
    then tokenize_single tok lbrace cs
    else if c == b'}'
    then tokenize_single tok rbrace cs
    else if c == b'['
    then tokenize_single tok lbracket cs
    else if c == b']'
    then tokenize_single tok rbracket cs
    else if c == b';'
    then tokenize_single tok semicolon cs
    else if c == b','
    then tokenize_single tok comma cs
    else if c == b':'
    then tokenize_single tok colon cs
    else tokenize_long tok c cs

-- One token at the place where the blanks and comments end.
unfoldable pub next_at : Bytes → ℕ → Outcome (Token × Lexer)
next_at [] position =
    done (record (fresh position) { kind = eof }, record { src = []; position = position })
next_at (c ∷ cs) position = do
  (tok, rest) ← tokenize (fresh position) c cs
  done (tok, record { src = rest; position = position + tok.len })

unfoldable pub lexer_next : Lexer → Outcome (Token × Lexer)
lexer_next lex = do at ← skip false lex.src lex.position; next_at at.src at.position

-- A part of the loops that may stop the program, and what follows it.
abbrev pub and_then {ℓ κ} :
    {A : Type ℓ} {B : Type κ} → (A → Option (Outcome B)) → Outcome A → Option (Outcome B)
and_then f (done a) = f a
and_then f (exit e) = some (exit e)
and_then f panic = some panic
and_then f (undefined u) = some (undefined u)

-- `tokencount++` for a token, with the count of the later rounds.
abbrev pub counted : Option (Outcome ℕ) → Option (Outcome ℕ)
counted none = none
counted (some later) = some (do n ← later; done (n + 1))

-- The loop of `get_tokencount`, with fuel: `none` if the fuel ran out. `kind` is that of the token read
-- last, which the loop tests.
unfoldable pub count_tokens : ℕ → TokenKind → Lexer → Option (Outcome ℕ)
count_tokens zero kind lex = none
count_tokens (suc fuel) kind lex = elim (same_kind kind eof) [
  | true ↦ some (done 0)
  | false ↦ and_then (λ (tok, lex'). counted (count_tokens fuel tok.kind lex')) (lexer_next lex)
]

-- `get_tokencount` of the source, where `kind` is what its unwritten `tok` holds at first.
abbrev get_tokencount : TokenKind → Bytes → Option (Outcome ℕ)
get_tokencount kind src = count_tokens (suc (suc (length src))) kind (lexer_init src)

-- `tokens[i++] = tok` where the array has room for so many tokens behind index `i`, in front of the
-- tokens of the later rounds.
abbrev pub store : ℕ → Token → (ℕ → Option (Outcome (List Token))) → Option (Outcome (List Token))
store zero tok later = some (undefined overrun)
store (suc room) tok later = elim (later room) [
  | none ↦ none
  | some r ↦ some (do toks ← r; done (tok ∷ toks))
]

-- The loop of `lexer_collect_tokens`, with fuel.
unfoldable pub collect : ℕ → TokenKind → Lexer → ℕ → Option (Outcome (List Token))
collect zero kind lex room = none
collect (suc fuel) kind lex room = elim (same_kind kind eof) [
  | true ↦ some (done [])
  | false ↦ and_then (λ (tok, lex'). store room tok (collect fuel tok.kind lex')) (lexer_next lex)
]

-- `lexer_collect_tokens` of the source, where `first` and `second` are what the unwritten `tok` of
-- `get_tokencount` and its own hold at first. `malloc` gives room for as many tokens as were counted.
unfoldable pub lexer_collect_tokens : TokenKind → TokenKind → Bytes → Option (Outcome (List Token))
lexer_collect_tokens first second src = elim (get_tokencount first src) [
  | none ↦ none
  | some counting ↦
      and_then (λ count. collect (suc (suc (length src))) second (lexer_init src) count) counting
]
