-- ===== src/Lexer/RoundTrip/Punctuation.antt =====
-- The tokens with one spelling that is no word.
use seron.Prelude.{
  ℕ, ◌+◌, ◌≡◌, refl, ◌∙◌, sym, ◌<◌, Bool, false, [], ◌∷◌, ◌++◌, Bytes, ◌==◌, codes, length, ap,
  arith,
}
use seron.Outcome.{done, panic}
use seron.Token.{
  Token, TokenKind, fresh, plus, minus, asterisk, slash, bang, semicolon, colon, comma, assign, eq,
  neq, gt, gt_eq, lt, lt_eq, ampersand, pipe, log_or, log_and, lparen, rparen, lbrace, rbrace,
  lbracket, rbracket,
}
use seron.Scan.{Scanned, tokenize_single, tokenize_double}
use seron.Scan.Spans.{Stops}
use seron.Lexer.{tokenize, tokenize_long, lexer_next}
use seron.Lexer.Gaps.{Gap}
use seron.Lexer.Front.{lexer, IsFront, advance, lexer_next-Gap}

-- How a token is written, if it is no word and no literal.
unfoldable pub spelling : TokenKind → Bytes
spelling plus = codes "+"
spelling minus = codes "-"
spelling asterisk = codes "*"
spelling slash = codes "/"
spelling lparen = codes "("
spelling rparen = codes ")"
spelling lbrace = codes "{"
spelling rbrace = codes "}"
spelling lbracket = codes "["
spelling rbracket = codes "]"
spelling semicolon = codes ";"
spelling comma = codes ","
spelling colon = codes ":"
spelling lt = codes "<"
spelling lt_eq = codes "<="
spelling gt = codes ">"
spelling gt_eq = codes ">="
spelling bang = codes "!"
spelling neq = codes "!="
spelling assign = codes "="
spelling eq = codes "=="
spelling pipe = codes "|"
spelling log_or = codes "||"
spelling ampersand = codes "&"
spelling log_and = codes "&&"
spelling _ = []

-- The bytes that would make the spelling that of a longer token.
unfoldable pub extends : TokenKind → ℕ → Bool
extends lt c = c == b'='
extends gt c = c == b'='
extends bang c = c == b'='
extends assign c = c == b'='
extends pipe c = c == b'|'
extends ampersand c = c == b'&'
extends _ c = false

scan : ℕ → Bytes → Scanned
scan p [] = panic
scan p (c ∷ cs) = tokenize (fresh p) c cs

abbrev pub spelled : ℕ → TokenKind → Token
spelled p kind = record (fresh p) { kind = kind; len = length (spelling kind) }

scan-spelling :
    (p : ℕ) (kind : TokenKind) (rest : Bytes)
    → 0 < length (spelling kind)
    → Stops (extends kind) rest
    → scan p (spelling kind ++ rest) ≡ done (spelled p kind, rest)
unfolding scan spelling extends tokenize tokenize_single tokenize_long tokenize_double
scan-spelling p plus rest h stops = refl
scan-spelling p minus rest h stops = refl
scan-spelling p asterisk rest h stops = refl
scan-spelling p slash rest h stops = refl
scan-spelling p lparen rest h stops = refl
scan-spelling p rparen rest h stops = refl
scan-spelling p lbrace rest h stops = refl
scan-spelling p rbrace rest h stops = refl
scan-spelling p lbracket rest h stops = refl
scan-spelling p rbracket rest h stops = refl
scan-spelling p semicolon rest h stops = refl
scan-spelling p comma rest h stops = refl
scan-spelling p colon rest h stops = refl
scan-spelling p lt [] h stops = refl
scan-spelling p lt (c ∷ rest) h stops = rw stops
scan-spelling p lt_eq rest h stops = refl
scan-spelling p gt [] h stops = refl
scan-spelling p gt (c ∷ rest) h stops = rw stops
scan-spelling p gt_eq rest h stops = refl
scan-spelling p bang [] h stops = refl
scan-spelling p bang (c ∷ rest) h stops = rw stops
scan-spelling p neq rest h stops = refl
scan-spelling p assign [] h stops = refl
scan-spelling p assign (c ∷ rest) h stops = rw stops
scan-spelling p eq rest h stops = refl
scan-spelling p pipe [] h stops = refl
scan-spelling p pipe (c ∷ rest) h stops = rw stops
scan-spelling p log_or rest h stops = refl
scan-spelling p ampersand [] h stops = refl
scan-spelling p ampersand (c ∷ rest) h stops = rw stops
scan-spelling p log_and rest h stops = refl
scan-spelling p _ rest h stops = absurd (omega arith)

front :
    (kind : TokenKind) (rest : Bytes)
    → 0 < length (spelling kind)
    → (c : ℕ) × (cs : Bytes) × (spelling kind ++ rest ≡ c ∷ cs) × IsFront c
unfolding spelling
front plus rest h = (_, _, refl, refl)
front minus rest h = (_, _, refl, refl)
front asterisk rest h = (_, _, refl, refl)
front slash rest h = (_, _, refl, refl)
front lparen rest h = (_, _, refl, refl)
front rparen rest h = (_, _, refl, refl)
front lbrace rest h = (_, _, refl, refl)
front rbrace rest h = (_, _, refl, refl)
front lbracket rest h = (_, _, refl, refl)
front rbracket rest h = (_, _, refl, refl)
front semicolon rest h = (_, _, refl, refl)
front comma rest h = (_, _, refl, refl)
front colon rest h = (_, _, refl, refl)
front lt rest h = (_, _, refl, refl)
front lt_eq rest h = (_, _, refl, refl)
front gt rest h = (_, _, refl, refl)
front gt_eq rest h = (_, _, refl, refl)
front bang rest h = (_, _, refl, refl)
front neq rest h = (_, _, refl, refl)
front assign rest h = (_, _, refl, refl)
front eq rest h = (_, _, refl, refl)
front pipe rest h = (_, _, refl, refl)
front log_or rest h = (_, _, refl, refl)
front ampersand rest h = (_, _, refl, refl)
front log_and rest h = (_, _, refl, refl)
front _ rest h = absurd (omega arith)

-- A punctuation mark or operator behind a gap is read as its token, placed behind the gap's blanks,
-- and the lexer is left in front of the rest; the rest must not begin with a byte that makes the
-- token a longer one.
pub lexer_next-spelling :
    {n : ℕ} {gap : Bytes} (kind : TokenKind) (rest : Bytes) (p : ℕ)
    → 0 < length (spelling kind)
    → Gap n gap
    → Stops (extends kind) rest
    → lexer_next (lexer (gap ++ (spelling kind ++ rest)) p)
      ≡ done (spelled (p + n) kind, lexer rest (p + n + length (spelling kind)))
unfolding scan
lexer_next-spelling {n} {gap} kind rest p h g stops =
    let (c, cs, e, f) = front kind rest h in
    let found : tokenize (fresh (p + n)) c cs ≡ done (spelled (p + n) kind, rest) =
      ap (scan (p + n)) (sym e) ∙ scan-spelling (p + n) kind rest h stops in
    rw e (lexer_next-Gap c cs p g f ∙ ap (advance (p + n)) found)
