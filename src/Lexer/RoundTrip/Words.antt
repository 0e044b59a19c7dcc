-- ===== src/Lexer/RoundTrip/Words.antt =====
-- Identifiers and keywords.
use seron.Prelude.{
  ℕ, ◌+◌, ◌≤◌, ◌≡◌, ◌∙◌, ap, true, [], ◌∷◌, ◌++◌, Bytes, ltb, length, length-append, arith,
  if◌then◌else◌,
}
use seron.Outcome.{Outcome, done, exit, long_identifier}
use seron.Token.{Token, TokenKind, fresh, literal_ident, same_kind}
use seron.Scan.{is_digit, is_ident_head, is_ident_tail, get_keyword, tokenize_ident, max_ident_len}
use seron.Scan.Spans.{All, All-append, Stops, span-append}
use seron.Scan.Keywords.{
  Keyword, Keyword-All, Keyword-head, Keyword-ne-literal_ident, get_keyword_word,
  get_keyword-append,
}
use seron.Lexer.{Lexer, tokenize, tokenize_long, tokenize_default, lexer_next}
use seron.Lexer.Gaps.{Gap}
use seron.Lexer.Front.{lexer, IsFront, advance, lexer_next-Gap}

-- A letter or `_` begins no gap, no punctuation and no literal.
tokenize_head :
    (tok : Token) (c : ℕ) (cs : Bytes)
    → is_ident_head c ≡ true
    → tokenize tok c cs ≡ tokenize_ident tok c cs
unfolding tokenize tokenize_long tokenize_default is_ident_head is_digit
tokenize_head tok c cs h = ground arith

head-IsFront : (c : ℕ) → is_ident_head c ≡ true → IsFront c
unfolding is_ident_head
head-IsFront c h = ground arith

-- The value is kept for identifiers alone.
abbrev pub word : ℕ → TokenKind → Bytes → Token
word p kind text = record (fresh p) {
  kind = kind;
  len = length text;
  value = if same_kind kind literal_ident then text else [];
}

tokenize_ident-word :
    (p c : ℕ) (tail rest : Bytes)
    → All is_ident_tail tail
    → Stops is_ident_tail rest
    → tokenize_ident (fresh p) c (tail ++ rest) ≡ (
        if ltb max_ident_len (length (c ∷ tail))
        then exit (long_identifier (record (fresh p) { len = length (c ∷ tail) }))
        else done (word p (get_keyword (c ∷ tail)) (c ∷ tail), rest))
unfolding tokenize_ident
tokenize_ident-word p c tail rest h stops =
    rw (span-append is_ident_tail tail rest h stops, get_keyword_word (c ∷ tail) rest stops)
      (ground arith)

-- What `lexer_next` makes of a word: an identifier of more than 64 bytes is an error at its token, any
-- other is a token, of the kind that `get_keyword` finds in the word alone.
abbrev pub reads_word : ℕ → Bytes → Bytes → Outcome (Token × Lexer)
reads_word p text rest =
    if ltb max_ident_len (length text)
    then exit (long_identifier (record (fresh p) { len = length text }))
    else done (word p (get_keyword text) text, lexer rest (p + length text))

-- A word behind a gap, followed by no byte of a word, is read whole: as the token of the keyword
-- that `get_keyword` finds in it, or as an identifier with the word as its value. A word of more
-- than 64 bytes is an error at a token with its position and its length: the program gives that token
-- to `diagnostic_loc`, and exits if that returns.
pub lexer_next_word :
    {n : ℕ} {gap : Bytes} (c : ℕ) (tail rest : Bytes) (p : ℕ)
    → is_ident_head c ≡ true
    → All is_ident_tail tail
    → Stops is_ident_tail rest
    → Gap n gap
    → lexer_next (lexer (gap ++ ((c ∷ tail) ++ rest)) p) ≡ reads_word (p + n) (c ∷ tail) rest
lexer_next_word {n} c tail rest p head h stops gap =
    lexer_next-Gap c (tail ++ rest) p gap (head-IsFront c head)
    ∙ ap (advance (p + n)) (
        tokenize_head (fresh (p + n)) c (tail ++ rest) head
        ∙ tokenize_ident-word (p + n) c tail rest h stops)
    ∙ ground arith

-- A word of at most 64 bytes behind a gap that begins with a keyword is read as that keyword,
-- whatever the rest of the word is, and the lexer is left behind the whole word.
pub lexer_next_prefix :
    {n : ℕ} {gap kw : Bytes} {kind : TokenKind} (more rest : Bytes) (p : ℕ)
    → Keyword kw kind
    → All is_ident_tail more
    → length kw + length more ≤ max_ident_len
    → Stops is_ident_tail rest
    → Gap n gap
    → lexer_next (lexer (gap ++ ((kw ++ more) ++ rest)) p)
      ≡ done (
        record (fresh (p + n)) { kind = kind; len = length kw + length more },
        lexer rest (p + n + (length kw + length more)),
      )
lexer_next_prefix {n} {kw} {kind} more rest p k h short stops gap =
    let (c, tail, e, head) = Keyword-head k in
    let all : All is_ident_tail tail = (rw e at (Keyword-All k)).1 in
    let read =
      lexer_next_word c (tail ++ more) rest p head (All-append is_ident_tail tail more all h) stops
        gap in
    let found : get_keyword (c ∷ (tail ++ more)) ≡ kind = rw e at (get_keyword-append more k) in
    rw e (read ∙ rw (found, Keyword-ne-literal_ident k, length-append) (ground arith))
