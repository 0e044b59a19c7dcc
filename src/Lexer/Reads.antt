-- ===== src/Lexer/Reads.antt =====
-- What one call of `lexer_next` reads, and where it leaves the lexer.
use seron.Prelude.{
  ℕ, ◌+◌, ◌^◌, ◌<◌, ◌≤◌, ◌≡◌, refl, ◌∙◌, Bool, [], ◌∷◌, ◌++◌, Bytes, arith, length, ◌⊎◌, inl, inr,
  ◌==◌, if◌then◌else◌,
}
use seron.Outcome.{
  done, exits, Ensures, returns, Ensures-if, Ensures-bind, Ensures-done, Ensures-map,
}
use seron.Token.{
  Token, TokenKind, ordinal, fresh, eof, plus, minus, asterisk, slash, bang, semicolon, colon,
  comma, assign, eq, neq, gt, gt_eq, lt, lt_eq, ampersand, pipe, log_or, log_and, lparen, rparen,
  lbrace, rbrace, lbracket, rbracket,
}
use seron.Scan.{Scanned, value_size, tokenize_single, tokenize_double, is_digit, is_ident_head}
use seron.Scan.Consumes.{
  Reads, tokenize_single-Reads, tokenize_double-Reads, tokenize_string-Reads, tokenize_char-Reads,
  tokenize_number-Reads, tokenize_ident-Reads,
}
use seron.Lexer.{Lexer, tokenize, tokenize_long, tokenize_default, next_at, lexer_next}
use seron.Lexer.Gaps.{Gap, skip-Skips}

tokenize_default-Reads : (p c : ℕ) (cs : Bytes) → Reads p c cs (tokenize_default (fresh p) c cs)
unfolding tokenize_default
tokenize_default-Reads p c cs =
    Ensures-if (is_digit c) (tokenize_number-Reads p c cs)
      (Ensures-if (is_ident_head c) (tokenize_ident-Reads p c cs) exits)

module _ (p c : ℕ) (cs : Bytes) where
  -- One case of the `switch` in front of the others.
  or_single :
      (b : Bool) (kind : TokenKind) {others : Scanned}
      → 2 < ordinal kind
      → Reads p c cs others
      → Reads p c cs (if b then tokenize_single (fresh p) kind cs else others)
  or_single b kind h k = Ensures-if b (tokenize_single-Reads p c cs kind h) k

  or_double :
      (b : Bool) (first : TokenKind) (cond : ℕ) (second : TokenKind) {others : Scanned}
      → 2 < ordinal first
      → 2 < ordinal second
      → Reads p c cs others
      → Reads p c cs (if b then tokenize_double (fresh p) first cond second cs else others)
  or_double b first cond second h₁ h₂ k =
      Ensures-if b (tokenize_double-Reads p c cs first cond second h₁ h₂) k

  tokenize_long-Reads : Reads p c cs (tokenize_long (fresh p) c cs)
  unfolding tokenize_long
  tokenize_long-Reads = or_double _ lt _ lt_eq (omega arith) (omega arith) (
      or_double _ gt _ gt_eq (omega arith) (omega arith) (
        or_double _ bang _ neq (omega arith) (omega arith) (
          or_double _ assign _ eq (omega arith) (omega arith) (
            or_double _ pipe _ log_or (omega arith) (omega arith) (
              or_double _ ampersand _ log_and (omega arith) (omega arith) (
                Ensures-if (c == b'\'') (tokenize_char-Reads p c cs) (
                  Ensures-if (c == b'"') (tokenize_string-Reads p c cs)
                    (tokenize_default-Reads p c cs))))))))

  tokenize-Reads : Reads p c cs (tokenize (fresh p) c cs)
  unfolding tokenize
  tokenize-Reads = or_single _ plus (omega arith) (
      or_single _ minus (omega arith) (
        or_single _ asterisk (omega arith) (
          or_single _ slash (omega arith) (
            or_single _ lparen (omega arith) (
              or_single _ rparen (omega arith) (
                or_single _ lbrace (omega arith) (
                  or_single _ rbrace (omega arith) (
                    or_single _ lbracket (omega arith) (
                      or_single _ rbracket (omega arith) (
                        or_single _ semicolon (omega arith) (
                          or_single _ comma (omega arith)
                            (or_single _ colon (omega arith) (tokenize_long-Reads)))))))))))))

-- A token that is not the end: its text stands at the front of `s`, of the token's length.
pub record IsRead (s : Bytes) (p : ℕ) (tok : Token) (lex' : Lexer) : Type 0 where
  pub text : Bytes
  pub splits : s ≡ text ++ lex'.src
  pub measured : length text ≡ tok.len
  pub nonempty : 0 < tok.len
  pub real : 2 < ordinal tok.kind
  pub number-lt : tok.number < 2 ^ 63
  pub value-le : length tok.value ≤ value_size
  pub position : lex'.position ≡ p + tok.len

-- The end of the source.
pub record IsEnd (s : Bytes) (tok : Token) (lex' : Lexer) : Type 0 where
  pub kind : tok.kind ≡ eof
  pub exhausted : s ≡ []
  pub src : lex'.src ≡ []

pub record Steps (lex : Lexer) (r : Token × Lexer) : Type 0 where
  pub gap : Bytes
  pub blanks : ℕ
  pub gap-Gap : Gap blanks gap
  pub rest : Bytes
  pub splits : lex.src ≡ gap ++ rest
  pub position : r.0.position ≡ lex.position + blanks
  pub reads : IsRead rest (lex.position + blanks) r.0 r.1 ⊎ IsEnd rest r.0 r.1

abbrev At : Bytes → ℕ → Token × Lexer → Type 0
At s p r = (r.0.position ≡ p) × (IsRead s p r.0 r.1 ⊎ IsEnd s r.0 r.1)

next_at-At : (s : Bytes) (p : ℕ) → Ensures (At s p) (next_at s p)
unfolding next_at
next_at-At [] p = returns (refl, inr (record { kind = refl; exhausted = refl; src = refl }))
next_at-At (c ∷ cs) p = Ensures-bind (tokenize-Reads p c cs) λ r h. returns (
  h.placed,
  inl (record {
    text = h.text;
    splits = h.splits;
    measured = h.measured;
    nonempty = h.nonempty;
    real = h.real;
    number-lt = h.number-lt;
    value-le = h.value-le;
    position = refl;
  }),
)

pub lexer_next-Ensures : (lex : Lexer) → Ensures (Steps lex) (lexer_next lex)
unfolding lexer_next
lexer_next-Ensures lex = Ensures-bind (skip-Skips lex.src lex.position) λ at k.
    Ensures-map (next_at-At at.src at.position) λ r h. record {
      gap = k.gap;
      blanks = k.blanks;
      gap-Gap = k.gap-Gap;
      rest = at.src;
      splits = k.splits;
      position = h.0 ∙ k.position;
      reads = rw k.position at h.1;
    }

-- Whatever `lexer_next` returns, it has passed over a gap of blanks and comments and then either
-- read a non-empty text, whose length is the token's and by which the position has moved on, or
-- met the end of the source. The token starts behind the blanks of the gap: comments do not count.
pub lexer_next-Steps : (lex : Lexer) {r : Token × Lexer} → lexer_next lex ≡ done r → Steps lex r
lexer_next-Steps lex e = Ensures-done (lexer_next-Ensures lex) e
