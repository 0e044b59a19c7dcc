-- ===== src/Lexer/Front.antt =====
-- `lexer_next` behind a gap, in front of a byte that begins a token.
use seron.Prelude.{ℕ, ◌+◌, ◌≡◌, ◌∙◌, ◌||◌, false, ◌∷◌, ◌++◌, Bytes, ◌==◌, arith}
use seron.Outcome.{Outcome, done, ◌>>=◌}
use seron.Token.{Token, fresh}
use seron.Scan.{Scanned}
use seron.Lexer.{Lexer, is_blank, skip, tokenize, next_at, lexer_next}
use seron.Lexer.Gaps.{Gap, skip-Gap}

abbrev pub lexer : Bytes → ℕ → Lexer
lexer src position = record { src = src; position = position }

-- The byte begins neither a gap nor a comment.
abbrev pub IsFront : ℕ → Type 0
IsFront c = (is_blank c || c == b'#') ≡ false

-- The token that a scan of the source from position `p` ends with.
abbrev pub advance : ℕ → Scanned → Outcome (Token × Lexer)
advance p scanned = do
  (tok, rest) ← scanned
  done (tok, record { src = rest; position = p + tok.len })

lexer_next_skip :
    {n : ℕ} {gap : Bytes} (s : Bytes) (p : ℕ)
    → Gap n gap
    → lexer_next (lexer (gap ++ s) p) ≡ lexer_next (lexer s (p + n))
unfolding lexer_next
lexer_next_skip s p gap = rw (skip-Gap s p gap)

skip_front :
    (c : ℕ) (cs : Bytes) (p : ℕ) → IsFront c → skip false (c ∷ cs) p ≡ done (lexer (c ∷ cs) p)
unfolding skip
skip_front c cs p h = ground arith

lexer_next_front :
    (c : ℕ) (cs : Bytes) (p : ℕ)
    → IsFront c
    → lexer_next (lexer (c ∷ cs) p) ≡ advance p (tokenize (fresh p) c cs)
unfolding lexer_next next_at
lexer_next_front c cs p h = rw (skip_front c cs p h)

-- Behind a gap of `n` blanks the token is scanned at a position moved on by `n`.
pub lexer_next-Gap :
    {n : ℕ} {gap : Bytes} (c : ℕ) (cs : Bytes) (p : ℕ)
    → Gap n gap
    → IsFront c
    → lexer_next (lexer (gap ++ c ∷ cs) p) ≡ advance (p + n) (tokenize (fresh (p + n)) c cs)
lexer_next-Gap {n} c cs p gap h = lexer_next_skip (c ∷ cs) p gap ∙ lexer_next_front c cs (p + n) h
