-- ===== src/Lexer/Gaps.antt =====
-- What `lexer_next` passes over before a token: blanks, and comments up to their newline.
use seron.Prelude.{
  ℕ, zero, suc, ◌+◌, ◌≡◌, refl, ap, sym, ◌∙◌, Bool, true, false, not, [], ◌∷◌, ◌++◌, Bytes, arith,
  ◌==◌, Bool-cases, inl, inr, append_assoc,
}
use seron.Outcome.{undefined, overrun, Ensures, returns, faults, Ensures-map}
use seron.Scan.Spans.{All}
use seron.Lexer.{Lexer, is_blank, skip, lexer_next}

abbrev pub in_line : ℕ → Bool
in_line c = not (c == b'\n')

-- `Gap n s`: `s` is made of `n` blanks and of comments, each closed by a newline.
pub data Gap : ℕ → Bytes → Type 0 where
  none : Gap zero []
  blank : {n : ℕ} {s : Bytes} {c : ℕ} → is_blank c ≡ true → Gap n s → Gap (suc n) (c ∷ s)
  comment :
      {n : ℕ} {s : Bytes} (body : Bytes)
      → All in_line body
      → Gap n s
      → Gap n (b'#' ∷ (body ++ b'\n' ∷ s))

skip-comment :
    (body s : Bytes) (p : ℕ) → All in_line body → skip true (body ++ b'\n' ∷ s) p ≡ skip false s p
unfolding skip
skip-comment [] s p h = refl
skip-comment (c ∷ body) s p (h, hs) = rw (h, skip) (skip-comment body s p hs)

-- A gap is passed over, and only its blanks move the position.
pub skip-Gap :
    {n : ℕ} {gap : Bytes} (s : Bytes) (p : ℕ)
    → Gap n gap
    → skip false (gap ++ s) p ≡ skip false s (p + n)
unfolding skip
skip-Gap s p none = ap (skip false s) (omega arith)
skip-Gap s p (blank {n} {s = g} h gap) =
    rw h (skip-Gap s (p + 1) gap ∙ ap (skip false s) (omega arith))
skip-Gap s p (comment {n} {s = g} body h gap) =
    rw append_assoc (skip-comment body (g ++ s) p h ∙ skip-Gap s p gap)

skip-open : (body : Bytes) (p : ℕ) → All in_line body → skip true body p ≡ undefined overrun
unfolding skip
skip-open [] p h = refl
skip-open (c ∷ body) p (h, hs) = rw (h, skip) (skip-open body p hs)

-- A comment behind a gap that the source ends in, with no newline behind it, is read past the
-- terminator.
pub lexer_next-open_comment :
    {n : ℕ} {gap : Bytes} (body : Bytes) (p : ℕ)
    → Gap n gap
    → All in_line body
    → lexer_next (record { src = gap ++ b'#' ∷ body; position = p }) ≡ undefined overrun
unfolding lexer_next skip
lexer_next-open_comment {n} body p gap h =
    rw (skip-Gap (b'#' ∷ body) p gap) (rw (skip-open body (p + n) h))

-- Where `skip` stops: a gap in front of the rest, the position moved by the gap's blanks.
pub record Skips (s : Bytes) (p : ℕ) (at : Lexer) : Type 0 where
  pub gap : Bytes
  pub blanks : ℕ
  pub gap-Gap : Gap blanks gap
  pub splits : s ≡ gap ++ at.src
  pub position : at.position ≡ p + blanks

-- Inside a comment: the rest of its line, and then a gap.
pub record Ends (s : Bytes) (p : ℕ) (at : Lexer) : Type 0 where
  pub body : Bytes
  pub body-All : All in_line body
  pub rest : Bytes
  pub splits : s ≡ body ++ b'\n' ∷ rest
  pub skips : Skips rest p at

Skips-blank :
    {c : ℕ} {s : Bytes} {p : ℕ} {at : Lexer}
    → is_blank c ≡ true
    → Skips s (p + 1) at
    → Skips (c ∷ s) p at
Skips-blank {c} h k = record {
  gap = c ∷ k.gap;
  blanks = suc k.blanks;
  gap-Gap = blank h k.gap-Gap;
  splits = ap (◌∷◌ c) k.splits;
  position = omega (arith, k.position);
}

Skips-comment :
    {c : ℕ} {s : Bytes} {p : ℕ} {at : Lexer} → (c == b'#') ≡ true → Ends s p at → Skips (c ∷ s) p at
Skips-comment {c} {s} {at} h e = record {
  gap = b'#' ∷ (e.body ++ b'\n' ∷ e.skips.gap);
  blanks = e.skips.blanks;
  gap-Gap = comment e.body e.body-All e.skips.gap-Gap;
  splits =
      ap (λ (d : ℕ). d ∷ s) (ground arith)
      ∙ ap (◌∷◌ b'#') (
          e.splits
          ∙ ap (λ r. e.body ++ b'\n' ∷ r) e.skips.splits
          ∙ sym (append_assoc e.body (b'\n' ∷ e.skips.gap) at.src));
  position = e.skips.position;
}

Ends-cons :
    {c : ℕ} {s : Bytes} {p : ℕ} {at : Lexer} → in_line c ≡ true → Ends s p at → Ends (c ∷ s) p at
Ends-cons {c} h e = record {
  body = c ∷ e.body;
  body-All = (h, e.body-All);
  rest = e.rest;
  splits = ap (◌∷◌ c) e.splits;
  skips = e.skips;
}

Ends-newline :
    {c : ℕ} {s : Bytes} {p : ℕ} {at : Lexer} → in_line c ≡ false → Skips s p at → Ends (c ∷ s) p at
Ends-newline {c} {s} h k = record {
  body = [];
  body-All = tt;
  rest = s;
  splits = ap (λ (d : ℕ). d ∷ s) (ground arith);
  skips = k;
}

mutual
  unfolding skip

  skip_gap : (s : Bytes) (p : ℕ) → Ensures (Skips s p) (skip false s p)
  skip_gap [] p =
      returns
        (record { gap = []; blanks = 0; gap-Gap = none; splits = refl; position = omega arith })
  skip_gap (c ∷ cs) p = elim (Bool-cases (is_blank c)) [
    | inl e ↦ rw e (Ensures-map (skip_gap cs (p + 1)) λ at. Skips-blank e)
    | inr e ↦ rw e (elim (Bool-cases (c == b'#')) [
      | inl h ↦ rw h (Ensures-map (skip_comment cs p) λ at. Skips-comment h)
      | inr h ↦ rw h (
          returns (record {
            gap = [];
            blanks = 0;
            gap-Gap = none;
            splits = refl;
            position = omega arith;
          }))
    ])
  ]

  skip_comment : (s : Bytes) (p : ℕ) → Ensures (Ends s p) (skip true s p)
  skip_comment [] p = faults
  skip_comment (c ∷ cs) p = elim (Bool-cases (in_line c)) [
    | inl e ↦ rw (e, skip) (Ensures-map (skip_comment cs p) λ at. Ends-cons e)
    | inr e ↦ rw (e, skip) (Ensures-map (skip_gap cs p) λ at. Ends-newline e)
  ]

-- Where `skip` returns, it has passed over a gap.
pub skip-Skips : (s : Bytes) (p : ℕ) → Ensures (Skips s p) (skip false s p)
skip-Skips = skip_gap
