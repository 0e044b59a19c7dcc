-- ===== src/Location.antt =====
-- `get_token_location` of seronc/lexer.c: the line and column that a diagnostic shows.
use seron.Prelude.{
  ℕ, zero, suc, ◌+◌, ◌≡◌, refl, ap, sym, not, ◌⊎◌, inl, inr, Bool-cases, append-nil, append_assoc,
  Bool, [], ◌∷◌, ◌++◌, Bytes, ◌==◌, if◌then◌else◌, length, length-append, take, arith,
}
use seron.Token.{Token}
use seron.Scan.Spans.{All, All-append}

pub record TokenLocation : Type 0 where
  pub line : ℕ
  pub column : ℕ
  pub start : ℕ

-- The loop at index `i`, with `position - i` rounds left before the `break`; the list is what the
-- source has from `i` on.
unfoldable pub locate : ℕ → ℕ → Bytes → TokenLocation → TokenLocation
locate zero i src loc = loc
locate (suc rounds) i [] loc = loc
locate (suc rounds) i (c ∷ src) loc = locate rounds (i + 1) src (
    if c == b'\n'
    then record { line = loc.line + 1; column = 1; start = i + 1 }
    else record loc { column = loc.column + 1 })

unfoldable pub get_token_location : Token → Bytes → TokenLocation
get_token_location tok src = locate tok.position 0 src (record { line = 1; column = 1; start = 0 })

-- How often the byte stands in the text.
unfoldable pub count : ℕ → Bytes → ℕ
count b [] = 0
count b (c ∷ cs) = (if c == b then 1 else 0) + count b cs

-- No newline in the text.
abbrev pub in_line : ℕ → Bool
in_line c = not (c == b'\n')

-- `loc` is the place behind the text `before`: the lines that it closes, and its last line.
pub record Locates (before : Bytes) (loc : TokenLocation) : Type 0 where
  pub lines : Bytes
  pub last : Bytes
  pub splits : before ≡ lines ++ last
  pub closed : (lines ≡ []) ⊎ ((earlier : Bytes) × (lines ≡ earlier ++ b'\n' ∷ []))
  pub last-All : All in_line last
  pub start : loc.start ≡ length lines
  pub column : loc.column ≡ length last + 1
  pub line : loc.line ≡ count b'\n' before + 1

abbrev advance : ℕ → ℕ → TokenLocation → TokenLocation
advance i c loc =
    if c == b'\n'
    then record { line = loc.line + 1; column = 1; start = i + 1 }
    else record loc { column = loc.column + 1 }

pub count-append : (b : ℕ) (xs ys : Bytes) → count b (xs ++ ys) ≡ count b xs + count b ys
unfolding count
count-append b [] ys = omega arith
count-append b (x ∷ xs) ys = omega (arith, count-append b xs ys)

advance-Locates :
    {before : Bytes} {loc : TokenLocation} (c : ℕ)
    → Locates before loc
    → Locates (before ++ c ∷ []) (advance (length before) c loc)
unfolding count
advance-Locates {before} {loc} c h = elim (Bool-cases (c == b'\n')) [
  | inl e ↦ rw e (record {
    lines = before ++ c ∷ [];
    last = [];
    splits = sym (append-nil (before ++ c ∷ []));
    closed = inr (before, ap (λ d. before ++ d ∷ []) (ground arith));
    last-All = tt;
    start = sym (length-append before (c ∷ []));
    column = omega arith;
    line = rw count-append (ground (arith, h.line));
  })
  | inr e ↦ rw e (record {
    lines = h.lines;
    last = h.last ++ c ∷ [];
    splits = rw (← append_assoc) (ap (λ t. t ++ c ∷ []) h.splits);
    closed = h.closed;
    last-All = All-append in_line h.last (c ∷ []) h.last-All (rw e refl, tt);
    start = h.start;
    column = omega (arith, length-append {0} h.last (c ∷ []), h.column);
    line = rw count-append (ground (arith, h.line));
  })
]

locate-Locates :
    (rounds : ℕ) (src : Bytes) {before : Bytes} {loc : TokenLocation}
    → Locates before loc
    → Locates (before ++ take rounds src) (locate rounds (length before) src loc)
unfolding locate
locate-Locates zero src {before} h = rw append-nil h
locate-Locates (suc rounds) [] {before} h = rw append-nil h
locate-Locates (suc rounds) (c ∷ src) {before} {loc} h =
    let ih = locate-Locates rounds src (advance-Locates c h) in
    rw append_assoc at (rw (length-append before (c ∷ [])) at ih)

-- The line is one more than the newlines in front of the token, `start` is the index at which its
-- line begins, and the column is one more than the bytes of that line in front of it. A position
-- behind the source is taken for its end.
pub get_token_location-Locates :
    (tok : Token) (src : Bytes) → Locates (take tok.position src) (get_token_location tok src)
unfolding get_token_location
get_token_location-Locates tok src = locate-Locates tok.position src {before = []} (record {
  lines = [];
  last = [];
  splits = refl;
  closed = inl refl;
  last-All = tt;
  start = refl;
  column = omega arith;
  line = unfold count in refl;
})
