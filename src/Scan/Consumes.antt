-- ===== src/Scan/Consumes.antt =====
-- What each `tokenize_` function reads: a text of the token's length at the front of the source.
use Prim.Native.Nat.{min}
use seron.Prelude.{
  ℕ, ◌+◌, ◌^◌, ◌<◌, ◌≤◌, ◌≡◌, refl, ap, ◌∙◌, List, [], ◌∷◌, ◌++◌, some, Bytes, arith, length,
  length-append, length-take-le, ◌==◌, Bool-cases, Option-cases, inl, inr, ltb, leb, append_assoc,
}
use seron.Outcome.{Ensures, returns, exits, faults, Ensures-if, Ensures-bind}
use seron.Token.{Token, TokenKind, ordinal, fresh, literal_ident, same_kind}
use seron.Scan.{
  Scanned, value_size, span, is_digit, is_ident_tail, until_quote, literal_suffix, read_number,
  atoll, decimal, keywords, first_match, get_keyword, tokenize_string, tokenize_char,
  tokenize_number, tokenize_ident, tokenize_single, tokenize_double,
}
use seron.Scan.Spans.{append-span, append-literal_suffix}

-- `r` is a token begun at `position`, and what is left of `s` behind its text.
pub record Scans (position : ℕ) (s : Bytes) (r : Token × Bytes) : Type 0 where
  pub text : Bytes
  pub splits : s ≡ text ++ r.1
  pub measured : length text ≡ r.0.len
  pub nonempty : 0 < r.0.len
  pub placed : r.0.position ≡ position
  pub real : 2 < ordinal r.0.kind
  pub number-lt : r.0.number < 2 ^ 63
  pub value-le : length r.0.value ≤ value_size

abbrev pub Reads : ℕ → ℕ → Bytes → Scanned → Type 0
Reads p c cs = Ensures (Scans p (c ∷ cs))

pub tokenize_single-Reads :
    (p c : ℕ) (cs : Bytes) (kind : TokenKind)
    → 2 < ordinal kind
    → Reads p c cs (tokenize_single (fresh p) kind cs)
unfolding tokenize_single
tokenize_single-Reads p c cs kind h = returns (record {
  text = c ∷ [];
  splits = refl;
  measured = refl;
  nonempty = omega arith;
  placed = refl;
  real = h;
  number-lt = omega arith;
  value-le = omega arith;
})

pub tokenize_double-Reads :
    (p c : ℕ) (cs : Bytes) (first : TokenKind) (cond : ℕ) (second : TokenKind)
    → 2 < ordinal first
    → 2 < ordinal second
    → Reads p c cs (tokenize_double (fresh p) first cond second cs)
unfolding tokenize_double tokenize_single
tokenize_double-Reads p c [] first cond second h k = tokenize_single-Reads p c [] first h
tokenize_double-Reads p c (d ∷ cs) first cond second h k =
    Ensures-if (d == cond)
      (returns (record {
        text = c ∷ d ∷ [];
        splits = refl;
        measured = refl;
        nonempty = omega arith;
        placed = refl;
        real = k;
        number-lt = omega arith;
        value-le = omega arith;
      }))
      (tokenize_single-Reads p c (d ∷ cs) first h)

pub until_quote-splits :
    (s : Bytes) {text after : Bytes} → until_quote s ≡ some (text, after) → s ≡ text ++ b'"' ∷ after
unfolding until_quote
until_quote-splits [] e = cc
until_quote-splits (c ∷ cs) e = elim (Option-cases (until_quote cs)) [
  | inl n ↦ ground arith
  | inr ((t, a), m) ↦ ground (arith, until_quote-splits cs m)
]

pub tokenize_string-Reads : (p c : ℕ) (cs : Bytes) → Reads p c cs (tokenize_string (fresh p) cs)
unfolding tokenize_string
tokenize_string-Reads p c cs = elim (Option-cases (until_quote cs)) [
  | inl n ↦ rw (n, tokenize_string) exits
  | inr ((t, a), m) ↦
      rw (m, tokenize_string)
        (returns (record {
          text = c ∷ (t ++ b'"' ∷ []);
          splits = rw append_assoc (ap (◌∷◌ c) (until_quote-splits cs m));
          measured = omega (arith, length-append {0} t (b'"' ∷ []));
          nonempty = omega arith;
          placed = refl;
          real = omega arith;
          number-lt = omega arith;
          value-le = omega (arith, length-take-le (min (length t) value_size) t);
        }))
]

pub tokenize_char-Reads : (p c : ℕ) (cs : Bytes) → Reads p c cs (tokenize_char (fresh p) cs)
unfolding tokenize_char
tokenize_char-Reads p c [] = faults
tokenize_char-Reads p c (d ∷ []) = Ensures-if (leb 128 d) exits exits
tokenize_char-Reads p c (d ∷ e ∷ cs) = elim (Bool-cases (leb 128 d)) [
  | inl n ↦ rw n exits
  | inr n ↦ rw n (
      Ensures-if (e == b'\'')
        (returns (record {
          text = c ∷ d ∷ e ∷ [];
          splits = refl;
          measured = refl;
          nonempty = omega arith;
          placed = refl;
          real = omega arith;
          number-lt = ground arith;
          value-le = omega arith;
        }))
        exits)
]

decimal_fits : (digits : Bytes) → Ensures (λ n. n < 2 ^ 63) (atoll digits)
unfolding atoll
decimal_fits digits = elim (Bool-cases (ltb (decimal 0 digits) (2 ^ 63))) [
  | inl e ↦ rw e (returns (ground arith))
  | inr e ↦ rw e faults
]

read_number_fits : (digits suffix : Bytes) → Ensures (λ n. n < 2 ^ 63) (read_number digits suffix)
unfolding read_number
read_number_fits digits suffix = Ensures-if (length digits == 64) faults (decimal_fits digits)

pub tokenize_number-Reads : (p c : ℕ) (cs : Bytes) → Reads p c cs (tokenize_number (fresh p) c cs)
unfolding tokenize_number
tokenize_number-Reads p c cs =
    let (digits, after) = span is_digit cs in
    let (number_type, suffix, rest) = literal_suffix after in
    Ensures-if (ltb 64 (length (c ∷ digits) + length suffix)) exits (
      Ensures-bind (read_number_fits (c ∷ digits) suffix) λ n h. returns (record {
        text = c ∷ (digits ++ suffix);
        splits =
            rw append_assoc (
              ap (◌∷◌ c)
                (append-span is_digit cs ∙ ap (◌++◌ digits) (append-literal_suffix after)));
        measured = omega (arith, length-append {0} digits suffix);
        nonempty = omega arith;
        placed = refl;
        real = omega arith;
        number-lt = h;
        value-le = omega arith;
      }))

abbrev AreReal : List (Bytes × TokenKind) → Type 0
AreReal [] = Unit
AreReal ((kw, kind) ∷ rows) = (2 < ordinal kind) × AreReal rows

first_match_real :
    (rows : List (Bytes × TokenKind)) (str : Bytes)
    → AreReal rows
    → 2 < ordinal (first_match rows str)
unfolding first_match
first_match_real [] str h = omega arith
first_match_real ((kw, kind) ∷ rows) str (h, hs) = ground (arith, first_match_real rows str hs)

pub get_keyword_real : (str : Bytes) → 2 < ordinal (get_keyword str)
unfolding get_keyword
get_keyword_real str = first_match_real keywords str (omega arith)

pub tokenize_ident-Reads : (p c : ℕ) (cs : Bytes) → Reads p c cs (tokenize_ident (fresh p) c cs)
unfolding tokenize_ident
tokenize_ident-Reads p c cs =
    let (tail, after) = span is_ident_tail cs in
    elim (Bool-cases (ltb 64 (length (c ∷ tail)))) [
      | inl e ↦ rw e exits
      | inr e ↦ rw e (
          Ensures-if (same_kind (get_keyword (c ∷ cs)) literal_ident)
            (returns (record {
              text = c ∷ tail;
              splits = ap (◌∷◌ c) (append-span is_ident_tail cs);
              measured = refl;
              nonempty = omega arith;
              placed = refl;
              real = get_keyword_real (c ∷ cs);
              number-lt = omega arith;
              value-le = ground arith;
            }))
            (returns (record {
              text = c ∷ tail;
              splits = ap (◌∷◌ c) (append-span is_ident_tail cs);
              measured = refl;
              nonempty = omega arith;
              placed = refl;
              real = get_keyword_real (c ∷ cs);
              number-lt = omega arith;
              value-le = omega arith;
            })))
    ]
