-- ===== src/Scan/Spans.antt =====
-- What `span`, `until_quote`, `literal_suffix` and `match_kw` find at the front of a text.
use seron.Prelude.{
  ℕ, ◌≡◌, refl, Bool, true, false, [], ◌∷◌, ◌++◌, Bytes, arith, Bool-cases, inl, inr,
}
use seron.Scan.{span, literal_suffix}

-- Every byte passes the test.
abbrev pub All : (ℕ → Bool) → Bytes → Type 0
All p [] = Unit
All p (c ∷ cs) = (p c ≡ true) × All p cs

-- The first byte, if there is one, fails the test.
abbrev pub Stops : (ℕ → Bool) → Bytes → Type 0
Stops p [] = Unit
Stops p (c ∷ cs) = p c ≡ false

pub append-span : (p : ℕ → Bool) (s : Bytes) → s ≡ (span p s).0 ++ (span p s).1
unfolding span
append-span p [] = refl
append-span p (c ∷ cs) = ground (arith, append-span p cs)

pub span-All : (p : ℕ → Bool) (s : Bytes) → All p (span p s).0
unfolding span
span-All p [] = tt
span-All p (c ∷ cs) = elim (Bool-cases (p c)) [ inl e ↦ rw e (e, span-All p cs) | inr e ↦ rw e tt ]

pub All-front : (p : ℕ → Bool) (xs ys : Bytes) → All p (xs ++ ys) → All p xs
All-front p [] ys h = tt
All-front p (x ∷ xs) ys (h, hs) = (h, All-front p xs ys hs)

pub All-append : (p : ℕ → Bool) (xs ys : Bytes) → All p xs → All p ys → All p (xs ++ ys)
All-append p [] ys h k = k
All-append p (x ∷ xs) ys (h, hs) k = (h, All-append p xs ys hs k)

-- `span` finds a text that passes the test and stops behind it.
pub span-append :
    (p : ℕ → Bool) (text rest : Bytes)
    → All p text
    → Stops p rest
    → span p (text ++ rest) ≡ (text, rest)
unfolding span
span-append p [] [] a h = refl
span-append p [] (c ∷ rest) a h = rw h
span-append p (c ∷ text) rest (a, as') h = rw (a, span-append p text rest as' h)

pub append-literal_suffix : (s : Bytes) → s ≡ (literal_suffix s).1 ++ (literal_suffix s).2
unfolding literal_suffix
append-literal_suffix [] = refl
append-literal_suffix (c ∷ cs) = ground arith
