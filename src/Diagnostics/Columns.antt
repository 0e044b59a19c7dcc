-- ===== src/Diagnostics/Columns.antt =====
-- Where `get_token_location` of seronc/lexer.c places a token of a line.
use seron.Prelude.{
  ℕ, zero, suc, ◌+◌, ◌==◌, ◌≡◌, ◌⊎◌, inl, inr, refl, ap, sym, ◌∙◌, false, [], ◌∷◌, ◌++◌, Bytes,
  length, length-append, append_assoc, arith, if◌then◌else◌, Bool-cases,
}
use seron.Token.{Token}
use seron.Location.{TokenLocation, locate, get_token_location, count, count-append, in_line}
use seron.Scan.Spans.{All}

abbrev stepped : ℕ → ℕ → TokenLocation → TokenLocation
stepped i c loc =
    if c == b'\n'
    then record { line = loc.line + 1; column = 1; start = i + 1 }
    else record loc { column = loc.column + 1 }

-- What the loop makes of a text.
walked : ℕ → Bytes → TokenLocation → TokenLocation
walked i [] loc = loc
walked i (c ∷ cs) loc = walked (i + 1) cs (stepped i c loc)

locate-walked :
    (rounds i : ℕ) (xs ys : Bytes) (loc : TokenLocation)
    → rounds ≡ length xs
    → locate rounds i (xs ++ ys) loc ≡ walked i xs loc
unfolding locate walked
locate-walked zero i [] ys loc h = refl
locate-walked zero i (c ∷ xs) ys loc h = absurd (omega (arith, h))
locate-walked (suc rounds) i [] ys loc h = absurd (omega (arith, h))
locate-walked (suc rounds) i (c ∷ xs) ys loc h =
    locate-walked rounds (i + 1) xs ys _ (omega (arith, h))

walked-append :
    (i : ℕ) (xs ys : Bytes) (loc : TokenLocation)
    → walked i (xs ++ ys) loc ≡ walked (i + length xs) ys (walked i xs loc)
unfolding walked
walked-append i [] ys loc = ap (λ n. walked n ys loc) (omega arith)
walked-append i (c ∷ xs) ys loc =
    walked-append (i + 1) xs ys (stepped i c loc)
    ∙ ap (λ n. walked n ys (walked (i + 1) xs (stepped i c loc))) (omega arith)

walked-line :
    (i : ℕ) (xs : Bytes) (loc : TokenLocation) → (walked i xs loc).line ≡ loc.line + count b'\n' xs
unfolding walked count
walked-line i [] loc = omega arith
walked-line i (c ∷ xs) loc = elim (Bool-cases (c == b'\n')) [
  | inl e ↦
      (let ih =
          walked-line (i + 1) xs (record { line = loc.line + 1; column = 1; start = i + 1 }) in
        rw (walked, e, ih) (omega arith))
  | inr e ↦
      (let ih = walked-line (i + 1) xs (record loc { column = loc.column + 1 }) in
        rw (walked, e, ih) (omega arith))
]

-- A text without a newline.
walked-open :
    (i : ℕ) (xs : Bytes) (loc : TokenLocation)
    → All in_line xs
    → walked i xs loc ≡ record loc { column = loc.column + length xs }
unfolding walked
walked-open i [] loc h = ap (λ n. record loc { column = n }) (omega arith)
walked-open i (c ∷ xs) loc (h, hs) =
    let e : (c == b'\n') ≡ false = ground (arith, h) in
    rw (e, walked-open (i + 1) xs (record loc { column = loc.column + 1 }) hs)
      (ap (λ n. record loc { column = n }) (omega arith))

-- Lines that are closed by their newlines, or none.
abbrev pub Closed : Bytes → Type 0
Closed before = (before ≡ []) ⊎ ((earlier : Bytes) × (before ≡ earlier ++ b'\n' ∷ []))

abbrev origin : TokenLocation
origin = record { line = 1; column = 1; start = 0 }

walked-Closed :
    (before : Bytes)
    → Closed before
    → walked 0 before origin
      ≡ record { line = count b'\n' before + 1; column = 1; start = length before }
unfolding walked count
walked-Closed before (inl e) = rw (e, walked, count) refl
walked-Closed before (inr (earlier, e)) =
    rw (e, walked-append)
      (ap (λ n. record { line = n; column = 1; start = 0 + length earlier + 1 })
          (omega (arith, walked-line 0 earlier origin, count-append b'\n' earlier (b'\n' ∷ [])))
        ∙ ap (λ n. record { line = count b'\n' (earlier ++ b'\n' ∷ []) + 1; column = 1; start = n })
            (omega (arith, length-append earlier (b'\n' ∷ []))))

-- A token behind some text of its line, which closed lines stand in front of.
pub get_token_location-in_line :
    (tok : Token) (before pre rest : Bytes)
    → Closed before
    → All in_line pre
    → tok.position ≡ length before + length pre
    → get_token_location tok (before ++ (pre ++ rest))
      ≡ record { line = count b'\n' before + 1; column = length pre + 1; start = length before }
unfolding get_token_location
get_token_location-in_line tok before pre rest closed h p =
    ap (λ src. locate tok.position 0 src origin) (sym (append_assoc before pre rest))
    ∙ locate-walked tok.position 0 (before ++ pre) rest origin
        (omega (arith, p, length-append before pre))
    ∙ walked-append 0 before pre origin
    ∙ ap (walked (0 + length before) pre) (walked-Closed before closed)
    ∙ walked-open _ pre _ h
    ∙ ap (λ n. record { line = count b'\n' before + 1; column = n; start = length before })
        (omega arith)
