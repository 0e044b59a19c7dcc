-- ===== src/Diagnostics/Shown.antt =====
-- What seronc/diagnostics.c prints around a line, and of its bytes.
use seron.Prelude.{
  ◌^◌, ◌⊎◌, inl, inr, sym, codes, take, ℕ, ◌+◌, ◌≤◌, ◌<◌, ◌≡◌, refl, ap, ◌∙◌, true, false, [], ◌∷◌,
  ◌++◌, append_assoc, Bytes, length, arith,
}
use seron.Token.{Token}
use seron.Asm.Text.{percent_d}
use seron.Diagnostics.{
  in_token, carets, location_text, print_diag_header, print_diag_tag, DiagnosticKind, shown,
  print_head,
}

-- The bytes of a line from an index on, each in color if it belongs to the token.
unfoldable pub shown_line : Token → ℕ → Bytes → Bytes
shown_line tok idx [] = []
shown_line tok idx (c ∷ line) = shown tok idx c ++ shown_line tok (idx + 1) line

-- How the terminal shows things: the names of the kinds in bold colors, the bytes of a token in bold red,
-- and a red mark.
abbrev tagged : DiagnosticKind → Bytes
tagged DiagnosticKind.info =
    27 ∷ codes "[1m" ++ (27 ∷ codes "[34m" ++ (codes "INFO" ++ 27 ∷ codes "[0m"))
tagged DiagnosticKind.warning =
    27 ∷ codes "[1m" ++ (27 ∷ codes "[33m" ++ (codes "WARNING" ++ 27 ∷ codes "[0m"))
tagged DiagnosticKind.error =
    27 ∷ codes "[1m" ++ (27 ∷ codes "[31m" ++ (codes "ERROR" ++ 27 ∷ codes "[0m"))

abbrev pub painted : Bytes → Bytes
painted [] = []
painted (c ∷ text) =
    (27 ∷ codes "[1m" ++ (27 ∷ codes "[31m" ++ (c ∷ 27 ∷ codes "[0m"))) ++ painted text

abbrev pub marks : Bytes → Bytes
marks [] = []
marks (c ∷ text) = (27 ∷ codes "[31m^" ++ 27 ∷ codes "[0m") ++ marks text

-- The head of a diagnostic at a line and a column.
abbrev pub headed : DiagnosticKind → Bytes → Bytes → ℕ → ℕ → Bytes
headed kind filename message line column =
    (codes "---" ++ (tagged kind ++ codes "---\n"))
    ++ (codes "Cause: "
        ++ (message
            ++ (codes "\nLocation: "
                ++ (take 254 (
                      filename
                      ++ (codes ":" ++ (percent_d line ++ (codes ":" ++ percent_d column))))
                    ++ codes "\n\n"))))

pub headed-print_head :
    (kind : DiagnosticKind) (filename message : Bytes) (line column start : ℕ)
    → print_head kind filename message (record { line = line; column = column; start = start })
      ≡ headed kind filename message line column
unfolding print_head print_diag_header print_diag_tag location_text
headed-print_head DiagnosticKind.info filename message line column start = refl
headed-print_head DiagnosticKind.warning filename message line column start = refl
headed-print_head DiagnosticKind.error filename message line column start = refl

pub carets-marks : (text : Bytes) → carets (length text) ≡ marks text
carets-marks [] = refl
carets-marks (c ∷ text) =
    ap (λ r. (27 ∷ codes "[31m^" ++ 27 ∷ codes "[0m") ++ r) (carets-marks text)

pub shown_line-append :
    (tok : Token) (idx : ℕ) (xs ys : Bytes)
    → shown_line tok idx (xs ++ ys) ≡ shown_line tok idx xs ++ shown_line tok (idx + length xs) ys
unfolding shown_line
shown_line-append tok idx [] ys = ap (λ n. shown_line tok n ys) (omega arith)
shown_line-append tok idx (c ∷ xs) ys =
    ap (◌++◌ (shown tok idx c)) (
      shown_line-append tok (idx + 1) xs ys
      ∙ ap (λ n. shown_line tok (idx + 1) xs ++ shown_line tok n ys) (omega arith))
    ∙ sym (append_assoc (shown tok idx c) _ _)

-- A token that ends before `2 ^ 64`.
abbrev pub Fits : Token → Type 0
Fits tok = tok.position + tok.len < 2 ^ 64

in_token-outside :
    (tok : Token) (idx : ℕ)
    → Fits tok
    → (idx < tok.position) ⊎ ((tok.position + tok.len ≤ idx) × (idx < 2 ^ 64))
    → in_token tok idx ≡ false
in_token-outside tok idx f (inl h) = ground (arith, f, h)
in_token-outside tok idx f (inr (h, k)) = ground (arith, f, h, k)

in_token-inside :
    (tok : Token) (idx : ℕ)
    → Fits tok
    → tok.position ≤ idx
    → idx < tok.position + tok.len
    → in_token tok idx ≡ true
in_token-inside tok idx f h k = ground (arith, f, h, k)

-- The bytes in front of the token, those of the token, and those behind it.
pub shown_line-before :
    (tok : Token) (idx : ℕ) (text : Bytes)
    → Fits tok
    → idx + length text ≤ tok.position
    → shown_line tok idx text ≡ text
unfolding shown_line shown
shown_line-before tok idx [] f h = refl
shown_line-before tok idx (c ∷ text) f h =
    rw (in_token-outside tok idx f (inl (omega (arith, h))))
      (ap (λ r. c ∷ r) (shown_line-before tok (idx + 1) text f (omega (arith, h))))

pub shown_line-behind :
    (tok : Token) (idx : ℕ) (text : Bytes)
    → Fits tok
    → tok.position + tok.len ≤ idx
    → idx + length text < 2 ^ 64
    → shown_line tok idx text ≡ text
unfolding shown_line shown
shown_line-behind tok idx [] f h k = refl
shown_line-behind tok idx (c ∷ text) f h k =
    rw (in_token-outside tok idx f (inr (h, omega (arith, k)))) (
      ap (λ r. c ∷ r)
        (shown_line-behind tok (idx + 1) text f (omega (arith, h)) (omega (arith, k))))

pub shown_line-painted :
    (tok : Token) (idx : ℕ) (text : Bytes)
    → Fits tok
    → tok.position ≤ idx
    → idx + length text ≤ tok.position + tok.len
    → shown_line tok idx text ≡ painted text
unfolding shown_line shown
shown_line-painted tok idx [] f h k = refl
shown_line-painted tok idx (c ∷ text) f h k = rw (in_token-inside tok idx f h (omega (arith, k))) (
    ap (λ r. (27 ∷ codes "[1m" ++ (27 ∷ codes "[31m" ++ (c ∷ 27 ∷ codes "[0m"))) ++ r)
      (shown_line-painted tok (idx + 1) text f (omega (arith, h)) (omega (arith, k))))
