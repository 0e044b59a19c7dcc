-- ===== src/Diagnostics.antt =====
-- seronc/diagnostics.c: the texts that are printed for an error. The text of the message, which
-- `vfprintf` makes of a format, is a parameter.
pub mod Columns
pub mod Shown
pub mod Lines
use seron.Prelude.{
  ℕ, zero, suc, ◌+◌, ◌-◌, ◌%◌, ◌^◌, ◌==◌, Bool, List, [], ◌∷◌, ◌++◌, Bytes, codes, if◌then◌else◌,
  ltb, length, take, replicate,
}
use seron.Outcome
use seron.Outcome.{Outcome, done, overrun, ◌>>=◌}
use seron.Token.{Token}
use seron.Location.{TokenLocation, get_token_location}
use seron.Asm.Text.{percent_d}

pub data DiagnosticKind : Type 0 where
  error warning info : DiagnosticKind

abbrev pub escape : Bytes → Bytes
escape text = 27 ∷ text

abbrev pub color_red : Bytes
color_red = escape (codes "[31m")

abbrev pub color_blue : Bytes
color_blue = escape (codes "[34m")

abbrev pub color_yellow : Bytes
color_yellow = escape (codes "[33m")

abbrev pub color_bold : Bytes
color_bold = escape (codes "[1m")

abbrev pub color_end : Bytes
color_end = escape (codes "[0m")

unfoldable pub print_diag_tag : DiagnosticKind → Bytes
print_diag_tag info = color_bold ++ (color_blue ++ (codes "INFO" ++ color_end))
print_diag_tag warning = color_bold ++ (color_yellow ++ (codes "WARNING" ++ color_end))
print_diag_tag error = color_bold ++ (color_red ++ (codes "ERROR" ++ color_end))

unfoldable pub print_diag_header : DiagnosticKind → Bytes
print_diag_header kind = codes "---" ++ (print_diag_tag kind ++ codes "---\n")

-- The difference of two `size_t`s, against the length of the token.
abbrev pub in_token : Token → ℕ → Bool
in_token tok idx = ltb ((idx + 2 ^ 64 - tok.position) % 2 ^ 64) tok.len

-- A byte of the line, in color if it belongs to the token.
unfoldable pub shown : Token → ℕ → ℕ → Bytes
shown tok idx c = if in_token tok idx then color_bold ++ (color_red ++ (c ∷ color_end)) else c ∷ []

-- The loop over the line: what is left of its rounds, the index, and the bytes from there on, with the
-- terminator of the source as the last.
unfoldable pub print_line : Token → ℕ → ℕ → Bytes → Outcome Bytes
print_line tok zero idx rest = done []
print_line tok (suc rounds) idx [] = Outcome.undefined overrun
print_line tok (suc rounds) idx (c ∷ rest) =
    let following = print_line tok rounds (idx + 1) rest in
    if c == b'\n' then done [] else do more ← following; done (shown tok idx c ++ more)

abbrev pub drop : ℕ → Bytes → Bytes
drop zero text = text
drop (suc n) [] = []
drop (suc n) (c ∷ text) = drop n text

abbrev pub carets : ℕ → Bytes
carets zero = []
carets (suc n) = (color_red ++ (b'^' ∷ color_end)) ++ carets n

-- `snprintf` into an array of NAME_MAX bytes.
unfoldable pub location_text : Bytes → TokenLocation → Bytes
location_text filename loc =
    take 254
      (filename ++ (codes ":" ++ (percent_d loc.line ++ (codes ":" ++ percent_d loc.column))))

-- What stands in front of the line of the source, and behind it.
unfoldable pub print_head : DiagnosticKind → Bytes → Bytes → TokenLocation → Bytes
print_head kind filename message loc =
    print_diag_header kind
    ++ (codes "Cause: "
        ++ (message ++ (codes "\nLocation: " ++ (location_text filename loc ++ codes "\n\n"))))

unfoldable pub print_tail : Token → TokenLocation → Bytes
print_tail tok loc =
    codes "\n" ++ (replicate (loc.column - 1) b' ' ++ (carets tok.len ++ codes "\n"))

unfoldable pub diagnostic_loc : DiagnosticKind → Token → Bytes → Bytes → Bytes → Outcome Bytes
diagnostic_loc kind tok filename src message =
    let loc = get_token_location tok src in
    do
      line ← print_line tok (length src) loc.start (drop loc.start (src ++ 0 ∷ []))
      done (print_head kind filename message loc ++ (line ++ print_tail tok loc))

unfoldable pub diagnostic : DiagnosticKind → Bytes → Bytes
diagnostic kind message = print_diag_header kind ++ (codes "Cause: " ++ (message ++ codes "\n"))
