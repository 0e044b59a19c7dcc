-- ===== src/Tests/Printing.antt =====
-- The theorems on diagnostics and on the automaton, at concrete inputs.
use seron.Prelude.{ℕ, ◌+◌, ◌%◌, ◌<◌, ◌≡◌, ◌≢◌, refl, ◌==◌, codes, arith, false, if◌then◌else◌}
use seron.Outcome.{undefined, overrun}
use seron.Token.{Token, fresh}
use seron.Location.{get_token_location, locate}
use seron.Diagnostics.{error, diagnostic_loc}
use seron.Diagnostics.Lines.{diagnostic_loc-open_line}
use seron.Rule110.{Automaton, next, bit_of_110, neighbourhood, next-rows}

-- The token `b` in the second line, and one in a shorter source.
abbrev second : Token
second = record (fresh 4) { len = 1 }

abbrev early : Token
early = record (fresh 2) { len = 1 }

diagnostic_loc-open_line_example :
    diagnostic_loc error early (codes "x.sn") (codes "a\nb") (codes "bad") ≡ undefined overrun
unfolding get_token_location locate
diagnostic_loc-open_line_example =
    diagnostic_loc-open_line error early (codes "x.sn") (codes "bad") (codes "a\n") (codes "b")
      (refl, tt) (omega arith) refl

-- The first row of the program: the last cell is set.
abbrev first : Automaton
first = record { iter = 1; cells = λ y x. if y == 0 then x == 299 else false }

next-rows_example :
    ((next first).iter ≡ 2)
    × ((y x : ℕ) → y ≢ 1 → (next first).cells y x ≡ first.cells y x)
    × ((x : ℕ)
        → x < 300
        → (next first).cells 1 x
          ≡ bit_of_110 (
              neighbourhood
                (first.cells 0 ((x + 299) % 300))
                (first.cells 0 x)
                (first.cells 0 ((x + 1) % 300))))
next-rows_example = next-rows first (omega arith) (omega arith)
