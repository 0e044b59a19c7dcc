-- ===== src/Diagnostics/Lines.antt =====
-- The line of the source that a diagnostic shows.
use seron.Prelude.{
  ℕ, zero, suc, ◌+◌, ◌≤◌, ◌<◌, ◌==◌, ◌≡◌, refl, ap, ◌∙◌, true, false, [], ◌∷◌, ◌++◌, append_assoc,
  Bytes, length, length-append, arith,
}
use seron.Outcome.{Outcome, done, overrun, ◌>>=◌}
use seron.Token.{Token}
use seron.Location.{get_token_location, in_line}
use seron.Scan.Spans.{All}
use seron.Diagnostics.{DiagnosticKind, diagnostic_loc, print_line, drop, print_head, print_tail}

drop-append : (before rest : Bytes) → drop (length before) (before ++ rest) ≡ rest
drop-append [] rest = refl
drop-append (c ∷ before) rest = drop-append before rest

not-newline : (c : ℕ) → in_line c ≡ true → (c == b'\n') ≡ false
not-newline c h = ground (arith, h)

print_line-open :
    (tok : Token) (rounds idx : ℕ) (line : Bytes)
    → All in_line line
    → length line + 1 < rounds
    → print_line tok rounds idx (line ++ 0 ∷ []) ≡ Outcome.undefined overrun
unfolding print_line
print_line-open tok zero idx line h k = absurd (omega (arith, k))
print_line-open tok (suc zero) idx line h k = absurd (omega (arith, k))
print_line-open tok (suc (suc rounds)) idx [] h k = refl
print_line-open tok (suc rounds) idx (c ∷ line) (h, hs) k =
    rw (not-newline c h, print_line-open tok rounds (idx + 1) line hs (omega (arith, k)))

-- If a token is located in the last line of a source, no newline ends that line, and at least two bytes
-- stand in front of it, `diagnostic_loc` reads past the terminator of the source.
pub diagnostic_loc-open_line :
    (kind : DiagnosticKind) (tok : Token) (filename message before line : Bytes)
    → All in_line line
    → 2 ≤ length before
    → (get_token_location tok (before ++ line)).start ≡ length before
    → diagnostic_loc kind tok filename (before ++ line) message ≡ Outcome.undefined overrun
unfolding diagnostic_loc
diagnostic_loc-open_line kind tok filename message before line h two e =
    let src = before ++ line in
    let loc = get_token_location tok src in
    let from : drop (length before) (src ++ 0 ∷ []) ≡ line ++ 0 ∷ [] =
      ap (drop (length before)) (append_assoc before line (0 ∷ [])) ∙ drop-append before _ in
    ap
      (λ r. do
        text ← r
        done (print_head kind filename message loc ++ (text ++ print_tail tok loc)))
      (ap (λ s. print_line tok (length src) s (drop s (src ++ 0 ∷ []))) e
        ∙ ap (print_line tok (length src) (length before)) from
        ∙ print_line-open tok (length src) (length before) line h
            (omega (arith, two, length-append before line)))
