-- ===== src/DeclRules/Progress.antt =====
-- How `rule_program` and `parse` of seronc/parser.c end.
use native.Mathlib.Nat.{le_refl}
use seron.Prelude.{
  ap, length, ◌==◌, ℕ, zero, suc, ◌+◌, ◌≤◌, ◌<◌, ◌≡◌, ◌≢◌, Bytes, refl, Bool, true, false, Option,
  some, arith, Bool-cases, inl, inr,
}
use seron.Outcome.{Outcome, Ensures-ne-panic}
use seron.Token.{Token}
use seron.Ast.{Node, Nodes}
use seron.Lexer.{Lexer, lexer_init, lexer_next}
use seron.Lexer.Reads.{lexer_next-Ensures}
use seron.Lexer.Calls.{shrinks}
use seron.Parser.{Parser, Rule, Result, is_at_end}
use seron.Parser.Progress.{
  measure, Ends, gives, to_stmt, to_decl, exits, faults, Any, Ends-if, Ends-bind, Ends-weaken,
  measure_positive,
}
use seron.Parser.Specs.{Weak, pure-Weak, weak_then}
use seron.DeclRules.{start, land_decl, program_loop, rule_program, finish, enough, parse, rule_decl}
use seron.DeclRules.Declarations.{decl-Ends, decl-exit}

land_decl-Ends :
    {m : ℕ} (next again : Rule Nodes) (r : Result Node)
    → Ends Any (suc m) m r
    → Weak (suc m) Any next
    → Weak (suc m) Any again
    → Ends Any (suc m) m (land_decl next again r)
land_decl-Ends {m} next again _ (gives {a} {p} q h) wn wa =
    Ends-bind (Ends-weaken {b' = suc m} {j' = m} (omega arith) (omega arith) (wn p h))
      λ a q _ k. gives tt k
land_decl-Ends next again _ (to_stmt h) wn wa = faults
land_decl-Ends next again _ (to_decl {p} h) wn wa =
    Ends-weaken (omega arith) (omega arith) (wa p (omega arith))
land_decl-Ends next again _ exits wn wa = exits
land_decl-Ends next again _ faults wn wa = faults

-- A round of the loop in front of a declaration or of the end.
round-Ends :
    (f : ℕ) (next again : Rule Nodes) (p : Parser)
    → measure p < suc f
    → Weak (measure p) Any next
    → Weak (measure p) Any again
    → Ends Any (suc (measure p)) (measure p) (land_decl next again (rule_decl (suc f) p))
round-Ends f next again p lt wn wa = elim (Bool-cases (is_at_end p)) [
  | inl h ↦ rw (decl-exit f p h) exits
  | inr h ↦
      let (d, e) = measure_positive p h in
      Ends-weaken (omega arith) (omega arith) (
        land_decl-Ends next again (rule_decl (suc f) p)
          (Ends-weaken (omega arith) (le_refl d) (decl-Ends f d p lt (omega arith)))
          (λ q m. wn q (omega arith)) (λ q m. wa q (omega arith)))
]

program_loop-Weak :
    (f : ℕ) (tested : Bool) (rounds k : ℕ)
    → k ≤ rounds
    → k ≤ suc f
    → Weak k Any (program_loop (suc f) tested rounds)
unfolding program_loop
program_loop-Weak f tested rounds zero lr le p h = absurd (omega arith)
program_loop-Weak f tested zero (suc k) lr le p h = absurd (omega arith)
program_loop-Weak f true (suc rounds) (suc k) lr le p h =
    Ends-if (is_at_end p) (λ _. gives tt (omega arith))
      (round-Ends f _ _ p (omega arith)
        (λ q m. program_loop-Weak f true rounds k (omega arith) (omega arith) q (omega arith))
        (λ q m. program_loop-Weak f false rounds k (omega arith) (omega arith) q (omega arith)))
program_loop-Weak f false (suc rounds) (suc k) lr le p h =
    round-Ends f _ _ p (omega arith)
      (λ q m. program_loop-Weak f true rounds k (omega arith) (omega arith) q (omega arith))
      (λ q m. program_loop-Weak f false rounds k (omega arith) (omega arith) q (omega arith))

program-Weak : (f k : ℕ) → k ≤ suc f → Weak k Any (rule_program (suc f))
unfolding rule_program
program-Weak f k le = weak_then _ _ (program_loop-Weak f true (suc f) k le le) λ _ _. pure-Weak _ tt

-- How a run of the parser ends that neither panics nor lacks fuel.
abbrev Answer : Option (Outcome Node) → Type 0
Answer r = (o : Outcome Node) × (r ≡ some o) × (o ≢ Outcome.panic)

finish-Answer : {b j : ℕ} {r : Result Node} → Ends Any b j r → Answer (finish r)
unfolding finish
finish-Answer (gives {p} q h) = elim (Bool-cases (p.errcount == 0)) [
  | inl e ↦ rw e (_, refl, λ e. cc)
  | inr e ↦ rw e (_, refl, λ e. cc)
]
finish-Answer (to_stmt h) = (_, refl, λ e. cc)
finish-Answer (to_decl h) = (_, refl, λ e. cc)
finish-Answer exits = (_, refl, λ e. cc)
finish-Answer faults = (_, refl, λ e. cc)

-- The first token leaves no more than the source.
start-Ends :
    (memory : ℕ) (src : Bytes) (r : Outcome (Token × Lexer))
    → lexer_next (lexer_init src) ≡ r
    → Ends Any (enough src) 0 (start memory r)
unfolding measure
start-Ends memory src (Outcome.done (tok, lexer)) e = elim (shrinks (lexer_init src) e) [
  | inl k ↦ gives tt (ground (arith, ap length k.1))
  | inr k ↦ gives tt (ground (arith, k))
]
start-Ends memory src (Outcome.exit _) e = exits
start-Ends memory src Outcome.panic e =
    absurd (Ensures-ne-panic (lexer_next-Ensures (lexer_init src)) e)
start-Ends memory src (Outcome.undefined _) e = faults

-- On every source the parser returns the tree, exits with a diagnostic, or does something
-- undefined: the fuel is enough for every loop and recursion, and no `PANIC` is reached.
pub parse-total :
    (memory : ℕ) (src : Bytes)
    → (o : Outcome Node) × (parse memory src ≡ some o) × (o ≢ Outcome.panic)
unfolding parse
parse-total memory src = finish-Answer {b = enough src} {j = enough src} (
    Ends-bind {b' = enough src}
      (Ends-weaken (omega arith) (omega arith) (start-Ends memory src _ refl))
      λ _ p _ h.
        Ends-weaken (omega arith) (omega arith)
          (program-Weak (length src + 2) (enough src) (le_refl _) p h))
