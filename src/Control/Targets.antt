-- ===== src/Control/Targets.antt =====
-- Runs through a program in which no label is defined twice.
use mathlib.Core.Path.{subst}
use seron.Prelude.{
  ℕ, ◌≤◌, ◌≡◌, ◌==◌, ◌&&◌, ap, true, Bool-cases, List, [], ◌∷◌, ◌++◌, none, some, arith, inl, inr,
}
use seron.Asm
use seron.Asm.{LabelKind, Instr, else_label, end_label, while_label, cond_label}
use seron.Machine.{Machine, step, run}
use seron.Machine.Steps.{run-first, run-nil}
use seron.Codegen.Labels.{defines, definitions, tally, tally-append, same_label}
use seron.Control.{State, target, control, advance, Reaches, here, next}

pub Reaches-trans :
    {program : List Instr} {s t u : State}
    → Reaches program s t
    → Reaches program t u
    → Reaches program s u
Reaches-trans here k = k
Reaches-trans (next e h) k = next e (Reaches-trans h k)

at_self : (k : LabelKind) (n : ℕ) → (same_label k k && (n == n)) ≡ true
at_self else_label n = ground arith
at_self end_label n = ground arith
at_self while_label n = ground arith
at_self cond_label n = ground arith

-- A label that is not defined in front of its definition.
target-first :
    (k : LabelKind) (n : ℕ) (a b : List Instr)
    → definitions k n a ≡ 0
    → target k n (a ++ Asm.label k n ∷ b) ≡ some b
unfolding target tally
target-first k n [] b h = rw (at_self k n)
target-first k n (Asm.label j m ∷ a) b h = elim (Bool-cases (same_label j k && (m == n))) [
  | inl e ↦ absurd (ground (arith, e, h))
  | inr e ↦ rw e (target-first k n a b (ground (arith, e, h)))
]
target-first k n (_ ∷ a) b h = target-first k n a b (omega (arith, h))

-- If no label is defined twice, a jump to a label goes behind its definition.
pub target-once :
    (k : LabelKind) (n : ℕ) (program a b : List Instr)
    → program ≡ a ++ Asm.label k n ∷ b
    → definitions k n program ≤ 1
    → target k n program ≡ some b
unfolding tally
target-once k n program a b e h =
    let none_before : definitions k n a ≡ 0 = ground (
      arith,
      h,
      at_self k n,
      ap (definitions k n) e,
      tally-append (defines k n) a (Asm.label k n ∷ b),
    ) in
    rw e (target-first k n a b none_before)

pub advance-step :
    (program : List Instr) (i : Instr) (rest : List Instr) (m : Machine) {m' : Machine}
    → step i m ≡ some m'
    → advance program (i ∷ rest, m) ≡ some (rest, m')
unfolding advance
advance-step program i rest m e =
    ap (λ o. elim o [ some m' ↦ some (rest, m') | none ↦ control program i rest m ]) e

-- A run of lines without jumps is a run through the program.
pub Reaches-run :
    (program code post : List Instr) (m m' : Machine)
    → run code m ≡ some m'
    → Reaches program (code ++ post, m) (post, m')
Reaches-run program [] post m m' e =
    subst (λ x. Reaches program (post, m) (post, x)) (run-nil e) here
Reaches-run program (i ∷ code) post m m' e =
    let (m1, h, k) = run-first i code m m' e in
    next (advance-step program i (code ++ post) m h) (Reaches-run program code post m1 m' k)
