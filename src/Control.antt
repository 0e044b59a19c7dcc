-- ===== src/Control.antt =====
-- The machine of Machine with jumps to numbered labels: a run through the lines of a program, whose state
-- is the lines from the next one on.
pub mod Targets
use seron.Prelude.{
  ℕ, ◌≡◌, ◌==◌, ◌&&◌, Bool, true, false, not, List, [], ◌∷◌, Option, none, some, if◌then◌else◌,
}
use seron.Asm
use seron.Asm.{LabelKind, Instr}
use seron.Machine.{Machine, step}
use seron.Codegen.Labels.{same_label}

-- The lines behind the first definition of a label.
unfoldable pub target : LabelKind → ℕ → List Instr → Option (List Instr)
target k n [] = none
target k n (Asm.label a m ∷ code) =
    let rest = target k n code in if same_label a k && (m == n) then some code else rest
target k n (_ ∷ code) = target k n code

abbrev pub State : Type 0
State = List Instr × Machine

abbrev pub go : LabelKind → ℕ → List Instr → Machine → Option State
go k n program m = elim (target k n program) [ none ↦ none | some code ↦ some (code, m) ]

-- A line that moves control.
abbrev pub control : List Instr → Instr → List Instr → Machine → Option State
control program (Asm.label k n) rest m = some (rest, m)
control program (Asm.jmp k n) rest m = go k n program m
control program (Asm.je k n) rest m = if m.equal then go k n program m else some (rest, m)
control program (Asm.jne k n) rest m = if m.equal then some (rest, m) else go k n program m
control program _ rest m = none

unfoldable pub advance : List Instr → State → Option State
advance program ([], m) = none
advance program (i ∷ rest, m) = elim (step i m) [
  | some m' ↦ some (rest, m')
  | none ↦ control program i rest m
]

-- The program gets from a state to another.
pub data Reaches (program : List Instr) : State → State → Type 0 where
  here : {s : State} → Reaches program s s
  next : {s t u : State} → advance program s ≡ some t → Reaches program t u → Reaches program s u
