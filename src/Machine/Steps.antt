-- ===== src/Machine/Steps.antt =====
-- Runs of the machine over a list of lines.
use seron.Prelude.{
  ◌≡◌, refl, ap, sym, ◌∙◌, List, [], ◌∷◌, ◌++◌, Option, none, some, true, Option-cases, inl, inr,
}
use seron.Asm.{Width, byte, dword, qword, Sub, Alu, Instr}
use seron.Asm
use seron.Machine.{Machine, step, run, same_width, operation, get}

-- The run ends in a machine with `P`.
pub record Ends (code : List Instr) (m : Machine) (P : Machine → Type 0) : Type 0 where
  pub machine : Machine
  pub ends : run code m ≡ some machine
  pub has : P machine

pub Ends-nil : {m : Machine} {P : Machine → Type 0} → P m → Ends [] m P
unfolding run
Ends-nil {m} h = record { machine = m; ends = refl; has = h }

abbrev resume : List Instr → Option Machine → Option Machine
resume code o = elim o [ none ↦ none | some m ↦ run code m ]

run-cons : (i : Instr) (code : List Instr) (m : Machine) → run (i ∷ code) m ≡ resume code (step i m)
unfolding run
run-cons i code m = refl

pub Ends-cons :
    {i : Instr} {code : List Instr} {m m' : Machine} {P : Machine → Type 0}
    → step i m ≡ some m'
    → Ends code m' P
    → Ends (i ∷ code) m P
Ends-cons {i} {code} {m} e h = record {
  machine = h.machine;
  ends = run-cons i code m ∙ ap (resume code) e ∙ h.ends;
  has = h.has;
}

some-injective : {m m' : Machine} → some m ≡ some m' → m ≡ m'
some-injective e = cc

none-some {ℓ} : {A : Type ℓ} {m : Machine} → none ≡ some m → A
none-some e = cc

-- A run over a first line takes a step.
pub run-first :
    (i : Instr) (code : List Instr) (m m' : Machine)
    → run (i ∷ code) m ≡ some m'
    → (m1 : Machine) × (step i m ≡ some m1) × (run code m1 ≡ some m')
run-first i code m m' e = elim (Option-cases (step i m)) [
  | inl h ↦ none-some (sym (ap (resume code) h) ∙ sym (run-cons i code m) ∙ e)
  | inr (m1, h) ↦ (m1, h, sym (ap (resume code) h) ∙ sym (run-cons i code m) ∙ e)
]

pub run-nil : {m m' : Machine} → run [] m ≡ some m' → m ≡ m'
unfolding run
run-nil e = some-injective e

run-append : (a b : List Instr) (m m' : Machine) → run a m ≡ some m' → run (a ++ b) m ≡ run b m'
unfolding run
run-append [] b m m' e = ap (run b) (run-nil e)
run-append (i ∷ a) b m m' e =
    let (m1, h, k) = run-first i a m m' e in
    run-cons i (a ++ b) m ∙ ap (resume (a ++ b)) h ∙ run-append a b m1 m' k

pub Ends-append :
    {a b : List Instr} {m : Machine} {P Q : Machine → Type 0}
    → Ends a m P
    → ((m' : Machine) → P m' → Ends b m' Q)
    → Ends (a ++ b) m Q
Ends-append {a} {b} {m} h k =
    let next = k h.machine h.has in
    record {
      machine = next.machine;
      ends = run-append a b m h.machine h.ends ∙ next.ends;
      has = next.has;
    }

pub Ends-map :
    {code : List Instr} {m : Machine} {P Q : Machine → Type 0}
    → Ends code m P
    → ((m' : Machine) → P m' → Q m')
    → Ends code m Q
Ends-map h k = record { machine = h.machine; ends = h.ends; has = k h.machine h.has }

pub step-alu :
    (op : Alu) (a b : Sub) (m : Machine)
    → same_width a.width b.width ≡ true
    → step (Asm.alu op a b) m ≡ some (operation op a (get a m) (get b m) m)
unfolding step
step-alu op a b m h = rw h

pub same_width_refl : (w : Width) → same_width w w ≡ true
same_width_refl byte = refl
same_width_refl dword = refl
same_width_refl qword = refl
