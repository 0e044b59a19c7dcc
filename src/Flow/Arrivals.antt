-- ===== src/Flow/Arrivals.antt =====
-- Runs through a program from one line to another.
use seron.Prelude.{ℕ, ◌*◌, ◌≤◌, ◌≡◌, ◌==◌, refl, ap, List, ◌∷◌, ◌++◌, some}
use seron.Ast.{Node}
use seron.Types.{Ty}
use seron.Asm
use seron.Asm.{Instr, Width, rax}
use seron.Machine.{Machine, step, compared, get}
use seron.Machine.Steps.{Ends}
use seron.Control.{State, advance, Reaches, here, next}
use seron.Control.Targets.{Reaches-trans, Reaches-run, advance-step}
use seron.Codegen.{Gen}
use seron.Values.{Place}
use seron.Values.Operators.{sub_of}
use seron.Values.Frames.{Frame}
use seron.Values.Compiled.{Compiled}
use seron.Values.Unary.{After-Frame}

-- From the state the program gets to the lines, in a machine with `P`.
pub record Arrives (program : List Instr) (s : State) (code : List Instr) (P : Machine → Type 0)
    : Type 0 where
  pub machine : Machine
  pub reaches : Reaches program s (code, machine)
  pub has : P machine

-- The flag says whether the condition is 0.
pub record Tested (p : Place) (v : ℕ) (m m' : Machine) : Type 0 where
  pub frame : Frame p m'
  pub rsp : m'.rsp ≡ m.rsp
  pub equal : m'.equal ≡ (v == 0)

module _ {program : List Instr} where
  pub Arrives-here :
      {code : List Instr} {m : Machine} {P : Machine → Type 0}
      → P m
      → Arrives program (code, m) code P
  Arrives-here {m = m} h = record { machine = m; reaches = here; has = h }

  pub Arrives-next :
      {s t : State} {code : List Instr} {P : Machine → Type 0}
      → advance program s ≡ some t
      → Arrives program t code P
      → Arrives program s code P
  Arrives-next e h = record { machine = h.machine; reaches = next e h.reaches; has = h.has }

  pub Arrives-then :
      {s : State} {code code' : List Instr} {P Q : Machine → Type 0}
      → Arrives program s code P
      → ((m : Machine) → P m → Arrives program (code, m) code' Q)
      → Arrives program s code' Q
  Arrives-then h k =
      let r = k h.machine h.has in
      record { machine = r.machine; reaches = Reaches-trans h.reaches r.reaches; has = r.has }

  pub Arrives-map :
      {s : State} {code : List Instr} {P Q : Machine → Type 0}
      → Arrives program s code P
      → ((m : Machine) → P m → Q m)
      → Arrives program s code Q
  Arrives-map h k = record { machine = h.machine; reaches = h.reaches; has = k h.machine h.has }

  -- A run of lines without jumps.
  pub Arrives-run :
      {code : List Instr} (post : List Instr) {m : Machine} {P : Machine → Type 0}
      → Ends code m P
      → Arrives program (code ++ post, m) post P
  Arrives-run {code} post {m} h = record {
    machine = h.machine;
    reaches = Reaches-run program code post m h.machine h.ends;
    has = h.has;
  }

  -- The code of a condition, and the comparison behind it.
  pub condition :
      {p : Place} {c : Node} {ty : Ty} {w : Width} {v n : ℕ} {g : Gen} (rest : List Instr)
      (m : Machine)
      → (cond : Compiled p c ty w v n g) → Frame p m
      → 8 * n ≤ m.rsp
      → Arrives program (cond.code ++ Asm.cmp_zero (sub_of rax w) ∷ rest, m) rest (Tested p v m)
  unfolding step compared get
  condition {w = w} rest m cond f room =
      Arrives-then (Arrives-run (Asm.cmp_zero (sub_of rax w) ∷ rest) (cond.runs m f room)) λ m1 a.
        Arrives-next (advance-step program (Asm.cmp_zero (sub_of rax w)) rest m1 refl) (
          Arrives-here (record {
            frame = record {
              rbp = (After-Frame f a).rbp;
              stack = (After-Frame f a).stack;
              address = (After-Frame f a).address;
              same = (After-Frame f a).same;
            };
            rsp = a.rsp;
            equal = ap (λ x. x == 0) a.result;
          }))
