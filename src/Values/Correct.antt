-- ===== src/Values/Correct.antt =====
-- The code of an expression leaves its value in `rax`.
use seron.Prelude.{ℕ, ◌*◌, ◌≤◌, ◌≡◌, List, some}
use seron.Outcome.{done}
use seron.Types.{Ty}
use seron.Ast.{Node}
use seron.Asm.{Width, Instr}
use seron.Machine.{Machine, run}
use seron.Codegen.{Gen, gen_write_all, emit}
use seron.Values.{
  Place, Means, number, variable, address, group, negated, inverted, pointed, operation, moved,
}
use seron.Values.Frames.{Frame, After}
use seron.Values.Compiled.{
  Compiled, Means-width, number-Compiled, variable-Compiled, address-Compiled,
}
use seron.Values.Unary.{negated-Compiled, inverted-Compiled, pointed-Compiled}
use seron.Values.Binary.{operation-Compiled, moved-Compiled}

-- The code of an expression, by its value.
pub compile :
    {p : Place} {e : Node} {ty : Ty} {w : Width} {v n : ℕ} (g : Gen)
    → g.scope ≡ p.scope
    → Means p e ty w v n
    → Compiled p e ty w v n g
unfolding emit
compile g s (number h k) = number-Compiled g h k
compile g s (variable h k f) = variable-Compiled g s h k f
compile g s (address h f) = address-Compiled g s h f
compile g s (group h) =
    let c = compile g s h in record { code = c.code; emits = c.emits; runs = c.runs }
compile g s (negated h t) = negated-Compiled (Means-width h) t (compile g s h)
compile g s (inverted h) = inverted-Compiled (Means-width h) (compile g s h)
compile g s (pointed h k l) = pointed-Compiled k l (compile g s h)
compile g s (operation r l k h) =
    operation-Compiled (compile g s r) (compile _ s l) (Means-width r) (Means-width l) k h
compile g s (moved r l q z h) = moved-Compiled (compile g s r) (compile _ s l) q (Means-width r) z h

-- An expression that has a value in a frame: `emit` returns for it, in the scope of the frame, with its
-- type, and appends lines to the text. In every machine in the frame with room for its words on the
-- stack these lines run to an end, which leaves the value in the part of `rax` that has its width, and
-- the stack pointer, the frame pointer and the memory from the stack pointer on as they were.
pub emit-value :
    (p : Place) {e : Node} {ty : Ty} {w : Width} {v n : ℕ} (g : Gen)
    → g.scope ≡ p.scope
    → Means p e ty w v n
    → (code : List Instr) × (emit p.tables e g ≡ done (ty, gen_write_all code g))
      × ((m : Machine)
          → Frame p m
          → 8 * n ≤ m.rsp
          → (m' : Machine) × (run code m ≡ some m') × After w v m m')
emit-value p g s h =
    let c = compile g s h in
    (c.code, c.emits, λ m f room. let e = c.runs m f room in (e.machine, e.ends, e.has))
