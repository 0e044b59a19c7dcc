-- ===== src/Flow/Shapes.antt =====
-- The lines of a branch and of a loop.
use seron.Prelude.{ℕ, ◌≡◌, ap, ◌∙◌, List, [], ◌∷◌, ◌++◌, append_assoc}
use seron.Types.{Ty}
use seron.Ast.{Node, MaybeNode}
use seron.Asm
use seron.Asm.{
  Instr, Width, Sub, rax, subregister, width_of, while_label, cond_label, else_label, end_label,
}
use seron.Machine.{Machine}
use seron.Codegen.{Gen, gen_write, gen_write_all, next_label}
use seron.Values.{Place}
use seron.Values.Operators.{sub_of}
use seron.Values.Compiled.{Compiled}
use seron.Effects.Stores.{Left}
use seron.Flow.Suffixes.{Grows, Grows-then, Grows-write}
use seron.Flow.Emission.{IfParts}

pub Left-then : {p : Place} (m m1 m2 : Machine) → m1.rsp ≡ m.rsp → Left p m1 m2 → Left p m m2
Left-then m m1 m2 e (f, r) = (f, r ∙ e)

-- The lines of a branch, whose condition has a value.
abbrev pub if_code : ℕ → Width → List Instr → List Instr → List Instr → List Instr
if_code lbl w cond body other =
    cond
    ++ Asm.cmp_zero (sub_of rax w)
      ∷ Asm.je else_label lbl
      ∷ (body
          ++ Asm.jmp end_label lbl
            ∷ Asm.label else_label lbl
            ∷ (other ++ Asm.label end_label lbl ∷ []))

-- What follows the body of a branch, and what follows its condition.
abbrev pub behind_body : ℕ → List Instr → List Instr → List Instr
behind_body lbl other post =
    Asm.jmp end_label lbl ∷ Asm.label else_label lbl ∷ (other ++ Asm.label end_label lbl ∷ post)

abbrev pub from_cond : ℕ → Width → List Instr → List Instr → List Instr → List Instr → List Instr
from_cond lbl w cond body other post =
    cond
    ++ Asm.cmp_zero (sub_of rax w) ∷ Asm.je else_label lbl ∷ (body ++ behind_body lbl other post)

pub if_assoc :
    (lbl : ℕ) (w : Width) (cond body other post : List Instr)
    → if_code lbl w cond body other ++ post ≡ from_cond lbl w cond body other post
if_assoc lbl w cond body other post = simp (append_assoc)

-- The lines of a loop, from its condition, from its body, and from its first line.
abbrev pub from_test : ℕ → Sub → List Instr → List Instr → List Instr
from_test lbl sub cond post = cond ++ Asm.cmp_zero sub ∷ Asm.jne while_label lbl ∷ post

abbrev pub from_body : ℕ → Sub → List Instr → List Instr → List Instr → List Instr
from_body lbl sub body cond post =
    Asm.label while_label lbl ∷ (body ++ Asm.label cond_label lbl ∷ from_test lbl sub cond post)

abbrev pub while_code : ℕ → Sub → List Instr → List Instr → List Instr → List Instr
while_code lbl sub body cond post = Asm.jmp cond_label lbl ∷ from_body lbl sub body cond post

pub while_assoc :
    (lbl : ℕ) (sub : Sub) (body cond post : List Instr)
    → while_code lbl sub body cond [] ++ post ≡ while_code lbl sub body cond post
while_assoc lbl sub body cond post = simp (append_assoc)

pub if-Grows :
    {p : Place} {c body : Node} {otherwise : MaybeNode} {ty : Ty} {w : Width} {v n : ℕ} {g g' : Gen}
    {x y : List Instr} (cond : Compiled p c ty w v n (next_label g))
    (q : IfParts p.tables body otherwise g.label_count
      (gen_write
        (Asm.je else_label g.label_count)
        (gen_write (Asm.cmp_zero (sub_of rax w)) (gen_write_all cond.code (next_label g))))
      g')
    → Grows
        (gen_write (Asm.je else_label g.label_count) (
          gen_write
            (Asm.cmp_zero (sub_of rax w))
            (gen_write_all cond.code (next_label g)))).buf_text
        q.then_gen.buf_text
        x
    → Grows
        (gen_write
          (Asm.label else_label g.label_count)
          (gen_write (Asm.jmp end_label g.label_count) q.then_gen)).buf_text
        q.else_gen.buf_text
        y
    → Grows g.buf_text g'.buf_text (if_code g.label_count w cond.code x y)
if-Grows cond q x y = Grows-then Grows-write (
    Grows-then (Grows-then Grows-write Grows-write) (
      Grows-then x (
        Grows-then (Grows-then Grows-write Grows-write)
          (Grows-then y (record { text = ap (λ g. g.buf_text) q.last })))))
