-- ===== src/Flow/Emission.antt =====
-- What `emit` of seronc/codegen.c has written, when it returns.
use seron.Prelude.{ℕ, ◌≡◌, ap, sym, ◌∙◌, List}
use seron.Outcome.{Outcome, done, >>=-eq-done, Returns-done}
use seron.Types.{Ty, kind_of, void_type}
use seron.Ast.{Node, Nodes, MaybeNode}
use seron.Hashtable.{Hashtable}
use seron.Token.{Token}
use seron.Ast
use seron.Asm
use seron.Asm.{
  Instr, Width, Sub, rax, subregister, width_of, while_label, cond_label, else_label, end_label,
}
use seron.Values.Operators.{sub_of}
use seron.Values.Parts.{subregister-rax}
use seron.Codegen.{Gen, gen_write, next_label, gen_write_all, emit, emit_maybe, statement}
use seron.Codegen.Labels.Walk.{emit-Emits, emit_maybe-Emits}
use seron.Values.{Place}
use seron.Values.Compiled.{Compiled}
use seron.Flow.Suffixes.{Grows}

-- The lines that a run of `emit` has added, and that it leaves the scope.
pub record Added (g g' : Gen) : Type 0 where
  pub code : List Instr
  pub grows : Grows g.buf_text g'.buf_text code
  pub scope : g'.scope ≡ g.scope

pub emit-Added :
    (tables : List Hashtable) (s : Node) (g : Gen) {ty : Ty} {g' : Gen}
    → emit tables s g ≡ done (ty, g')
    → Added g g'
emit-Added tables s g e =
    let h = Returns-done (emit-Emits while_label 0 tables s g) e in
    record { code = h.extends.code; grows = record { text = h.extends.text }; scope = h.scope }

pub emit_maybe-Added :
    (tables : List Hashtable) (s : MaybeNode) (g : Gen) {g' : Gen}
    → emit_maybe tables s g ≡ done g'
    → Added g g'
emit_maybe-Added tables s g e =
    let h = Returns-done (emit_maybe-Emits while_label 0 tables s g) e in
    record { code = h.extends.code; grows = record { text = h.extends.text }; scope = h.scope }

pub done-injective {ℓ} : {A : Type ℓ} {a b : A} → done a ≡ done b → a ≡ b
done-injective e = cc

pub statement-done :
    (r : Outcome Gen) {ty : Ty} {g' : Gen} → statement r ≡ done (ty, g') → r ≡ done g'
statement-done r e =
    let (g, h, k) = >>=-eq-done r (λ g. done (void_type, g)) e in
    h ∙ ap (λ p. done p.1) (done-injective k)

-- The same run of `emit` gives the same generator.
pub emit-same :
    {r : Outcome (Ty × Gen)} {ty ty' : Ty} {g g' : Gen}
    → r ≡ done (ty, g)
    → r ≡ done (ty', g')
    → g' ≡ g
emit-same h k = ap (λ p. p.1) (done-injective (sym k ∙ h))

-- The generator in front of the body of a branch, and in front of what follows its `else`.
abbrev pub then_start : Gen → Width → List Instr → Gen
then_start g w code =
    gen_write (Asm.je else_label g.label_count)
      (gen_write (Asm.cmp_zero (sub_of rax w)) (gen_write_all code (next_label g)))

abbrev pub else_start : ℕ → Gen → Gen
else_start lbl g = gen_write (Asm.label else_label lbl) (gen_write (Asm.jmp end_label lbl) g)

-- The generator in front of the body of a loop, and in front of its condition.
abbrev pub body_start : Gen → Gen
body_start g =
    gen_write (Asm.label while_label g.label_count)
      (gen_write (Asm.jmp cond_label g.label_count) (next_label g))

abbrev pub cond_start : ℕ → Gen → Gen
cond_start lbl g = gen_write (Asm.label cond_label lbl) g

-- The runs inside of that for a branch whose condition has a value.
pub record IfParts (tables : List Hashtable) (body : Node) (otherwise : MaybeNode) (lbl : ℕ)
    (g2 g' : Gen) : Type 0 where
  pub ty : Ty
  pub then_gen : Gen
  pub then_emits : emit tables body g2 ≡ done (ty, then_gen)
  pub else_gen : Gen
  pub else_emits :
      emit_maybe tables otherwise
        (gen_write (Asm.label else_label lbl) (gen_write (Asm.jmp end_label lbl) then_gen))
      ≡ done else_gen
  pub last : g' ≡ gen_write (Asm.label end_label lbl) else_gen

pub if-IfParts :
    {p : Place} (op : Token) (body : Node) (otherwise : MaybeNode) {c : Node} {ty ty' : Ty}
    {w : Width} {v n : ℕ} (g : Gen) {g' : Gen}
    → width_of (kind_of ty) ≡ done w
    → (cond : Compiled p c ty w v n (next_label g))
    → emit p.tables (Ast.if_stmt op c body otherwise) g ≡ done (ty', g')
    → IfParts p.tables body otherwise g.label_count
        (gen_write
          (Asm.je else_label g.label_count)
          (gen_write (Asm.cmp_zero (sub_of rax w)) (gen_write_all cond.code (next_label g))))
        g'
unfolding emit
if-IfParts {p} op body otherwise {ty = ty} g k cond e =
    let inner = rw (cond.emits, subregister-rax (kind_of ty) k) at (statement-done _ e) in
    let (r, h, k2) = >>=-eq-done (emit p.tables body _) _ inner in
    let (g5, h5, k5) = >>=-eq-done (emit_maybe p.tables otherwise _) _ k2 in
    record {
      ty = r.0;
      then_gen = r.1;
      then_emits = h;
      else_gen = g5;
      else_emits = h5;
      last = sym (done-injective k5);
    }

-- The runs inside of that for a loop.
pub record WhileParts (tables : List Hashtable) (c body : Node) (g g' : Gen) : Type 0 where
  pub ty : Ty
  pub body_gen : Gen
  pub body_emits :
      emit tables body (
        gen_write
          (Asm.label while_label g.label_count)
          (gen_write (Asm.jmp cond_label g.label_count) (next_label g)))
      ≡ done (ty, body_gen)
  pub cond_ty : Ty
  pub cond_gen : Gen
  pub cond_emits :
      emit tables c (gen_write (Asm.label cond_label g.label_count) body_gen)
      ≡ done (cond_ty, cond_gen)
  pub sub : Sub
  pub sub_of_cond : subregister rax (kind_of cond_ty) ≡ done sub
  pub last :
      g' ≡ gen_write (Asm.jne while_label g.label_count) (gen_write (Asm.cmp_zero sub) cond_gen)

pub while-WhileParts :
    (tables : List Hashtable) (op : Token) (c body : Node) {ty : Ty} (g : Gen) {g' : Gen}
    → emit tables (Ast.while_stmt op c body) g ≡ done (ty, g')
    → WhileParts tables c body g g'
unfolding emit
while-WhileParts tables op c body g e =
    let (r, h, k) = >>=-eq-done (emit tables body _) _ (statement-done _ e) in
    let (q, h2, k2) = >>=-eq-done (emit tables c _) _ k in
    let (s, h3, k3) = >>=-eq-done (subregister rax _) _ k2 in
    record {
      ty = r.0;
      body_gen = r.1;
      body_emits = h;
      cond_ty = q.0;
      cond_gen = q.1;
      cond_emits = h2;
      sub = s;
      sub_of_cond = h3;
      last = sym (done-injective k3);
    }
