-- ===== src/Effects/Correct.antt =====
-- The code of statements without jumps does to the frame what the statements do.
use seron.Prelude.{
  ℕ, ◌*◌, ◌≤◌, ◌≡◌, refl, ap, sym, ◌∙◌, List, [], ◌++◌, Option, some, arith, append-nil,
}
use seron.Outcome.{done, ◌>>=◌}
use seron.Types.{Ty, void_type}
use seron.Ast.{Node, Nodes}
use seron.Asm.{Instr}
use seron.Machine.{Machine, run}
use seron.Machine.Steps.{Ends, Ends-nil, Ends-append, Ends-map}
use seron.Codegen.{Gen, gen_write_all, emit, emit_list, in_scope}
use seron.Values.{Place}
use seron.Values.Frames.{Frame}
use seron.Values.Parts.{write-join}
use seron.Values.Compiled.{Means-width}
use seron.Values.Unary.{After-Frame}
use seron.Values.Correct.{compile}
use seron.Effects.{
  at_scope, Does, evaluated, bare, declared, assigned, blocked, DoesAll, finished, followed,
}
use seron.Effects.Stores.{Left, Written, declared-Written, assigned-Written}

record WrittenAll (p p' : Place) (ss : Nodes) (n : ℕ) (g : Gen) : Type 0 where
  code : List Instr
  emits : emit_list p.tables ss g ≡ done (gen_write_all code g)
  runs : (m : Machine) → Frame p m → 8 * n ≤ m.rsp → Ends code m (Left p' m)

-- Places that follow each other have the same tables and the same scope.
mutual
  pub Does-tables : {p p' : Place} {s : Node} {n : ℕ} → Does p s p' n → p'.tables ≡ p.tables
  Does-tables (evaluated h) = refl
  Does-tables bare = refl
  Does-tables (declared h k f) = refl
  Does-tables (assigned l f h k) = refl
  Does-tables (blocked h) = DoesAll-tables h

  DoesAll-tables : {p p' : Place} {ss : Nodes} {n : ℕ} → DoesAll p ss p' n → p'.tables ≡ p.tables
  DoesAll-tables finished = refl
  DoesAll-tables (followed h hs) = DoesAll-tables hs ∙ Does-tables h

pub Does-scope : {p p' : Place} {s : Node} {n : ℕ} → Does p s p' n → p'.scope ≡ p.scope
Does-scope (evaluated h) = refl
Does-scope bare = refl
Does-scope (declared h k f) = refl
Does-scope (assigned l f h k) = refl
Does-scope (blocked h) = refl

nothing-join : (g : Gen) → gen_write_all [] g ≡ g
nothing-join g = ap (λ t. record g { buf_text = t }) (append-nil g.buf_text)

pub scope-Frame :
    {p : Place} {scope : Option ℕ} {m : Machine} → Frame p m → Frame (at_scope scope p) m
scope-Frame f = record { rbp = f.rbp; stack = f.stack; address = f.address; same = f.same }

mutual
  unfolding emit emit_list

  pub Does-Written :
      {p p' : Place} {s : Node} {n : ℕ} (g : Gen)
      → g.scope ≡ p.scope
      → Does p s p' n
      → Written p p' s n g
  Does-Written g e (evaluated {ty} h) =
      let c = compile g e h in
      record {
        ty = ty;
        code = c.code;
        emits = c.emits;
        runs = λ m fr room. Ends-map (c.runs m fr room) λ m1 a. (After-Frame fr a, a.rsp);
      }
  Does-Written g e bare = record {
    ty = void_type;
    code = [];
    emits = ap (λ x. done (void_type, x)) (sym (nothing-join g));
    runs = λ m fr room. Ends-nil (fr, refl);
  }
  Does-Written g e (declared h k f) = declared-Written (Means-width h) (compile g e h) k f
  Does-Written g e (assigned l f h k) = assigned-Written (Means-width h) l f e (compile _ e h) k
  Does-Written {p} g e (blocked {p'} {scope = scope} h) =
      let c = DoesAll-Written (in_scope scope g) refl h in
      record {
        ty = void_type;
        code = c.code;
        emits = rw c.emits;
        runs = λ m fr room.
            Ends-map (c.runs m (scope-Frame fr) room) λ m1 (fr1, r). (scope-Frame fr1, r);
      }

  DoesAll-Written :
      {p p' : Place} {ss : Nodes} {n : ℕ} (g : Gen)
      → g.scope ≡ p.scope
      → DoesAll p ss p' n
      → WrittenAll p p' ss n g
  DoesAll-Written g e finished = record {
    code = [];
    emits = ap done (sym (nothing-join g));
    runs = λ m fr room. Ends-nil (fr, refl);
  }
  DoesAll-Written {p} g e (followed {p1 = p1} {p2} {s} {ss} h hs) =
      let c = Does-Written g e h in
      let d = DoesAll-Written (gen_write_all c.code g) (e ∙ sym (Does-scope h)) hs in
      record {
        code = c.code ++ d.code;
        emits =
            ap (λ r. do (_, x) ← r; emit_list p.tables ss x) c.emits
            ∙ ap (λ t. emit_list t ss (gen_write_all c.code g)) (sym (Does-tables h))
            ∙ d.emits
            ∙ ap done (write-join c.code d.code g);
        runs = λ m fr room. Ends-append (c.runs m fr (omega (arith, room))) λ m1 (fr1, r).
            Ends-map (d.runs m1 fr1 (omega (arith, r, room))) λ m2 (fr2, r2). (fr2, r2 ∙ r);
      }

-- A statement that takes a frame to another, in the scope of the frame: `emit` returns for it and appends
-- lines to the text. In every machine in the first frame with room for its words on the stack these
-- lines run to an end, in a machine that is in the second frame and has the stack pointer from before.
pub emit-Does :
    {p p' : Place} {s : Node} {n : ℕ} (g : Gen)
    → g.scope ≡ p.scope
    → Does p s p' n
    → (ty : Ty) × (code : List Instr) × (emit p.tables s g ≡ done (ty, gen_write_all code g))
      × ((m : Machine)
          → Frame p m
          → 8 * n ≤ m.rsp
          → (m' : Machine) × (run code m ≡ some m') × Frame p' m' × (m'.rsp ≡ m.rsp))
emit-Does g e h =
    let c = Does-Written g e h in
    (
      c.ty,
      c.code,
      c.emits,
      λ m f room. let r = c.runs m f room in (r.machine, r.ends, r.has.0, r.has.1),
    )
