-- ===== src/Flow/Correct.antt =====
-- The code of statements with branches and loops does to the frame what the statements do.
use mathlib.Core.Path.{subst}
use seron.Prelude.{
  ℕ, ◌+◌, ◌*◌, ◌≤◌, ◌≡◌, refl, ap, sym, ◌∙◌, List, [], ◌∷◌, ◌++◌, append_assoc, arith,
}
use seron.Outcome.{done, >>=-eq-done}
use seron.Types.{Ty}
use seron.Ast.{Node, Nodes, MaybeNode}
use seron.Hashtable.{Hashtable}
use seron.Asm
use seron.Asm.{
  Instr, LabelKind, Width, Sub, rax, subregister, width_of, while_label, cond_label, else_label,
  end_label,
}
use seron.Machine.{Machine}
use seron.Control.{Reaches}
use seron.Codegen.Labels.{definitions}
use seron.Codegen.{Gen, next_label, in_scope, emit, emit_list, emit_maybe}
use seron.Values.{Place}
use seron.Values.Frames.{Frame}
use seron.Values.Compiled.{Means-width}
use seron.Values.Correct.{compile}
use seron.Effects.Correct.{Does-Written, scope-Frame}
use seron.Flow.{
  Executes, straight, nested, taken, skipped, looped, ExecutesAll, ended, chained, ExecutesMaybe,
  absent, present, Loops, exited, again,
}
use seron.Flow.Suffixes.{
  Suffix, Suffix-drop, Suffix-tail, Unique, advance-jmp, advance-je_taken, advance-je_not,
  advance-jne_taken, advance-jne_not, advance-label, Grows, Grows-then, Grows-write,
}
use seron.Flow.Emission.{
  emit-Added, emit_maybe-Added, statement-done, emit-same, done-injective, if-IfParts, WhileParts,
  while-WhileParts, then_start, else_start, body_start, cond_start,
}
use seron.Flow.Arrivals.{
  Arrives-here, Arrives-next, Arrives-then, Arrives-map, Arrives-run, condition,
}
use seron.Flow.Shapes.{
  Left-then, if_code, behind_body, if_assoc, from_test, from_body, while_code, while_assoc,
  if-Grows,
}
use seron.Flow.Places.{Executes-tables, Executes-scope}
use seron.Flow.Segments.{Goes, Flows, Flows-given, parts, recast, nothing-Flows, test}

module _ (program : List Instr) (unique : Unique program) where
  mutual
    unfolding emit emit_list emit_maybe

    Executes-Flows :
        {p p' : Place} {s : Node} {n : ℕ} (g g' : Gen) {ty : Ty}
        → g.scope ≡ p.scope
        → emit p.tables s g ≡ done (ty, g')
        → Executes p s p' n
        → Flows program p p' n g.buf_text g'.buf_text
    Executes-Flows g g' e h (straight d) =
        let c = Does-Written g e d in
        record {
          code = c.code;
          grows = record { text = ap (λ g. g.buf_text) (emit-same c.emits h) };
          goes = λ post suffix m f room. Arrives-run post (c.runs m f room);
        }
    Executes-Flows {p} g g' e h (nested {stmts = stmts} {scope} hs) =
        let (g1, h1, k1) =
          >>=-eq-done (emit_list p.tables stmts (in_scope scope g)) _ (statement-done _ h) in
        let f = ExecutesAll-Flows (in_scope scope g) g1 refl h1 hs in
        record {
          code = f.code;
          grows = record { text = ap (λ g. g.buf_text) (sym (done-injective k1)) ∙ f.grows.text };
          goes = λ post suffix m fr room.
              Arrives-map (f.goes post suffix m (scope-Frame fr) room)
                λ m1 (fr1, r). (scope-Frame fr1, r);
        }
    Executes-Flows {p} g g' e h
          (taken {op = op} {c} {body} {otherwise} {w = w} {k = k} {n = n} cv z d) =
        let lbl = g.label_count in
        let cond = compile (next_label g) e cv in
        let q = if-IfParts op body otherwise g (Means-width cv) cond h in
        let f = Executes-Flows (then_start g w cond.code) q.then_gen e q.then_emits d in
        let o = emit_maybe-Added p.tables otherwise (else_start lbl q.then_gen) q.else_emits in
        record {
          code = if_code lbl w cond.code f.code o.code;
          grows = if-Grows cond q f.grows o.grows;
          goes = λ post.
              recast program (k + n) (if_assoc lbl w cond.code f.code o.code post)
                λ suffix m fr room.
                  let at = parts program lbl w cond.code f.code o.code post suffix in
                  Arrives-then
                    (condition (Asm.je else_label lbl ∷ (f.code ++ behind_body lbl o.code post)) m
                      cond fr (omega (arith, room)))
                    λ m1 t.
                      Arrives-next (advance-je_not program unique else_label lbl _ m1 (t.equal ∙ z))
                        (Arrives-then
                          (f.goes (behind_body lbl o.code post) at.at_body m1 t.frame
                            (omega (arith, t.rsp, room)))
                          λ m2 l.
                            Arrives-next
                              (advance-jmp program unique end_label lbl _ post m2 at.at_end)
                              (Arrives-here (Left-then m m1 m2 t.rsp l)));
        }
    Executes-Flows {p} g g' e h
          (skipped {op = op} {c} {body} {otherwise} {w = w} {k = k} {n = n} cv z d) =
        let lbl = g.label_count in
        let cond = compile (next_label g) e cv in
        let q = if-IfParts op body otherwise g (Means-width cv) cond h in
        let b = emit-Added p.tables body (then_start g w cond.code) q.then_emits in
        let f =
          ExecutesMaybe-Flows (else_start lbl q.then_gen) q.else_gen (b.scope ∙ e) q.else_emits d in
        record {
          code = if_code lbl w cond.code b.code f.code;
          grows = if-Grows cond q b.grows f.grows;
          goes = λ post.
              recast program (k + n) (if_assoc lbl w cond.code b.code f.code post)
                λ suffix m fr room.
                  let at = parts program lbl w cond.code b.code f.code post suffix in
                  Arrives-then
                    (condition (Asm.je else_label lbl ∷ (b.code ++ behind_body lbl f.code post)) m
                      cond fr (omega (arith, room)))
                    λ m1 t.
                      Arrives-next
                        (advance-je_taken program unique else_label lbl _ _ m1 (t.equal ∙ z)
                          at.at_else)
                        (Arrives-then
                          (f.goes (Asm.label end_label lbl ∷ post) at.at_other m1 t.frame
                            (omega (arith, t.rsp, room)))
                          λ m2 l.
                            Arrives-next (advance-label program unique end_label lbl post m2)
                              (Arrives-here (Left-then m m1 m2 t.rsp l)));
        }
    Executes-Flows {p} g g' e h (looped {op = op} {c} {body} {n = n} l) =
        let lbl = g.label_count in
        let q = while-WhileParts p.tables op c body g h in
        let b = emit-Added p.tables body (body_start g) q.body_emits in
        let t = emit-Added p.tables c (cond_start lbl q.body_gen) q.cond_emits in
        record {
          code = while_code lbl q.sub b.code t.code [];
          grows = Grows-then (Grows-then Grows-write Grows-write) (
              Grows-then b.grows (
                Grows-then Grows-write (
                  Grows-then t.grows
                    (Grows-then Grows-write (record { text = ap (λ g. g.buf_text) q.last })))));
          goes = λ post.
              recast program n (while_assoc lbl q.sub b.code t.code post) λ suffix m fr room.
                let at = Suffix-tail program _ _ suffix in
                let at_cond = Suffix-drop program b.code _ (Suffix-tail program _ _ at) in
                Arrives-next
                  (advance-jmp program unique cond_label lbl _ (from_test lbl q.sub t.code post) m
                    at_cond)
                  (Loops-Goes g g' b.code t.code post p.tables refl q e (b.scope ∙ e) b.grows
                    t.grows at l m fr room);
        }

    -- The rounds of a loop, each from its condition on.
    Loops-Goes :
        {p p' : Place} {c body : Node} {n : ℕ} (g g' : Gen) (cb cc post : List Instr)
        (tables : List Hashtable)
        → tables ≡ p.tables
        → (q : WhileParts tables c body g g') → g.scope ≡ p.scope
        → q.body_gen.scope ≡ p.scope
        → Grows (body_start g).buf_text q.body_gen.buf_text cb
        → Grows (cond_start g.label_count q.body_gen).buf_text q.cond_gen.buf_text cc
        → Suffix program (from_body g.label_count q.sub cb cc post)
        → Loops p c body p' n
        → Goes program (from_test g.label_count q.sub cc post) post p p' n
    Loops-Goes {c = c} g g' cb cc post tables tq q e es gb gc suffix (exited cv z) m fr room =
        Arrives-then
          (test program (cond_start g.label_count q.body_gen) q.cond_gen
            (Asm.jne while_label g.label_count ∷ post) cv es
            (ap (λ t. emit t c (cond_start g.label_count q.body_gen)) (sym tq) ∙ q.cond_emits)
            q.sub_of_cond gc m fr room)
          λ m1 t.
            Arrives-next
              (advance-jne_not program unique while_label g.label_count post m1 (t.equal ∙ z))
              (Arrives-here (t.frame, t.rsp))
    Loops-Goes {c = c} {body} g g' cb cc post tables tq q e es gb gc suffix
          (again {k = k} {m = j} {n = n} cv z d l) m fr room =
        let lbl = g.label_count in
        Arrives-then
          (test program (cond_start lbl q.body_gen) q.cond_gen (Asm.jne while_label lbl ∷ post) cv
            es (ap (λ t. emit t c (cond_start lbl q.body_gen)) (sym tq) ∙ q.cond_emits)
            q.sub_of_cond gc m fr (omega (arith, room)))
          λ m1 t.
            Arrives-next
              (advance-jne_taken program unique while_label lbl post _ m1 (t.equal ∙ z) suffix)
              (Arrives-then
                (Flows-given program
                  (Executes-Flows (body_start g) q.body_gen e
                    (ap (λ t. emit t body (body_start g)) (sym tq) ∙ q.body_emits) d)
                  cb (Asm.label cond_label lbl ∷ from_test lbl q.sub cc post) gb
                  (Suffix-tail program _ _ suffix) m1 t.frame (omega (arith, t.rsp, room)))
                λ m2 (fr2, r2).
                  Arrives-next
                    (advance-label program unique cond_label lbl (from_test lbl q.sub cc post) m2)
                    (Arrives-map
                      (Loops-Goes g g' cb cc post tables (tq ∙ sym (Executes-tables d)) q
                        (e ∙ sym (Executes-scope d)) (es ∙ sym (Executes-scope d)) gb gc suffix l m2
                        fr2 (omega (arith, r2, t.rsp, room)))
                      λ m3 x. Left-then m m2 m3 (r2 ∙ t.rsp) x))

    ExecutesAll-Flows :
        {p p' : Place} {ss : Nodes} {n : ℕ} (g g' : Gen)
        → g.scope ≡ p.scope
        → emit_list p.tables ss g ≡ done g'
        → ExecutesAll p ss p' n
        → Flows program p p' n g.buf_text g'.buf_text
    ExecutesAll-Flows g g' e h ended =
        nothing-Flows program (ap (λ g. g.buf_text) (sym (done-injective h)))
    ExecutesAll-Flows {p} g g' e h (chained {p1 = p1} {s = s} {ss} {m} {n} d ds) =
        let (r, h1, k1) = >>=-eq-done (emit p.tables s g) _ h in
        let f = Executes-Flows g r.1 e h1 d in
        let scope = (emit-Added p.tables s g h1).scope in
        let f2 =
          ExecutesAll-Flows r.1 g' (scope ∙ e ∙ sym (Executes-scope d))
            (ap (λ t. emit_list t ss r.1) (Executes-tables d) ∙ k1) ds in
        record {
          code = f.code ++ f2.code;
          grows = Grows-then f.grows f2.grows;
          goes = λ post.
              recast program (m + n) (append_assoc f.code f2.code post) λ suffix s0 fr room.
                Arrives-then (f.goes (f2.code ++ post) suffix s0 fr (omega (arith, room)))
                  λ m1 (fr1, r1).
                    Arrives-map
                      (f2.goes post (Suffix-drop program f.code _ suffix) m1 fr1
                        (omega (arith, r1, room)))
                      λ m2 l. Left-then s0 m1 m2 r1 l;
        }

    ExecutesMaybe-Flows :
        {p p' : Place} {s : MaybeNode} {n : ℕ} (g g' : Gen)
        → g.scope ≡ p.scope
        → emit_maybe p.tables s g ≡ done g'
        → ExecutesMaybe p s p' n
        → Flows program p p' n g.buf_text g'.buf_text
    ExecutesMaybe-Flows g g' e h absent =
        nothing-Flows program (ap (λ g. g.buf_text) (sym (done-injective h)))
    ExecutesMaybe-Flows {p} {p'} {n = n} g g' e h (present {s = s} d) =
        let (r, h1, k1) = >>=-eq-done (emit p.tables s g) _ h in
        subst (λ t. Flows program p p' n g.buf_text t) (ap (λ g. g.buf_text) (done-injective k1))
          (Executes-Flows g r.1 e h1 d)

-- A program in which no numbered label is defined twice, and a statement with branches and loops that takes a frame
-- to another and ends. If `emit` returns for it, in the scope of the frame, it has appended lines to the
-- text; and wherever these lines stand in the program, every machine in the first frame with room for
-- the words of the statement on its stack gets from the first of them to the line behind them, in the
-- second frame and with the stack pointer from before. Every
-- numbered label is taken to be printed with its number, also by the `%lu` of a loop.
pub emit-Executes :
    (program : List Instr)
    → ((k : LabelKind) (n : ℕ) → definitions k n program ≤ 1)
    → (p p' : Place) (s : Node) (n : ℕ) (g g' : Gen) (ty : Ty) → g.scope ≡ p.scope
    → emit p.tables s g ≡ done (ty, g')
    → Executes p s p' n
    → (code : List Instr) × (g'.buf_text ≡ g.buf_text ++ code)
      × ((before post : List Instr) (m : Machine)
          → program ≡ before ++ (code ++ post)
          → Frame p m
          → 8 * n ≤ m.rsp
          → (m' : Machine) × Reaches program (code ++ post, m) (post, m')
            × Frame p' m'
            × (m'.rsp ≡ m.rsp))
emit-Executes program unique p p' s n g g' ty e h d =
    let f = Executes-Flows program unique g g' e h d in
    (
      f.code,
      f.grows.text,
      λ before post m splits fr room.
          let r = f.goes post (record { before = before; splits = splits }) m fr room in
          (r.machine, r.reaches, r.has.0, r.has.1),
    )
