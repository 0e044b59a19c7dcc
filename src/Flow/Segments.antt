-- ===== src/Flow/Segments.antt =====
-- The lines that a part of a statement has written, and what they do in a program that holds them.
use mathlib.Core.Path.{subst}
use seron.Prelude.{ℕ, ◌*◌, ◌≤◌, ◌≡◌, refl, ap, sym, ◌∙◌, List, [], ◌∷◌, ◌++◌, append-nil}
use seron.Outcome.{done}
use seron.Types.{Ty, kind_of}
use seron.Ast.{Node}
use seron.Asm
use seron.Asm.{
  Instr, LabelKind, Width, Sub, rax, subregister, width_of, while_label, cond_label, else_label,
  end_label,
}
use seron.Machine.{Machine}
use seron.Codegen.{Gen, emit}
use seron.Values.{Place, Means}
use seron.Values.Operators.{sub_of}
use seron.Values.Frames.{Frame}
use seron.Values.Parts.{subregister-rax}
use seron.Values.Compiled.{Means-width}
use seron.Values.Correct.{compile}
use seron.Effects.Stores.{Left}
use seron.Flow.Suffixes.{Suffix, Suffix-drop, Suffix-tail, Grows, Grows-same}
use seron.Flow.Emission.{done-injective}
use seron.Flow.Arrivals.{Arrives, Arrives-here, Tested, condition}
use seron.Flow.Shapes.{behind_body, from_cond}

-- From the first lines the program gets to the second ones and takes the frame from `p` to `p'`.
abbrev pub Goes : List Instr → List Instr → List Instr → Place → Place → ℕ → Type 0
Goes program code post p p' n =
    (m : Machine) → Frame p m → 8 * n ≤ m.rsp → Arrives program (code, m) post (Left p' m)

module _ (program : List Instr) where
  -- The lines between two texts go from `p` to `p'`.
  pub record Flows (p p' : Place) (n : ℕ) (s t : List Instr) : Type 0 where
    pub code : List Instr
    pub grows : Grows s t code
    pub goes :
        (post : List Instr)
        → Suffix program (code ++ post)
        → Goes program (code ++ post) post p p' n

  -- Given lines that are those between the texts.
  pub Flows-given :
      {p p' : Place} {n : ℕ} {s t : List Instr} (f : Flows p p' n s t) (code : List Instr)
      (post : List Instr)
      → Grows s t code
      → Suffix program (code ++ post)
      → Goes program (code ++ post) post p p' n
  Flows-given {p} {p'} {n} f code post g h =
      let e = Grows-same f.grows g in
      subst (λ c. Suffix program (c ++ post) → Goes program (c ++ post) post p p' n) e (f.goes post)
        h

  -- Where the parts of a branch stand in the program.
  pub record Parts (lbl : ℕ) (body other post : List Instr) : Type 0 where
    pub at_body : Suffix program (body ++ behind_body lbl other post)
    pub at_else :
        Suffix program (Asm.label else_label lbl ∷ (other ++ Asm.label end_label lbl ∷ post))
    pub at_other : Suffix program (other ++ Asm.label end_label lbl ∷ post)
    pub at_end : Suffix program (Asm.label end_label lbl ∷ post)

  pub parts :
      (lbl : ℕ) (w : Width) (cond body other post : List Instr)
      → Suffix program (from_cond lbl w cond body other post)
      → Parts lbl body other post
  parts lbl w cond body other post h =
      let at_body =
        Suffix-tail program _ _ (Suffix-tail program _ _ (Suffix-drop program cond _ h)) in
      let at_else = Suffix-tail program _ _ (Suffix-drop program body _ at_body) in
      let at_other = Suffix-tail program _ _ at_else in
      record {
        at_body = at_body;
        at_else = at_else;
        at_other = at_other;
        at_end = Suffix-drop program other _ at_other;
      }

  -- Lines in another form.
  pub recast :
      {p p' : Place} (n : ℕ) {code code' post : List Instr}
      → code ≡ code'
      → (Suffix program code' → Goes program code' post p p' n)
      → Suffix program code
      → Goes program code post p p' n
  recast {p} {p'} n {post = post} e k =
      subst (λ c. Suffix program c → Goes program c post p p' n) (sym e) k

  pub nothing-Flows : {p : Place} {s t : List Instr} → t ≡ s → Flows p p 0 s t
  nothing-Flows {s = s} e = record {
    code = [];
    grows = record { text = e ∙ sym (append-nil s) };
    goes = λ post suffix m f room. Arrives-here (f, refl);
  }

  -- The test of a condition whose code was written by a run of `emit`.
  pub test :
      {p : Place} {c : Node} {ty tyc : Ty} {w : Width} {v k : ℕ} {sub : Sub} {code : List Instr}
      (g cg : Gen) (rest : List Instr)
      → Means p c ty w v k
      → g.scope ≡ p.scope
      → emit p.tables c g ≡ done (tyc, cg)
      → subregister rax (kind_of tyc) ≡ done sub
      → Grows g.buf_text cg.buf_text code
      → (m : Machine) → Frame p m
      → 8 * k ≤ m.rsp
      → Arrives program (code ++ Asm.cmp_zero sub ∷ rest, m) rest (Tested p v m)
  test {p} {ty = ty} {tyc} {w = w} {v} {sub = sub} {code} g cg rest cv e h hs gr m f room =
      let cond = compile g e cv in
      let same = done-injective (sym cond.emits ∙ h) in
      let subs : sub_of rax w ≡ sub = done-injective (
        sym (subregister-rax (kind_of ty) (Means-width cv))
        ∙ ap (λ r. subregister rax (kind_of r.0)) same
        ∙ hs) in
      let codes : cond.code ≡ code =
        Grows-same (record { text = ap (λ r. r.1.buf_text) (sym same) }) gr in
      subst (λ c. Arrives program (c ++ Asm.cmp_zero sub ∷ rest, m) rest (Tested p v m)) codes
        (subst (λ s. Arrives program (cond.code ++ Asm.cmp_zero s ∷ rest, m) rest (Tested p v m))
          subs (condition rest m cond f room))
