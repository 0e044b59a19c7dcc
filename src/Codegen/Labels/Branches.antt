-- ===== src/Codegen/Labels/Branches.antt =====
-- The labels of `while_` and `cond` of seronc/codegen.c.
use seron.Prelude.{refl, [], ◌∷◌, ℕ, ◌+◌, arith}
use seron.Asm.{
  LabelKind, else_label, end_label, while_label, cond_label, Instr, subregister, Sub, push_rax,
}
use seron.Asm
use seron.Codegen.{Gen, gen_write, next_label}
use seron.Codegen.Labels.{at-loop, at-branch, between-join}
use seron.Codegen.Labels.Emits.{Extends-trans, Extends-write, Emits, defined-write, used-write}

module _ (k : LabelKind) (n : ℕ) where
  -- A loop, between the runs for its body and its condition.
  pub Emits-while :
      (g b c : Gen) (s : Sub)
      → Emits k n
          (gen_write
            (Asm.label while_label g.label_count)
            (gen_write (Asm.jmp cond_label g.label_count) (next_label g)))
          b
      → Emits k n (gen_write (Asm.label cond_label g.label_count) b) c
      → Emits k n g (gen_write (Asm.jne while_label g.label_count) (gen_write (Asm.cmp_zero s) c))
  Emits-while g b c s h h' =
      let i1 = Asm.jmp cond_label g.label_count in
      let g1 = gen_write i1 (next_label g) in
      let i2 = Asm.label while_label g.label_count in
      let g2 = gen_write i2 g1 in
      let i3 = Asm.label cond_label g.label_count in
      let i4 = Asm.cmp_zero s in
      let d1 = defined-write k n i1 (next_label g) in
      let d2 = defined-write k n i2 g1 in
      let d3 = defined-write k n i3 b in
      let d4 = defined-write k n i4 c in
      let d5 = defined-write k n (Asm.jne while_label g.label_count) (gen_write i4 c) in
      let u1 = used-write k n i1 (next_label g) in
      let u2 = used-write k n i2 g1 in
      let u3 = used-write k n i3 b in
      let u4 = used-write k n i4 c in
      let u5 = used-write k n (Asm.jne while_label g.label_count) (gen_write i4 c) in
      record {
        scope = cc;
        extends = Extends-write (Asm.jne while_label g.label_count) (
            Extends-write i4 (
              Extends-trans
                (Extends-write i3 (
                  Extends-trans (Extends-write i2 (record { code = i1 ∷ []; text = refl }))
                    h.extends))
                h'.extends));
        counts = omega (arith, h.counts, h'.counts);
        keeps = omega (arith, d1, d2, d3, d4, d5, h.keeps, h'.keeps);
        fresh = omega (
          arith,
          d1,
          d2,
          d3,
          d4,
          d5,
          h.fresh,
          h'.fresh,
          at-loop k n g.label_count,
          between-join g.label_count (g.label_count + 1) b.label_count n (omega arith) h.counts,
          between-join g.label_count b.label_count c.label_count n (omega (arith, h.counts))
              h'.counts,
        );
        covers = λ e. omega (
          arith,
          e,
          d1,
          d2,
          d3,
          d4,
          d5,
          u1,
          u2,
          u3,
          u4,
          u5,
          h.keeps,
          h'.keeps,
          h.covers (omega (arith, e, d1, d2, d3, d4, d5, h.keeps, h'.keeps)),
          h'.covers (omega (arith, e, d1, d2, d3, d4, d5, h.keeps, h'.keeps)),
        );
      }

  -- A branch, between the runs for its condition and its two bodies.
  pub Emits-if :
      (g a b c : Gen) (s : Sub)
      → Emits k n (next_label g) a
      → Emits k n (gen_write (Asm.je else_label g.label_count) (gen_write (Asm.cmp_zero s) a)) b
      → Emits k n
          (gen_write
            (Asm.label else_label g.label_count)
            (gen_write (Asm.jmp end_label g.label_count) b))
          c
      → Emits k n g (gen_write (Asm.label end_label g.label_count) c)
  Emits-if g a b c s h h' h'' =
      let i1 = Asm.cmp_zero s in
      let i2 = Asm.je else_label g.label_count in
      let i3 = Asm.jmp end_label g.label_count in
      let i4 = Asm.label else_label g.label_count in
      let i5 = Asm.label end_label g.label_count in
      let d1 = defined-write k n i1 a in
      let d2 = defined-write k n i2 (gen_write i1 a) in
      let d3 = defined-write k n i3 b in
      let d4 = defined-write k n i4 (gen_write i3 b) in
      let d5 = defined-write k n i5 c in
      let u1 = used-write k n i1 a in
      let u2 = used-write k n i2 (gen_write i1 a) in
      let u3 = used-write k n i3 b in
      let u4 = used-write k n i4 (gen_write i3 b) in
      let u5 = used-write k n i5 c in
      record {
        scope = cc;
        extends = Extends-write i5 (
            Extends-trans
              (Extends-write i4 (
                Extends-write i3
                  (Extends-trans (Extends-write i2 (Extends-write i1 h.extends)) h'.extends)))
              h''.extends);
        counts = omega (arith, h.counts, h'.counts, h''.counts);
        keeps = omega (arith, d1, d2, d3, d4, d5, h.keeps, h'.keeps, h''.keeps);
        fresh = omega (
          arith,
          d1,
          d2,
          d3,
          d4,
          d5,
          h.fresh,
          h'.fresh,
          h''.fresh,
          at-branch k n g.label_count,
          between-join g.label_count (g.label_count + 1) a.label_count n (omega arith) h.counts,
          between-join g.label_count a.label_count b.label_count n (omega (arith, h.counts))
              h'.counts,
          between-join g.label_count b.label_count c.label_count n
              (omega (arith, h.counts, h'.counts)) h''.counts,
        );
        covers = λ e. omega (
          arith,
          e,
          d1,
          d2,
          d3,
          d4,
          d5,
          u1,
          u2,
          u3,
          u4,
          u5,
          h.keeps,
          h'.keeps,
          h''.keeps,
          h.covers (omega (arith, e, d1, d2, d3, d4, d5, h.keeps, h'.keeps, h''.keeps)),
          h'.covers (omega (arith, e, d1, d2, d3, d4, d5, h.keeps, h'.keeps, h''.keeps)),
          h''.covers (omega (arith, e, d1, d2, d3, d4, d5, h.keeps, h'.keeps, h''.keeps)),
        );
      }
