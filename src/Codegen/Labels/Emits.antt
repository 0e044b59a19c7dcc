-- ===== src/Codegen/Labels/Emits.antt =====
-- What a piece of seronc/codegen.c does to the labels of a text.
use seron.Prelude.{
  ap, sym, ◌∙◌, append_assoc, append-nil, ◌++◌, ℕ, ◌+◌, ◌≤◌, ◌≡◌, refl, List, [], ◌∷◌, arith,
}
use seron.Outcome.{Outcome, Returns, returned, exited, panicked, faulted}
use seron.Types.{Ty}
use seron.Asm.{LabelKind, Instr}
use seron.Codegen.{Gen, gen_write, gen_write_all}
use seron.Codegen.Labels.{
  defines, jumps, tally, tally-append, tally-snoc, definitions, uses, between, between-join,
}

-- The second text is the first one with some lines behind it.
pub record Extends (s t : List Instr) : Type 0 where
  pub code : List Instr
  pub text : t ≡ s ++ code

pub Extends-trans : {s t u : List Instr} → Extends s t → Extends t u → Extends s u
Extends-trans {s} h h' = record {
  code = h.code ++ h'.code;
  text = h'.text ∙ ap (λ t. t ++ h'.code) h.text ∙ append_assoc s h.code h'.code;
}

pub Extends-write : {s t : List Instr} (i : Instr) → Extends s t → Extends s (t ++ i ∷ [])
Extends-write {s} {t} i h = Extends-trans h (record { code = i ∷ []; text = refl })

module _ (k : LabelKind) (n : ℕ) where
  abbrev pub defined : Gen → ℕ
  defined g = definitions k n g.buf_text

  abbrev pub used : Gen → ℕ
  used g = uses k n g.buf_text

  pub defined-write : (i : Instr) (g : Gen) → defined (gen_write i g) ≡ defined g + defines k n i
  defined-write i g = tally-snoc (defines k n) g.buf_text i

  pub used-write : (i : Instr) (g : Gen) → used (gen_write i g) ≡ used g + jumps k n i
  used-write i g = tally-snoc (jumps k n) g.buf_text i

  -- From `g` to `g'`: the scope is the same, the text has grown, no label is taken back, and the label has at most one
  -- definition more, which has a number that was taken meanwhile. If it has none, no jump to it
  -- was added.
  pub record Emits (g g' : Gen) : Type 0 where
    pub scope : g'.scope ≡ g.scope
    pub extends : Extends g.buf_text g'.buf_text
    pub counts : g.label_count ≤ g'.label_count
    pub keeps : defined g ≤ defined g'
    pub fresh : defined g' ≤ defined g + between g.label_count g'.label_count n
    pub covers : defined g' ≡ defined g → used g' ≡ used g

  pub Emits-refl : (g : Gen) → Emits g g
  Emits-refl g = record {
    scope = refl;
    extends = record { code = []; text = sym (append-nil g.buf_text) };
    counts = omega arith;
    keeps = omega arith;
    fresh = omega arith;
    covers = λ e. refl;
  }

  pub Emits-trans : (a b c : Gen) → Emits a b → Emits b c → Emits a c
  Emits-trans a b c h h' = record {
    scope = cc;
    extends = Extends-trans h.extends h'.extends;
    counts = omega (arith, h.counts, h'.counts);
    keeps = omega (arith, h.keeps, h'.keeps);
    fresh = omega (
      arith,
      h.fresh,
      h'.fresh,
      between-join a.label_count b.label_count c.label_count n h.counts h'.counts,
    );
    covers = λ e. omega (
      arith,
      h.covers (omega (arith, e, h.keeps, h'.keeps)),
      h'.covers (omega (arith, e, h.keeps, h'.keeps)),
    );
  }

  -- A line that is no label and no numbered jump.
  abbrev pub Plain : Instr → Type 0
  Plain i = (defines k n i ≡ 0) × (jumps k n i ≡ 0)

  pub Emits-write : (i : Instr) (g : Gen) → Plain i → Emits g (gen_write i g)
  Emits-write i g (h, h') = record {
    scope = refl;
    extends = record { code = i ∷ []; text = refl };
    counts = omega arith;
    keeps = omega (arith, tally-snoc (defines k n) g.buf_text i);
    fresh = omega (arith, tally-snoc (defines k n) g.buf_text i, h);
    covers = λ e. omega (arith, tally-snoc (jumps k n) g.buf_text i, h');
  }

  -- One more line behind.
  pub Emits-line : {a b : Gen} (i : Instr) → Emits a b → Plain i → Emits a (gen_write i b)
  Emits-line {a} {b} i h p = Emits-trans a b _ h (Emits-write i b p)

  abbrev pub Writes : Gen → Outcome Gen → Type 0
  Writes g r = Returns (λ g'. Emits g g') r

  abbrev pub WritesTyped : Gen → Outcome (Ty × Gen) → Type 0
  WritesTyped g r = Returns (λ p. Emits g p.1) r

  -- What follows another run.
  pub Writes-from : {a b : Gen} {r : Outcome Gen} → Emits a b → Writes b r → Writes a r
  Writes-from {a} {b} h (returned {a = c} h') = returned (Emits-trans a b c h h')
  Writes-from h exited = exited
  Writes-from h panicked = panicked
  Writes-from h faulted = faulted

  pub WritesTyped-from :
      {a b : Gen} {r : Outcome (Ty × Gen)} → Emits a b → WritesTyped b r → WritesTyped a r
  WritesTyped-from {a} {b} h (returned {a = c} h') = returned (Emits-trans a b c.1 h h')
  WritesTyped-from h exited = exited
  WritesTyped-from h panicked = panicked
  WritesTyped-from h faulted = faulted

  -- Lines of which none is a label or a numbered jump.
  abbrev pub AllPlain : List Instr → Type 0
  AllPlain [] = Unit
  AllPlain (i ∷ code) = Plain i × AllPlain code

  Plain-tally :
      (code : List Instr) → AllPlain code → (definitions k n code ≡ 0) × (uses k n code ≡ 0)
  unfolding tally
  Plain-tally [] h = (refl, refl)
  Plain-tally (i ∷ code) (h, hs) =
      let (d, u) = Plain-tally code hs in (omega (arith, h.0, d), omega (arith, h.1, u))

  pub Emits-write_all :
      (code : List Instr) (g : Gen) → AllPlain code → Emits g (gen_write_all code g)
  Emits-write_all code g h =
      let (d, u) = Plain-tally code h in
      record {
        scope = refl;
        extends = record { code = code; text = refl };
        counts = omega arith;
        keeps = omega (arith, tally-append (defines k n) g.buf_text code);
        fresh = omega (arith, tally-append (defines k n) g.buf_text code, d);
        covers = λ e. omega (arith, tally-append (jumps k n) g.buf_text code, u);
      }
