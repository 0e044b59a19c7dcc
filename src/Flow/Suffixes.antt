-- ===== src/Flow/Suffixes.antt =====
-- The rest of a program from a line on.
use mathlib.Core.List.{append_cancel_left}
use seron.Prelude.{
  ℕ, ◌≤◌, ◌≡◌, refl, ap, sym, ◌∙◌, true, false, List, [], ◌∷◌, ◌++◌, append_assoc, none, some,
  if◌then◌else◌,
}
use seron.Asm
use seron.Asm.{LabelKind, Instr, Width, rax}
use seron.Machine.{Machine, step}
use seron.Codegen.Labels.{definitions}
use seron.Control.{go, advance}
use seron.Control.Targets.{target-once}

-- The lines end the program.
pub record Suffix (program code : List Instr) : Type 0 where
  pub before : List Instr
  pub splits : program ≡ before ++ code

pub Suffix-drop : (program a b : List Instr) → Suffix program (a ++ b) → Suffix program b
Suffix-drop program a b h = record {
  before = h.before ++ a;
  splits = h.splits ∙ sym (append_assoc h.before a b);
}

pub Suffix-tail :
    (program : List Instr) (i : Instr) (b : List Instr) → Suffix program (i ∷ b) → Suffix program b
Suffix-tail program i b h = Suffix-drop program (i ∷ []) b h

-- No label is defined twice.
abbrev pub Unique : List Instr → Type 0
Unique program = (k : LabelKind) (n : ℕ) → definitions k n program ≤ 1

module _ (program : List Instr) (unique : Unique program) where
  pub go-label :
      (k : LabelKind) (n : ℕ) (rest : List Instr) (m : Machine)
      → Suffix program (Asm.label k n ∷ rest)
      → go k n program m ≡ some (rest, m)
  go-label k n rest m h =
      ap (λ o. elim o [ none ↦ none | some code ↦ some (code, m) ])
        (target-once k n program h.before rest h.splits (unique k n))

  pub advance-jmp :
      (k : LabelKind) (n : ℕ) (here' rest : List Instr) (m : Machine)
      → Suffix program (Asm.label k n ∷ rest)
      → advance program (Asm.jmp k n ∷ here', m) ≡ some (rest, m)
  unfolding advance step
  advance-jmp k n here' rest m h = go-label k n rest m h

  pub advance-je_taken :
      (k : LabelKind) (n : ℕ) (here' rest : List Instr) (m : Machine)
      → m.equal ≡ true
      → Suffix program (Asm.label k n ∷ rest)
      → advance program (Asm.je k n ∷ here', m) ≡ some (rest, m)
  unfolding advance step
  advance-je_taken k n here' rest m e h =
      ap (λ b. if b then go k n program m else some (here', m)) e ∙ go-label k n rest m h

  pub advance-je_not :
      (k : LabelKind) (n : ℕ) (rest : List Instr) (m : Machine)
      → m.equal ≡ false
      → advance program (Asm.je k n ∷ rest, m) ≡ some (rest, m)
  unfolding advance step
  advance-je_not k n rest m e = ap (λ b. if b then go k n program m else some (rest, m)) e

  pub advance-jne_taken :
      (k : LabelKind) (n : ℕ) (here' rest : List Instr) (m : Machine)
      → m.equal ≡ false
      → Suffix program (Asm.label k n ∷ rest)
      → advance program (Asm.jne k n ∷ here', m) ≡ some (rest, m)
  unfolding advance step
  advance-jne_taken k n here' rest m e h =
      ap (λ b. if b then some (here', m) else go k n program m) e ∙ go-label k n rest m h

  pub advance-jne_not :
      (k : LabelKind) (n : ℕ) (rest : List Instr) (m : Machine)
      → m.equal ≡ true
      → advance program (Asm.jne k n ∷ rest, m) ≡ some (rest, m)
  unfolding advance step
  advance-jne_not k n rest m e = ap (λ b. if b then some (rest, m) else go k n program m) e

  pub advance-label :
      (k : LabelKind) (n : ℕ) (rest : List Instr) (m : Machine)
      → advance program (Asm.label k n ∷ rest, m) ≡ some (rest, m)
  unfolding advance step
  advance-label k n rest m = refl

-- The second text is the first one with the lines behind it.
pub record Grows (s t code : List Instr) : Type 0 where
  pub text : t ≡ s ++ code

pub Grows-then : {s t u x y : List Instr} → Grows s t x → Grows t u y → Grows s u (x ++ y)
Grows-then {s} {x = x} {y} h k = record {
  text = k.text ∙ ap (λ t. t ++ y) h.text ∙ append_assoc s x y;
}

pub Grows-write : {s x : List Instr} → Grows s (s ++ x) x
Grows-write = record { text = refl }

-- The same text has grown by the same lines.
pub Grows-same : {s t x y : List Instr} → Grows s t x → Grows s t y → x ≡ y
Grows-same {s} {x = x} {y} h k = append_cancel_left s x y (sym h.text ∙ k.text)
