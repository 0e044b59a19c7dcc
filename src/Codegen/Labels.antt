-- ===== src/Codegen/Labels.antt =====
-- The labels that seronc/codegen.c numbers, and the jumps to them.
pub mod Emits
pub mod Branches
pub mod Pieces
pub mod Walk
use seron.Prelude.{
  ℕ, ◌+◌, ◌≤◌, ◌<◌, ◌==◌, ◌≡◌, refl, ◌&&◌, Bool, true, false, List, [], ◌∷◌, ◌++◌, Option, none,
  some, Bytes, if◌then◌else◌, ltb, leb, arith,
}
use seron.Outcome.{
  Outcome, done, Returns, returned, exited, panicked, faulted, Returns-done, Returns-bind,
  Returns-after, ◌>>=◌,
}
use seron.Types.{Ty}
use seron.Asm.{
  LabelKind, else_label, end_label, while_label, cond_label, Instr, subregister, Sub, push_rax,
}
use seron.Asm
use seron.Codegen.{Gen, gen_write, gen_write_all, next_label, statement}

abbrev pub same_label : LabelKind → LabelKind → Bool
same_label else_label else_label = true
same_label end_label end_label = true
same_label while_label while_label = true
same_label cond_label cond_label = true
same_label _ _ = false

-- 1 if the two labels are the same, else 0.
abbrev pub at : LabelKind → ℕ → LabelKind → ℕ → ℕ
at a m b n = if same_label a b && (m == n) then 1 else 0

-- How often a line defines a label, and how often it jumps to it.
abbrev pub defines : LabelKind → ℕ → Instr → ℕ
defines k n (Asm.label a m) = at a m k n
defines k n _ = 0

abbrev pub jumps : LabelKind → ℕ → Instr → ℕ
jumps k n (Asm.jmp a m) = at a m k n
jumps k n (Asm.je a m) = at a m k n
jumps k n (Asm.jne a m) = at a m k n
jumps k n _ = 0

unfoldable pub tally : (Instr → ℕ) → List Instr → ℕ
tally f [] = 0
tally f (i ∷ code) = f i + tally f code

-- How often a label is defined in a text, and how often a jump goes to it.
abbrev pub definitions : LabelKind → ℕ → List Instr → ℕ
definitions k n code = tally (defines k n) code

abbrev pub uses : LabelKind → ℕ → List Instr → ℕ
uses k n code = tally (jumps k n) code

-- 1 from `lo` to below `hi`, else 0.
unfoldable pub between : ℕ → ℕ → ℕ → ℕ
between lo hi n = if leb lo n && ltb n hi then 1 else 0

pub tally-append : (f : Instr → ℕ) (a b : List Instr) → tally f (a ++ b) ≡ tally f a + tally f b
unfolding tally
tally-append f [] b = omega arith
tally-append f (i ∷ a) b = omega (arith, tally-append f a b)

pub between-join : (a b c n : ℕ) → a ≤ b → b ≤ c → between a b n + between b c n ≤ between a c n
unfolding between
between-join a b c n h k = ground arith

pub between-le_one : (a b n : ℕ) → between a b n ≤ 1
unfolding between
between-le_one a b n = ground arith

pub between-lt : (a b n : ℕ) → 1 ≤ between a b n → n < b
unfolding between
between-lt a b n h = ground arith

pub tally-snoc :
    (f : Instr → ℕ) (a : List Instr) (i : Instr) → tally f (a ++ i ∷ []) ≡ tally f a + f i
unfolding tally
tally-snoc f a i = omega (arith, tally-append f a (i ∷ []))

pub at-loop :
    (k : LabelKind) (n m : ℕ) → at while_label m k n + at cond_label m k n ≤ between m (m + 1) n
unfolding between
at-loop else_label n m = omega arith
at-loop end_label n m = omega arith
at-loop while_label n m = ground arith
at-loop cond_label n m = ground arith

pub at-branch :
    (k : LabelKind) (n m : ℕ) → at else_label m k n + at end_label m k n ≤ between m (m + 1) n
unfolding between
at-branch else_label n m = ground arith
at-branch end_label n m = ground arith
at-branch while_label n m = omega arith
at-branch cond_label n m = omega arith
