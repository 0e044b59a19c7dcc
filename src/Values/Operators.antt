-- ===== src/Values/Operators.antt =====
-- What the lines of an operator leave in `rax`, against its value.
use mathlib.Core.Path.{subst}
use seron.Prelude.{
  ℕ, ◌+◌, ◌-◌, ◌*◌, ◌%◌, ◌^◌, ◌==◌, ◌≡◌, refl, ap, ◌∙◌, bit_and, bit_or, not, List, [], ◌∷◌, none,
  some, arith,
}
use seron.Ast.{BinOpKind}
use seron.Asm
use seron.Asm.{rax, rdi, Register, Width, byte, dword, qword, Sub, Alu, Cond, Instr}
use seron.Machine.{
  Machine, modulus, get, put, step, below, compared, holds, merged, multiply, operation, high,
}
use seron.Machine.Words.{flagged, flagged-mod, merged-mod, mod-mod}
use seron.Machine.Steps.{Ends, Ends-nil, Ends-cons, step-alu, same_width_refl}
use seron.Codegen.{operate}
use seron.Values.{value}

-- The value is in `rax`, and the stack and the memory are as they were.
pub record Leaves (w : Width) (v : ℕ) (m m' : Machine) : Type 0 where
  pub result : m'.regs rax % modulus w ≡ v
  pub rsp : m'.rsp ≡ m.rsp
  pub rbp : m'.rbp ≡ m.rbp
  pub memory : m'.memory ≡ m.memory

abbrev pub sub_of : Register → Width → Sub
sub_of r w = record { reg = r; width = w }

none-some : {v : ℕ} → none ≡ some v → ⊥
none-some e = cc

multiply-Leaves :
    (w : Width) (m : Machine) (a b : ℕ) → Leaves w (a * b % modulus w) m (multiply w a b m)
unfolding multiply
multiply-Leaves byte m a b = record {
  result = low_part (m.regs rax) (high byte a b) (a * b);
  rsp = refl;
  rbp = refl;
  memory = refl;
}
  where
    low_part : (old h p : ℕ) → (old - old % 2 ^ 16 + (h * 2 ^ 8 + p % 2 ^ 8)) % 2 ^ 8 ≡ p % 2 ^ 8
    low_part old h p = omega arith
multiply-Leaves dword m a b = record {
  result = mod-mod dword (a * b);
  rsp = refl;
  rbp = refl;
  memory = refl;
}
multiply-Leaves qword m a b = record {
  result = mod-mod qword (a * b);
  rsp = refl;
  rbp = refl;
  memory = refl;
}

module _ (w : Width) (m : Machine) where
  abbrev a : ℕ
  a = m.regs rax % modulus w

  abbrev b : ℕ
  b = m.regs rdi % modulus w

  alu_step :
      (op : Alu)
      → step (Asm.alu op (sub_of rax w) (sub_of rdi w)) m ≡ some (operation op (sub_of rax w) a b m)
  unfolding get
  alu_step op = step-alu op (sub_of rax w) (sub_of rdi w) m (same_width_refl w)

  Leaves-put : (v : ℕ) → Leaves w (v % modulus w) m (put (sub_of rax w) v m)
  unfolding put
  Leaves-put v = record {
    result = merged-mod w (m.regs rax) v;
    rsp = refl;
    rbp = refl;
    memory = refl;
  }

  -- A comparison, and the `set` behind it.
  comparison :
      (c : Cond)
      → Ends
          (Asm.alu Alu.cmp (sub_of rax w) (sub_of rdi w) ∷ Asm.set c (sub_of rax byte) ∷ [])
          m
          (Leaves w (flagged a (holds c (a == b) (below w a b))) m)
  unfolding compared step put
  comparison c = Ends-cons (alu_step Alu.cmp) (
      Ends-cons refl (
        Ends-nil
          record { result = flagged-mod w (m.regs rax) _; rsp = refl; rbp = refl; memory = refl }))

  -- A product, whose low half is in `rax`.
  product : Ends (Asm.imul (sub_of rdi w) ∷ []) m (Leaves w (a * b % modulus w) m)
  unfolding step get
  product = Ends-cons refl (Ends-nil (multiply-Leaves w m a b))

  -- An operation, the comparison of its result with 0, and the `set` behind it.
  logical :
      (op : Alu) (c : ℕ)
      → operation op (sub_of rax w) a b m ≡ put (sub_of rax w) c m
      → Ends
          (Asm.alu op (sub_of rax w) (sub_of rdi w)
            ∷ Asm.cmp_zero (sub_of rax w)
            ∷ Asm.set Cond.ne (sub_of rax byte)
            ∷ [])
          m
          (Leaves w (flagged (c % modulus w) (not (c % modulus w == 0))) m)
  unfolding compared step put get
  logical op c h =
      let kept = merged-mod w (m.regs rax) c in
      Ends-cons (alu_step op ∙ ap some h) (
        Ends-cons refl (
          Ends-cons refl (
            Ends-nil record {
              result =
                  flagged-mod w (merged w (m.regs rax) c) _
                  ∙ ap (λ x. flagged x (not (x == 0))) kept;
              rsp = refl;
              rbp = refl;
              memory = refl;
            })))

  valued :
      {code : List Instr} {u v : ℕ}
      → some u ≡ some v
      → Ends code m (Leaves w u m)
      → Ends code m (Leaves w v m)
  valued {code} e h = subst (λ x. Ends code m (Leaves w x m)) (cc) h

  -- In `rax` and `rdi` are two numbers of a width: the lines of an operator leave its value.
  pub operate-Leaves :
      (kind : BinOpKind) {v : ℕ}
      → value kind w a b ≡ some v
      → Ends (operate kind (sub_of rax w) (sub_of rdi w) (sub_of rax byte)) m (Leaves w v m)
  unfolding operate
  operate-Leaves BinOpKind.add h =
      valued h (Ends-cons (alu_step Alu.add) (Ends-nil (Leaves-put (a + b))))
  operate-Leaves BinOpKind.sub h =
      valued h (Ends-cons (alu_step Alu.sub) (Ends-nil (Leaves-put (a + modulus w - b))))
  operate-Leaves BinOpKind.mul h = valued h product
  operate-Leaves BinOpKind.div h = absurd (none-some h)
  operate-Leaves BinOpKind.eq h = valued h (comparison Cond.e)
  operate-Leaves BinOpKind.neq h = valued h (comparison Cond.ne)
  operate-Leaves BinOpKind.gt h = valued h (comparison Cond.g)
  operate-Leaves BinOpKind.gt_eq h = valued h (comparison Cond.ge)
  operate-Leaves BinOpKind.lt h = valued h (comparison Cond.l)
  operate-Leaves BinOpKind.lt_eq h = valued h (comparison Cond.le)
  operate-Leaves BinOpKind.bitwise_or h =
      valued h (Ends-cons (alu_step Alu.or) (Ends-nil (Leaves-put (bit_or a b))))
  operate-Leaves BinOpKind.bitwise_and h =
      valued h (Ends-cons (alu_step Alu.and) (Ends-nil (Leaves-put (bit_and a b))))
  operate-Leaves BinOpKind.log_or h = valued h (logical Alu.or (bit_or a b) refl)
  operate-Leaves BinOpKind.log_and h = valued h (logical Alu.and (bit_and a b) refl)
