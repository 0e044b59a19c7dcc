-- ===== src/Values/Frames.antt =====
-- What the code of an expression may change of the machine, and how its parts follow each other.
use mathlib.Core.Path.{subst}
use seron.Prelude.{ℕ, ◌-◌, ◌%◌, ◌^◌, ◌≤◌, ◌<◌, ◌≡◌, refl, ap, sym, ◌∙◌, List, [], ◌∷◌, ◌++◌, arith}
use seron.Asm.{rax, rdi, Width, qword, Instr, push_rax, pop_rdi}
use seron.Machine.{Machine, modulus, step, load, store, minus, push, pop}
use seron.Machine.Memory.{load-ext, store-above, load-store_width}
use seron.Machine.Words.{mod-low}
use seron.Machine.Steps.{Ends, Ends-nil, Ends-cons, Ends-append, Ends-map}
use seron.Values.{Place, InFrame}
use seron.Values.Operators.{Leaves}

-- The machine is in the frame, and its stack grows below it.
pub record Frame (p : Place) (m : Machine) : Type 0 where
  pub rbp : m.rbp ≡ p.rbp
  pub stack : m.rsp ≤ p.floor
  pub address : m.rsp < 2 ^ 64
  pub same : (x : ℕ) → p.floor ≤ x → m.memory x ≡ p.memory x

-- The value is in `rax`; the stack pointer, the frame pointer and the memory from the stack pointer on are
-- as they were.
pub record After (w : Width) (v : ℕ) (m m' : Machine) : Type 0 where
  pub result : m'.regs rax % modulus w ≡ v
  pub rsp : m'.rsp ≡ m.rsp
  pub rbp : m'.rbp ≡ m.rbp
  pub above : (x : ℕ) → m.rsp ≤ x → m'.memory x ≡ m.memory x

pub Leaves-After : {w : Width} {v : ℕ} {m m' : Machine} → Leaves w v m m' → After w v m m'
Leaves-After h = record {
  result = h.result;
  rsp = h.rsp;
  rbp = h.rbp;
  above = λ x q. ap (λ f. f x) h.memory;
}

pub Frame-load :
    (p : Place) (m : Machine) (n a : ℕ)
    → Frame p m
    → p.floor ≤ a
    → load n m.memory a ≡ load n p.memory a
Frame-load p m n a f h = load-ext n m.memory p.memory a λ x q. f.same x (omega (arith, h, q))

pub Frame-minus :
    (p : Place) (m : Machine) (offset : ℕ)
    → Frame p m
    → InFrame p offset
    → minus m.rbp offset ≡ p.rbp - offset
Frame-minus p m offset f h = omega (arith, f.rbp, h.above, h.address)

-- The two operands of an operator are in `rax` and `rdi`.
pub record Operands (w : Width) (a b : ℕ) (m m' : Machine) : Type 0 where
  pub left : m'.regs rax % modulus w ≡ a
  pub right : m'.regs rdi % modulus w ≡ b
  pub rsp : m'.rsp ≡ m.rsp
  pub rbp : m'.rbp ≡ m.rbp
  pub above : (x : ℕ) → m.rsp ≤ x → m'.memory x ≡ m.memory x

module _ (p : Place) (m : Machine) (f : Frame p m) (room : 8 ≤ m.rsp) where
  minus-push : (m1 : Machine) → m1.rsp ≡ m.rsp → minus m1.rsp 8 ≡ m.rsp - 8
  minus-push m1 e = omega (arith, e, room, f.address)

  -- A push keeps the frame.
  push-Frame : {w : Width} {b : ℕ} (m1 : Machine) → After w b m m1 → Frame p (push (m1.regs rax) m1)
  unfolding push
  push-Frame m1 h = record {
    rbp = h.rbp ∙ f.rbp;
    stack = omega (arith, minus-push m1 h.rsp, f.stack);
    address = omega (arith, minus-push m1 h.rsp, f.address);
    same = λ x q.
        store-above 8 m1.memory (minus m1.rsp 8) (m1.regs rax) x
          (omega (arith, minus-push m1 h.rsp, f.stack, q))
        ∙ h.above x (omega (arith, f.stack, q))
        ∙ f.same x q;
  }

  -- Between a push and a pop stands the code of the left operand.
  pop-Operands :
      {w : Width} {a b : ℕ} (m1 m3 : Machine)
      → After w b m m1
      → After w a (push (m1.regs rax) m1) m3
      → Operands w a b m (pop rdi m3)
  unfolding push pop
  pop-Operands {w} m1 m3 h h' =
      let low = minus-push m1 h.rsp in
      let pushed = store 8 m1.memory (minus m1.rsp 8) (m1.regs rax) in
      let word =
        load-ext 8 m3.memory pushed m3.rsp (λ x q. h'.above x (omega (arith, q, h'.rsp))) in
      record {
        left = h'.result;
        right =
            ap (λ v. v % modulus w)
              (word ∙ ap (load 8 pushed) h'.rsp ∙ load-store_width qword m1.memory _ _)
            ∙ mod-low w (m1.regs rax)
            ∙ h.result;
        rsp = omega (arith, h'.rsp, low, room, f.address);
        rbp = h'.rbp ∙ h.rbp;
        above = λ x q.
            h'.above x (omega (arith, low, q))
            ∙ store-above 8 m1.memory (minus m1.rsp 8) (m1.regs rax) x (omega (arith, low, room, q))
            ∙ h.above x q;
      }

  -- The code of both operands, with the push and the pop.
  pub around :
      {w : Width} {a b : ℕ} {right left : List Instr}
      → Ends right m (After w b m)
      → ((m2 : Machine) → Frame p m2 → m2.rsp ≡ m.rsp - 8 → Ends left m2 (After w a m2))
      → Ends (((right ++ push_rax ∷ []) ++ left) ++ pop_rdi ∷ []) m (Operands w a b m)
  unfolding step push
  around {w} {a} {b} {left = left} h k =
      Ends-append
        (Ends-append
          {Q = λ m3. (m1 : Machine) × After w b m m1 × After w a (push (m1.regs rax) m1) m3}
          (Ends-append {Q = λ m2. (m1 : Machine) × After w b m m1 × (m2 ≡ push (m1.regs rax) m1)} h
            λ m1 h1. Ends-cons refl (Ends-nil (m1, h1, refl)))
          λ m2 (m1, h1, e). left_part m1 m2 h1 e)
        λ m3 (m1, h1, h3). Ends-cons refl (Ends-nil (pop-Operands m1 m3 h1 h3))
    where
      left_part :
          (m1 m2 : Machine)
          → After w b m m1
          → m2 ≡ push (m1.regs rax) m1
          → Ends left m2
              (λ m3. (m1 : Machine) × After w b m m1 × After w a (push (m1.regs rax) m1) m3)
      left_part m1 m2 h1 e =
          Ends-map
            (k m2 (subst (Frame p) (sym e) (push-Frame m1 h1))
              (subst (λ m2. m2.rsp ≡ m.rsp - 8) (sym e) (minus-push m1 h1.rsp)))
            λ m3 h3. (m1, h1, subst (λ m2. After w a m2 m3) e h3)
