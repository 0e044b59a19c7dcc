-- ===== src/Values/Unary.antt =====
-- The code of the unary operators.
use seron.Prelude.{
  ℕ, ◌-◌, ◌*◌, ◌%◌, ◌^◌, ◌≤◌, ◌<◌, ◌==◌, ◌≡◌, refl, ap, ◌∙◌, Bool, true, false, if◌then◌else◌, [],
  ◌∷◌, ◌++◌, arith,
}
use seron.Outcome.{done}
use seron.Token.{Token}
use seron.Types.{TypeKind, Ty, pointer_to, kind_of}
use seron.Ast
use seron.Ast.{Node, BinOpKind, UnaryOpKind}
use seron.Asm
use seron.Asm.{
  rax, rdi, Width, byte, dword, qword, Instr, Cond, push_rax, pop_rdi, width_of, subregister,
}
use seron.Machine.{
  imul_takes, Machine, modulus, bytes_of, step, get, put, load, compared, merged, truth,
}
use seron.Machine.Memory.{load-low}
use seron.Machine.Words.{merged-mod, mod-lt, mod-low}
use seron.Machine.Steps.{Ends-nil, Ends-cons, Ends-append}
use seron.Codegen.{Gen, emit, unaryop_end}
use seron.Values.{Place}
use seron.Values.Operators.{sub_of}
use seron.Values.Frames.{Frame, After, Frame-load}
use seron.Values.Parts.{subregister-rax, write-join}
use seron.Values.Compiled.{Compiled, put-After_lt}

-- One more line behind the code of an expression.
After-then :
    {w w' : Width} {v u : ℕ} {m m1 m2 : Machine}
    → After w v m m1
    → After w' u m1 m2
    → After w' u m m2
After-then h k = record {
  result = k.result;
  rsp = k.rsp ∙ h.rsp;
  rbp = k.rbp ∙ h.rbp;
  above = λ x q. k.above x (omega (arith, h.rsp, q)) ∙ h.above x q;
}

minus_one :
    (w : Width) (v : ℕ)
    → v < modulus w
    → v * (modulus w - 1) % modulus w ≡ (modulus w - v) % modulus w
minus_one byte v h = omega (arith, h)
minus_one dword v h = omega (arith, h)
minus_one qword v h = omega (arith, h)

pub negated-Compiled :
    {p : Place} {e : Node} {op : Token} {ty : Ty} {w : Width} {v n : ℕ} {g : Gen}
    → width_of (kind_of ty) ≡ done w
    → imul_takes w ≡ true
    → Compiled p e ty w v n g
    → Compiled p (Ast.unaryop e op UnaryOpKind.minus) ty w ((modulus w - v) % modulus w) n g
unfolding emit unaryop_end step get
negated-Compiled {p} {e} {op} {ty} {w} {v} {n} {g} k t h = record {
  code = h.code ++ Asm.imul_minus (sub_of rax w) ∷ [];
  emits =
      rw (h.emits, subregister-rax _ k)
        (ap (λ x. done (ty, x)) (write-join h.code (Asm.imul_minus (sub_of rax w) ∷ []) g));
  runs = λ m fr room. Ends-append (h.runs m fr room) λ m1 a. Ends-cons (rw t refl) (
      Ends-nil (
        After-then a (
          put-After_lt w _ m1 (
            minus_one w _ (mod-lt w (m1.regs rax))
            ∙ ap (λ x. (modulus w - x) % modulus w) a.result))));
}

truth-mod : (b : Bool) → truth b % 2 ^ 8 ≡ (if b then 1 else 0)
truth-mod true = refl
truth-mod false = refl

pub After-Frame :
    {p : Place} {w : Width} {v : ℕ} {m m' : Machine} → Frame p m → After w v m m' → Frame p m'
After-Frame f h = record {
  rbp = h.rbp ∙ f.rbp;
  stack = omega (arith, h.rsp, f.stack);
  address = omega (arith, h.rsp, f.address);
  same = λ x q. h.above x (omega (arith, f.stack, q)) ∙ f.same x q;
}

pub inverted-Compiled :
    {p : Place} {e : Node} {op : Token} {ty : Ty} {v n : ℕ} {g : Gen}
    → width_of (kind_of ty) ≡ done byte
    → Compiled p e ty byte v n g
    → Compiled p (Ast.unaryop e op Ast.neg) ty byte (if v == 0 then 1 else 0) n g
unfolding emit unaryop_end step get put compared
inverted-Compiled {p} {e} {op} {ty} {v} {n} {g} k h = record {
  code = h.code ++ Asm.cmp_zero (sub_of rax byte) ∷ Asm.set Cond.e (sub_of rax byte) ∷ [];
  emits =
      rw (h.emits, subregister-rax _ k)
        (ap (λ x. done (ty, x))
          (write-join (Asm.cmp_zero (sub_of rax byte) ∷ []) (Asm.set Cond.e (sub_of rax byte) ∷ [])
              _
            ∙ write-join h.code
                (Asm.cmp_zero (sub_of rax byte) ∷ Asm.set Cond.e (sub_of rax byte) ∷ []) g));
  runs = λ m fr room. Ends-append (h.runs m fr room) λ m1 a. Ends-cons refl (
      Ends-cons refl (
        Ends-nil (
          After-then a record {
            result =
                merged-mod byte (m1.regs rax) (truth (m1.regs rax % 2 ^ 8 == 0))
                ∙ truth-mod (m1.regs rax % 2 ^ 8 == 0)
                ∙ ap (λ x. if x == 0 then 1 else 0) a.result;
            rsp = refl;
            rbp = refl;
            above = λ x q. refl;
          })));
}

pub pointer_width : width_of TypeKind.pointer ≡ done qword
unfolding width_of
pointer_width = refl

merged-mod_low : (w : Width) (old v : ℕ) → merged qword old v % modulus w ≡ v % modulus w
unfolding merged
merged-mod_low w old v = mod-low w v

pub pointed-Compiled :
    {p : Place} {e : Node} {op : Token} {ty : Ty} {w : Width} {a n : ℕ} {g : Gen}
    → width_of (kind_of ty) ≡ done w
    → p.floor ≤ a
    → Compiled p e (pointer_to ty) qword a n g
    → Compiled p (Ast.unaryop e op Ast.deref) ty w (load (bytes_of w) p.memory a) n g
unfolding emit unaryop_end step put
pointed-Compiled {p} {e} {op} {ty} {w} {a} {n} {g} k l h = record {
  code = h.code ++ Asm.load_rax (sub_of rax qword) ∷ [];
  emits =
      rw (h.emits, subregister-rax TypeKind.pointer pointer_width)
        (ap (λ x. done (ty, x)) (write-join h.code (Asm.load_rax (sub_of rax qword) ∷ []) g));
  runs = λ m fr room. Ends-append (h.runs m fr room) λ m1 b. Ends-cons refl (
      Ends-nil (
        After-then b record {
          result =
              merged-mod_low w (m1.regs rax) (load 8 m1.memory (m1.regs rax % 2 ^ 64))
              ∙ load-low w m1.memory (m1.regs rax % 2 ^ 64)
              ∙ ap (load (bytes_of w) m1.memory) b.result
              ∙ Frame-load p m1 (bytes_of w) a (After-Frame fr b) l;
          rsp = refl;
          rbp = refl;
          above = λ x q. refl;
        }));
}
