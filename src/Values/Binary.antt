-- ===== src/Values/Binary.antt =====
-- The code of the operators with two operands.
use seron.Prelude.{
  ℕ, ◌+◌, ◌*◌, ◌%◌, ◌^◌, ◌≤◌, ◌<◌, ◌≡◌, refl, ap, ◌∙◌, true, false, if◌then◌else◌, List, [], ◌∷◌,
  ◌++◌, some, arith,
}
use seron.Outcome.{done}
use seron.Token.{Token}
use seron.Types.{TypeKind, Ty, pointer_to, kind_of, same_kind, type_primitive_size}
use seron.Ast
use seron.Ast.{Node, BinOpKind, UnaryOpKind}
use seron.Asm
use seron.Asm.{
  rax, rdi, Width, byte, dword, qword, Instr, Cond, push_rax, pop_rdi, width_of, subregister,
}
use seron.Machine.{Machine, step, get, put, immediate}
use seron.Machine.Words.{merged-mod}
use seron.Machine.Steps.{Ends, Ends-nil, Ends-cons, Ends-append, Ends-map}
use seron.Codegen.{Gen, gen_write, gen_write_all, emit, binop_end, is_pointer, operate}
use seron.Values.{Place, value}
use seron.Values.Operators.{sub_of, operate-Leaves}
use seron.Values.Frames.{Frame, After, Leaves-After, Operands, around}
use seron.Values.Parts.{
  subregister-rax, subregister-rdi, write-join, immediate-small, size-small, scale-same,
  scale-moved,
}
use seron.Values.Compiled.{Compiled}
use seron.Values.Unary.{pointer_width}

al : subregister rax TypeKind.char ≡ done (sub_of rax byte)
unfolding subregister width_of
al = refl

-- The lines of an operator behind those of its operands.
operator-run :
    {w : Width} {a b v : ℕ} (kind : BinOpKind) (s s1 : Machine)
    → Operands w a b s s1
    → value kind w a b ≡ some v
    → Ends (operate kind (sub_of rax w) (sub_of rdi w) (sub_of rax byte)) s1 (After w v s)
operator-run {w} kind s s1 o h =
    Ends-map (operate-Leaves w s1 kind (rw (o.left, o.right) h)) λ s2 e.
      let k = Leaves-After e in
      record {
        result = k.result;
        rsp = k.rsp ∙ o.rsp;
        rbp = k.rbp ∙ o.rbp;
        above = λ x q. k.above x (omega (arith, o.rsp, q)) ∙ o.above x q;
      }

module _ {p : Place} {l r : Node} {tl tr : Ty} {w : Width} {a b m n : ℕ} {g : Gen}
    (right : Compiled p r tr w b n g)
    (left : Compiled p l tl w a m (gen_write push_rax (gen_write_all right.code g))) where
  -- The lines before the operator.
  abbrev operands : List Instr
  operands = ((right.code ++ push_rax ∷ []) ++ left.code) ++ pop_rdi ∷ []

  operands-join :
      gen_write pop_rdi (gen_write_all left.code (gen_write push_rax (gen_write_all right.code g)))
      ≡ gen_write_all operands g
  operands-join =
      ap (gen_write pop_rdi) (
        ap (gen_write_all left.code) (write-join right.code (push_rax ∷ []) g)
        ∙ write-join (right.code ++ push_rax ∷ []) left.code g)
      ∙ write-join ((right.code ++ push_rax ∷ []) ++ left.code) (pop_rdi ∷ []) g

  operands-run :
      (s : Machine) → Frame p s → 8 * (m + n + 1) ≤ s.rsp → Ends operands s (Operands w a b s)
  operands-run s f room =
      around p s f (omega (arith, room)) (right.runs s f (omega (arith, room)))
        λ s2 f2 e. left.runs s2 f2 (omega (arith, room, e))

  operands-emit :
      (op : Token) (kind : BinOpKind)
      → width_of (kind_of tr) ≡ done w
      → width_of (kind_of tl) ≡ done w
      → emit p.tables (Ast.binop l r op kind) g
        ≡ binop_end op kind tl tr (sub_of rax w) (sub_of rdi w) (gen_write_all operands g)
  unfolding emit
  operands-emit op kind kr kl =
      rw (right.emits, subregister-rdi _ kr, left.emits, subregister-rax _ kl)
        (ap (binop_end op kind tl tr (sub_of rax w) (sub_of rdi w)) operands-join)

  pub operation-Compiled :
      {op : Token} {kind : BinOpKind} {v : ℕ}
      → width_of (kind_of tr) ≡ done w
      → width_of (kind_of tl) ≡ done w
      → same_kind (kind_of tr) (kind_of tl) ≡ true
      → value kind w a b ≡ some v
      → Compiled p (Ast.binop l r op kind) (if is_pointer tr then tr else tl) w v (m + n + 1) g
  unfolding binop_end
  operation-Compiled {op} {kind} {v} kr kl s h = record {
    code = operands ++ operate kind (sub_of rax w) (sub_of rdi w) (sub_of rax byte);
    emits =
        operands-emit op kind kr kl
        ∙ rw (al, scale-same op tl tr (gen_write_all operands g) s)
            (ap (λ x. done (if is_pointer tr then tr else tl, x))
              (write-join operands (operate kind (sub_of rax w) (sub_of rdi w) (sub_of rax byte))
                g));
    runs = λ s f room. Ends-append (operands-run s f room) λ s1 o. operator-run kind s s1 o h;
  }

module _ {p : Place} {l r : Node} {ty tr : Ty} {a b m n : ℕ} {g : Gen}
    (right : Compiled p r tr qword b n g)
    (left : Compiled p l
      (pointer_to ty)
      qword
      a
      m
      (gen_write push_rax (gen_write_all right.code g))) where
  -- The right operand is scaled.
  scaled-run :
      {size : ℕ} (s s1 : Machine)
      → size < 2 ^ 31
      → Operands qword a b s s1
      → Ends (Asm.imul_imm (sub_of rdi qword) size ∷ []) s1 (Operands qword a (b * size % 2 ^ 64) s)
  unfolding step get put
  scaled-run {size} s s1 k o = Ends-cons refl (
      Ends-nil record {
        left = o.left;
        right =
            merged-mod qword (s1.regs rdi) _
            ∙ ap (λ x. x % 2 ^ 64)
                (ap (λ x. x * immediate size) o.right ∙ ap (λ x. b * x) (immediate-small size k));
        rsp = o.rsp;
        rbp = o.rbp;
        above = o.above;
      })

  pub moved-Compiled :
      {op : Token} {kind : BinOpKind} {size v : ℕ}
      → is_pointer tr ≡ false
      → width_of (kind_of tr) ≡ done qword
      → type_primitive_size (kind_of ty) ≡ done size
      → value kind qword a (b * size % 2 ^ 64) ≡ some v
      → Compiled p (Ast.binop l r op kind) (pointer_to ty) qword v (m + n + 1) g
  unfolding binop_end
  moved-Compiled {op} {kind} {size} {v} q kr z h = record {
    code =
        (operands right left ++ Asm.imul_imm (sub_of rdi qword) size ∷ [])
        ++ operate kind (sub_of rax qword) (sub_of rdi qword) (sub_of rax byte);
    emits =
        operands-emit right left op kind kr pointer_width
        ∙ rw (al, scale-moved op ty tr (gen_write_all (operands right left) g) q kr z, q)
            (ap (λ x. done (pointer_to ty, x))
              (ap
                  (gen_write_all
                    (operate kind (sub_of rax qword) (sub_of rdi qword) (sub_of rax byte)))
                  (write-join (operands right left) (Asm.imul_imm (sub_of rdi qword) size ∷ []) g)
                ∙ write-join (operands right left ++ Asm.imul_imm (sub_of rdi qword) size ∷ [])
                    (operate kind (sub_of rax qword) (sub_of rdi qword) (sub_of rax byte)) g));
    runs = λ s f room.
        Ends-append
          (Ends-append (operands-run right left s f room)
            λ s1 o. scaled-run s s1 (size-small _ z) o)
          λ s2 o. operator-run kind s s2 o h;
  }
