-- ===== src/Effects/Stores.antt =====
-- The code of declarations and of assignments to variables.
use seron.Prelude.{
  ℕ, zero, suc, ◌+◌, ◌-◌, ◌*◌, ◌/◌, ◌%◌, ◌==◌, ◌≤◌, ◌≡◌, refl, ap, ◌∙◌, true, List, [], ◌∷◌, ◌++◌,
  arith, if◌then◌else◌, codes,
}
use seron.Outcome.{done}
use seron.Token.{Token}
use seron.Types.{TypeKind, Ty, kind_of, same_kind, void_type}
use seron.Ast
use seron.Ast.{Node, Nodes, nil, cons, null, some_node}
use seron.Hashtable.{Symbol}
use seron.Asm
use seron.Asm.{rax, rdi, Width, qword, Instr, width_of, push_rax, pop_rdi}
use seron.Machine.{Machine, step, get, bytes_of, store}
use seron.Machine.Steps.{Ends, Ends-nil, Ends-cons, Ends-append}
use seron.Codegen.{
  Gen, gen_write, gen_write_all, emit, vardecl_end, assign_end, emit_addr, literal_addr,
  local_ident,
}
use seron.Values.{Place, IsLocal, InFrame}
use seron.Values.Operators.{sub_of}
use seron.Values.Frames.{Frame, After, Frame-minus, Operands, around}
use seron.Values.Parts.{subregister-rax, write-join, literal_ident-local}
use seron.Values.Compiled.{Compiled}
use seron.Values.Unary.{After-Frame}
use seron.Effects.{stored}

store-ext : (n : ℕ) (f g : ℕ → ℕ) (a v x : ℕ) → f x ≡ g x → store n f a v x ≡ store n g a v x
unfolding store
store-ext zero f g a v x h = h
store-ext (suc n) f g a v x h =
    ap (λ y. if x == a then v % 256 else y) (store-ext n f g (a + 1) (v / 256) x h)

-- The machine is in the frame that the statement leaves, with the stack where it was.
abbrev pub Left : Place → Machine → Machine → Type 0
Left p m m' = Frame p m' × (m'.rsp ≡ m.rsp)

pub record Written (p p' : Place) (s : Node) (n : ℕ) (g : Gen) : Type 0 where
  pub ty : Ty
  pub code : List Instr
  pub emits : emit p.tables s g ≡ done (ty, gen_write_all code g)
  pub runs : (m : Machine) → Frame p m → 8 * n ≤ m.rsp → Ends code m (Left p' m)

-- A store of a number of a width into the frame.
store-Frame :
    {p : Place} {m : Machine} (w : Width) (offset v a u : ℕ)
    → Frame p m
    → a ≡ p.rbp - offset
    → u ≡ v
    → Frame (stored p offset w v) (record m { memory = store (bytes_of w) m.memory a u })
store-Frame {p} {m} w offset v a u f h e = record {
  rbp = f.rbp;
  stack = f.stack;
  address = f.address;
  same = λ x q.
      ap (λ y. store (bytes_of w) m.memory y u x) h
      ∙ ap (λ y. store (bytes_of w) m.memory (p.rbp - offset) y x) e
      ∙ store-ext (bytes_of w) m.memory p.memory (p.rbp - offset) v x (f.same x q);
}

pub declared-Written :
    {p : Place} {op ident : Token} {e : Node} {ty to : Ty} {w : Width} {offset v n : ℕ} {g : Gen}
    → width_of (kind_of ty) ≡ done w
    → Compiled p e ty w v n g
    → same_kind (kind_of to) (kind_of ty) ≡ true
    → InFrame p offset
    → Written p (stored p offset w v) (Ast.vardecl op ident (some_node e) to offset) n g
unfolding emit vardecl_end step get
declared-Written {p} {op} {ident} {e} {ty} {to} {w} {offset} {v} {n} {g} k c s f =
    let i = Asm.store_local offset (sub_of rax w) (codes " ; " ++ ident.value) in
    record {
      ty = void_type;
      code = c.code ++ i ∷ [];
      emits =
          rw (c.emits, s, subregister-rax (kind_of ty) k)
            (ap (λ x. done (void_type, x)) (write-join c.code (i ∷ []) g));
      runs = λ m fr room. Ends-append (c.runs m fr room) λ m1 a. Ends-cons refl (
          Ends-nil (
            store-Frame w offset v _ _ (After-Frame fr a)
                (Frame-minus p m1 offset (After-Frame fr a) f) a.result,
            a.rsp,
          ));
    }

-- The lines of an assignment to a variable before the store.
abbrev pub assign_code : ℕ → List Instr → List Instr
assign_code offset code = ((Asm.lea_local offset ∷ push_rax ∷ []) ++ code) ++ pop_rdi ∷ []

address-run :
    (p : Place) (offset : ℕ) (m : Machine)
    → InFrame p offset
    → Frame p m
    → Ends (Asm.lea_local offset ∷ []) m (After qword (p.rbp - offset) m)
unfolding step
address-run p offset m f fr = Ends-cons refl (
    Ends-nil record {
      result = omega (arith, Frame-minus p m offset fr f, f.address);
      rsp = refl;
      rbp = refl;
      above = λ x q. refl;
    })

Operands-Frame :
    {p : Place} {w : Width} {a b : ℕ} {m m' : Machine}
    → Frame p m
    → Operands w a b m m'
    → Frame p m'
Operands-Frame f h = record {
  rbp = h.rbp ∙ f.rbp;
  stack = omega (arith, h.rsp, f.stack);
  address = omega (arith, h.rsp, f.address);
  same = λ x q. h.above x (omega (arith, f.stack, q)) ∙ f.same x q;
}

assign-join :
    (offset : ℕ) (code : List Instr) (g : Gen)
    → gen_write (Asm.store_rdi (sub_of rax qword)) (
        gen_write pop_rdi
          (gen_write_all code (gen_write push_rax (gen_write (Asm.lea_local offset) g))))
      ≡ gen_write_all (assign_code offset code ++ Asm.store_rdi (sub_of rax qword) ∷ []) g
assign-join offset code g =
    let pushed = Asm.lea_local offset ∷ push_rax ∷ [] in
    ap (gen_write (Asm.store_rdi (sub_of rax qword))) (
      ap (gen_write pop_rdi) (
        ap (gen_write_all code) (write-join (Asm.lea_local offset ∷ []) (push_rax ∷ []) g)
        ∙ write-join pushed code g)
      ∙ write-join (pushed ++ code) (pop_rdi ∷ []) g)
    ∙ write-join (assign_code offset code) (Asm.store_rdi (sub_of rax qword) ∷ []) g

pub assigned-Written :
    {p : Place} {op t : Token} {e : Node} {symbol : Symbol} {ty : Ty} {v n : ℕ} {g : Gen}
    → width_of (kind_of ty) ≡ done qword
    → IsLocal p.tables p.scope t.value symbol
    → InFrame p symbol.offset
    → g.scope ≡ p.scope
    → Compiled p e ty qword v n (gen_write push_rax (gen_write (Asm.lea_local symbol.offset) g))
    → same_kind TypeKind.pointer (kind_of ty) ≡ true
    → Written p
        (stored p symbol.offset qword v)
        (Ast.assign op e (Ast.literal t Ast.ident_literal))
        (n + 1)
        g
unfolding emit emit_addr literal_addr local_ident assign_end step get
assigned-Written {p} {op} {t} {e} {symbol} {ty} {v} {n} {g} k l f scope c s = record {
  ty = ty;
  code = assign_code symbol.offset c.code ++ Asm.store_rdi (sub_of rax qword) ∷ [];
  emits =
      rw
        (
          literal_ident-local p t.value symbol true g l scope,
          c.emits,
          s,
          subregister-rax (kind_of ty) k,
        )
        (ap (λ x. done (ty, x)) (assign-join symbol.offset c.code g));
  runs = λ m fr room.
      Ends-append
        (around p m fr (omega (arith, room)) (address-run p symbol.offset m f fr)
          λ m2 fr2 r. c.runs m2 fr2 (omega (arith, r, room)))
        λ m1 o. Ends-cons refl (
          Ends-nil
            (store-Frame qword symbol.offset v _ _ (Operands-Frame fr o) o.right o.left, o.rsp));
}
