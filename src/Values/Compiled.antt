-- ===== src/Values/Compiled.antt =====
-- The code of numbers, variables and addresses.
use mathlib.Core.Path.{subst}
use seron.Prelude.{
  ℕ, ◌-◌, ◌*◌, ◌%◌, ◌^◌, ◌≤◌, ◌<◌, ◌≡◌, refl, ap, ◌∙◌, true, false, if◌then◌else◌, List, [], ◌∷◌,
  arith,
}
use seron.Outcome.{done}
use seron.Token.{Token}
use seron.Types.{Ty, pointer_to, kind_of}
use seron.Ast
use seron.Ast.{Node, BinOpKind, UnaryOpKind}
use seron.Hashtable.{Symbol}
use seron.Asm
use seron.Asm.{
  rax, rdi, Width, byte, dword, qword, Instr, Cond, push_rax, pop_rdi, width_of, subregister,
}
use seron.Machine.{Machine, modulus, bytes_of, step, put, load, minus}
use seron.Machine.Memory.{load-lt}
use seron.Machine.Words.{merged-mod}
use seron.Machine.Steps.{Ends, Ends-nil, Ends-cons}
use seron.Codegen.{
  Gen, gen_write_all, emit, emit_addr, literal, literal_addr, local_ident, is_pointer,
  type_from_token_literal,
}
use seron.Values.{
  Place, IsLocal, InFrame, Means, number, variable, address, group, negated, inverted, pointed,
  operation, moved,
}
use seron.Values.Operators.{sub_of}
use seron.Values.Frames.{Frame, After, Frame-load, Frame-minus}
use seron.Values.Parts.{subregister-rax, immediate-small, literal_ident-local}

-- `emit` returns for the expression with its type, and the lines that it writes leave the value.
pub record Compiled (p : Place) (e : Node) (ty : Ty) (w : Width) (v n : ℕ) (g : Gen) : Type 0 where
  pub code : List Instr
  pub emits : emit p.tables e g ≡ done (ty, gen_write_all code g)
  pub runs : (m : Machine) → Frame p m → 8 * n ≤ m.rsp → Ends code m (After w v m)

-- Every expression has the width of its type.
pub Means-width :
    {p : Place} {e : Node} {ty : Ty} {w : Width} {v n : ℕ}
    → Means p e ty w v n
    → width_of (kind_of ty) ≡ done w
unfolding width_of
Means-width (number h k) = h
Means-width (variable h k f) = k
Means-width (address h f) = refl
Means-width (group h) = Means-width h
Means-width (negated h t) = Means-width h
Means-width (inverted h) = Means-width h
Means-width (pointed h k l) = k
Means-width (operation {tl} {tr} {w} r l s k) =
    elim (is_pointer tr) as (λ b. width_of (kind_of (if b then tr else tl)) ≡ done w) [
      | true ↦ Means-width r
      | false ↦ Means-width l
    ]
Means-width (moved r l s k h) = refl

-- A line that writes a number of its width to `rax`.
put-After : (w : Width) (v : ℕ) (m : Machine) → After w (v % modulus w) m (put (sub_of rax w) v m)
unfolding put
put-After w v m = record {
  result = merged-mod w (m.regs rax) v;
  rsp = refl;
  rbp = refl;
  above = λ x q. refl;
}

pub put-After_lt :
    (w : Width) (v : ℕ) {u : ℕ} (m : Machine)
    → v % modulus w ≡ u
    → After w u m (put (sub_of rax w) v m)
put-After_lt w v m e = subst (λ u. After w u m (put (sub_of rax w) v m)) e (put-After w v m)

mod-small : (w : Width) {v : ℕ} → v < modulus w → v % modulus w ≡ v
mod-small byte h = omega (arith, h)
mod-small dword h = omega (arith, h)
mod-small qword h = omega (arith, h)

-- A load from a variable of the frame.
local_load :
    (p : Place) (m : Machine) (w : Width) (offset : ℕ)
    → Frame p m
    → InFrame p offset
    → load (bytes_of w) m.memory (minus m.rbp offset) % modulus w
      ≡ load (bytes_of w) p.memory (p.rbp - offset)
local_load p m w offset f h =
    mod-small w (load-lt w m.memory _)
    ∙ ap (load (bytes_of w) m.memory) (Frame-minus p m offset f h)
    ∙ Frame-load p m (bytes_of w) (p.rbp - offset) f (omega (arith, h.above))

pub number-Compiled :
    {p : Place} {op : Token} {w : Width} (g : Gen)
    → width_of (kind_of (type_from_token_literal op.number_type)) ≡ done w
    → op.number < 2 ^ 31
    → Compiled p
        (Ast.literal op Ast.number_literal)
        (type_from_token_literal op.number_type)
        w
        (op.number % modulus w)
        0
        g
unfolding emit literal step
number-Compiled {p} {op} {w} g h k = record {
  code = Asm.mov_imm (sub_of rax w) op.number ∷ [];
  emits = rw (subregister-rax _ h);
  runs = λ m f room.
      Ends-cons refl
        (Ends-nil (put-After_lt w _ m (ap (λ v. v % modulus w) (immediate-small op.number k))));
}

pub variable-Compiled :
    {p : Place} {op : Token} {symbol : Symbol} {w : Width} (g : Gen)
    → g.scope ≡ p.scope
    → IsLocal p.tables p.scope op.value symbol
    → width_of (kind_of symbol.ty) ≡ done w
    → InFrame p symbol.offset
    → Compiled p
        (Ast.literal op Ast.ident_literal)
        symbol.ty
        w
        (load (bytes_of w) p.memory (p.rbp - symbol.offset))
        0
        g
unfolding emit literal local_ident step
variable-Compiled {p} {op} {symbol} {w} g s h k f = record {
  code = Asm.load_local (sub_of rax w) symbol.offset ∷ [];
  emits = literal_ident-local p op.value symbol false g h s ∙ rw (subregister-rax _ k);
  runs = λ m fr room.
      Ends-cons refl (Ends-nil (put-After_lt w _ m (local_load p m w symbol.offset fr f)));
}

pub address-Compiled :
    {p : Place} {op t : Token} {symbol : Symbol} (g : Gen)
    → g.scope ≡ p.scope
    → IsLocal p.tables p.scope t.value symbol
    → InFrame p symbol.offset
    → Compiled p
        (Ast.unaryop (Ast.literal t Ast.ident_literal) op Ast.addrof)
        (pointer_to symbol.ty)
        qword
        (p.rbp - symbol.offset)
        0
        g
unfolding emit emit_addr literal_addr local_ident step
address-Compiled {p} {op} {t} {symbol} g s h f = record {
  code = Asm.lea_local symbol.offset ∷ [];
  emits = literal_ident-local p t.value symbol true g h s;
  runs = λ m fr room. Ends-cons refl (
      Ends-nil record {
        result = omega (arith, Frame-minus p m symbol.offset fr f, f.address);
        rsp = refl;
        rbp = refl;
        above = λ x q. refl;
      });
}
