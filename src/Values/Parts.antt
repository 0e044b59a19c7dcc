-- ===== src/Values/Parts.antt =====
-- The parts of `emit` of seronc/codegen.c that write for the expressions with values.
use mathlib.Core.Path.{subst}
use seron.Prelude.{
  ℕ, ◌^◌, ◌<◌, ◌≡◌, ◌⊎◌, inl, inr, ap, ◌∙◌, Bool, true, false, Bool-cases, List, ◌++◌, append_assoc,
  some, arith, Bytes,
}
use seron.Outcome.{done, ◌>>=◌}
use seron.Token.{Token}
use seron.Types.{TypeKind, Ty, pointer_to, kind_of, same_kind, type_primitive_size}
use seron.Hashtable.{Symbol, SymbolKind}
use seron.Symboltable.{symboltable_lookup}
use seron.Asm
use seron.Asm.{rax, rdi, Register, Width, byte, dword, qword, Instr, width_of, subregister}
use seron.Machine.{immediate}
use seron.Codegen.{
  Gen, gen_write, gen_write_all, scale, is_pointer, found, literal_ident, symbol_ident, local_ident,
}
use seron.Values.{Place, IsLocal}
use seron.Values.Operators.{sub_of}

pub subregister-rax :
    (k : TypeKind) {w : Width} → width_of k ≡ done w → subregister rax k ≡ done (sub_of rax w)
unfolding subregister
subregister-rax k e = rw e

pub subregister-rdi :
    (k : TypeKind) {w : Width} → width_of k ≡ done w → subregister rdi k ≡ done (sub_of rdi w)
unfolding subregister
subregister-rdi k e = rw e

pub write-join :
    (a b : List Instr) (g : Gen) → gen_write_all b (gen_write_all a g) ≡ gen_write_all (a ++ b) g
write-join a b g = ap (λ t. record g { buf_text = t }) (append_assoc g.buf_text a b)

pub immediate-small : (n : ℕ) → n < 2 ^ 31 → immediate n ≡ n
immediate-small n h = ground (arith, h)

done-small : {n size : ℕ} → n < 2 ^ 31 → done n ≡ done size → size < 2 ^ 31
done-small {n} h e = subst (λ x. x < 2 ^ 31) (cc) h

pub size-small : (k : TypeKind) {size : ℕ} → type_primitive_size k ≡ done size → size < 2 ^ 31
unfolding type_primitive_size
size-small TypeKind.procedure e = done-small (omega arith) e
size-small TypeKind.long e = done-small (omega arith) e
size-small TypeKind.object e = done-small (omega arith) e
size-small TypeKind.pointer e = done-small (omega arith) e
size-small TypeKind.int e = done-small (omega arith) e
size-small TypeKind.char e = done-small (omega arith) e
size-small TypeKind.invalid e = cc
size-small TypeKind.void e = cc
size-small TypeKind.table e = cc

-- Operands of the same kind are not scaled.
pub scale-same :
    (op : Token) (tl tr : Ty) (g : Gen)
    → same_kind (kind_of tr) (kind_of tl) ≡ true
    → scale op tl tr g ≡ done g
unfolding scale
scale-same op tl tr g h = elim (Bool-cases (is_pointer tl)) [
  | inl l ↦ elim (Bool-cases (is_pointer tr)) [
    | inl r ↦ rw (l, r)
    | inr r ↦ absurd ground (arith, h, l, r)
  ]
  | inr l ↦ elim (Bool-cases (is_pointer tr)) [
    | inl r ↦ absurd ground (arith, h, l, r)
    | inr r ↦ rw (l, r, h)
  ]
]

-- A number that is added to a pointer is scaled by the size of what it points to.
pub scale-moved :
    (op : Token) (ty tr : Ty) (g : Gen) {size : ℕ}
    → is_pointer tr ≡ false
    → width_of (kind_of tr) ≡ done qword
    → type_primitive_size (kind_of ty) ≡ done size
    → scale op (pointer_to ty) tr g ≡ done (gen_write (Asm.imul_imm (sub_of rdi qword) size) g)
unfolding scale
scale-moved op ty tr g p w s = rw (p, subregister-rdi (kind_of tr) w, s)

pub literal_ident-local :
    (p : Place) (name : Bytes) (symbol : Symbol) (addr : Bool) (g : Gen)
    → IsLocal p.tables p.scope name symbol
    → g.scope ≡ p.scope
    → literal_ident p.tables name addr g ≡ local_ident symbol addr g
unfolding literal_ident symbol_ident
literal_ident-local p name symbol addr g h e =
    ap (λ s. do o ← found (symboltable_lookup p.tables s name); symbol_ident name o addr g) e
    ∙ ap (λ r. do o ← r; symbol_ident name o addr g) h.resolves
    ∙ is_local h.local
  where
    is_local :
        (symbol.kind ≡ SymbolKind.variable) ⊎ (symbol.kind ≡ SymbolKind.parameter)
        → symbol_ident name (some symbol) addr g ≡ local_ident symbol addr g
    is_local (inl k) = simp (k)
    is_local (inr k) = simp (k)
