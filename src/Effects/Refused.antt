-- ===== src/Effects/Refused.antt =====
-- Assignments that seronc/codegen.c refuses.
use seron.Prelude.{ℕ, ◌≡◌, true, false, Bytes}
use seron.Outcome.{done, exit, invalid_types}
use seron.Token.{Token}
use seron.Types.{TypeKind, Ty, kind_of, same_kind, stringify_typekind}
use seron.Ast
use seron.Ast.{Node, Nodes, nil, cons, null, some_node}
use seron.Hashtable.{Symbol}
use seron.Asm
use seron.Asm.{rax, rdi, Width, qword, Instr, width_of, push_rax, pop_rdi}
use seron.Codegen.{Gen, gen_write, emit, assign_end, emit_addr, literal_addr, local_ident}
use seron.Values.{Place, Means, IsLocal}
use seron.Values.Parts.{literal_ident-local}
use seron.Values.Correct.{compile}

-- An assignment to a variable of an expression that has a value and a type whose kind has a name and is
-- not that of pointers: `emit` does not return; the program has an error about two types at the token of
-- the assignment, which it gives to `diagnostic_loc`, and exits if that returns.
pub assign-refuses :
    (p : Place) (op t : Token) (symbol : Symbol) {e : Node} {ty : Ty} {w : Width} {v n : ℕ}
    {text : Bytes} (g : Gen)
    → g.scope ≡ p.scope
    → IsLocal p.tables p.scope t.value symbol
    → Means p e ty w v n
    → same_kind TypeKind.pointer (kind_of ty) ≡ false
    → stringify_typekind (kind_of ty) ≡ done text
    → emit p.tables (Ast.assign op e (Ast.literal t Ast.ident_literal)) g ≡ exit (invalid_types op)
unfolding emit emit_addr literal_addr local_ident assign_end stringify_typekind
assign-refuses p op t symbol {ty = ty} g s l h d n =
    let c = compile (gen_write push_rax (gen_write (Asm.lea_local symbol.offset) g)) s h in
    rw (literal_ident-local p t.value symbol true g l s, c.emits, d, n)
