-- ===== src/Codegen.antt =====
-- seronc/codegen.c: the walk over the tree that writes assembly. The buffers hold the lines that
-- `gen_write` and `gen_write_data` are called for; Codegen.Output makes text of them.
mod State
mod Leaves
pub mod Output
pub mod Labels
unfoldable pub use seron.Codegen.State.*
unfoldable pub use seron.Codegen.Leaves.*
use seron.Prelude.{
  ℕ, zero, suc, ◌+◌, ◌*◌, ◌-◌, ◌==◌, Bool, true, false, List, [], ◌∷◌, ◌++◌, Option, none, some,
  Bytes, codes, if◌then◌else◌,
}
use seron.Outcome
use seron.Outcome.{
  Outcome, done, panic, ◌>>=◌, null_pointer, uninitialised, unknown_symbol, symbol_is_type,
  invalid_types,
}
use seron.Token.{Token, NumberLiteralType, number_long, number_int, number_char, number_any}
use seron.Types
use seron.Types.{
  TypeKind, Ty, pointer_to, unknown_pointer, void_type, char_type, int_type, long_type,
  procedure_type, Signature, signature, Params, no_params, param, kind_of, type_primitive_size,
  stringify_typekind,
}
use seron.Ast
use seron.Ast.{
  Node, Nodes, nil, cons, MaybeNode, null, some_node, UnaryOpKind, BinOpKind, LiteralKind,
}
use seron.Hashtable
use seron.Hashtable.{SymbolKind, Symbol, Hashtable}
use seron.Symboltable.{symboltable_lookup}
use seron.Symboltable.Build.{signature_of, params_of, count}
use seron.Asm
use seron.Asm.{
  Register, Sub, Instr, DataLine, Alu, Cond, subregister, abi_register_str, push_rax, pop_rax,
  pop_rdi, else_label, end_label, while_label, cond_label,
}

-- A statement leaves the type `void`.
abbrev pub statement : Outcome Gen → Outcome (Ty × Gen)
statement r = do gen ← r; done (void_type, gen)

unfoldable mutual
  pub emit : List Hashtable → Node → Gen → Outcome (Ty × Gen)
  emit tables (Ast.block stmts scope) gen =
      statement
        (do gen1 ← emit_list tables stmts (in_scope scope gen); done (in_scope gen.scope gen1))
  emit tables (Ast.while_stmt op cond body) gen = statement (do
    let lbl = gen.label_count
    let gen1 = gen_write (Asm.jmp cond_label lbl) (next_label gen)
    (_, gen2) ← emit tables body (gen_write (Asm.label while_label lbl) gen1)
    (ty, gen3) ← emit tables cond (gen_write (Asm.label cond_label lbl) gen2)
    sub ← subregister Register.rax (kind_of ty)
    done (gen_write (Asm.jne while_label lbl) (gen_write (Asm.cmp_zero sub) gen3)))
  emit tables (Ast.proc op ident null ty scope stack_size) gen =
      statement (done (gen_write (Asm.extern ident.value) gen))
  emit tables (Ast.proc op ident (some_node body) ty scope stack_size) gen = statement (do
    sig ← signature_of ty
    gen1 ← receive 0 16 (params_of sig) (gen_write_all (prologue ident.value stack_size) gen)
    (_, gen2) ← emit tables body gen1
    done (gen_write_all epilogue gen2))
  emit tables (Ast.return_stmt op null) gen = statement (done (gen_write Asm.jmp_return gen))
  emit tables (Ast.return_stmt op (some_node e)) gen =
      statement (do (_, gen1) ← emit tables e gen; done (gen_write Asm.jmp_return gen1))
  emit tables (Ast.vardecl op ident null ty offset) gen = statement (done gen)
  emit tables (Ast.vardecl op ident (some_node e) ty offset) gen =
      statement (do (init, gen1) ← emit tables e gen; vardecl_end op ident ty offset init gen1)
  emit tables (Ast.if_stmt op cond body otherwise) gen = statement (do
    let lbl = gen.label_count
    (ty, gen1) ← emit tables cond (next_label gen)
    sub ← subregister Register.rax (kind_of ty)
    let gen2 = gen_write (Asm.je else_label lbl) (gen_write (Asm.cmp_zero sub) gen1)
    (_, gen3) ← emit tables body gen2
    let gen4 = gen_write (Asm.label else_label lbl) (gen_write (Asm.jmp end_label lbl) gen3)
    gen5 ← emit_maybe tables otherwise gen4
    done (gen_write (Asm.label end_label lbl) gen5))
  emit tables (Ast.grouping e) gen = emit tables e gen
  emit tables (Ast.assign op value target) gen = do
    (to, gen1) ← emit_addr tables target gen
    (ty, gen2) ← emit tables value (gen_write push_rax gen1)
    assign_end op to ty gen2
  emit tables (Ast.binop lhs rhs op kind) gen = do
    (right, gen1) ← emit tables rhs gen
    rdi ← subregister Register.rdi (kind_of right)
    (left, gen2) ← emit tables lhs (gen_write push_rax gen1)
    rax ← subregister Register.rax (kind_of left)
    binop_end op kind left right rax rdi (gen_write pop_rdi gen2)
  emit tables (Ast.call op callee args) gen = do
    (ty, gen1) ← emit tables callee gen
    sig ← signature_of ty
    gen2 ← emit_args tables (params_of sig) 0 args (gen_write push_rax gen1)
    done (returntype sig, gen_write Asm.call_rax (gen_write pop_rax gen2))
  emit tables (Ast.unaryop e op Ast.addrof) gen = emit_addr tables e gen
  emit tables (Ast.unaryop e op kind) gen = do
    (ty, gen1) ← emit tables e gen
    unaryop_end kind ty gen1
  emit tables (Ast.literal op kind) gen = literal tables op kind gen
  emit tables (Ast.array op values ty offset) gen = do
    size ← type_primitive_size (kind_of ty)
    gen1 ← emit_values tables ty size offset values gen
    done (pointer_to ty, gen_write (Asm.lea_local (offset + count values * size)) gen1)
  emit tables (Ast.index op e i) gen = panic
  emit tables (Ast.for_stmt op cond step body ty ident e) gen = panic
  emit tables (Ast.table op ident ty) gen = statement (done gen)

  pub emit_addr : List Hashtable → Node → Gen → Outcome (Ty × Gen)
  emit_addr tables (Ast.unaryop e op Ast.deref) gen = emit tables e gen
  emit_addr tables (Ast.literal op kind) gen = literal_addr tables op kind gen
  emit_addr tables _ gen = panic

  -- The statements of a block.
  pub emit_list : List Hashtable → Nodes → Gen → Outcome Gen
  emit_list tables nil gen = done gen
  emit_list tables (cons n ns) gen = do (_, gen1) ← emit tables n gen; emit_list tables ns gen1

  pub emit_maybe : List Hashtable → MaybeNode → Gen → Outcome Gen
  emit_maybe tables null gen = done gen
  emit_maybe tables (some_node n) gen = do (_, gen1) ← emit tables n gen; done gen1

  -- The arguments of a call from number `i` on.
  pub emit_args : List Hashtable → Params → ℕ → Nodes → Gen → Outcome Gen
  emit_args tables ps i nil gen = done gen
  emit_args tables ps i (cons n ns) gen = do
    type ← param_kind ps i
    reg ← abi_register_str (i + 1) type
    (_, gen1) ← emit tables n gen
    gen2 ← pass_arg type reg gen1
    emit_args tables ps (i + 1) ns gen2

  -- The values of an array, each at `offset` and as many sizes as there are values from it on.
  pub emit_values : List Hashtable → Ty → ℕ → ℕ → Nodes → Gen → Outcome Gen
  emit_values tables ty size offset nil gen = done gen
  emit_values tables ty size offset (cons n ns) gen = do
    (_, gen1) ← emit tables n gen
    sub ← subregister Register.rax (kind_of ty)
    emit_values tables ty size offset ns (
        gen_write (Asm.store_local (offset + count (cons n ns) * size) sub (codes " ; array")) gen1)

-- The lines that `codegen` writes for the root of a program.
unfoldable pub codegen : List Hashtable → Node → Outcome Gen
codegen tables root = do (_, gen) ← emit tables root gen_init; done gen
