-- ===== src/Codegen/Leaves.antt =====
-- seronc/codegen.c: what is written without walking further into the tree.
use seron.Prelude.{
  ℕ, zero, suc, ◌+◌, Bool, true, false, List, [], ◌∷◌, ◌++◌, Option, none, some, Bytes, codes,
  if◌then◌else◌,
}
use seron.Outcome.{Outcome, done, panic, ◌>>=◌, uninitialised, unknown_symbol, symbol_is_type}
use seron.Token.{Token}
use seron.Types
use seron.Types.{
  TypeKind, Ty, pointer_to, unknown_pointer, void_type, char_type, int_type, long_type,
  procedure_type, Signature, signature, Params, no_params, param, kind_of, type_primitive_size,
  stringify_typekind,
}
use seron.Ast
use seron.Ast.{
  Node, Nodes, nil, cons, MaybeNode, null, some_node, UnaryOpKind, BinOpKind, LiteralKind,
}
use seron.Hashtable.{SymbolKind, Symbol, Hashtable}
use seron.Symboltable.{symboltable_lookup}
use seron.Asm
use seron.Asm.{
  Register, Sub, Instr, DataLine, Alu, Cond, subregister, abi_register_str, push_rax, pop_rax,
  pop_rdi, else_label, end_label, while_label, cond_label,
}
use seron.Codegen.State.{
  refuse_types, Gen, gen_write, gen_write_data, pointee, is_pointer, found, type_from_token_literal,
  gen_write_all,
}

-- A variable or a parameter: its address, or its value.
unfoldable pub local_ident : Symbol → Bool → Gen → Outcome (Ty × Gen)
local_ident sym true gen = done (pointer_to sym.ty, gen_write (Asm.lea_local sym.offset) gen)
local_ident sym false gen = do
  sub ← subregister Register.rax (kind_of sym.ty)
  done (sym.ty, gen_write (Asm.load_local sub sym.offset) gen)

unfoldable pub symbol_ident : Bytes → Option Symbol → Bool → Gen → Outcome (Ty × Gen)
symbol_ident str none addr gen = Outcome.exit unknown_symbol
symbol_ident str (some sym) addr gen = elim sym.kind [
  | SymbolKind.table ↦ Outcome.exit symbol_is_type
  | SymbolKind.parameter ↦ local_ident sym addr gen
  | SymbolKind.variable ↦ local_ident sym addr gen
  | SymbolKind.procedure ↦ done (sym.ty, gen_write (Asm.mov_name str) gen)
  | SymbolKind.invalid ↦ panic
  | SymbolKind.none_kind ↦ panic
]

unfoldable pub literal_ident : List Hashtable → Bytes → Bool → Gen → Outcome (Ty × Gen)
literal_ident tables str addr gen = do
  sym ← found (symboltable_lookup tables gen.scope str)
  symbol_ident str sym addr gen

unfoldable pub literal_addr : List Hashtable → Token → LiteralKind → Gen → Outcome (Ty × Gen)
literal_addr tables op Ast.ident_literal gen = literal_ident tables op.value true gen
literal_addr tables op Ast.string_literal gen = panic
literal_addr tables op Ast.number_literal gen = panic

unfoldable pub literal : List Hashtable → Token → LiteralKind → Gen → Outcome (Ty × Gen)
literal tables op Ast.string_literal gen =
    let gen1 = gen_write_data (Asm.string_label gen.data_count) gen in
    let gen2 = gen_write_data (Asm.db op.value) gen1 in
    let gen3 = gen_write (Asm.mov_string gen.data_count) gen2 in
    done (unknown_pointer, record gen3 { data_count = gen.data_count + 1 })
literal tables op Ast.number_literal gen = do
  let ty = type_from_token_literal op.number_type
  sub ← subregister Register.rax (kind_of ty)
  done (ty, gen_write (Asm.mov_imm sub op.number) gen)
literal tables op Ast.ident_literal gen = literal_ident tables op.value false gen

-- The factor of pointer arithmetic, for the operand that is no pointer; or the check that both
-- sides have the same kind.
unfoldable pub scale : Token → Ty → Ty → Gen → Outcome Gen
scale op lhs rhs gen =
    if is_pointer lhs
    then (if is_pointer rhs then done gen else do
      sub ← subregister Register.rdi (kind_of rhs)
      ty ← pointee lhs
      size ← type_primitive_size (kind_of ty)
      done (gen_write (Asm.imul_imm sub size) gen))
    else (if is_pointer rhs
        then (do
          sub ← subregister Register.rax (kind_of lhs)
          ty ← pointee rhs
          size ← type_primitive_size (kind_of ty)
          done (gen_write (Asm.imul_imm sub size) gen))
        else if Types.same_kind (kind_of rhs) (kind_of lhs)
        then done gen
        else refuse_types op (kind_of rhs) (kind_of lhs))

-- The lines for an operator on `rax`, `rdi` and `al` of the source.
unfoldable pub operate : BinOpKind → Sub → Sub → Sub → List Instr
operate BinOpKind.add rax rdi al = Asm.alu Alu.add rax rdi ∷ []
operate BinOpKind.sub rax rdi al = Asm.alu Alu.sub rax rdi ∷ []
operate BinOpKind.mul rax rdi al = Asm.imul rdi ∷ []
operate BinOpKind.div rax rdi al = Asm.idiv rdi ∷ []
operate BinOpKind.eq rax rdi al = Asm.alu Alu.cmp rax rdi ∷ Asm.set Cond.e al ∷ []
operate BinOpKind.neq rax rdi al = Asm.alu Alu.cmp rax rdi ∷ Asm.set Cond.ne al ∷ []
operate BinOpKind.gt rax rdi al = Asm.alu Alu.cmp rax rdi ∷ Asm.set Cond.g al ∷ []
operate BinOpKind.gt_eq rax rdi al = Asm.alu Alu.cmp rax rdi ∷ Asm.set Cond.ge al ∷ []
operate BinOpKind.lt rax rdi al = Asm.alu Alu.cmp rax rdi ∷ Asm.set Cond.l al ∷ []
operate BinOpKind.lt_eq rax rdi al = Asm.alu Alu.cmp rax rdi ∷ Asm.set Cond.le al ∷ []
operate BinOpKind.bitwise_or rax rdi al = Asm.alu Alu.or rax rdi ∷ []
operate BinOpKind.bitwise_and rax rdi al = Asm.alu Alu.and rax rdi ∷ []
operate BinOpKind.log_or rax rdi al =
    Asm.alu Alu.or rax rdi ∷ Asm.cmp_zero rax ∷ Asm.set Cond.ne al ∷ []
operate BinOpKind.log_and rax rdi al =
    Asm.alu Alu.and rax rdi ∷ Asm.cmp_zero rax ∷ Asm.set Cond.ne al ∷ []

-- What `binop` writes behind the code of its operands, with `al` as the third operand.
unfoldable pub binop_end : Token → BinOpKind → Ty → Ty → Sub → Sub → Gen → Outcome (Ty × Gen)
binop_end op kind lhs rhs rax rdi gen = do
  al ← subregister Register.rax TypeKind.char
  gen1 ← scale op lhs rhs gen
  done (if is_pointer rhs then rhs else lhs, gen_write_all (operate kind rax rdi al) gen1)

-- What `unaryop` writes behind the code of its operand.
unfoldable pub unaryop_end : UnaryOpKind → Ty → Gen → Outcome (Ty × Gen)
unaryop_end Ast.neg ty gen = do
  sub ← subregister Register.rax (kind_of ty)
  done (ty, gen_write (Asm.set Cond.e sub) (gen_write (Asm.cmp_zero sub) gen))
unaryop_end UnaryOpKind.minus ty gen = do
  sub ← subregister Register.rax (kind_of ty)
  done (ty, gen_write (Asm.imul_minus sub) gen)
unaryop_end Ast.deref ty gen = do
  sub ← subregister Register.rax (kind_of ty)
  to ← pointee ty
  done (to, gen_write (Asm.load_rax sub) gen)
unaryop_end Ast.addrof ty gen = panic

-- `sig->params[i].type.kind`; what stands behind the parameters was never written.
abbrev pub param_kind : Params → ℕ → Outcome TypeKind
param_kind no_params i = Outcome.undefined uninitialised
param_kind (param ty _ _ rest) zero = done (kind_of ty)
param_kind (param ty _ _ rest) (suc i) = param_kind rest i

abbrev pub returntype : Signature → Ty
returntype (signature _ ret) = ret

-- An argument that is in `rax` goes to its register, or to the stack.
unfoldable pub pass_arg : TypeKind → Option Sub → Gen → Outcome Gen
pass_arg type none gen = done (gen_write push_rax gen)
pass_arg type (some reg) gen = do
  sub ← subregister Register.rax type
  done (gen_write (Asm.mov_reg reg sub) gen)

-- The loop of `proc` over the parameters, from number `i`; `offset` is that of the next one that
-- was passed on the stack.
unfoldable pub receive : ℕ → ℕ → Params → Gen → Outcome Gen
receive i offset no_params gen = done gen
receive i offset (param ty ident place rest) gen = do
  reg ← abi_register_str (i + 1) (kind_of ty)
  elim reg [
    | none ↦ (do
      sub ← subregister Register.rax (kind_of ty)
      receive (i + 1) (offset + 8) rest
          (gen_write (Asm.store_local place sub []) (gen_write (Asm.load_arg sub offset) gen)))
    | some sub ↦ receive (i + 1) offset rest (gen_write (Asm.store_local place sub []) gen)
  ]

abbrev pub prologue : Bytes → ℕ → List Instr
prologue ident stack_size =
    Asm.global ident
    ∷ Asm.entry ident
    ∷ Asm.push_rbp
    ∷ Asm.mov_rbp_rsp
    ∷ Asm.sub_rsp stack_size
    ∷ []

abbrev pub epilogue : List Instr
epilogue = Asm.label_return ∷ Asm.mov_rsp_rbp ∷ Asm.pop_rbp ∷ Asm.ret ∷ []

-- The store at the end of `vardecl`.
unfoldable pub vardecl_end : Token → Token → Ty → ℕ → Ty → Gen → Outcome Gen
vardecl_end op ident declared offset init gen =
    if Types.same_kind (kind_of declared) (kind_of init)
    then (do
      sub ← subregister Register.rax (kind_of init)
      done (gen_write (Asm.store_local offset sub (codes " ; " ++ ident.value)) gen))
    else refuse_types op (kind_of declared) (kind_of init)

-- The store at the end of `assign`.
unfoldable pub assign_end : Token → Ty → Ty → Gen → Outcome (Ty × Gen)
assign_end op target ty gen =
    if Types.same_kind (kind_of target) (kind_of ty)
    then (do
      sub ← subregister Register.rax (kind_of ty)
      done (ty, gen_write (Asm.store_rdi sub) (gen_write pop_rdi gen)))
    else refuse_types op (kind_of target) (kind_of ty)
