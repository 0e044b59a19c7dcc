-- ===== src/Codegen/Labels/Pieces.antt =====
-- The labels in what the functions of seronc/codegen.c write that walk no further.
use seron.Prelude.{ℕ, ◌+◌, refl, Bool, true, false, List, [], Option, none, some, Bytes}
use seron.Outcome
use seron.Outcome.{
  Outcome, done, Returns, returned, exited, panicked, faulted, Returns-done, Returns-bind,
  Returns-after, Returns-if, ◌>>=◌,
}
use seron.Token.{Token}
use seron.Types
use seron.Types.{Ty, TypeKind, kind_of, Params, no_params, param}
use seron.Ast
use seron.Ast.{
  Node, Nodes, nil, cons, MaybeNode, null, some_node, UnaryOpKind, BinOpKind, LiteralKind,
}
use seron.Hashtable.{SymbolKind, Symbol, Hashtable}
use seron.Asm.{Register, Sub, LabelKind, Instr, subregister, push_rax, abi_register_str}
use seron.Asm
use seron.Codegen
use seron.Codegen.{Gen}
use seron.Codegen.Labels.Emits.{
  Emits-refl, Emits-trans, Emits-write, Emits-line, Writes, WritesTyped, Writes-from,
  Emits-write_all, AllPlain,
}

refuse-Returns {ℓ κ} :
    {A : Type ℓ} {P : A → Type κ} (op : Token) (a b : TypeKind)
    → Returns P (Codegen.refuse_types op a b)
refuse-Returns op a b =
    Returns-after (Types.stringify_typekind a)
      λ s. Returns-after (Types.stringify_typekind b) λ t. exited

module _ (k : LabelKind) (n : ℕ) where
  pub local_ident-Emits :
      (sym : Symbol) (addr : Bool) (g : Gen) → WritesTyped k n g (Codegen.local_ident sym addr g)
  unfolding Codegen.local_ident
  local_ident-Emits sym true g = returned (Emits-write k n _ g (refl, refl))
  local_ident-Emits sym false g = Returns-after _ λ s. returned (Emits-write k n _ g (refl, refl))

  pub symbol_ident-Emits :
      (str : Bytes) (o : Option Symbol) (addr : Bool) (g : Gen)
      → WritesTyped k n g (Codegen.symbol_ident str o addr g)
  unfolding Codegen.symbol_ident
  symbol_ident-Emits str none addr g = exited
  symbol_ident-Emits str (some sym) addr g =
      elim sym.kind
        as (λ kind. WritesTyped k n g (elim kind [
          | SymbolKind.table ↦ Outcome.exit Outcome.symbol_is_type
          | SymbolKind.parameter ↦ Codegen.local_ident sym addr g
          | SymbolKind.variable ↦ Codegen.local_ident sym addr g
          | SymbolKind.procedure ↦ done (sym.ty, Codegen.gen_write (Asm.mov_name str) g)
          | SymbolKind.invalid ↦ Outcome.panic
          | SymbolKind.none_kind ↦ Outcome.panic
        ])) [
          | SymbolKind.table ↦ exited
          | SymbolKind.parameter ↦ local_ident-Emits sym addr g
          | SymbolKind.variable ↦ local_ident-Emits sym addr g
          | SymbolKind.procedure ↦ returned (Emits-write k n _ g (refl, refl))
          | SymbolKind.invalid ↦ panicked
          | SymbolKind.none_kind ↦ panicked
        ]

  pub literal_addr-Emits :
      (tables : List Hashtable) (op : Token) (kind : LiteralKind) (g : Gen)
      → WritesTyped k n g (Codegen.literal_addr tables op kind g)
  unfolding Codegen.literal_addr Codegen.literal_ident
  literal_addr-Emits tables op Ast.ident_literal g =
      Returns-after _ λ o. symbol_ident-Emits op.value o true g
  literal_addr-Emits tables op Ast.string_literal g = panicked
  literal_addr-Emits tables op Ast.number_literal g = panicked

  pub literal-Emits :
      (tables : List Hashtable) (op : Token) (kind : LiteralKind) (g : Gen)
      → WritesTyped k n g (Codegen.literal tables op kind g)
  unfolding Codegen.literal Codegen.literal_ident
  literal-Emits tables op Ast.ident_literal g =
      Returns-after _ λ o. symbol_ident-Emits op.value o false g
  literal-Emits tables op Ast.string_literal g =
      let e = Emits-write k n (Asm.mov_string g.data_count) g in
      let e' = e (refl, refl) in
      returned (record {
        scope = e'.scope;
        extends = e'.extends;
        counts = e'.counts;
        keeps = e'.keeps;
        fresh = e'.fresh;
        covers = e'.covers;
      })
  literal-Emits tables op Ast.number_literal g =
      Returns-after _ λ s. returned (Emits-write k n _ g (refl, refl))

  pub scale-Emits :
      (op : Token) (lhs rhs : Ty) (g : Gen) → Writes k n g (Codegen.scale op lhs rhs g)
  unfolding Codegen.scale
  scale-Emits op lhs rhs g =
      Returns-if (Codegen.is_pointer lhs)
        (Returns-if (Codegen.is_pointer rhs) (returned (Emits-refl k n g))
          (scaled-Emits Register.rdi rhs lhs))
        (Returns-if (Codegen.is_pointer rhs) (scaled-Emits Register.rax lhs rhs) (
          Returns-if (Types.same_kind (kind_of rhs) (kind_of lhs)) (returned (Emits-refl k n g))
            (refuse-Returns op (kind_of rhs) (kind_of lhs))))
    where
      scaled-Emits :
          (reg : Register) (ty ptr : Ty)
          → Writes k n g (do
            sub ← subregister reg (kind_of ty)
            to ← Codegen.pointee ptr
            size ← Types.type_primitive_size (kind_of to)
            done (Codegen.gen_write (Asm.imul_imm sub size) g))
      scaled-Emits reg ty ptr = Returns-after (subregister reg (kind_of ty)) λ s.
          Returns-after (Codegen.pointee ptr) λ to.
            Returns-after (Types.type_primitive_size (kind_of to))
              λ size. returned (Emits-write k n _ g (refl, refl))

  pub operate-AllPlain :
      (kind : BinOpKind) (rax rdi al : Sub) → AllPlain k n (Codegen.operate kind rax rdi al)
  unfolding Codegen.operate
  operate-AllPlain BinOpKind.add rax rdi al = ((refl, refl), tt)
  operate-AllPlain BinOpKind.sub rax rdi al = ((refl, refl), tt)
  operate-AllPlain BinOpKind.mul rax rdi al = ((refl, refl), tt)
  operate-AllPlain BinOpKind.div rax rdi al = ((refl, refl), tt)
  operate-AllPlain BinOpKind.bitwise_or rax rdi al = ((refl, refl), tt)
  operate-AllPlain BinOpKind.bitwise_and rax rdi al = ((refl, refl), tt)
  operate-AllPlain BinOpKind.eq rax rdi al = ((refl, refl), ((refl, refl), tt))
  operate-AllPlain BinOpKind.neq rax rdi al = ((refl, refl), ((refl, refl), tt))
  operate-AllPlain BinOpKind.gt rax rdi al = ((refl, refl), ((refl, refl), tt))
  operate-AllPlain BinOpKind.gt_eq rax rdi al = ((refl, refl), ((refl, refl), tt))
  operate-AllPlain BinOpKind.lt rax rdi al = ((refl, refl), ((refl, refl), tt))
  operate-AllPlain BinOpKind.lt_eq rax rdi al = ((refl, refl), ((refl, refl), tt))
  operate-AllPlain BinOpKind.log_or rax rdi al = ((refl, refl), ((refl, refl), ((refl, refl), tt)))
  operate-AllPlain BinOpKind.log_and rax rdi al = ((refl, refl), ((refl, refl), ((refl, refl), tt)))

  pub binop_end-Emits :
      (op : Token) (kind : BinOpKind) (lhs rhs : Ty) (rax rdi : Sub) (g : Gen)
      → WritesTyped k n g (Codegen.binop_end op kind lhs rhs rax rdi g)
  unfolding Codegen.binop_end
  binop_end-Emits op kind lhs rhs rax rdi g = Returns-after _ λ al.
      Returns-bind (scale-Emits op lhs rhs g) λ g1 h.
        returned
          (Emits-trans k n g g1 _ h (Emits-write_all k n _ g1 (operate-AllPlain kind rax rdi al)))

  pub unaryop_end-Emits :
      (kind : UnaryOpKind) (ty : Ty) (g : Gen) → WritesTyped k n g (Codegen.unaryop_end kind ty g)
  unfolding Codegen.unaryop_end
  unaryop_end-Emits Ast.neg ty g =
      Returns-after _
        λ s. returned (Emits-line k n _ (Emits-write k n _ g (refl, refl)) (refl, refl))
  unaryop_end-Emits UnaryOpKind.minus ty g =
      Returns-after _ λ s. returned (Emits-write k n _ g (refl, refl))
  unaryop_end-Emits Ast.deref ty g =
      Returns-after (subregister Register.rax (kind_of ty))
        λ s. Returns-after (Codegen.pointee ty) λ to. returned (Emits-write k n _ g (refl, refl))
  unaryop_end-Emits Ast.addrof ty g = panicked

  pub pass_arg-Emits :
      (type : TypeKind) (o : Option Sub) (g : Gen) → Writes k n g (Codegen.pass_arg type o g)
  unfolding Codegen.pass_arg
  pass_arg-Emits type none g = returned (Emits-write k n _ g (refl, refl))
  pass_arg-Emits type (some reg) g =
      Returns-after _ λ s. returned (Emits-write k n _ g (refl, refl))

  pub receive-Emits :
      (i offset : ℕ) (ps : Params) (g : Gen) → Writes k n g (Codegen.receive i offset ps g)
  unfolding Codegen.receive
  receive-Emits i offset no_params g = returned (Emits-refl k n g)
  receive-Emits i offset (param ty ident place rest) g =
      Returns-after (abi_register_str (i + 1) (kind_of ty)) λ o.
        elim o
          as (λ o. Writes k n g (elim o [
            | none ↦ (do
              sub ← subregister Register.rax (kind_of ty)
              Codegen.receive (i + 1) (offset + 8) rest (
                  Codegen.gen_write (Asm.store_local place sub [])
                    (Codegen.gen_write (Asm.load_arg sub offset) g)))
            | some sub ↦
                Codegen.receive (i + 1) offset rest
                  (Codegen.gen_write (Asm.store_local place sub []) g)
          ])) [
            | none ↦ Returns-after (subregister Register.rax (kind_of ty)) λ s.
                Writes-from k n (Emits-line k n _ (Emits-write k n _ g (refl, refl)) (refl, refl))
                  (receive-Emits (i + 1) (offset + 8) rest _)
            | some s ↦
                Writes-from k n (Emits-write k n _ g (refl, refl))
                  (receive-Emits (i + 1) offset rest _)
          ]

  pub vardecl_end-Emits :
      (op ident : Token) (declared : Ty) (offset : ℕ) (init : Ty) (g : Gen)
      → Writes k n g (Codegen.vardecl_end op ident declared offset init g)
  unfolding Codegen.vardecl_end
  vardecl_end-Emits op ident declared offset init g =
      Returns-if (Types.same_kind (kind_of declared) (kind_of init))
        (Returns-after (subregister Register.rax (kind_of init))
          λ s. returned (Emits-write k n _ g (refl, refl)))
        (refuse-Returns op (kind_of declared) (kind_of init))

  pub assign_end-Emits :
      (op : Token) (target ty : Ty) (g : Gen)
      → WritesTyped k n g (Codegen.assign_end op target ty g)
  unfolding Codegen.assign_end
  assign_end-Emits op target ty g =
      Returns-if (Types.same_kind (kind_of target) (kind_of ty))
        (Returns-after (subregister Register.rax (kind_of ty))
          λ s. returned (Emits-line k n _ (Emits-write k n _ g (refl, refl)) (refl, refl)))
        (refuse-Returns op (kind_of target) (kind_of ty))
