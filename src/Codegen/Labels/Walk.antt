-- ===== src/Codegen/Labels/Walk.antt =====
-- The labels in what `emit` of seronc/codegen.c writes for a node.
use seron.Prelude.{ℕ, ◌+◌, ◌≤◌, ◌<◌, ◌≡◌, refl, List, arith}
use seron.Outcome.{
  Outcome, done, returned, panicked, Returns-done, Returns-bind, Returns-after, ◌>>=◌,
}
use seron.Types
use seron.Types.{Ty, TypeKind, kind_of, Params, no_params, param}
use seron.Ast
use seron.Ast.{
  Node, Nodes, nil, cons, MaybeNode, null, some_node, UnaryOpKind, BinOpKind, LiteralKind,
}
use seron.Hashtable.{Hashtable}
use seron.Asm.{Register, Sub, LabelKind, Instr, subregister, push_rax, abi_register_str}
use seron.Asm
use seron.Codegen
use seron.Codegen.{Gen}
use seron.Codegen.Labels.Emits.{
  Emits, Emits-refl, Emits-trans, Emits-write, Emits-line, Writes, WritesTyped, Writes-from,
  WritesTyped-from, Emits-write_all,
}
use seron.Codegen.Labels.Branches.{Emits-while, Emits-if}
use seron.Codegen.Labels.{definitions, uses, between-le_one, between-lt, tally}
use seron.Codegen.Labels.Pieces.{
  literal_addr-Emits, literal-Emits, binop_end-Emits, unaryop_end-Emits, pass_arg-Emits,
  receive-Emits, vardecl_end-Emits, assign_end-Emits,
}

module _ (k : LabelKind) (n : ℕ) where
  statement-Emits :
      (g : Gen) {r : Outcome Gen} → Writes k n g r → WritesTyped k n g (Codegen.statement r)
  statement-Emits g h = Returns-bind h λ g' e. returned e

  mutual
    unfolding Codegen.emit Codegen.emit_addr Codegen.emit_list Codegen.emit_maybe Codegen.emit_args
        Codegen.emit_values

    pub emit-Emits :
        (tables : List Hashtable) (node : Node) (g : Gen)
        → WritesTyped k n g (Codegen.emit tables node g)
    emit-Emits tables (Ast.block stmts scope) g = statement-Emits g (
        Returns-bind (emit_list-Emits tables stmts (Codegen.in_scope scope g)) λ g1 h.
          returned (record {
            scope = refl;
            extends = h.extends;
            counts = h.counts;
            keeps = h.keeps;
            fresh = h.fresh;
            covers = h.covers;
          }))
    emit-Emits tables (Ast.while_stmt op cond body) g = statement-Emits g (
        Returns-bind (emit-Emits tables body _) λ p h.
          Returns-bind (emit-Emits tables cond _) λ q h'.
            Returns-after (subregister Register.rax (kind_of q.0))
              λ s. returned (Emits-while k n g p.1 q.1 s h h'))
    emit-Emits tables (Ast.proc op ident null ty scope stack_size) g =
        statement-Emits g (returned (Emits-write k n _ g (refl, refl)))
    emit-Emits tables (Ast.proc op ident (some_node body) ty scope stack_size) g =
        statement-Emits g (
          Returns-after (Codegen.signature_of ty) λ sig.
            Returns-bind
              (Writes-from k n
                (Emits-write_all k n (Codegen.prologue ident.value stack_size) g (
                  (refl, refl),
                  ((refl, refl), ((refl, refl), ((refl, refl), ((refl, refl), tt)))),
                ))
                (receive-Emits k n 0 16 (Codegen.params_of sig) _))
              λ g1 h. Returns-bind (emit-Emits tables body g1) λ p h'. returned (
                Emits-trans k n _ _ _ (Emits-trans k n _ _ _ h h') (
                  Emits-write_all k n Codegen.epilogue p.1
                    ((refl, refl), ((refl, refl), ((refl, refl), ((refl, refl), tt)))))))
    emit-Emits tables (Ast.return_stmt op null) g =
        statement-Emits g (returned (Emits-write k n _ g (refl, refl)))
    emit-Emits tables (Ast.return_stmt op (some_node e)) g =
        statement-Emits g
          (Returns-bind (emit-Emits tables e g) λ p h. returned (Emits-line k n _ h (refl, refl)))
    emit-Emits tables (Ast.vardecl op ident null ty offset) g =
        statement-Emits g (returned (Emits-refl k n g))
    emit-Emits tables (Ast.vardecl op ident (some_node e) ty offset) g = statement-Emits g (
        Returns-bind (emit-Emits tables e g)
          λ p h. Writes-from k n h (vardecl_end-Emits k n op ident ty offset p.0 p.1))
    emit-Emits tables (Ast.if_stmt op cond body otherwise) g = statement-Emits g (
        Returns-bind (emit-Emits tables cond _) λ p h.
          Returns-after (subregister Register.rax (kind_of p.0)) λ s.
            Returns-bind (emit-Emits tables body _) λ q h'.
              Returns-bind (emit_maybe-Emits tables otherwise _)
                λ g3 h''. returned (Emits-if k n g p.1 q.1 g3 s h h' h''))
    emit-Emits tables (Ast.grouping e) g = emit-Emits tables e g
    emit-Emits tables (Ast.assign op value target) g =
        Returns-bind (emit_addr-Emits tables target g) λ p h.
          Returns-bind (emit-Emits tables value _) λ q h'.
            WritesTyped-from k n (Emits-trans k n _ _ _ (Emits-line k n push_rax h (refl, refl)) h')
              (assign_end-Emits k n op p.0 q.0 q.1)
    emit-Emits tables (Ast.binop lhs rhs op kind) g = Returns-bind (emit-Emits tables rhs g) λ p h.
        Returns-after (subregister Register.rdi (kind_of p.0)) λ rdi.
          Returns-bind (emit-Emits tables lhs _) λ q h'.
            Returns-after (subregister Register.rax (kind_of q.0)) λ rax.
              WritesTyped-from k n
                (Emits-line k n Asm.pop_rdi
                  (Emits-trans k n _ _ _ (Emits-line k n push_rax h (refl, refl)) h') (refl, refl))
                (binop_end-Emits k n op kind q.0 p.0 rax rdi _)
    emit-Emits tables (Ast.call op callee args) g = Returns-bind (emit-Emits tables callee g) λ p h.
        Returns-after (Codegen.signature_of p.0) λ sig.
          Returns-bind (emit_args-Emits tables (Codegen.params_of sig) 0 args _) λ g2 h'. returned (
            Emits-line k n Asm.call_rax
              (Emits-line k n Asm.pop_rax
                (Emits-trans k n _ _ _ (Emits-line k n push_rax h (refl, refl)) h') (refl, refl))
              (refl, refl))
    emit-Emits tables (Ast.unaryop e op Ast.addrof) g = emit_addr-Emits tables e g
    emit-Emits tables (Ast.unaryop e op UnaryOpKind.minus) g =
        Returns-bind (emit-Emits tables e g)
          λ p h. WritesTyped-from k n h (unaryop_end-Emits k n UnaryOpKind.minus p.0 p.1)
    emit-Emits tables (Ast.unaryop e op Ast.neg) g =
        Returns-bind (emit-Emits tables e g)
          λ p h. WritesTyped-from k n h (unaryop_end-Emits k n Ast.neg p.0 p.1)
    emit-Emits tables (Ast.unaryop e op Ast.deref) g =
        Returns-bind (emit-Emits tables e g)
          λ p h. WritesTyped-from k n h (unaryop_end-Emits k n Ast.deref p.0 p.1)
    emit-Emits tables (Ast.literal op kind) g = literal-Emits k n tables op kind g
    emit-Emits tables (Ast.array op values ty offset) g =
        Returns-after (Types.type_primitive_size (kind_of ty)) λ size.
          Returns-bind (emit_values-Emits tables ty size offset values g)
            λ g1 h. returned (Emits-line k n _ h (refl, refl))
    emit-Emits tables (Ast.index op e i) g = panicked
    emit-Emits tables (Ast.for_stmt op cond step body ty ident e) g = panicked
    emit-Emits tables (Ast.table op ident ty) g = statement-Emits g (returned (Emits-refl k n g))

    emit_addr-Emits :
        (tables : List Hashtable) (node : Node) (g : Gen)
        → WritesTyped k n g (Codegen.emit_addr tables node g)
    emit_addr-Emits tables (Ast.unaryop e op Ast.deref) g = emit-Emits tables e g
    emit_addr-Emits tables (Ast.literal op kind) g = literal_addr-Emits k n tables op kind g
    emit_addr-Emits tables _ g = panicked

    pub emit_list-Emits :
        (tables : List Hashtable) (ns : Nodes) (g : Gen)
        → Writes k n g (Codegen.emit_list tables ns g)
    emit_list-Emits tables nil g = returned (Emits-refl k n g)
    emit_list-Emits tables (cons x ns) g =
        Returns-bind (emit-Emits tables x g)
          λ p h. Writes-from k n h (emit_list-Emits tables ns p.1)

    pub emit_maybe-Emits :
        (tables : List Hashtable) (m : MaybeNode) (g : Gen)
        → Writes k n g (Codegen.emit_maybe tables m g)
    emit_maybe-Emits tables null g = returned (Emits-refl k n g)
    emit_maybe-Emits tables (some_node x) g = Returns-bind (emit-Emits tables x g) λ p h. returned h

    emit_args-Emits :
        (tables : List Hashtable) (ps : Params) (i : ℕ) (ns : Nodes) (g : Gen)
        → Writes k n g (Codegen.emit_args tables ps i ns g)
    emit_args-Emits tables ps i nil g = returned (Emits-refl k n g)
    emit_args-Emits tables ps i (cons x ns) g = Returns-after (Codegen.param_kind ps i) λ type.
        Returns-after (abi_register_str (i + 1) type) λ reg.
          Returns-bind (emit-Emits tables x g) λ p h.
            Returns-bind (pass_arg-Emits k n type reg p.1) λ g2 h'.
              Writes-from k n (Emits-trans k n _ _ _ h h') (emit_args-Emits tables ps (i + 1) ns g2)

    emit_values-Emits :
        (tables : List Hashtable) (ty : Ty) (size offset : ℕ) (ns : Nodes) (g : Gen)
        → Writes k n g (Codegen.emit_values tables ty size offset ns g)
    emit_values-Emits tables ty size offset nil g = returned (Emits-refl k n g)
    emit_values-Emits tables ty size offset (cons x ns) g =
        Returns-bind (emit-Emits tables x g) λ p h.
          Returns-after (subregister Register.rax (kind_of ty)) λ s.
            Writes-from k n (Emits-line k n _ h (refl, refl))
              (emit_values-Emits tables ty size offset ns _)

-- If `codegen` returns for a tree, then in the text that it has written no numbered label is defined twice,
-- and each label that a numbered jump goes to is defined, with a number below the count of labels.
pub codegen-labels :
    (tables : List Hashtable) (root : Node) {g : Gen}
    → Codegen.codegen tables root ≡ done g
    → (k : LabelKind) (n : ℕ)
    → (definitions k n g.buf_text ≤ 1)
      × (1 ≤ uses k n g.buf_text → (definitions k n g.buf_text ≡ 1) × (n < g.label_count))
unfolding Codegen.codegen tally
codegen-labels tables root {g} e k n =
    let h = Returns-done (written (emit-Emits k n tables root Codegen.gen_init)) e in
    let one = between-le_one 0 g.label_count n in
    (
      omega (arith, h.fresh, one),
      λ u. (
        defined-once h u,
        between-lt 0 g.label_count n (omega (arith, h.fresh, defined-once h u)),
      ),
    )
  where
    written :
        {r : Outcome (Ty × Gen)}
        → WritesTyped k n Codegen.gen_init r
        → Writes k n Codegen.gen_init (do (_, gen) ← r; done gen)
    written h = Returns-bind h λ p e. returned e

    defined-once :
        Emits k n Codegen.gen_init g → 1 ≤ uses k n g.buf_text → definitions k n g.buf_text ≡ 1
    defined-once h u = grind (arith, h.covers, h.fresh, between-le_one 0 g.label_count n)
