-- ===== src/Expand/Fixed.antt =====
-- `expand` on trees that are expanded.
use seron.Prelude.{◌≡◌, refl}
use seron.Outcome.{done}
use seron.Ast.{
  Node, literal, grouping, binop, unaryop, call, block, proc, vardecl, if_stmt, while_stmt, assign,
  return_stmt, table, array, for_stmt, index, Nodes, nil, cons, MaybeNode, null, some_node,
}
use seron.Expand.{expand, expand_list, expand_maybe, Expanded, ExpandedList, ExpandedMaybe}

mutual
  unfolding expand expand_list expand_maybe Expanded ExpandedList ExpandedMaybe

  -- A tree with no `for` and no index outside the targets of assignments is not changed.
  pub expand_fixed : (n : Node) → Expanded n → expand n ≡ done n
  expand_fixed (literal op kind) x = refl
  expand_fixed (grouping e) x = rw (expand_fixed e x) refl
  expand_fixed (binop lhs rhs op kind) (x, y) = rw (expand_fixed lhs x, expand_fixed rhs y) refl
  expand_fixed (unaryop e op kind) x = rw (expand_fixed e x) refl
  expand_fixed (call op callee args) (x, y) =
      rw (expand_fixed callee x, expand_list_fixed args y) refl
  expand_fixed (block stmts scope) x = rw (expand_list_fixed stmts x) refl
  expand_fixed (proc op ident body ty scope stack) x = rw (expand_maybe_fixed body x) refl
  expand_fixed (vardecl op ident init ty offset) x = rw (expand_maybe_fixed init x) refl
  expand_fixed (if_stmt op cond body otherwise) (x, y, z) =
      rw (expand_fixed cond x, expand_fixed body y, expand_maybe_fixed otherwise z) refl
  expand_fixed (while_stmt op cond body) (x, y) = rw (expand_fixed cond x, expand_fixed body y) refl
  expand_fixed (assign op value target) x = rw (expand_fixed value x) refl
  expand_fixed (return_stmt op e) x = rw (expand_maybe_fixed e x) refl
  expand_fixed (table op ident ty) x = refl
  expand_fixed (array op values ty offset) x = rw (expand_list_fixed values x) refl
  expand_fixed (for_stmt op cond step body ty ident e) x = absurd x
  expand_fixed (index op e i) x = absurd x

  expand_list_fixed : (ns : Nodes) → ExpandedList ns → expand_list ns ≡ done ns
  expand_list_fixed nil x = refl
  expand_list_fixed (cons n ns) (x, y) = rw (expand_fixed n x, expand_list_fixed ns y) refl

  expand_maybe_fixed : (m : MaybeNode) → ExpandedMaybe m → expand_maybe m ≡ done m
  expand_maybe_fixed null x = refl
  expand_maybe_fixed (some_node n) x = rw (expand_fixed n x) refl
