-- ===== src/Expand.antt =====
-- seronc/expand.c: `expand_ast`, the walk of `parser_traverse_ast` with `for_pre` and `index_pre`,
-- which turn a `for` into a block with a `while`, and an index into a dereference. The walk goes on
-- into what they make of a node. It does not go into the target of an assignment.
pub mod Total
pub mod Fixed
use seron.Outcome.{Outcome, done, panic, ◌>>=◌, Safe, gives, Safe-bind}
use seron.Prelude.{◌≡◌, refl}
use seron.Ast.{
  Node, literal, grouping, binop, unaryop, call, block, proc, vardecl, if_stmt, while_stmt, assign,
  return_stmt, table, array, for_stmt, index, add, deref, Nodes, nil, cons, MaybeNode, null,
  some_node, astnodelist_append,
}
use mathlib.Core.Option.{none}

unfoldable mutual
  pub expand : Node → Outcome Node
  expand (literal op kind) = done (literal op kind)
  expand (grouping e) = do e' ← expand e; done (grouping e')
  expand (binop lhs rhs op kind) = do
    lhs' ← expand lhs
    rhs' ← expand rhs
    done (binop lhs' rhs' op kind)
  expand (unaryop e op kind) = do e' ← expand e; done (unaryop e' op kind)
  expand (call op callee args) = do
    callee' ← expand callee
    args' ← expand_list args
    done (call op callee' args')
  expand (block stmts scope) = do stmts' ← expand_list stmts; done (block stmts' scope)
  expand (proc op ident body ty scope stack) = do
    body' ← expand_maybe body
    done (proc op ident body' ty scope stack)
  expand (vardecl op ident init ty offset) = do
    init' ← expand_maybe init
    done (vardecl op ident init' ty offset)
  expand (if_stmt op cond body otherwise) = do
    cond' ← expand cond
    body' ← expand body
    otherwise' ← expand_maybe otherwise
    done (if_stmt op cond' body' otherwise')
  expand (while_stmt op cond body) = do
    cond' ← expand cond
    body' ← expand body
    done (while_stmt op cond' body')
  expand (assign op value target) = do value' ← expand value; done (assign op value' target)
  expand (return_stmt op e) = do e' ← expand_maybe e; done (return_stmt op e')
  expand (table op ident ty) = done (table op ident ty)
  expand (array op values ty offset) = do
    values' ← expand_list values
    done (array op values' ty offset)
  -- The body must be a block; the step is appended to it.
  expand (for_stmt op cond step (block stmts scope) ty ident e) = do
    e' ← expand e
    cond' ← expand cond
    stmts' ← expand_list stmts
    step' ← expand step
    let loop = while_stmt op cond' (block (astnodelist_append stmts' step') scope)
    done (block (cons (vardecl op ident (some_node e') ty 0) (cons loop nil)) none)
  expand (for_stmt op cond step _ ty ident e) = panic
  expand (index op e i) = do
    e' ← expand e
    i' ← expand i
    done (unaryop (binop e' i' op add) op deref)

  pub expand_list : Nodes → Outcome Nodes
  expand_list nil = done nil
  expand_list (cons n ns) = do n' ← expand n; ns' ← expand_list ns; done (cons n' ns')

  pub expand_maybe : MaybeNode → Outcome MaybeNode
  expand_maybe null = done null
  expand_maybe (some_node n) = do n' ← expand n; done (some_node n')

-- Outside the targets of assignments, there is no `for` and no index.
unfoldable mutual
  pub Expanded : Node → Type 0
  Expanded (literal op kind) = Unit
  Expanded (grouping e) = Expanded e
  Expanded (binop lhs rhs op kind) = Expanded lhs × Expanded rhs
  Expanded (unaryop e op kind) = Expanded e
  Expanded (call op callee args) = Expanded callee × ExpandedList args
  Expanded (block stmts scope) = ExpandedList stmts
  Expanded (proc op ident body ty scope stack) = ExpandedMaybe body
  Expanded (vardecl op ident init ty offset) = ExpandedMaybe init
  Expanded (if_stmt op cond body otherwise) =
      Expanded cond × Expanded body × ExpandedMaybe otherwise
  Expanded (while_stmt op cond body) = Expanded cond × Expanded body
  Expanded (assign op value target) = Expanded value
  Expanded (return_stmt op e) = ExpandedMaybe e
  Expanded (table op ident ty) = Unit
  Expanded (array op values ty offset) = ExpandedList values
  Expanded (for_stmt op cond step body ty ident e) = ⊥
  Expanded (index op e i) = ⊥

  pub ExpandedList : Nodes → Type 0
  ExpandedList nil = Unit
  ExpandedList (cons n ns) = Expanded n × ExpandedList ns

  pub ExpandedMaybe : MaybeNode → Type 0
  ExpandedMaybe null = Unit
  ExpandedMaybe (some_node n) = Expanded n
