-- ===== src/Ast.antt =====
-- The syntax tree of seronc/parser.h. A node and what hangs from it have one owner, so a tree of
-- values stands for the tree of pointers, and a pass that writes into nodes returns a new tree.
use seron.Prelude.{ℕ, Option}
use seron.Token.{Token}
use seron.Types.{Ty}

pub data LiteralKind : Type 0 where
  string_literal number_literal ident_literal : LiteralKind

pub data BinOpKind : Type 0 where
  add sub mul div : BinOpKind
  eq neq gt gt_eq lt lt_eq : BinOpKind
  bitwise_or bitwise_and log_or log_and : BinOpKind

pub data UnaryOpKind : Type 0 where
  minus neg addrof deref : UnaryOpKind

-- The index of a scope among the tables of the symbol table; `none` before `block_pre` has run.
abbrev pub ScopeId : Type 0
ScopeId = Option ℕ

-- The constructors are the `AstNodeKind`s, with the fields of the union's member in its order. The
-- field `vardecl` of `StmtFor`, which stays NULL, is left out.
mutual
  pub data Node : Type 0 where
    literal : Token → LiteralKind → Node
    grouping : Node → Node
    -- lhs, rhs, op, kind
    binop : Node → Node → Token → BinOpKind → Node
    unaryop : Node → Token → UnaryOpKind → Node
    -- op, callee, args
    call : Token → Node → Nodes → Node
    block : Nodes → ScopeId → Node
    -- op, ident, body, type, symboltable, stack_size
    proc : Token → Token → MaybeNode → Ty → ScopeId → ℕ → Node
    -- op, ident, init, type, offset
    vardecl : Token → Token → MaybeNode → Ty → ℕ → Node
    -- op, condition, then_body, else_body
    if_stmt : Token → Node → Node → MaybeNode → Node
    -- op, condition, body
    while_stmt : Token → Node → Node → Node
    -- op, value, target
    assign : Token → Node → Node → Node
    return_stmt : Token → MaybeNode → Node
    -- op, ident, type
    table : Token → Token → Ty → Node
    -- op, values, type, offset
    array : Token → Nodes → Ty → ℕ → Node
    -- op, condition, assign, body, var_type, var_ident, var_expr
    for_stmt : Token → Node → Node → Node → Ty → Token → Node → Node
    -- op, expr, index
    index : Token → Node → Node → Node

  -- An `AstNodeList`.
  pub data Nodes : Type 0 where
    nil : Nodes
    cons : Node → Nodes → Nodes

  -- A pointer that may be NULL.
  pub data MaybeNode : Type 0 where
    null : MaybeNode
    some_node : Node → MaybeNode

-- `astnodelist_append`
abbrev pub astnodelist_append : Nodes → Node → Nodes
astnodelist_append nil n = cons n nil
astnodelist_append (cons x xs) n = cons x (astnodelist_append xs n)
