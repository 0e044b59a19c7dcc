-- ===== src/Names.antt =====
-- The trees whose names fit the tables of seronc/hashtable.c, and whose variables have a size.
use seron.Types.{procedure_type, signature, Params, no_params, param, TypeKind, kind_of}
use seron.Ast.{
  Node, literal, grouping, binop, unaryop, call, block, proc, vardecl, if_stmt, while_stmt, assign,
  return_stmt, table, array, for_stmt, index, Nodes, nil, cons, MaybeNode, null, some_node,
}
use seron.Hashtable.Keys.{IsKey}

-- A type that a variable can have.
unfoldable pub Sized : TypeKind → Type 0
Sized TypeKind.invalid = ⊥
Sized TypeKind.void = ⊥
Sized TypeKind.table = ⊥
Sized _ = Unit

-- The names of the parameters fit the keys of a table, and their types have a size.
unfoldable pub ShortParams : Params → Type 0
ShortParams no_params = Unit
ShortParams (param ty ident _ rest) = IsKey ident × Sized (kind_of ty) × ShortParams rest

-- Every name that the tree declares is shorter than 64 bytes; the types of variables, parameters
-- and array elements have a size; a procedure has the type of one and a block as its body, if it
-- has one; and the body of a `for` is a block.
unfoldable mutual
  pub Named : Node → Type 0
  Named (literal op kind) = Unit
  Named (grouping e) = Named e
  Named (binop lhs rhs op kind) = Named lhs × Named rhs
  Named (unaryop e op kind) = Named e
  Named (call op callee args) = Named callee × NamedList args
  Named (block stmts scope) = NamedList stmts
  Named (proc op ident null ty scope stack) = IsKey ident.value
  Named
        (proc op ident
          (some_node (block stmts _))
          (procedure_type (signature params ret))
          scope
          stack) =
      IsKey ident.value × NamedList stmts × ShortParams params
  Named (proc op ident (some_node _) _ scope stack) = ⊥
  Named (vardecl op ident init ty offset) = IsKey ident.value × Sized (kind_of ty) × NamedMaybe init
  Named (if_stmt op cond body otherwise) = Named cond × Named body × NamedMaybe otherwise
  Named (while_stmt op cond body) = Named cond × Named body
  Named (assign op value target) = Named value
  Named (return_stmt op e) = NamedMaybe e
  Named (table op ident ty) = IsKey ident.value
  Named (array op values ty offset) = Sized (kind_of ty) × NamedList values
  Named (for_stmt op cond step (block stmts _) ty ident e) =
      IsKey ident.value × Sized (kind_of ty) × Named e × Named cond × NamedList stmts × Named step
  Named (for_stmt op cond step _ ty ident e) = ⊥
  Named (index op e i) = Named e × Named i

  pub NamedList : Nodes → Type 0
  NamedList nil = Unit
  NamedList (cons n ns) = Named n × NamedList ns

  pub NamedMaybe : MaybeNode → Type 0
  NamedMaybe null = Unit
  NamedMaybe (some_node n) = Named n
