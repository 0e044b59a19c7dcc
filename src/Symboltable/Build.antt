-- ===== src/Symboltable/Build.antt =====
-- `symboltable_build` of seronc/symboltable.c: the walk of `parser_traverse_ast` with the callbacks
-- of its dispatch table. A callback writes into its node, so the walk returns the new node. The
-- signature in the symbol of a procedure keeps the offsets from before `proc_post`.
pub mod Safe
use seron.Prelude.{ℕ, ◌+◌, ◌*◌, ◌==◌, List, Option, none, some, Bytes, if◌then◌else◌}
use seron.Outcome.{Outcome, done, exit, panic, undefined, ◌>>=◌, null_pointer}
use seron.Token.{Token}
use seron.Types.{
  Ty, procedure_type, Signature, signature, Params, no_params, param, kind_of, type_primitive_size,
  align_16,
}
use seron.Ast
use seron.Ast.{
  Node, literal, grouping, binop, unaryop, call, block, proc, vardecl, if_stmt, while_stmt, assign,
  return_stmt, table, array, for_stmt, index, Nodes, nil, cons, MaybeNode, null, some_node,
}
use seron.Hashtable
use seron.Hashtable.{Symbol, variable, parameter, Hashtable}
use seron.Symboltable.{Symboltable, symboltable_init, symboltable_push, symboltable_pop, insert_at}

-- `hashtable_insert(st->head, …)`
abbrev pub declare : Bytes → Symbol → Symboltable → Outcome Symboltable
declare key sym st = do
  tables ← insert_at st.tables st.head key sym
  done (record st { tables = tables })

abbrev pub count : Nodes → ℕ
count nil = 0
count (cons n ns) = count ns + 1

-- `array_pre`: the offset of the array and the state.
unfoldable pub array_pre : Ty → Nodes → Symboltable → Outcome (ℕ × Symboltable)
array_pre ty values st = do
  size ← type_primitive_size (kind_of ty)
  let elem_size = align_16 size
  done (
    st.stack_size + elem_size,
    record st { stack_size = st.stack_size + (elem_size * count values + elem_size) },
  )

-- The callback `vardecl`: the offset and the state.
unfoldable pub vardecl_pre : Token → Ty → Symboltable → Outcome (ℕ × Symboltable)
vardecl_pre ident ty st = do
  size ← type_primitive_size (kind_of ty)
  let offset = st.stack_size + align_16 size
  st' ←
      declare ident.value (record { kind = variable; ty = ty; offset = offset })
        (record st { stack_size = offset })
  done (offset, st')

-- The union of the symbol of a procedure is zeroed.
unfoldable pub proc_pre : Token → MaybeNode → Ty → Symboltable → Outcome Symboltable
proc_pre ident body ty st = do
  st' ← declare ident.value (record { kind = Hashtable.procedure; ty = ty; offset = 0 }) st
  elim body [ null ↦ done st' | some_node _ ↦ done (record st' { stack_size = 0 }) ]

-- The loop of `proc_post`, with the offsets that it writes.
unfoldable pub declare_params : ℕ → Params → Symboltable → Outcome (Params × Symboltable)
declare_params scope no_params st = done (no_params, st)
declare_params scope (param ty ident _ rest) st = do
  size ← type_primitive_size (kind_of ty)
  let offset = st.stack_size + size
  tables ←
      insert_at st.tables (some scope) ident (record { kind = parameter; ty = ty; offset = offset })
  (rest', st') ← declare_params scope rest (record st { tables = tables; stack_size = offset })
  done (param ty ident offset rest', st')

-- The member `signature` of the union, which the type of a procedure has.
abbrev pub signature_of : Ty → Outcome Signature
signature_of (procedure_type sig) = done sig
signature_of _ = undefined null_pointer

-- The scope of a body, which must be a block.
abbrev pub scope_of : Node → Outcome ℕ
scope_of (block _ (some scope)) = done scope
scope_of (block _ none) = undefined null_pointer
scope_of _ = panic

abbrev pub with_params : Params → Signature → Signature
with_params params (signature _ ret) = signature params ret

abbrev pub params_of : Signature → Params
params_of (signature params _) = params

-- `proc_post`, with the body that the walk has returned: the type with the offsets of its
-- parameters, the scope, the size of the stack, and the state.
unfoldable pub proc_post : Node → Ty → Symboltable → Outcome (Ty × ℕ × ℕ × Symboltable)
proc_post body ty st = do
  scope ← scope_of body
  sig ← signature_of ty
  (params, st') ← declare_params scope (params_of sig) st
  done (procedure_type (with_params params sig), scope, st'.stack_size, st')

abbrev pub table_pre : Token → Ty → Symboltable → Outcome Symboltable
table_pre ident ty = declare ident.value (record { kind = Hashtable.table; ty = ty; offset = 0 })

-- The walk. `parser_traverse_ast` refuses the field `vardecl` of a `for`, which is NULL; it does
-- not go into the target of an assignment.
unfoldable mutual
  pub build : Node → Symboltable → Outcome (Node × Symboltable)
  build (literal op kind) st = done (literal op kind, st)
  build (grouping e) st = do (e', st1) ← build e st; done (grouping e', st1)
  build (binop lhs rhs op kind) st = do
    (lhs', st1) ← build lhs st
    (rhs', st2) ← build rhs st1
    done (binop lhs' rhs' op kind, st2)
  build (unaryop e op kind) st = do (e', st1) ← build e st; done (unaryop e' op kind, st1)
  build (call op callee args) st = do
    (callee', st1) ← build callee st
    (args', st2) ← build_list args st1
    done (call op callee' args', st2)
  build (block stmts _) st = do
    let (scope, st1) = symboltable_push st
    (stmts', st2) ← build_list stmts st1
    st3 ← symboltable_pop st2
    done (block stmts' (some scope), st3)
  build (proc op ident null ty scope stack) st = do
    st1 ← proc_pre ident null ty st
    done (proc op ident null ty scope stack, st1)
  build (proc op ident (some_node body) ty _ _) st = do
    st1 ← proc_pre ident (some_node body) ty st
    (body', st2) ← build body st1
    (ty', scope, stack, st3) ← proc_post body' ty st2
    done (proc op ident (some_node body') ty' (some scope) stack, st3)
  build (vardecl op ident init ty _) st = do
    (offset, st1) ← vardecl_pre ident ty st
    (init', st2) ← build_maybe init st1
    done (vardecl op ident init' ty offset, st2)
  build (if_stmt op cond body otherwise) st = do
    (cond', st1) ← build cond st
    (body', st2) ← build body st1
    (otherwise', st3) ← build_maybe otherwise st2
    done (if_stmt op cond' body' otherwise', st3)
  build (while_stmt op cond body) st = do
    (cond', st1) ← build cond st
    (body', st2) ← build body st1
    done (while_stmt op cond' body', st2)
  build (assign op value target) st = do
    (value', st1) ← build value st
    done (assign op value' target, st1)
  build (return_stmt op e) st = do (e', st1) ← build_maybe e st; done (return_stmt op e', st1)
  build (table op ident ty) st = do st1 ← table_pre ident ty st; done (table op ident ty, st1)
  build (array op values ty _) st = do
    (offset, st1) ← array_pre ty values st
    (values', st2) ← build_list values st1
    done (array op values' ty offset, st2)
  build (for_stmt op cond step body ty ident e) st = panic
  build (index op e i) st = do
    (e', st1) ← build e st
    (i', st2) ← build i st1
    done (index op e' i', st2)

  pub build_list : Nodes → Symboltable → Outcome (Nodes × Symboltable)
  build_list nil st = done (nil, st)
  build_list (cons n ns) st = do
    (n', st1) ← build n st
    (ns', st2) ← build_list ns st1
    done (cons n' ns', st2)

  pub build_maybe : MaybeNode → Symboltable → Outcome (MaybeNode × Symboltable)
  build_maybe null st = done (null, st)
  build_maybe (some_node n) st = do (n', st1) ← build n st; done (some_node n', st1)

unfoldable pub symboltable_build : Node → Outcome (Node × Symboltable)
symboltable_build root = build root symboltable_init
