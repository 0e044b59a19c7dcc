-- ===== src/Symboltable/Build/Safe.antt =====
-- How the walk of `symboltable_build` ends, and what it leaves of the scopes.
use seron.Prelude.{ℕ, ◌+◌, ◌<◌, ◌≡◌, refl, none, length, arith}
use seron.Outcome.{Safe, gives, Safe-bind, Safe-map, Safe-step, Outcome, done, ◌>>=◌}
use seron.Token.{Token}
use seron.Types.{Ty, procedure_type, signature, Params, no_params, param, kind_of}
use seron.Ast.{
  ScopeId, Node, literal, grouping, binop, unaryop, call, block, proc, vardecl, if_stmt, while_stmt,
  assign, return_stmt, table, array, for_stmt, index, Nodes, nil, cons, MaybeNode, null, some_node,
}
use seron.Hashtable.Keys.{IsKey}
use seron.Symboltable.{Symboltable, symboltable_init, symboltable_push}
use seron.Symboltable.Scopes.{Below, AreTables}
use seron.Symboltable.Growth.{Grows-length}
use seron.Symboltable.Build.{
  array_pre, vardecl_pre, proc_pre, declare_params, scope_of, proc_post, build, build_list,
  build_maybe, symboltable_build,
}
use seron.Names.{Sized, ShortParams, Named, NamedList, NamedMaybe}
use seron.Expand.{Expanded, ExpandedList, ExpandedMaybe}
use seron.Symboltable.Steps.{
  Scoped, After, next, stay, grow, After-trans, size-Safe, insert_at-Safe, declare-Safe,
  push-Scoped, push_pop,
}

array-Safe :
    (ty : Ty) (values : Nodes) {st : Symboltable}
    → Scoped st
    → Sized (kind_of ty)
    → Safe (λ r. After st r.1) (array_pre ty values st)
unfolding array_pre
array-Safe ty values s z = Safe-bind (size-Safe (kind_of ty) z) λ n _. gives (grow _ s)

vardecl-Safe :
    (ident : Token) (ty : Ty) {st : Symboltable}
    → Scoped st
    → IsKey ident.value
    → Sized (kind_of ty)
    → Safe (λ r. After st r.1) (vardecl_pre ident ty st)
unfolding vardecl_pre
vardecl-Safe ident ty s short z = Safe-bind (size-Safe (kind_of ty) z) λ n _.
    let g = grow _ s in
    Safe-bind (declare-Safe ident.value _ (next s g) short) λ st' a. gives (After-trans g a)

proc-Safe :
    (ident : Token) (body : MaybeNode) (ty : Ty) {st : Symboltable}
    → Scoped st
    → IsKey ident.value
    → Safe (After st) (proc_pre ident body ty st)
unfolding proc_pre
proc-Safe ident null ty s short = Safe-bind (declare-Safe ident.value _ s short) λ st' a. gives a
proc-Safe ident (some_node body) ty s short =
    Safe-bind (declare-Safe ident.value _ s short)
      λ st' a. gives (After-trans a (grow 0 (next s a)))

params-Safe :
    (scope : ℕ) (params : Params) {st : Symboltable}
    → Scoped st
    → scope < length st.tables
    → ShortParams params
    → Safe (λ r. After st r.1) (declare_params scope params st)
unfolding declare_params ShortParams
params-Safe scope no_params s h short = gives (stay s)
params-Safe scope (param ty ident _ rest) {st} s h (short, z, shorts) =
    Safe-bind (size-Safe (kind_of ty) z) λ n _.
      Safe-bind (insert_at-Safe st.tables scope ident _ s.tables h short) λ tables t.
        let a : After st (record st { tables = tables; stack_size = st.stack_size + n }) = record {
          tables = t.0;
          head = refl;
          grows = t.1;
        } in
        Safe-bind (params-Safe scope rest (next s a) (omega (arith, Grows-length t.1)) shorts)
          λ r b. gives (After-trans a b)

proc_post-Safe :
    (params : Params) (ret : Ty) (body : Node) {st : Symboltable} (i : ℕ)
    → Scoped st
    → scope_of body ≡ done i
    → i < length st.tables
    → ShortParams params
    → Safe (λ r. After st r.3) (proc_post body (procedure_type (signature params ret)) st)
unfolding proc_post
proc_post-Safe params ret body i s e h short =
    Safe-step _ e (Safe-bind (params-Safe i params s h short) λ r a. gives a)

-- A block, around a walk of its statements.
abbrev BlockAfter : Symboltable → Node × Symboltable → Type 0
BlockAfter st (n, st') = After st st' × (i : ℕ) × (scope_of n ≡ done i) × (i < length st'.tables)

block-Safe :
    (stmts : Nodes) (scope : _) (st : Symboltable)
    → AreTables 0 st.tables
    → Below (length st.tables) st.head
    → Safe (λ r. After (symboltable_push st).1 r.1) (build_list stmts (symboltable_push st).1)
    → Safe (BlockAfter st) (build (block stmts scope) st)
unfolding build
block-Safe stmts scope st t b walk = Safe-bind walk λ r a.
    let (st'', e, after, opened) = push_pop st r.1 a in
    Safe-step _ e (gives (after, (symboltable_push st).0, refl, opened))

-- The walk is safe in every scope.
abbrev Builds {ℓ} : {A : Type ℓ} → (Symboltable → Outcome (A × Symboltable)) → Type ℓ
Builds f = (st : Symboltable) → Scoped st → Safe (λ r. After st r.1) (f st)

below : {st : Symboltable} → Scoped st → Below (length st.tables) st.head
below s = rw s.head s.inside

pair-Safe {ℓ ℓ' ℓ''} :
    {A : Type ℓ} {B : Type ℓ'} {C : Type ℓ''} (f : Symboltable → Outcome (A × Symboltable))
    (g : Symboltable → Outcome (B × Symboltable)) (c : A → B → C)
    → Builds f
    → Builds g
    → Builds (λ st. do (a, st1) ← f st; (b, st2) ← g st1; done (c a b, st2))
pair-Safe f g c hf hg st s =
    Safe-bind (hf st s) λ r a. Safe-bind (hg r.1 (next s a)) λ q b. gives (After-trans a b)

map-Safe {ℓ ℓ'} :
    {A : Type ℓ} {C : Type ℓ'} (f : Symboltable → Outcome (A × Symboltable)) (c : A → C)
    → Builds f
    → Builds (λ st. do (a, st1) ← f st; done (c a, st1))
map-Safe f c hf st s = Safe-bind (hf st s) λ r a. gives a

mutual
  unfolding build build_list build_maybe Named NamedList NamedMaybe Expanded ExpandedList
      ExpandedMaybe

  build-Safe : (n : Node) → Named n → Expanded n → Builds (build n)
  build-Safe (literal op kind) h x st s = gives (stay s)
  build-Safe (grouping e) h x st s = map-Safe _ _ (build-Safe e h x) st s
  build-Safe (binop lhs rhs op kind) (h, k) (x, y) st s =
      pair-Safe _ _ _ (build-Safe lhs h x) (build-Safe rhs k y) st s
  build-Safe (unaryop e op kind) h x st s = map-Safe _ _ (build-Safe e h x) st s
  build-Safe (call op callee args) (h, k) (x, y) st s =
      pair-Safe _ _ _ (build-Safe callee h x) (build_list-Safe args k y) st s
  build-Safe (block stmts scope) h x st s =
      Safe-map
        (block-Safe stmts scope st s.tables (below s)
          (build_list-Safe stmts h x _ (push-Scoped st s.tables (below s))))
        λ r a. a.0
  build-Safe (proc op ident null ty scope stack) h x st s =
      Safe-bind (proc-Safe ident null ty s h) λ st1 a. gives a
  build-Safe
        (proc op ident
          (some_node (block stmts old))
          (procedure_type (signature params ret))
          scope
          stack)
        (h, k, l) x st s =
      Safe-bind (proc-Safe ident (some_node (block stmts old)) _ s h) λ st1 a.
        let s1 = next s a in
        Safe-bind
          (block-Safe stmts old st1 s1.tables (below s1)
            (build_list-Safe stmts k x _ (push-Scoped st1 s1.tables (below s1))))
          λ (body, st2) (b, i, e, inside).
            Safe-bind (proc_post-Safe params ret body i (next s1 b) e inside l)
              λ r c. gives (After-trans a (After-trans b c))
  build-Safe (proc op ident (some_node _) _ scope stack) h x st s = absurd h
  build-Safe (vardecl op ident init ty offset) (h, z, k) x st s =
      Safe-bind (vardecl-Safe ident ty s h z)
        λ r a. Safe-bind (build_maybe-Safe init k x r.1 (next s a)) λ q b. gives (After-trans a b)
  build-Safe (if_stmt op cond body otherwise) (h, k, l) (x, y, z) st s =
      Safe-bind (build-Safe cond h x st s) λ r a.
        Safe-bind (build-Safe body k y r.1 (next s a)) λ q b.
          Safe-bind (build_maybe-Safe otherwise l z q.1 (next (next s a) b))
            λ o c. gives (After-trans a (After-trans b c))
  build-Safe (while_stmt op cond body) (h, k) (x, y) st s =
      pair-Safe _ _ _ (build-Safe cond h x) (build-Safe body k y) st s
  build-Safe (assign op value target) h x st s = map-Safe _ _ (build-Safe value h x) st s
  build-Safe (return_stmt op e) h x st s = map-Safe _ _ (build_maybe-Safe e h x) st s
  build-Safe (table op ident ty) h x st s =
      Safe-bind (declare-Safe ident.value _ s h) λ st1 a. gives a
  build-Safe (array op values ty offset) (z, h) x st s =
      Safe-bind (array-Safe ty values s z)
        λ r a. Safe-bind (build_list-Safe values h x r.1 (next s a)) λ q b. gives (After-trans a b)
  build-Safe (for_stmt op cond step body ty ident e) h x st s = absurd x
  build-Safe (index op e i) h x st s = absurd x

  build_list-Safe : (ns : Nodes) → NamedList ns → ExpandedList ns → Builds (build_list ns)
  build_list-Safe nil h x st s = gives (stay s)
  build_list-Safe (cons n ns) (h, k) (x, y) st s =
      pair-Safe _ _ _ (build-Safe n h x) (build_list-Safe ns k y) st s

  build_maybe-Safe : (m : MaybeNode) → NamedMaybe m → ExpandedMaybe m → Builds (build_maybe m)
  build_maybe-Safe null h x st s = gives (stay s)
  build_maybe-Safe (some_node n) h x st s = map-Safe _ _ (build-Safe n h x) st s

-- The symbol table of an expanded program whose declared names are all shorter than 64 bytes, whose
-- variables, parameters and array elements have types with a size, and whose procedures have the
-- type of one and a block as their body, if they have one: building it returns, with no panic and
-- nothing undefined. The tables are valid, the parent of each is an earlier one, and every scope
-- that was opened is closed.
pub symboltable_build-Safe :
    (stmts : Nodes) (scope : ScopeId)
    → NamedList stmts
    → ExpandedList stmts
    → Safe (λ r. AreTables 0 r.1.tables × (r.1.head ≡ none)) (symboltable_build (block stmts scope))
unfolding symboltable_build
symboltable_build-Safe stmts scope h x =
    Safe-map
      (block-Safe stmts scope symboltable_init tt tt
        (build_list-Safe stmts h x _ (push-Scoped symboltable_init tt tt)))
      λ r a. (a.0.tables, a.0.head)
