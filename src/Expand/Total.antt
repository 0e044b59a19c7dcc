-- ===== src/Expand/Total.antt =====
-- How `expand` of seronc/expand.c ends.
use seron.Prelude.{◌≡◌}
use seron.Outcome.{Outcome, done, Safe, gives, Safe-bind, ◌>>=◌}
use mathlib.Core.Path.{subst}
use seron.Prelude.{ℕ}
use seron.Token.{Token}
use seron.Hashtable.Keys.{IsKey}
use seron.Types.{Ty, Params, procedure_type, signature}
use seron.Ast.{
  ScopeId, Node, literal, grouping, binop, unaryop, call, block, proc, vardecl, if_stmt, while_stmt,
  assign, return_stmt, table, array, for_stmt, index, Nodes, nil, cons, MaybeNode, null, some_node,
  astnodelist_append,
}
use seron.Names.{ShortParams, Named, NamedList, NamedMaybe}
use seron.Expand.Fixed.{expand_fixed}
use seron.Expand.{expand, expand_list, expand_maybe, Expanded, ExpandedList, ExpandedMaybe}

abbrev pub Good : Node → Type 0
Good n = Named n × Expanded n

abbrev pub GoodList : Nodes → Type 0
GoodList ns = NamedList ns × ExpandedList ns

abbrev GoodMaybe : MaybeNode → Type 0
GoodMaybe m = NamedMaybe m × ExpandedMaybe m

append-Good : (ns : Nodes) (n : Node) → GoodList ns → Good n → GoodList (astnodelist_append ns n)
unfolding NamedList ExpandedList
append-Good nil n g (h, x) = ((h, tt), (x, tt))
append-Good (cons m ns) n ((h, hs), (x, xs)) g =
    let (k, y) = append-Good ns n (hs, xs) g in ((h, k), (x, y))

map-Good {ℓ ℓ'} :
    {A : Type ℓ} {B : Type ℓ'} {P : A → Type 0} {Q : B → Type 0} {r : Outcome A} (c : A → B)
    → Safe P r
    → ((a : A) → P a → Q (c a))
    → Safe Q (do a ← r; done (c a))
map-Good c h k = Safe-bind h λ a p. gives (k a p)

pair-Good {ℓ ℓ' ℓ''} :
    {A : Type ℓ} {B : Type ℓ'} {C : Type ℓ''} {P : A → Type 0} {Q : B → Type 0} {R : C → Type 0}
    {r : Outcome A} {q : Outcome B} (c : A → B → C)
    → Safe P r
    → Safe Q q
    → ((a : A) (b : B) → P a → Q b → R (c a b))
    → Safe R (do a ← r; b ← q; done (c a b))
pair-Good c h k f = Safe-bind h λ a p. Safe-bind k λ b q. gives (f a b p q)

-- A procedure around the statements of its body.
proc-Good :
    (op ident : Token) (ps : Params) (ret : Ty) (old scope : ScopeId) (stack : ℕ)
    {r : Outcome Nodes}
    → IsKey ident.value
    → ShortParams ps
    → Safe GoodList r
    → Safe Good (do
      body ← (do n ← (do stmts ← r; done (block stmts old)); done (some_node n))
      done (proc op ident body (procedure_type (signature ps ret)) scope stack))
unfolding Named Expanded ExpandedMaybe
proc-Good op ident ps ret old scope stack h l (gives g) = gives ((h, g.0, l), g.1)

mutual
  unfolding expand expand_list expand_maybe Named NamedList NamedMaybe Expanded ExpandedList
      ExpandedMaybe

  expand-Good : (n : Node) → Named n → Safe Good (expand n)
  expand-Good (literal op kind) h = gives (tt, tt)
  expand-Good (grouping e) h = map-Good _ (expand-Good e h) λ a g. g
  expand-Good (binop lhs rhs op kind) (h, k) =
      pair-Good _ (expand-Good lhs h) (expand-Good rhs k) λ a b g i. ((g.0, i.0), (g.1, i.1))
  expand-Good (unaryop e op kind) h = map-Good _ (expand-Good e h) λ a g. g
  expand-Good (call op callee args) (h, k) =
      pair-Good _ (expand-Good callee h) (expand_list-Good args k)
        λ a b g i. ((g.0, i.0), (g.1, i.1))
  expand-Good (block stmts scope) h = map-Good _ (expand_list-Good stmts h) λ a g. g
  expand-Good (proc op ident null ty scope stack) h = gives (h, tt)
  expand-Good
        (proc op ident
          (some_node (block stmts old))
          (procedure_type (signature ps ret))
          scope
          stack)
        (h, k, l) =
      proc-Good op ident ps ret old scope stack h l (expand_list-Good stmts k)
  expand-Good (proc op ident (some_node _) _ scope stack) h = absurd h
  expand-Good (vardecl op ident init ty offset) (h, z, k) =
      map-Good _ (expand_maybe-Good init k) λ a g. ((h, z, g.0), g.1)
  expand-Good (if_stmt op cond body otherwise) (h, k, l) = Safe-bind (expand-Good cond h) λ a g.
      pair-Good _ (expand-Good body k) (expand_maybe-Good otherwise l)
        λ b c i j. ((g.0, i.0, j.0), (g.1, i.1, j.1))
  expand-Good (while_stmt op cond body) (h, k) =
      pair-Good _ (expand-Good cond h) (expand-Good body k) λ a b g i. ((g.0, i.0), (g.1, i.1))
  expand-Good (assign op value target) h = map-Good _ (expand-Good value h) λ a g. g
  expand-Good (return_stmt op e) h = map-Good _ (expand_maybe-Good e h) λ a g. g
  expand-Good (table op ident ty) h = gives (h, tt)
  expand-Good (array op values ty offset) (z, h) =
      map-Good _ (expand_list-Good values h) λ a g. ((z, g.0), g.1)
  expand-Good (for_stmt op cond step (block stmts scope) ty ident e) (h, z, k, l, m, o) =
      Safe-bind (expand-Good e k) λ a g. Safe-bind (expand-Good cond l) λ b i.
        pair-Good _ (expand_list-Good stmts m) (expand-Good step o) λ c d j q.
          let (r, x) = append-Good c d j q in (((h, z, g.0), ((i.0, r), tt)), (g.1, ((i.1, x), tt)))
  expand-Good (for_stmt op cond step _ ty ident e) h = absurd h
  expand-Good (index op e i) (h, k) =
      pair-Good _ (expand-Good e h) (expand-Good i k) λ a b g j. ((g.0, j.0), (g.1, j.1))

  expand_list-Good : (ns : Nodes) → NamedList ns → Safe GoodList (expand_list ns)
  expand_list-Good nil h = gives (tt, tt)
  expand_list-Good (cons n ns) (h, k) =
      pair-Good _ (expand-Good n h) (expand_list-Good ns k) λ a b g i. ((g.0, i.0), (g.1, i.1))

  expand_maybe-Good : (m : MaybeNode) → NamedMaybe m → Safe GoodMaybe (expand_maybe m)
  expand_maybe-Good null h = gives (tt, tt)
  expand_maybe-Good (some_node n) h = map-Good _ (expand-Good n h) λ a g. g

pub expand_stmts-Good : (ns : Nodes) → NamedList ns → Safe GoodList (expand_list ns)
expand_stmts-Good = expand_list-Good

-- In a tree whose declared names are all shorter than 64 bytes, whose variables, parameters and array
-- elements have types with a size, whose procedures have the type of one and a block as their body,
-- if they have one, and whose `for`s have blocks as their bodies, the expansion returns, with no
-- panic: a tree of the same kind in which no `for` is left, and no index but in the targets of
-- assignments.
pub expand_total : (n : Node) → Named n → Safe (λ n'. Named n' × Expanded n') (expand n)
expand_total = expand-Good

-- In a tree whose declared names are all shorter than 64 bytes, whose variables, parameters and array
-- elements have types with a size, whose procedures have the type of one and a block as their body,
-- if they have one, and whose `for`s have blocks as their bodies, what the expansion returns is not
-- changed by another one.
pub expand_idempotent : (n n' : Node) → Named n → expand n ≡ done n' → expand n' ≡ done n'
expand_idempotent n n' h e = expand_fixed n' (expanded e (expand-Good n h))
  where
    expanded : {r : Outcome Node} {m : Node} → r ≡ done m → Safe Good r → Expanded m
    expanded e (gives {a} g) = subst Expanded (cc) g.1
