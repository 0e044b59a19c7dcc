-- ===== src/Tests/Passes.antt =====
-- The theorems on the passes between the parser and the code generator, on one program.
use seron.Prelude.{◌≡◌, refl, [], ◌∷◌, List, Option, none, some, Bytes, codes, arith, get_elem?}
use seron.Outcome.{done, Safe}
use seron.Token.{Token, fresh}
use seron.Types.{int_type, procedure_type, signature, param, no_params}
use seron.Ast.{
  Node, literal, ident_literal, unaryop, binop, add, deref, block, proc, vardecl, for_stmt, index,
  return_stmt, Nodes, nil, cons, null, some_node,
}
use seron.Hashtable.{Symbol, variable, Hashtable, hashtable_init}
use seron.Hashtable.Methods.{view, hashtable_init-view}
use seron.Names.{ShortParams, Named, NamedList, NamedMaybe, Sized}
use seron.Expand.{expand, Expanded, ExpandedList}
use seron.Expand.Total.{expand_total, expand_idempotent}
use seron.Symboltable.{insert_at, symboltable_lookup}
use seron.Symboltable.Scopes.{AreTables, Resolves, symboltable_lookup-Resolves}
use seron.Symboltable.Declare.{insert_at_lookup}
use seron.Symboltable.Build.{symboltable_build}
use seron.Symboltable.Build.Safe.{symboltable_build-Safe}
use seron.Passes.{passes, passes-Safe}

abbrev named : Bytes → Token
named name = record (fresh 0) { value = name }

abbrev x : Node
x = literal (named (codes "x")) ident_literal

-- let a: int; return a;
abbrev plain : Nodes
plain =
    cons (vardecl (fresh 0) (named (codes "a")) null int_type 0)
      (cons (return_stmt (fresh 0) (some_node x)) nil)

-- proc f(y: int) int { for i: int = x, x, x { let a: int; return a; } return x[x]; }
abbrev looping : Node
looping =
    proc (fresh 0) (named (codes "f"))
      (some_node (
        block
          (cons (for_stmt (fresh 0) x x (block plain none) int_type (named (codes "i")) x)
            (cons (return_stmt (fresh 0) (some_node (index (fresh 0) x x))) nil))
          none))
      (procedure_type (signature (param int_type (codes "y") 0 no_params) int_type)) none 0

plain-Named : NamedList plain
unfolding NamedList Sized
plain-Named = ((omega arith, tt, tt), (tt, tt))

looping-Named : Named looping
unfolding Named NamedList NamedMaybe Sized ShortParams
looping-Named = (
  omega arith,
  ((omega arith, tt, tt, tt, plain-Named, tt), ((tt, tt), tt)),
  (omega arith, tt, tt),
)

expand_total_example : Safe (λ n. Named n × Expanded n) (expand looping)
expand_total_example = expand_total looping looping-Named

abbrev indexed : Node
indexed = index (fresh 0) x x

indexed-Named : Named indexed
unfolding Named
indexed-Named = (tt, tt)

abbrev dereferenced : Node
dereferenced = unaryop (binop x x (fresh 0) add) (fresh 0) deref

expand_idempotent_example : expand dereferenced ≡ done dereferenced
unfolding expand
expand_idempotent_example = expand_idempotent indexed dereferenced indexed-Named refl

symboltable_build-Safe_example :
    Safe (λ r. AreTables 0 r.1.tables × (r.1.head ≡ none)) (symboltable_build (block plain none))
unfolding ExpandedList
symboltable_build-Safe_example = symboltable_build-Safe plain none plain-Named (tt, (tt, tt))

passes-Safe_example :
    Safe (λ r. AreTables 0 r.1.tables × (r.1.head ≡ none)) (passes (block (cons looping nil) none))
unfolding NamedList
passes-Safe_example = passes-Safe (cons looping nil) none (looping-Named, tt)

abbrev tables : List Hashtable
tables = hashtable_init 50 ∷ []

tables-AreTables : AreTables 0 tables
unfolding hashtable_init
tables-AreTables = (((hashtable_init-view 50 (omega arith)).0, tt), tt)

symboltable_lookup-Resolves_example :
    (r : Option Symbol) × (symboltable_lookup tables (some 0) (codes "x") ≡ some (done r))
    × Resolves tables (codes "x") (some 0) r
symboltable_lookup-Resolves_example =
    symboltable_lookup-Resolves tables 0 (codes "x") tables-AreTables (omega arith)

abbrev symbol : Symbol
symbol = record { kind = variable; ty = int_type; offset = 4 }

insert_at_lookup_example :
    (ht : Hashtable) × (tables' : List Hashtable) × (get_elem? tables 0 ≡ some ht)
    × (insert_at tables (some 0) (codes "x") symbol ≡ done tables')
    × (symboltable_lookup tables' (some 0) (codes "x")
        ≡ some (done (some (elim (view ht (codes "x")) [ none ↦ symbol | some old ↦ old ]))))
insert_at_lookup_example =
    insert_at_lookup tables 0 (codes "x") symbol tables-AreTables (omega arith) (omega arith)
