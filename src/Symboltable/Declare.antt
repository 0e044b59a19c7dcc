-- ===== src/Symboltable/Declare.antt =====
-- What a name stands for behind its declaration.
use seron.Prelude.{
  ℕ, zero, suc, ◌<◌, ◌≡◌, refl, List, [], ◌∷◌, Option, none, some, Bytes, length, length-set,
  get_elem?, set, arith,
}
use seron.Outcome.{done}
use seron.Hashtable.{Symbol, Hashtable}
use seron.Hashtable.Keys.{IsKey}
use seron.Hashtable.Methods.{view, hashtable_insert-Inserts}
use seron.Symboltable.{insert_at, symboltable_lookup, table_at}
use seron.Symboltable.Scopes.{
  AreTables, table-At, Resolves, here, outside, symboltable_lookup-Resolves,
}
use seron.Symboltable.Growth.{set-AreTables}

Resolves-here :
    {tables : List Hashtable} {key : Bytes} {i : ℕ} {ht : Hashtable} {s : Symbol}
    {r : Option Symbol}
    → get_elem? tables i ≡ some ht
    → view ht key ≡ some s
    → Resolves tables key (some i) r
    → r ≡ some s
Resolves-here e v (here f w) = cc
Resolves-here e v (outside f w _) = cc

get_elem?-set_self :
    (tables : List Hashtable) (i : ℕ) (ht : Hashtable)
    → i < length tables
    → get_elem? (set tables i ht) i ≡ some ht
get_elem?-set_self [] i ht h = absurd (omega arith)
get_elem?-set_self (x ∷ tables) zero ht h = refl
get_elem?-set_self (x ∷ tables) (suc i) ht h = get_elem?-set_self tables i ht (omega arith)

-- A name of fewer than 64 bytes that is declared in a scope of valid tables is found from there, with
-- the new symbol if the scope itself did not have it yet, whatever the outer scopes have, and else
-- with the old one.
pub insert_at_lookup :
    (tables : List Hashtable) (i : ℕ) (key : Bytes) (value : Symbol)
    → AreTables 0 tables
    → i < length tables
    → IsKey key
    → (ht : Hashtable) × (tables' : List Hashtable) × (get_elem? tables i ≡ some ht)
      × (insert_at tables (some i) key value ≡ done tables')
      × (symboltable_lookup tables' (some i) key
          ≡ some (done (some (elim (view ht key) [ none ↦ value | some old ↦ old ]))))
unfolding insert_at
insert_at_lookup tables i key value t h short =
    let at = table-At 0 i tables t h in
    let (r, e, ins) = hashtable_insert-Inserts key value at.valid short in
    let tables' = set tables i r.1 in
    let t' = set-AreTables 0 i tables at.ht r.1 t at.found ins.valid ins.parent in
    let (found, looked, resolves) =
      symboltable_lookup-Resolves tables' i key t' (omega (arith, h, length-set tables i r.1)) in
    let same = Resolves-here (get_elem?-set_self tables i r.1 h) ins.found resolves in
    (at.ht, tables', at.found, rw (at.found, table_at, e) refl, rw same at looked)
