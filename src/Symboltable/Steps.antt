-- ===== src/Symboltable/Steps.antt =====
-- The steps of the symbol table from inside a scope: declarations, and what is pushed and popped.
use seron.Prelude.{
  ℕ, ◌<◌, ◌≡◌, refl, ◌∙◌, List, [], ◌∷◌, ◌++◌, some, Bytes, length, length-append, get_elem?, arith,
}
use seron.Outcome.{Safe, gives, Safe-bind, Safe-step, done}
use seron.Types.{TypeKind, type_primitive_size}
use seron.Hashtable.{Symbol, Hashtable, hashtable_init}
use seron.Hashtable.Keys.{IsKey}
use seron.Hashtable.Methods.{hashtable_insert-Inserts, hashtable_init-view, with_parent-IsValid}
use seron.Symboltable.{Symboltable, table_at, symboltable_push, symboltable_pop, insert_at}
use seron.Names.{Sized}
use seron.Symboltable.Scopes.{Below, Below-weaken, AreTables, table-At}
use seron.Symboltable.Growth.{
  Grows, Grows-refl, Grows-trans, Grows-append, Grows-length, Grows-at, set-Grows, set-AreTables,
  append-AreTables, insert-Keeps,
}
use seron.Symboltable.Build.{declare}

-- The walk is inside a scope.
pub record Scoped (st : Symboltable) : Type 0 where
  pub tables : AreTables 0 st.tables
  pub scope : ℕ
  pub head : st.head ≡ some scope
  pub inside : scope < length st.tables

-- A step leaves valid tables and the scope that it began in.
pub record After (st st' : Symboltable) : Type 0 where
  pub tables : AreTables 0 st'.tables
  pub head : st'.head ≡ st.head
  pub grows : Grows st.tables st'.tables

pub next : {st st' : Symboltable} → Scoped st → After st st' → Scoped st'
next s a = record {
  tables = a.tables;
  scope = s.scope;
  head = a.head ∙ s.head;
  inside = omega (arith, Grows-length a.grows, s.inside);
}

pub stay : {st : Symboltable} → Scoped st → After st st
stay {st} s = record { tables = s.tables; head = refl; grows = Grows-refl st.tables }

pub grow : {st : Symboltable} (n : ℕ) → Scoped st → After st (record st { stack_size = n })
grow {st} n s = record { tables = s.tables; head = refl; grows = Grows-refl st.tables }

pub After-trans : {a b c : Symboltable} → After a b → After b c → After a c
After-trans h k = record {
  tables = k.tables;
  head = k.head ∙ h.head;
  grows = Grows-trans h.grows k.grows;
}

pub size-Safe : (kind : TypeKind) → Sized kind → Safe (λ n. Unit {0}) (type_primitive_size kind)
unfolding type_primitive_size Sized
size-Safe TypeKind.procedure h = gives tt
size-Safe TypeKind.long h = gives tt
size-Safe TypeKind.object h = gives tt
size-Safe TypeKind.pointer h = gives tt
size-Safe TypeKind.int h = gives tt
size-Safe TypeKind.char h = gives tt
size-Safe _ h = absurd h

pub insert_at-Safe :
    (tables : List Hashtable) (i : ℕ) (key : Bytes) (value : Symbol)
    → AreTables 0 tables
    → i < length tables
    → IsKey key
    → Safe
        (λ tables'. AreTables 0 tables' × Grows tables tables')
        (insert_at tables (some i) key value)
unfolding insert_at
insert_at-Safe tables i key value t h short =
    let at = table-At 0 i tables t h in
    let (r, e, ins) = hashtable_insert-Inserts key value at.valid short in
    let here : table_at tables i ≡ done at.ht = rw (at.found, table_at) refl in
    Safe-step _ here (
      Safe-step _ e (
        gives (
          set-AreTables 0 i tables at.ht r.1 t at.found ins.valid ins.parent,
          set-Grows tables i at.ht r.1 at.found (insert-Keeps ins),
        )))

pub declare-Safe :
    {st : Symboltable} (key : Bytes) (value : Symbol)
    → Scoped st
    → IsKey key
    → Safe (After st) (declare key value st)
declare-Safe {st} key value s short = rw s.head (
    Safe-bind (insert_at-Safe st.tables s.scope key value s.tables s.inside short)
      λ tables h. gives (record { tables = h.0; head = refl; grows = h.1 }))

pub new : Symboltable → Hashtable
new st = record (hashtable_init 50) { parent = st.head }

get_elem?_last :
    (tables : List Hashtable) (ht : Hashtable)
    → get_elem? (tables ++ ht ∷ []) (length tables) ≡ some ht
get_elem?_last [] ht = refl
get_elem?_last (x ∷ tables) ht = get_elem?_last tables ht

pub push-Scoped :
    (st : Symboltable)
    → AreTables 0 st.tables
    → Below (length st.tables) st.head
    → Scoped (symboltable_push st).1
unfolding symboltable_push
push-Scoped st t b = record {
  tables =
      append-AreTables 0 st.tables _ t
        (with_parent-IsValid st.head (hashtable_init-view 50 (omega arith)).0)
        (Below-weaken st.head (omega arith) b);
  scope = length st.tables;
  head = refl;
  inside =
      omega (arith, length-append st.tables (record (hashtable_init 50) { parent = st.head } ∷ []));
}

pop-found :
    (st : Symboltable) (i : ℕ) (ht : Hashtable)
    → st.head ≡ some i
    → get_elem? st.tables i ≡ some ht
    → symboltable_pop st ≡ done (record st { head = ht.parent })
unfolding symboltable_pop
pop-found st i ht h e = rw (h, e, table_at) refl

-- What is pushed is popped, behind steps that stay in the scope.
pub push_pop :
    (st st' : Symboltable)
    → After (symboltable_push st).1 st'
    → (st'' : Symboltable) × (symboltable_pop st' ≡ done st'')
      × After st st''
      × ((symboltable_push st).0 < length st''.tables)
unfolding symboltable_push new
push_pop st st' a =
    let last = get_elem?_last st.tables (new st) in
    let (ht, found, keeps) = Grows-at (length st.tables) a.grows last in
    (
      record st' { head = ht.parent },
      pop-found st' (length st.tables) ht a.head found,
      record {
        tables = a.tables;
        head = keeps.parent;
        grows = Grows-trans (Grows-append st.tables _) a.grows;
      },
      omega (arith, Grows-length a.grows, length-append st.tables (new st ∷ [])),
    )
