-- ===== src/Symboltable.antt =====
-- seronc/symboltable.h and seronc/symboltable.c: the scopes of a program. The tables stand in the
-- order in which they are allocated; a scope is a pointer to a table, by its index, or NULL.
pub mod Scopes
pub mod Growth
pub mod Steps
pub mod Declare
pub mod Build
use seron.Prelude.{
  ℕ, zero, suc, ◌+◌, Bool, List, [], ◌∷◌, ◌++◌, Option, none, some, Bytes, length, get_elem?, set,
}
use seron.Outcome.{Outcome, done, exit, panic, undefined, ◌>>=◌, null_pointer}
use seron.Hashtable.{Symbol, Hashtable, hashtable_init, hashtable_insert, hashtable_get}

-- The arena is `tables`.
pub record Symboltable : Type 0 where
  pub tables : List Hashtable
  pub head : Option ℕ
  pub stack_size : ℕ

abbrev pub symboltable_init : Symboltable
symboltable_init = record { tables = []; head = none; stack_size = 0 }

-- `*scope`
abbrev pub table_at : List Hashtable → ℕ → Outcome Hashtable
table_at tables i = elim (get_elem? tables i) [ none ↦ undefined null_pointer | some ht ↦ done ht ]

-- The loop of `symboltable_lookup`, with fuel; `none` if it ran out.
unfoldable pub lookup : ℕ → List Hashtable → Option ℕ → Bytes → Option (Outcome (Option Symbol))
lookup zero tables scope key = none
lookup (suc fuel) tables none key = some (done none)
lookup (suc fuel) tables (some i) key = elim (table_at tables i) [
  | done ht ↦ elim (hashtable_get ht key) [
    | done none ↦ lookup fuel tables ht.parent key
    | done (some sym) ↦ some (done (some sym))
    | exit e ↦ some (exit e)
    | panic ↦ some panic
    | undefined u ↦ some (undefined u)
  ]
  | exit e ↦ some (exit e)
  | panic ↦ some panic
  | undefined u ↦ some (undefined u)
]

-- `NON_NULL(scope)`, and the loop.
unfoldable pub symboltable_lookup :
    List Hashtable → Option ℕ → Bytes → Option (Outcome (Option Symbol))
symboltable_lookup tables none key = some panic
symboltable_lookup tables (some i) key = lookup (length tables + 1) tables (some i) key

-- The new table and the state with it.
unfoldable pub symboltable_push : Symboltable → ℕ × Symboltable
symboltable_push st = (
  length st.tables,
  record st {
    tables = st.tables ++ record (hashtable_init 50) { parent = st.head } ∷ [];
    head = some (length st.tables);
  },
)

-- `st->head = st->head->parent`
unfoldable pub symboltable_pop : Symboltable → Outcome Symboltable
symboltable_pop st = elim st.head [
  | none ↦ undefined null_pointer
  | some i ↦ (do ht ← table_at st.tables i; done (record st { head = ht.parent }))
]

-- `hashtable_insert` into the table of a scope, whose result is not looked at.
unfoldable pub insert_at : List Hashtable → Option ℕ → Bytes → Symbol → Outcome (List Hashtable)
insert_at tables none key sym = panic
insert_at tables (some i) key sym = do
  ht ← table_at tables i
  (_, ht') ← hashtable_insert ht key sym
  done (set tables i ht')
