-- ===== src/Symboltable/Scopes.antt =====
-- `symboltable_lookup`, `symboltable_push` and `symboltable_pop`: what a name resolves to.
use seron.Prelude.{
  ℕ, zero, suc, ◌+◌, ◌<◌, ◌≤◌, ◌≡◌, refl, List, [], ◌∷◌, Option, none, some, Bytes, length,
  get_elem?, arith, Option-cases, inl, inr,
}
use seron.Outcome.{done}
use seron.Hashtable.{Symbol, Hashtable}
use seron.Hashtable.Methods.{IsValid, view, hashtable_get-view}
use seron.Symboltable.{lookup, symboltable_lookup}

-- A scope that is NULL or the index of an earlier table.
abbrev pub Below : ℕ → Option ℕ → Type 0
Below n none = Unit
Below n (some i) = i < n

-- Valid tables, the first of which has the index `n`, each with an earlier one as its parent.
abbrev pub AreTables : ℕ → List Hashtable → Type 0
AreTables n [] = Unit
AreTables n (ht ∷ tables) = (IsValid ht × Below n ht.parent) × AreTables (suc n) tables

-- The table at an index, and what holds of it.
pub record At (n i : ℕ) (tables : List Hashtable) : Type 0 where
  pub ht : Hashtable
  pub found : get_elem? tables i ≡ some ht
  pub valid : IsValid ht
  pub parent : Below (n + i) ht.parent

pub Below-weaken : {n k : ℕ} (scope : Option ℕ) → n ≤ k → Below n scope → Below k scope
Below-weaken none h b = tt
Below-weaken (some i) h b = omega arith

pub table-At :
    (n i : ℕ) (tables : List Hashtable) → AreTables n tables → i < length tables → At n i tables
table-At n i [] t h = absurd (omega arith)
table-At n zero (ht ∷ tables) ((v, b), t) h = record {
  ht = ht;
  found = refl;
  valid = v;
  parent = Below-weaken ht.parent (omega arith) b;
}
table-At n (suc i) (ht ∷ tables) (_, t) h =
    let at = table-At (suc n) i tables t (omega arith) in
    record {
      ht = at.ht;
      found = at.found;
      valid = at.valid;
      parent = Below-weaken at.ht.parent (omega arith) at.parent;
    }

-- What a name stands for in a scope: what the innermost table with the name has for it.
pub data Resolves (tables : List Hashtable) (key : Bytes) : Option ℕ → Option Symbol → Type 0 where
  nowhere : Resolves tables key none none
  here :
      {i : ℕ} {ht : Hashtable} {s : Symbol}
      → get_elem? tables i ≡ some ht
      → view ht key ≡ some s
      → Resolves tables key (some i) (some s)
  outside :
      {i : ℕ} {ht : Hashtable} {r : Option Symbol}
      → get_elem? tables i ≡ some ht
      → view ht key ≡ none
      → Resolves tables key ht.parent r
      → Resolves tables key (some i) r

abbrev Enough : ℕ → Option ℕ → Type 0
Enough fuel none = 0 < fuel
Enough fuel (some i) = i + 1 < fuel

Enough-Below :
    (i : ℕ) {fuel : ℕ} (scope : Option ℕ) → Below i scope → i + 1 < suc fuel → Enough fuel scope
Enough-Below i none b h = omega arith
Enough-Below i (some j) b h = omega arith

lookup-Resolves :
    (fuel : ℕ) (tables : List Hashtable) (scope : Option ℕ) (key : Bytes)
    → AreTables 0 tables
    → Below (length tables) scope
    → Enough fuel scope
    → (r : Option Symbol) × (lookup fuel tables scope key ≡ some (done r))
      × Resolves tables key scope r
unfolding lookup
lookup-Resolves zero tables none key t b e = absurd (omega arith)
lookup-Resolves zero tables (some i) key t b e = absurd (omega arith)
lookup-Resolves (suc fuel) tables none key t b e = (none, refl, nowhere)
lookup-Resolves (suc fuel) tables (some i) key t b e =
    let at = table-At 0 i tables t b in
    let got = hashtable_get-view key at.valid in
    elim (Option-cases (view at.ht key)) [
      | inl h ↦
          let (r, l, s) =
            lookup-Resolves fuel tables at.ht.parent key t
              (Below-weaken at.ht.parent (omega arith) at.parent)
              (Enough-Below i at.ht.parent (Below-weaken at.ht.parent (omega arith) at.parent)
                (omega arith)) in
          (r, rw (at.found, got, h, lookup) l, outside at.found h s)
      | inr (s, h) ↦ (some s, rw (at.found, got, h, lookup) refl, here at.found h)
    ]

-- In valid tables, a lookup from any table ends without a fault, with what the name resolves to.
pub symboltable_lookup-Resolves :
    (tables : List Hashtable) (i : ℕ) (key : Bytes)
    → AreTables 0 tables
    → i < length tables
    → (r : Option Symbol) × (symboltable_lookup tables (some i) key ≡ some (done r))
      × Resolves tables key (some i) r
unfolding symboltable_lookup
symboltable_lookup-Resolves tables i key t h =
    lookup-Resolves (length tables + 1) tables (some i) key t h (omega arith)
