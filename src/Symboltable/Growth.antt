-- ===== src/Symboltable/Growth.antt =====
-- What a step of the symbol table keeps: the tables with their parents, and every symbol in them.
use mathlib.Core.Path.{subst}
use seron.Prelude.{
  ℕ, zero, suc, ◌+◌, ◌≤◌, ◌≡◌, ◌⊎◌, inl, inr, refl, ap, sym, ◌∙◌, List, [], ◌∷◌, ◌++◌, none, some,
  Bytes, length, get_elem?, set, arith, Option-cases,
}
use seron.Hashtable.{Symbol, Hashtable}
use seron.Hashtable.Methods.{IsValid, view, Inserts}
use seron.Symboltable.Scopes.{Below, Below-weaken, AreTables}

-- The table keeps its parent and its symbols.
pub record Keeps (ht ht' : Hashtable) : Type 0 where
  pub parent : ht'.parent ≡ ht.parent
  pub symbols : (k : Bytes) → (view ht k ≡ none) ⊎ (view ht' k ≡ view ht k)

-- Each table is kept, and there may be more behind them.
pub data Grows : List Hashtable → List Hashtable → Type 0 where
  more : (tables : List Hashtable) → Grows [] tables
  kept :
      {ht ht' : Hashtable} {tables tables' : List Hashtable}
      → Keeps ht ht'
      → Grows tables tables'
      → Grows (ht ∷ tables) (ht' ∷ tables')

Keeps-refl : (ht : Hashtable) → Keeps ht ht
Keeps-refl ht = record { parent = refl; symbols = λ k. inr refl }

Keeps-trans : {a b c : Hashtable} → Keeps a b → Keeps b c → Keeps a c
Keeps-trans h k = record {
  parent = k.parent ∙ h.parent;
  symbols = λ x. elim (h.symbols x) [
    | inl e ↦ inl e
    | inr e ↦ elim (k.symbols x) [ inl f ↦ inl (sym e ∙ f) | inr f ↦ inr (f ∙ e) ]
  ];
}

pub Grows-refl : (tables : List Hashtable) → Grows tables tables
Grows-refl [] = more []
Grows-refl (ht ∷ tables) = kept (Keeps-refl ht) (Grows-refl tables)

pub Grows-trans : {a b c : List Hashtable} → Grows a b → Grows b c → Grows a c
Grows-trans {c} (more _) k = more c
Grows-trans (kept h g) (kept k r) = kept (Keeps-trans h k) (Grows-trans g r)

pub Grows-append : (tables more_tables : List Hashtable) → Grows tables (tables ++ more_tables)
Grows-append [] m = more m
Grows-append (ht ∷ tables) m = kept (Keeps-refl ht) (Grows-append tables m)

pub Grows-length : {a b : List Hashtable} → Grows a b → length a ≤ length b
Grows-length (more b) = omega arith
Grows-length (kept k g) = omega (arith, Grows-length g)

-- The table at an index afterwards.
pub Grows-at :
    {a b : List Hashtable} {ht : Hashtable} (i : ℕ)
    → Grows a b
    → get_elem? a i ≡ some ht
    → (ht' : Hashtable) × (get_elem? b i ≡ some ht') × Keeps ht ht'
Grows-at i (more b) e = cc
Grows-at zero (kept {ht = x} {ht' = y} k g) e = (y, refl, subst (λ h. Keeps h y) (cc) k)
Grows-at (suc i) (kept k g) e = Grows-at i g e

-- A table is written back with its parent and its symbols.
pub set-Grows :
    (tables : List Hashtable) (i : ℕ) (ht ht' : Hashtable)
    → get_elem? tables i ≡ some ht
    → Keeps ht ht'
    → Grows tables (set tables i ht')
set-Grows [] i ht ht' e k = more []
set-Grows (x ∷ tables) zero ht ht' e k = kept (subst (λ h. Keeps h ht') (cc) k) (Grows-refl tables)
set-Grows (x ∷ tables) (suc i) ht ht' e k = kept (Keeps-refl x) (set-Grows tables i ht ht' e k)

pub set-AreTables :
    (n i : ℕ) (tables : List Hashtable) (ht ht' : Hashtable)
    → AreTables n tables
    → get_elem? tables i ≡ some ht
    → IsValid ht'
    → ht'.parent ≡ ht.parent
    → AreTables n (set tables i ht')
set-AreTables n i [] ht ht' t e v p = tt
set-AreTables n zero (x ∷ tables) ht ht' ((w, b), t) e v p =
    ((v, subst (Below n) (sym (p ∙ same)) b), t)
  where
    same : ht.parent ≡ x.parent
    same = ap (λ (h : Hashtable). h.parent) {x = ht} {y = x} (cc)
set-AreTables n (suc i) (x ∷ tables) ht ht' (b, t) e v p =
    (b, set-AreTables (suc n) i tables ht ht' t e v p)

pub append-AreTables :
    (n : ℕ) (tables : List Hashtable) (ht : Hashtable)
    → AreTables n tables
    → IsValid ht
    → Below (n + length tables) ht.parent
    → AreTables n (tables ++ ht ∷ [])
append-AreTables n [] ht t v b = ((v, Below-weaken ht.parent (omega arith) b), tt)
append-AreTables n (x ∷ tables) ht (h, t) v b =
    (h, append-AreTables (suc n) tables ht t v (Below-weaken ht.parent (omega arith) b))

pub insert-Keeps :
    {ht : Hashtable} {key : Bytes} {value : Symbol} {r : _} → Inserts ht key value r → Keeps ht r.1
insert-Keeps {ht} {key} {value} {r} ins = record {
  parent = ins.parent;
  symbols = λ k. elim (ins.others k) [
    | inl e ↦ elim (Option-cases (view ht k)) [
      | inl n ↦ inl n
      | inr (s, h) ↦ inr (rw (e, ins.found, rw e at h) refl)
    ]
    | inr e ↦ inr e
  ];
}
