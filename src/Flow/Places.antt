-- ===== src/Flow/Places.antt =====
-- Statements leave the tables and the scope of a place.
use seron.Prelude.{ℕ, ◌≡◌, refl, ◌∙◌}
use seron.Ast.{Node, Nodes, MaybeNode}
use seron.Values.{Place}
use seron.Effects.Correct.{Does-tables, Does-scope}
use seron.Flow.{
  Executes, straight, nested, taken, skipped, looped, ExecutesAll, ended, chained, ExecutesMaybe,
  absent, present, Loops, exited, again,
}

-- A statement leaves the tables and the scope of the place.
mutual
  pub Executes-tables : {p p' : Place} {s : Node} {n : ℕ} → Executes p s p' n → p'.tables ≡ p.tables
  Executes-tables (straight d) = Does-tables d
  Executes-tables (nested hs) = ExecutesAll-tables hs
  Executes-tables (taken c z d) = Executes-tables d
  Executes-tables (skipped c z d) = ExecutesMaybe-tables d
  Executes-tables (looped l) = Loops-tables l

  ExecutesAll-tables :
      {p p' : Place} {ss : Nodes} {n : ℕ} → ExecutesAll p ss p' n → p'.tables ≡ p.tables
  ExecutesAll-tables ended = refl
  ExecutesAll-tables (chained d ds) = ExecutesAll-tables ds ∙ Executes-tables d

  ExecutesMaybe-tables :
      {p p' : Place} {s : MaybeNode} {n : ℕ} → ExecutesMaybe p s p' n → p'.tables ≡ p.tables
  ExecutesMaybe-tables absent = refl
  ExecutesMaybe-tables (present d) = Executes-tables d

  Loops-tables : {p p' : Place} {c body : Node} {n : ℕ} → Loops p c body p' n → p'.tables ≡ p.tables
  Loops-tables (exited c z) = refl
  Loops-tables (again c z d l) = Loops-tables l ∙ Executes-tables d

mutual
  pub Executes-scope : {p p' : Place} {s : Node} {n : ℕ} → Executes p s p' n → p'.scope ≡ p.scope
  Executes-scope (straight d) = Does-scope d
  Executes-scope (nested hs) = refl
  Executes-scope (taken c z d) = Executes-scope d
  Executes-scope (skipped c z absent) = refl
  Executes-scope (skipped c z (present d)) = Executes-scope d
  Executes-scope (looped l) = Loops-scope l

  Loops-scope : {p p' : Place} {c body : Node} {n : ℕ} → Loops p c body p' n → p'.scope ≡ p.scope
  Loops-scope (exited c z) = refl
  Loops-scope (again c z d l) = Loops-scope l ∙ Executes-scope d
