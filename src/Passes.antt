-- ===== src/Passes.antt =====
-- The passes of `main` (seronc/main.c) between the parser and the code generator.
use seron.Prelude.{◌≡◌, none}
use seron.Outcome.{Outcome, done, Safe, gives, ◌>>=◌}
use seron.Ast.{ScopeId, Node, block, Nodes}
use seron.Names.{NamedList}
use seron.Expand.{expand}
use seron.Expand.Total.{GoodList, expand_stmts-Good}
use seron.Symboltable.{Symboltable}
use seron.Symboltable.Scopes.{AreTables}
use seron.Symboltable.Build.{symboltable_build}
use seron.Symboltable.Build.Safe.{symboltable_build-Safe}

unfoldable pub passes : Node → Outcome (Node × Symboltable)
passes root = do root' ← expand root; symboltable_build root'

-- The passes over the root of a program.
passes-step :
    (scope : ScopeId) {r : Outcome Nodes}
    → Safe GoodList r
    → Safe
        (λ r. AreTables 0 r.1.tables × (r.1.head ≡ none))
        (do root' ← (do stmts ← r; done (block stmts scope)); symboltable_build root')
passes-step scope (gives {a} g) = symboltable_build-Safe a scope g.0 g.1

-- For a program whose declared names are all shorter than 64 bytes, whose variables, parameters and
-- array elements have types with a size, whose procedures have the type of one and a block as their
-- body, if they have one, and whose `for`s have blocks as their bodies, the expansion and the
-- building of the symbol table return, with no panic and nothing undefined: with valid tables, the
-- parent of each an earlier one, and with every scope closed.
pub passes-Safe :
    (stmts : Nodes) (scope : ScopeId)
    → NamedList stmts
    → Safe (λ r. AreTables 0 r.1.tables × (r.1.head ≡ none)) (passes (block stmts scope))
unfolding passes expand
passes-Safe stmts scope h = passes-step scope (expand_stmts-Good stmts h)
