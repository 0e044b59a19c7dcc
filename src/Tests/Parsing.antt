-- ===== src/Tests/Parsing.antt =====
-- The theorems on the parser at concrete inputs.
use seron.Prelude.{refl, ℕ, List, [], ◌∷◌, true, ◌≡◌, ◌≢◌, Bytes, codes, some, arith}
use seron.Outcome.{Outcome}
use seron.Token.{Token, fresh, lbrace, kw_type_int, literal_number, number_any, minus, semicolon}
use seron.Ast.{Node, literal, number_literal, binop, sub}
use seron.Parser.{Parser, Rule, ok, context_stmt, parser_sync}
use seron.Parser.Progress.{measure, Ends, Any, sync-Ends}
use seron.TypeRules.{rule_util_type}
use seron.TypeRules.Progress.{type-Strict}
use seron.ExprRules.{rule_expr, rule_expr_primary}
use seron.ExprRules.LeftAssoc.{Step, Steps, left_fold, templ_binop-Steps}
use seron.ExprRules.Progress.{expr-Strict}
use seron.StmtRules.{rule_stmt}
use seron.StmtRules.Progress.{stmt-Strict}
use seron.DeclRules.{parse}
use seron.DeclRules.Progress.{parse-total}
use seron.Tests.Runs.{parsing}

abbrev broken : Bytes
broken = codes "proc f() int { 1 + ; { 2 2; } return 1; } x"

parse-total_example : (o : Outcome Node) × (parse 0 broken ≡ some o) × (o ≢ Outcome.panic)
parse-total_example = parse-total 0 broken

-- In a block, in front of `{ 2 2; } 1; }`.
abbrev block : Parser
block = record {
  tok = record (fresh 0) { kind = lbrace };
  lexer = record { src = codes " 2 2; } 1; }"; position = 1 };
  ctx = context_stmt;
  errcount = 0;
  ctx_stmt = true;
  table_memory = 0;
}

stmt-Strict_example : Ends Any (measure block) (measure block) (rule_stmt 20 block)
unfolding measure
stmt-Strict_example = stmt-Strict 20 block (omega arith)

-- In front of `1 + (x`.
abbrev sum : Parser
sum = record block {
  tok = record (fresh 0) { kind = literal_number; number = 1 };
  lexer = record { src = codes " + (x"; position = 1 };
}

expr-Strict_example : Ends Any (measure sum) (measure sum) (rule_expr 20 sum)
unfolding measure
expr-Strict_example = expr-Strict 20 sum (omega arith)

-- In front of `int, y`.
abbrev typed : Parser
typed = record block {
  tok = record (fresh 0) { kind = kw_type_int; len = 3 };
  lexer = record { src = codes ", y"; position = 3 };
}

type-Strict_example : Ends Any (measure typed) (measure typed) (rule_util_type 20 typed)
unfolding measure
type-Strict_example = type-Strict 20 typed (omega arith)

sync-Ends_example : Ends Any 0 (measure block) (parser_sync {A = Node} 20 block)
unfolding measure
sync-Ends_example = sync-Ends 20 block (omega arith)

-- In front of `1 - 2 - 3;`.
abbrev chain : Parser
chain = record block {
  tok = record (fresh 0) { kind = literal_number; number = 1; number_type = number_any };
  lexer = record { src = codes " - 2 - 3;"; position = 1 };
}

abbrev number : ℕ → ℕ → Node
number n at =
    literal (record (fresh at) { kind = literal_number; number = n; number_type = number_any })
      number_literal

abbrev minus_at : ℕ → Token
minus_at at = record (fresh at) { kind = minus }

abbrev chain_tree : Node
chain_tree = binop (binop (number 1 0) (number 2 4) (minus_at 2) sub) (number 3 8) (minus_at 6) sub

abbrev behind : Parser
behind = record chain {
  tok = record (fresh 9) { kind = semicolon };
  lexer = record { src = []; position = 10 };
}

abbrev operand : Rule Node
operand = rule_expr_primary 9 (rule_expr 9)

templ_binop-Steps_example :
    (first : Node) × (p1 : Parser) × (steps : List Step) × (operand chain ≡ ok first p1)
    × Steps operand (minus ∷ []) p1 steps behind
    × (chain_tree ≡ left_fold first steps)
unfolding parsing
templ_binop-Steps_example = templ_binop-Steps 9 operand (minus ∷ []) chain behind chain_tree refl
