-- ===== src/ExprRules/Progress.antt =====
-- What the rules for expressions use up of the source.
use seron.Prelude.{ℕ, zero, suc, ◌≤◌, ◌<◌, List, arith}
use seron.Token.{TokenKind, assign, lbracket, rbracket}
use seron.Ast.{Node}
use seron.Parser.{Parser, Rule, matches}
use seron.Parser.Progress.{measure, Ends, Any}
use seron.Parser.Specs.{
  Strict, relax, lower, pure-Weak, choose-Strict, choose-Weak, strict_then, then_same, weak_then,
  advance-Strict, consume-Strict,
}
use seron.TypeRules.Progress.{type-Strict}
use seron.ExprRules.{
  rule_expr_factor, rule_expr_term, rule_expr_comparison, rule_expr_equality, rule_expr_bitwise_and,
  rule_expr_bitwise_or, rule_expr_log_and, rule_expr_log_or, rule_expr_assign, rule_expr_array,
  rule_expr,
}
use seron.ExprRules.Operands.{expr_list-Weak, unary-Strict}
use seron.ExprRules.Binary.{AreBinary, templ_binop-Strict}

module _ (n f : ℕ) (expr : Rule Node) (le : suc f ≤ n) (se : Strict f Any expr) where
  log_or-Strict : Strict (suc f) Any (rule_expr_log_or n expr)
  unfolding rule_expr_log_or rule_expr_log_and rule_expr_bitwise_or rule_expr_bitwise_and
      rule_expr_equality rule_expr_comparison rule_expr_term rule_expr_factor
  log_or-Strict =
      let binary =
        λ (r : Rule Node) (kinds : List TokenKind) (bs : AreBinary kinds)
            (sr : Strict (suc f) Any r).
          templ_binop-Strict r kinds bs n (suc f) le sr in
      binary _ _ (omega arith) (
        binary _ _ (omega arith) (
          binary _ _ (omega arith) (
            binary _ _ (omega arith) (
              binary _ _ (omega arith) (
                binary _ _ (omega arith) (
                  binary _ _ (omega arith)
                    (binary _ _ (omega arith) (unary-Strict n expr le se))))))))

  assign-Strict :
      (rounds k : ℕ) → k ≤ rounds → k ≤ suc f → Strict k Any (rule_expr_assign n expr rounds)
  unfolding rule_expr_assign
  assign-Strict rounds zero lr lk p h = absurd (omega arith)
  assign-Strict zero (suc k) lr lk p h = absurd (omega arith)
  assign-Strict (suc rounds) (suc k) lr lk p h =
      strict_then _ _ (lower _ lk log_or-Strict)
        (λ target _.
          choose-Weak (matches assign) _ _
            (relax _ (
              then_same _ _ (advance-Strict k) λ op _. relax _ (
                then_same _ _ (assign-Strict rounds k (omega arith) (omega arith))
                  λ value _. pure-Weak _ tt)))
            (pure-Weak target tt))
        p h

  array-Strict : Strict (suc f) Any (rule_expr_array n expr)
  unfolding rule_expr_array
  array-Strict = strict_then _ _ (consume-Strict n lbracket le) λ _ _.
      weak_then _ _ (expr_list-Weak n expr rbracket n f (omega arith) (omega arith) se) λ _ _.
        relax _ (
          then_same _ _ (consume-Strict n rbracket (omega arith)) λ _ _.
            relax _ (then_same _ _ (lower _ (omega arith) (type-Strict n)) λ _ _. pure-Weak _ tt))

-- `rule_expr`, with more fuel than tokens and bytes are left, does not panic and does not run out
-- of fuel. If it returns or jumps to the statements, it has used something up; if it jumps to the
-- declarations, no more than before is left.
pub expr-Strict :
    (n : ℕ) (p : Parser) → measure p < n → Ends Any (measure p) (measure p) (rule_expr n p)
unfolding rule_expr
expr-Strict zero p h = absurd (omega arith)
expr-Strict (suc f) p h =
    choose-Strict (matches lbracket) _ _
      (array-Strict (suc f) f (rule_expr f) (omega arith) (expr-Strict f))
      (assign-Strict (suc f) f (rule_expr f) (omega arith) (expr-Strict f) (suc f) (suc f)
        (omega arith) (omega arith))
      p h
