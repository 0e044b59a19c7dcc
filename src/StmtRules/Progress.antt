-- ===== src/StmtRules/Progress.antt =====
-- What the rules for statements use up of the source, with the jumps that a block catches.
use native.Mathlib.Nat.{le_refl}
use seron.Prelude.{◌<◌, ℕ, zero, suc, ◌≤◌, ◌≡◌, refl, Bool, true, false, arith}
use seron.Outcome.{unmatched_brace}
use mathlib.Core.Option.{none}
use seron.Token.{
  TokenKind, literal_ident, semicolon, colon, comma, assign, lbrace, rbrace, kw_vardecl, kw_if,
  kw_else, kw_while, kw_for, kw_return,
}
use seron.Ast.{Node, block, Nodes, nil, MaybeNode, null, some_node}
use seron.Parser.{
  Parser, Rule, Result, exit, ParserContext, context_stmt, ◌>>=◌, pure, matches, is_at_end, choose,
  parser_consume,
}
use seron.Parser.Progress.{
  measure, Ends, gives, to_stmt, to_decl, exits, faults, Any, Ends-if, Ends-bind, Ends-weaken,
}
use seron.Parser.Specs.{
  Strict, Weak, relax, lower, pure-Weak, choose-Strict, choose-Weak, strict_then, then_same,
  weak_then, weak_then_strict, advance-Strict, consume-Strict,
}
use seron.TypeRules.{rule_util_type}
use seron.TypeRules.Progress.{type-Strict}
use seron.ExprRules.{rule_expr}
use seron.ExprRules.Progress.{expr-Strict}
use seron.StmtRules.{
  maybe, expr_unless_semicolon, rule_exprstmt, rule_stmt_vardecl, set_jump, land, block_loop,
  rule_stmt_block, rule_stmt_for, rule_stmt_while, rule_stmt_if, rule_stmt_return, set_context,
  rule_stmt,
}

pub maybe-Strict : {k : ℕ} (rule : Rule Node) → Strict k Any rule → Strict k Any (maybe rule)
maybe-Strict rule sr = then_same _ _ sr λ _ _. pure-Weak _ tt

measure_ctx_stmt : (p : Parser) (b : Bool) → measure (record p { ctx_stmt = b }) ≡ measure p
unfolding measure
measure_ctx_stmt p b = refl

set_jump-Weak : {k : ℕ} (b : Bool) → Weak k Any (set_jump b)
set_jump-Weak b p h = gives tt (omega (arith, measure_ctx_stmt p b))

set_jump_then :
    {k : ℕ} {A : Type 0} (b : Bool) (rule : Rule A)
    → Weak k Any rule
    → Weak k Any (do _ ← set_jump b; rule)
set_jump_then b rule w =
    weak_then {Q = Any} {R = Any} (set_jump b) (λ _. rule) (set_jump-Weak b) λ _ _. w

pub measure_ctx : (p : Parser) (c : ParserContext) → measure (record p { ctx = c }) ≡ measure p
unfolding measure
measure_ctx p c = refl

pub set_context_then :
    {k : ℕ} {A : Type 0} (c : ParserContext) (rule : Rule A)
    → Strict k Any rule
    → Strict k Any (do _ ← set_context c; rule)
set_context_then c rule s p h =
    Ends-weaken (omega (arith, measure_ctx p c)) (omega (arith, measure_ctx p c))
      (s (record p { ctx = c }) (omega (arith, measure_ctx p c)))

-- The rules of fuel `n` under the bound `k`.
module _ {k : ℕ} (n : ℕ) (le : k ≤ n) where
  consume : (kind : TokenKind) → Strict k Any (parser_consume n kind)
  consume kind = consume-Strict n kind le

  type : Strict k Any (rule_util_type n)
  type = lower _ le (type-Strict n)

  expr : Strict k Any (rule_expr n)
  expr = lower _ le (expr-Strict n)

  unless-Weak : Weak k Any (expr_unless_semicolon n)
  unless-Weak =
      choose-Weak (matches semicolon) _ _ (pure-Weak null tt) (relax _ (maybe-Strict _ expr))

  exprstmt-Strict : Strict k Any (rule_exprstmt n)
  unfolding rule_exprstmt
  exprstmt-Strict =
      weak_then_strict _ _ unless-Weak
        λ _ _. then_same _ _ (consume semicolon) λ _ _. pure-Weak _ tt

  return-Strict : Strict k Any (rule_stmt_return n)
  unfolding rule_stmt_return
  return-Strict = then_same _ _ (consume kw_return) λ _ _.
      weak_then _ _ unless-Weak
        λ _ _. relax _ (then_same _ _ (consume semicolon) λ _ _. pure-Weak _ tt)

  vardecl-Strict : Strict k Any (rule_stmt_vardecl n)
  unfolding rule_stmt_vardecl
  vardecl-Strict = then_same _ _ (consume kw_vardecl) λ _ _. relax _ (
      then_same _ _ (consume literal_ident) λ _ _. relax _ (
        then_same _ _ (consume colon) λ _ _. relax _ (
          then_same _ _ type λ _ _.
            weak_then {Q = Any} _ _
              (choose-Weak (matches semicolon) _ _ (pure-Weak null tt)
                (relax _ (then_same _ _ (consume assign) λ _ _. relax _ (maybe-Strict _ expr))))
              λ _ _. relax _ (then_same _ _ (consume semicolon) λ _ _. pure-Weak _ tt))))

-- A statement that used something up, or jumped, is followed by the rest of the block.
land-Ends :
    {m : ℕ} (rest : Rule Nodes) (r : Result MaybeNode)
    → Ends Any m m r
    → Weak m Any rest
    → Ends Any m m (land rest r)
land-Ends {m} rest _ (gives {a = null} {p} q h) w = Ends-weaken (omega arith) (omega arith) (w p h)
land-Ends {m} rest _ (gives {a = some_node node} {p} q h) w =
    Ends-bind (Ends-weaken {b' = m} {j' = m} (omega arith) (omega arith) (w p h))
      λ a q _ k. gives tt k
land-Ends {m} rest _ (to_stmt {p} h) w = Ends-weaken (omega arith) (omega arith) (w p h)
land-Ends rest _ (to_decl h) w = to_decl h
land-Ends rest _ exits w = exits
land-Ends rest _ faults w = faults

module _ (stmt : Rule MaybeNode) where
  -- A round of the loop behind the `setjmp`.
  abbrev round : Rule Nodes → Rule Nodes
  round rest =
      choose (matches rbrace) (pure nil)
        (choose is_at_end (λ q. exit unmatched_brace) (λ q. land rest (stmt q)))

  round-Weak :
      (rest : Rule Nodes) {k : ℕ}
      → Strict (suc k) Any stmt
      → Weak k Any rest
      → Weak (suc k) Any (round rest)
  round-Weak rest ss w q h =
      Ends-if (matches rbrace q) (λ _. gives tt (omega arith))
        (Ends-if (is_at_end q) (λ _. exits)
          (Ends-weaken (omega arith) (le_refl _)
            (land-Ends rest (stmt q) (ss q h) λ r m. w r (omega arith))))

  block_loop-Weak :
      (rounds k : ℕ) → k ≤ rounds → Strict k Any stmt → Weak k Any (block_loop stmt rounds)
  unfolding block_loop
  block_loop-Weak rounds zero lr ss p h = absurd (omega arith)
  block_loop-Weak zero (suc k) lr ss p h = absurd (omega arith)
  block_loop-Weak (suc rounds) (suc k) lr ss p h =
      set_jump_then true (round (block_loop stmt rounds))
        (round-Weak (block_loop stmt rounds) ss
          (block_loop-Weak rounds k (omega arith) (lower stmt (omega arith) ss)))
        p h

  -- A block of fuel `n` around statements with less fuel.
  pub block-Strict : (n : ℕ) → Strict n Any stmt → Strict (suc n) Any (rule_stmt_block (suc n) stmt)
  unfolding rule_stmt_block
  block-Strict n ss = strict_then _ _ (consume (suc n) (le_refl _) lbrace) λ _ _.
      weak_then _ _ (block_loop-Weak (suc n) n (omega arith) ss) λ stmts _. relax _ (
        then_same _ _ (advance-Strict n)
          λ _ _. set_jump_then false (pure (block stmts none)) (pure-Weak _ tt))

-- The bound of a statement that uses `stmt`, of less fuel, in its blocks.
module _ (n : ℕ) (stmt : Rule MaybeNode) (ss : Strict n Any stmt) where
  expr_then {κ} :
      {B : Type κ} (f : Node → Rule B)
      → ((a : Node) → Weak n Any (f a))
      → Weak n Any (rule_expr (suc n) >>= f)
  expr_then f h = relax _ (then_same _ f (expr (suc n) (omega arith)) λ a _. h a)

  body : Strict n Any (rule_stmt_block (suc n) stmt)
  body = lower _ (omega arith) (block-Strict stmt n ss)

  for-Strict : Strict (suc n) Any (rule_stmt_for (suc n) stmt)
  unfolding rule_stmt_for
  for-Strict = strict_then _ _ (consume (suc n) (le_refl _) kw_for) λ _ _. relax _ (
      then_same _ _ (consume (suc n) (omega arith) literal_ident) λ _ _. relax _ (
        then_same _ _ (consume (suc n) (omega arith) colon) λ _ _. relax _ (
          then_same _ _ (type (suc n) (omega arith)) λ _ _. relax _ (
            then_same _ _ (consume (suc n) (omega arith) assign) λ _ _. expr_then _ λ _. relax _ (
              then_same _ _ (consume (suc n) (omega arith) comma) λ _ _. expr_then _ λ _. relax _ (
                then_same _ _ (consume (suc n) (omega arith) comma)
                  λ _ _. expr_then _ λ _. relax _ (then_same _ _ body λ _ _. pure-Weak _ tt)))))))

  while-Strict : Strict (suc n) Any (rule_stmt_while (suc n) stmt)
  unfolding rule_stmt_while
  while-Strict =
      strict_then _ _ (consume (suc n) (le_refl _) kw_while)
        λ _ _. expr_then _ λ _. relax _ (then_same _ _ body λ _ _. pure-Weak _ tt)

  if-Strict : Strict (suc n) Any (rule_stmt_if (suc n) stmt)
  unfolding rule_stmt_if
  if-Strict = strict_then _ _ (consume (suc n) (le_refl _) kw_if) λ _ _. expr_then _ λ _. relax _ (
      then_same _ _ body λ _ _.
        weak_then {Q = Any} _ _
          (choose-Weak (matches kw_else) _ (pure null)
            (relax _ (then_same _ _ (advance-Strict n) λ _ _. relax _ (maybe-Strict _ body)))
            (pure-Weak null tt))
          λ _ _. pure-Weak _ tt)

step-Strict : (n : ℕ) → Strict n Any (rule_stmt n) → Strict (suc n) Any (rule_stmt (suc n))
unfolding rule_stmt
step-Strict n ss p h =
    set_context_then context_stmt _
      (choose-Strict (matches lbrace) _ _ (maybe-Strict _ (block-Strict _ n ss)) (
        choose-Strict (matches kw_vardecl) _ _ (maybe-Strict _ (vardecl-Strict (suc n) (le_refl _)))
          (choose-Strict (matches kw_if) _ _ (maybe-Strict _ (if-Strict n _ ss)) (
            choose-Strict (matches kw_while) _ _ (maybe-Strict _ (while-Strict n _ ss)) (
              choose-Strict (matches kw_for) _ _ (maybe-Strict _ (for-Strict n _ ss)) (
                choose-Strict (matches kw_return) _ _
                  (maybe-Strict _ (return-Strict (suc n) (le_refl _)))
                  (exprstmt-Strict (suc n) (le_refl _))))))))
      p h

-- `rule_stmt`, with more fuel than tokens and bytes are left, does not panic and does not run out
-- of fuel. If it returns or jumps to the statements, it has used something up; if it jumps to the
-- declarations, no more than before is left.
pub stmt-Strict :
    (n : ℕ) (p : Parser) → measure p < n → Ends Any (measure p) (measure p) (rule_stmt n p)
stmt-Strict zero p h = absurd (omega arith)
stmt-Strict (suc n) p h = step-Strict n (stmt-Strict n) p h
