-- ===== src/ExprRules/Operands.antt =====
-- What the rules from `rule_grouping` to `rule_expr_unary` use up of the source.
use seron.Prelude.{ℕ, zero, suc, ◌≤◌, ◌<◌, ◌≡◌, refl, ap, sym, true, List, [], ◌∷◌, arith}
use seron.Token.{
  Token, TokenKind, literal_ident, literal_number, literal_string, minus, asterisk, bang, ampersand,
  lparen, rparen, lbracket, rbracket,
}
use seron.Ast.{Node, nil}
use seron.Parser.{Parser, Rule, ◌>>=◌, pure, matches, matches_any, peek, parser_advance}
use seron.Parser.Progress.{measure, Ends, gives, Any, Ends-if, Ends-bind, Ends-weaken, advance-Ends}
use seron.Parser.Specs.{
  Strict, Weak, relax, lower, pure-Weak, sync-Strict, choose-Strict, choose-Weak, strict_then,
  then_same, weak_then, consume-Strict,
}
use seron.TypeRules.Progress.{skip_comma-Weak}
use seron.ExprRules.{
  literal_from_token, unaryop_from_token, expr_list, rule_util_arglist, rule_grouping,
  rule_expr_primary, rule_expr_call, rule_expr_index, rule_expr_unary,
}

abbrev literal_kinds : List TokenKind
literal_kinds = literal_number ∷ literal_ident ∷ literal_string ∷ []

abbrev unary_kinds : List TokenKind
unary_kinds = minus ∷ bang ∷ ampersand ∷ asterisk ∷ []

literal_from-Ends :
    (kind : TokenKind) (p q : Parser) (b j : ℕ)
    → p.tok.kind ≡ kind
    → measure q < b
    → matches_any literal_kinds p ≡ true
    → Ends Any b j (literal_from_token kind q)
unfolding literal_from_token
literal_from-Ends literal_ident p q b j e m h = gives tt m
literal_from-Ends literal_number p q b j e m h = gives tt m
literal_from-Ends literal_string p q b j e m h = gives tt m
literal_from-Ends _ p q b j e m h = ground arith

unaryop_from-Ends :
    (kind : TokenKind) (p q : Parser) (b j : ℕ)
    → p.tok.kind ≡ kind
    → measure q < b
    → matches_any unary_kinds p ≡ true
    → Ends Any b j (unaryop_from_token kind q)
unfolding unaryop_from_token
unaryop_from-Ends minus p q b j e m h = gives tt m
unaryop_from-Ends bang p q b j e m h = gives tt m
unaryop_from-Ends ampersand p q b j e m h = gives tt m
unaryop_from-Ends asterisk p q b j e m h = gives tt m
unaryop_from-Ends _ p q b j e m h = ground arith

-- `expr` is given the bound `k`; the fuel `n` is not below it.
module _ (n : ℕ) (expr : Rule Node) where
  pub expr_list-Weak :
      (close : TokenKind) (rounds k : ℕ)
      → k ≤ rounds
      → k ≤ n
      → Strict k Any expr
      → Weak k Any (expr_list n expr close rounds)
  unfolding expr_list
  expr_list-Weak close rounds zero lr le se p h = absurd (omega arith)
  expr_list-Weak close zero (suc k) lr le se p h = absurd (omega arith)
  expr_list-Weak close (suc rounds) (suc k) lr le se p h =
      choose-Weak (matches close) _ _ (pure-Weak nil tt)
        (relax _ (
          strict_then _ _ se λ _ _. weak_then _ _ (skip_comma-Weak n (omega arith)) λ _ _.
            weak_then _ _
              (expr_list-Weak close rounds k (omega arith) (omega arith)
                (lower expr (omega arith) se))
              λ _ _. pure-Weak _ tt))
        p h

  module _ {k : ℕ} (le : k ≤ n) (se : Strict k Any expr) where
    arglist-Strict : Strict k Any (rule_util_arglist n expr)
    unfolding rule_util_arglist
    arglist-Strict = then_same _ _ (consume-Strict n lparen le) λ _ _.
        weak_then _ _ (expr_list-Weak rparen n k le le se)
          λ _ _. relax _ (then_same _ _ (consume-Strict n rparen le) λ _ _. pure-Weak _ tt)

  -- What stands behind an opening bracket has a smaller bound.
  module _ {f : ℕ} (le : suc f ≤ n) (se : Strict f Any expr) where
    fle : f ≤ n
    fle = omega arith

    grouping-Strict : Strict (suc f) Any (rule_grouping n expr)
    unfolding rule_grouping
    grouping-Strict = strict_then _ _ (consume-Strict n lparen le) λ _ _.
        weak_then {Q = Any} _ _
          (choose-Weak (matches rparen) _ _ (relax _ (sync-Strict n fle)) (pure-Weak tt tt))
          λ _ _. relax _ (
            then_same _ _ se
              λ _ _. relax _ (then_same _ _ (consume-Strict n rparen fle) λ _ _. pure-Weak _ tt))

    literal-Ends :
        (p : Parser)
        → matches_any literal_kinds p ≡ true
        → Ends Any (measure p) (measure p) (
            (do
              tok ← peek
              kind ← literal_from_token tok.kind
              _ ← parser_advance
              pure (Node.literal tok kind))
              p)
    literal-Ends p h =
        Ends-bind
          (literal_from-Ends p.tok.kind p p (suc (measure p)) (measure p) refl (omega arith) h)
          λ kind q _ m.
            Ends-weaken (omega arith) (omega arith)
              (Ends-bind (advance-Ends q (measure q)) λ _ r _ l. gives tt l)

    primary-Strict : Strict (suc f) Any (rule_expr_primary n expr)
    unfolding rule_expr_primary
    primary-Strict p h =
        Ends-if (matches_any literal_kinds p) (literal-Ends p)
          (choose-Strict (matches lparen) _ _ grouping-Strict (sync-Strict n le) p h)

    call-Strict : Strict (suc f) Any (rule_expr_call n expr)
    unfolding rule_expr_call
    call-Strict = strict_then _ _ primary-Strict λ node _.
        choose-Weak (matches lparen) _ _
          (λ p h.
            relax (rule_util_arglist n expr >>= λ args. pure (Node.call p.tok node args))
              (then_same _ _ (arglist-Strict fle se) λ _ _. pure-Weak _ tt) p h)
          (pure-Weak node tt)

    index-Strict : Strict (suc f) Any (rule_expr_index n expr)
    unfolding rule_expr_index
    index-Strict = strict_then _ _ call-Strict λ node _.
        choose-Weak (matches lbracket) _ _
          (relax _ (
            then_same _ _ (consume-Strict n lbracket fle) λ _ _. relax _ (
              then_same _ _ se λ _ _.
                relax _ (then_same _ _ (consume-Strict n rbracket fle) λ _ _. pure-Weak _ tt))))
          (pure-Weak node tt)

    unary-Ends :
        (p : Parser)
        → measure p < suc f
        → matches_any unary_kinds p ≡ true
        → Ends Any (measure p) (measure p) (
            (do
              op ← parser_advance
              kind ← unaryop_from_token op.kind
              node ← rule_expr_index n expr
              pure (Node.unaryop node op kind))
              p)
    unary-Ends p h t = Ends-bind (advance-Ends p (measure p)) λ op q e m.
        Ends-bind
          (unaryop_from-Ends op.kind p q (suc (measure q)) (measure p)
            (ap (λ (u : Token). u.kind) (sym e)) (omega arith) t)
          λ kind r _ l. Ends-weaken (omega arith) (omega arith) (
            then_same _ _ index-Strict (λ node _. pure-Weak (Node.unaryop node op kind) tt) r
              (omega arith))

    pub unary-Strict : Strict (suc f) Any (rule_expr_unary n expr)
    unfolding rule_expr_unary
    unary-Strict p h = Ends-if (matches_any unary_kinds p) (unary-Ends p h) (index-Strict p h)
