-- ===== src/ExprRules/LeftAssoc.antt =====
-- The tree that `rule_util_templ_binop` builds, described by the operands and operators behind the
-- first operand.
use mathlib.Core.Path.{subst}
use seron.Prelude.{ℕ, zero, suc, ◌≡◌, refl, true, false, List, [], ◌∷◌, Bool-cases, inl, inr}
use seron.Token.{Token, TokenKind}
use seron.Ast.{Node, binop, BinOpKind}
use seron.Parser.{
  Parser, Rule, Result, ok, jump, exit, panic, undefined, no_fuel, bind, matches_any,
  parser_advance,
}
use seron.ExprRules.{binop_from_token, binop_loop, templ_binop}

bind-ok {ℓ κ} :
    {A : Type ℓ} {B : Type κ} (r : Result A) (f : A → Rule B) {b : B} {q : Parser}
    → bind r f ≡ ok b q
    → (a : A) × (p : Parser) × (r ≡ ok a p) × (f a p ≡ ok b q)
bind-ok (ok a p) f e = (a, p, refl, e)
bind-ok (jump c p) f e = cc
bind-ok (exit x) f e = cc
bind-ok panic f e = cc
bind-ok (undefined u) f e = cc
bind-ok no_fuel f e = cc

-- An operator and the operand behind it.
pub record Step : Type 0 where
  pub op : Token
  pub kind : BinOpKind
  pub rhs : Node

-- The tree of the operands, each operator with all that stands in front of it as its left operand.
pub left_fold : Node → List Step → Node
left_fold lhs [] = lhs
left_fold lhs (s ∷ steps) = left_fold (binop lhs s.rhs s.op s.kind) steps

-- From one state to another, the steps are read: each an operator of `kinds`, and what `rule` reads.
-- Behind the last there is no operator of `kinds`.
pub data Steps (rule : Rule Node) (kinds : List TokenKind)
    : Parser → List Step → Parser → Type 0 where
  stop : {p : Parser} → matches_any kinds p ≡ false → Steps rule kinds p [] p
  step :
      {p p1 p2 p3 q : Parser} {op : Token} {rhs : Node} {kind : BinOpKind} {steps : List Step}
      → matches_any kinds p ≡ true
      → parser_advance p ≡ ok op p1
      → rule p1 ≡ ok rhs p2
      → binop_from_token op.kind p2 ≡ ok kind p3
      → Steps rule kinds p3 steps q
      → Steps rule kinds p (record { op = op; kind = kind; rhs = rhs } ∷ steps) q

module _ (rule : Rule Node) (kinds : List TokenKind) where
  stopped :
      {lhs e : Node} {p q : Parser}
      → matches_any kinds p ≡ false
      → ok lhs p ≡ ok e q
      → (steps : List Step) × Steps rule kinds p steps q × (e ≡ left_fold lhs steps)
  unfolding left_fold
  stopped {p} {q} m h = ([], subst (λ x. Steps rule kinds p [] x) {x = p} {y = q} (cc) (stop m), cc)

  binop_loop-Steps :
      (rounds : ℕ) (lhs : Node) (p : Parser) {e : Node} {q : Parser}
      → binop_loop rule kinds rounds lhs p ≡ ok e q
      → (steps : List Step) × Steps rule kinds p steps q × (e ≡ left_fold lhs steps)
  unfolding binop_loop left_fold
  binop_loop-Steps zero lhs p h = cc
  binop_loop-Steps (suc rounds) lhs p h = elim (Bool-cases (matches_any kinds p)) [
    | inl m ↦
        let (op, p1, a, h1) = bind-ok (parser_advance p) _ (rw m at h) in
        let (rhs, p2, b, h2) = bind-ok (rule p1) _ h1 in
        let (kind, p3, c, h3) = bind-ok (binop_from_token op.kind p2) _ h2 in
        let (steps, s, f) = binop_loop-Steps rounds (binop lhs rhs op kind) p3 h3 in
        (record { op = op; kind = kind; rhs = rhs } ∷ steps, step m a b c s, f)
    | inr m ↦ stopped m (rw m at h)
  ]

-- Where `rule_util_templ_binop` returns, it has read an operand and then operators of its list with
-- an operand behind each, until there was no more; the tree groups them from the left.
pub templ_binop-Steps :
    (n : ℕ) (rule : Rule Node) (kinds : List TokenKind) (p q : Parser) (e : Node)
    → templ_binop n rule kinds p ≡ ok e q
    → (first : Node) × (p1 : Parser) × (steps : List Step) × (rule p ≡ ok first p1)
      × Steps rule kinds p1 steps q
      × (e ≡ left_fold first steps)
unfolding templ_binop
templ_binop-Steps n rule kinds p q e h =
    let (first, p1, a, h1) = bind-ok (rule p) _ h in
    let (steps, s, f) = binop_loop-Steps rule kinds n first p1 h1 in (first, p1, steps, a, s, f)
