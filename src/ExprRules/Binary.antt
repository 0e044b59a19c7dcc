-- ===== src/ExprRules/Binary.antt =====
-- What the loop over binary operators uses up of the source.
use native.Mathlib.Nat.{le_refl}
use seron.Prelude.{
  ℕ, zero, suc, ◌≤◌, ◌<◌, ◌≡◌, true, List, [], ◌∷◌, arith, ◌⊎◌, inl, inr, Bool-cases,
}
use seron.Token.{
  TokenKind, ordinal, plus, minus, asterisk, slash, eq, neq, gt, gt_eq, lt, lt_eq, ampersand, pipe,
  log_or, log_and,
}
use seron.Ast.{Node}
use seron.Parser.{Parser, Rule, ◌>>=◌, matches, matches_any, parser_advance}
use seron.Parser.Progress.{measure, Ends, gives, Any, Ends-if, Ends-bind, Ends-weaken, advance-Ends}
use seron.Parser.Specs.{Strict, Weak, lower, then_same, weak_then}
use seron.ExprRules.{binop_from_token, binop_loop, templ_binop}

-- The ordinals of the tokens that are binary operators.
abbrev pub IsBinary : ℕ → Type 0
IsBinary n = ((6 ≤ n) × (n ≤ 9)) ⊎ ((15 ≤ n) × (n ≤ 24))

abbrev pub AreBinary : List TokenKind → Type 0
AreBinary [] = Unit
AreBinary (kind ∷ kinds) = IsBinary (ordinal kind) × AreBinary kinds

matches_any-IsBinary :
    (kinds : List TokenKind) (p : Parser)
    → AreBinary kinds
    → matches_any kinds p ≡ true
    → IsBinary (ordinal p.tok.kind)
matches_any-IsBinary [] p h e = cc
matches_any-IsBinary (kind ∷ kinds) p (h, hs) e = elim (Bool-cases (matches kind p)) [
  | inl m ↦ ground arith
  | inr m ↦ matches_any-IsBinary kinds p hs (ground arith)
]

binop_from-Weak :
    {k : ℕ} (kind : TokenKind) → IsBinary (ordinal kind) → Weak k Any (binop_from_token kind)
unfolding binop_from_token
binop_from-Weak plus h p m = gives tt (omega arith)
binop_from-Weak minus h p m = gives tt (omega arith)
binop_from-Weak asterisk h p m = gives tt (omega arith)
binop_from-Weak slash h p m = gives tt (omega arith)
binop_from-Weak eq h p m = gives tt (omega arith)
binop_from-Weak neq h p m = gives tt (omega arith)
binop_from-Weak gt h p m = gives tt (omega arith)
binop_from-Weak gt_eq h p m = gives tt (omega arith)
binop_from-Weak lt h p m = gives tt (omega arith)
binop_from-Weak lt_eq h p m = gives tt (omega arith)
binop_from-Weak ampersand h p m = gives tt (omega arith)
binop_from-Weak pipe h p m = gives tt (omega arith)
binop_from-Weak log_or h p m = gives tt (omega arith)
binop_from-Weak log_and h p m = gives tt (omega arith)
binop_from-Weak _ h p m = absurd (omega arith)

-- A loop over binary operators, by the rule for its operands.
module _ (rule : Rule Node) (kinds : List TokenKind) (bs : AreBinary kinds) where
  round-Ends :
      (rounds k : ℕ) (lhs : Node) (p : Parser)
      → ((lhs' : Node) → Weak k Any (binop_loop rule kinds rounds lhs'))
      → Strict (suc k) Any rule
      → measure p < suc k
      → matches_any kinds p ≡ true
      → Ends Any (measure p) (measure p) (
          (do
            op ← parser_advance
            rhs ← rule
            kind ← binop_from_token op.kind
            binop_loop rule kinds rounds (Node.binop lhs rhs op kind))
            p)
  round-Ends rounds k lhs p ih sr h t = Ends-bind (advance-Ends p (measure p)) λ op q e m.
      let binary : IsBinary (ordinal op.kind) = rw e (matches_any-IsBinary kinds p bs t) in
      Ends-weaken (omega arith) (omega arith) (
        then_same _ _ (lower rule (omega arith) sr)
          (λ rhs _.
            weak_then _ _ (binop_from-Weak op.kind binary)
              λ kind _. ih (Node.binop lhs rhs op kind))
          q (omega arith))

  binop_loop-Weak :
      (rounds k : ℕ) (lhs : Node)
      → k ≤ rounds
      → Strict k Any rule
      → Weak k Any (binop_loop rule kinds rounds lhs)
  unfolding binop_loop
  binop_loop-Weak rounds zero lhs lr sr p h = absurd (omega arith)
  binop_loop-Weak zero (suc k) lhs lr sr p h = absurd (omega arith)
  binop_loop-Weak (suc rounds) (suc k) lhs lr sr p h =
      Ends-if (matches_any kinds p)
        (λ t. Ends-weaken (omega arith) (le_refl _) (
          round-Ends rounds k lhs p
            (λ lhs'. binop_loop-Weak rounds k lhs' (omega arith) (lower rule (omega arith) sr)) sr h
            t))
        (gives tt (omega arith))

  pub templ_binop-Strict :
      (n k : ℕ) → k ≤ n → Strict k Any rule → Strict k Any (templ_binop n rule kinds)
  unfolding templ_binop
  templ_binop-Strict n k le sr = then_same _ _ sr λ lhs _. binop_loop-Weak n k lhs le sr
