-- ===== src/TypeRules/Progress.antt =====
-- What the rules of TypeRules use up of the source, for a bound `k ≤ n` on what is left.
use seron.Prelude.{
  ℕ, zero, suc, ◌+◌, ◌≤◌, ◌<◌, ◌≡◌, ap, sym, Bool, true, false, some, none, Option, ◌==◌, leb,
  arith,
}
use seron.Token.{
  Token, TokenKind, asterisk, comma, lparen, rparen, lbrace, rbrace, colon, kw_proc, literal_ident,
  kw_type_int, kw_type_char, kw_type_long, kw_type_void,
}
use seron.Types.{Ty, no_params}
use seron.Parser.{Parser, Rule, ◌>>=◌, matches, parser_advance}
use seron.Parser.Progress.{
  measure, Ends, gives, faults, Any, Ends-if, Ends-ite, Ends-bind, advance-Ends,
}
use seron.Parser.Specs.{
  Strict, Weak, relax, lower, pure-Weak, sync-Strict, if-Weak, choose-Weak, strict_then, then_same,
  weak_then, advance-Strict, consume-Strict,
}
use seron.TypeRules.{
  type_from_token_keyword, token_is_type, assert_valid, skip_comma, rule_util_param, check_count,
  max_param_count, param_loop, rule_util_paramlist, check_field, field_loop, rule_util_fieldlist,
  proc_name, rule_util_proc_type, rule_util_type,
}

pub skip_comma-Weak : {k : ℕ} (n : ℕ) → k ≤ n → Weak k Any (skip_comma n)
unfolding skip_comma
skip_comma-Weak n h =
    choose-Weak (matches comma) _ _
      (relax _ (then_same _ _ (consume-Strict n comma h) λ _ _. pure-Weak tt tt)) (pure-Weak tt tt)

check_count-Weak : {k : ℕ} (n count : ℕ) → k ≤ n → Weak k Any (check_count n count)
unfolding check_count
check_count-Weak n count h =
    if-Weak (leb max_param_count count) _ _ (relax _ (sync-Strict n h)) (pure-Weak tt tt)

-- The name is there if it was asked for.
abbrev pub HasName : Bool → Option Token → Type 0
HasName true (some _) = Unit
HasName true none = ⊥
HasName false _ = Unit

check_field-Weak : {k : ℕ} (count : ℕ) → Weak k Any (check_field count)
unfolding check_field
check_field-Weak count p m =
    Ends-if (p.table_memory == 0)
      (λ _. Ends-if (leb max_param_count count) (λ _. faults) (gives tt (omega arith))) faults

module _ (n : ℕ) (type : Rule Ty) where
  param-Strict : {k : ℕ} → k ≤ n → Strict k Any type → Strict k Any (rule_util_param n type)
  unfolding rule_util_param
  param-Strict le st = then_same _ _ (consume-Strict n literal_ident le) λ _ _. relax _ (
      then_same _ _ (consume-Strict n colon le)
        λ _ _. relax _ (then_same _ _ st λ _ _. pure-Weak _ tt))

  -- A loop with as many rounds as tokens and bytes are left ends by its test.
  param_loop-Weak :
      (rounds k count : ℕ)
      → k ≤ rounds
      → k ≤ n
      → Strict k Any type
      → Weak k Any (param_loop n type rounds count)
  unfolding param_loop
  param_loop-Weak rounds zero count lr le st p h = absurd (omega arith)
  param_loop-Weak zero (suc k) count lr le st p h = absurd (omega arith)
  param_loop-Weak (suc rounds) (suc k) count lr le st p h =
      choose-Weak (matches rparen) _ _ (pure-Weak no_params tt)
        (relax _ (
          strict_then _ _ (param-Strict le st) λ _ _.
            weak_then _ _ (check_count-Weak n (count + 1) (omega arith)) λ _ _.
              weak_then _ _ (skip_comma-Weak n (omega arith)) λ _ _.
                weak_then _ _
                  (param_loop-Weak rounds k (count + 1) (omega arith) (omega arith)
                    (lower type (omega arith) st))
                  λ _ _. pure-Weak _ tt))
        p h

  field_loop-Weak :
      (rounds k count : ℕ)
      → k ≤ rounds
      → k ≤ n
      → Strict k Any type
      → Weak k Any (field_loop n type rounds count)
  unfolding field_loop
  field_loop-Weak rounds zero count lr le st p h = absurd (omega arith)
  field_loop-Weak zero (suc k) count lr le st p h = absurd (omega arith)
  field_loop-Weak (suc rounds) (suc k) count lr le st p h =
      choose-Weak (matches rbrace) _ _ (pure-Weak no_params tt)
        (relax _ (
          strict_then _ _ (param-Strict le st) λ _ _. weak_then _ _ (check_field-Weak count) λ _ _.
            weak_then _ _ (skip_comma-Weak n (omega arith)) λ _ _.
              weak_then _ _
                (field_loop-Weak rounds k (count + 1) (omega arith) (omega arith)
                  (lower type (omega arith) st))
                λ _ _. pure-Weak _ tt))
        p h

  module _ {k : ℕ} (le : k ≤ n) (st : Strict k Any type) where
    pub paramlist-Strict : Strict k Any (rule_util_paramlist n type)
    unfolding rule_util_paramlist
    paramlist-Strict = then_same _ _ (consume-Strict n lparen le) λ _ _.
        weak_then _ _ (param_loop-Weak n k 0 le le st)
          λ _ _. relax _ (then_same _ _ (consume-Strict n rparen le) λ _ _. pure-Weak _ tt)

    pub fieldlist-Strict : Strict k Any (rule_util_fieldlist n type)
    unfolding rule_util_fieldlist
    fieldlist-Strict = then_same _ _ (consume-Strict n lbrace le) λ _ _.
        weak_then _ _ (field_loop-Weak n k 0 le le st)
          λ _ _. relax _ (then_same _ _ (consume-Strict n rbrace le) λ _ _. pure-Weak _ tt)

  pub proc_name-Weak : {k : ℕ} (named : Bool) → k ≤ n → Weak k (HasName named) (proc_name n named)
  proc_name-Weak true le =
      relax _ (then_same _ _ (consume-Strict n literal_ident le) λ t _. pure-Weak (some t) tt)
  proc_name-Weak false le = pure-Weak none tt

  -- The keyword is read first, so the types inside have a smaller bound.
  pub proc_type-Strict :
      {f : ℕ} (named : Bool)
      → suc f ≤ n
      → Strict f Any type
      → Strict (suc f) (λ r. HasName named r.1) (rule_util_proc_type n type named)
  unfolding rule_util_proc_type
  proc_type-Strict named le st = strict_then _ _ (consume-Strict n kw_proc le) λ _ _.
      weak_then _ _ (proc_name-Weak named (omega arith)) λ o ho. relax _ (
        then_same _ _ (paramlist-Strict (omega arith) st)
          λ _ _. relax _ (then_same _ _ st λ _ _. pure-Weak _ ho))

-- Behind a test for the keyword of a type, the type is valid.
type_from-valid :
    (kind : TokenKind) (p q : Parser) (b j : ℕ)
    → p.tok.kind ≡ kind
    → measure q < b
    → token_is_type p ≡ true
    → matches asterisk p ≡ false
    → Ends Any b j (assert_valid (type_from_token_keyword kind) q)
unfolding type_from_token_keyword
type_from-valid kw_type_int p q b j e m h n = gives tt m
type_from-valid kw_type_long p q b j e m h n = gives tt m
type_from-valid kw_type_char p q b j e m h n = gives tt m
type_from-valid kw_type_void p q b j e m h n = gives tt m
type_from-valid _ p q b j e m h n = ground arith

keyword-Ends :
    (p : Parser)
    → matches asterisk p ≡ false
    → token_is_type p ≡ true
    → Ends Any
        (measure p)
        (measure p)
        ((do tok ← parser_advance; assert_valid (type_from_token_keyword tok.kind)) p)
keyword-Ends p n h = Ends-bind (advance-Ends p (measure p)) λ t q e m.
    type_from-valid t.kind p q (measure p) (measure p) (ap (λ (u : Token). u.kind) (sym e)) m h n

-- `rule_util_type`, with more fuel than tokens and bytes are left, does not panic and does not run
-- out of fuel. If it returns or jumps to the statements, it has used something up; if it jumps to
-- the declarations, no more than before is left.
pub type-Strict :
    (n : ℕ) (p : Parser) → measure p < n → Ends Any (measure p) (measure p) (rule_util_type n p)
unfolding rule_util_type
type-Strict zero p h = absurd (omega arith)
type-Strict (suc f) p h =
    Ends-ite (matches asterisk p)
      (λ _.
        strict_then _ _ (advance-Strict (suc f))
          (λ _ _. relax _ (then_same _ _ (type-Strict f) λ _ _. pure-Weak _ tt)) p h)
      λ no_star.
        Ends-if (matches kw_proc p)
          (λ _.
            then_same _ _
              (proc_type-Strict (suc f) (rule_util_type f) false (omega arith) (type-Strict f))
              (λ _ _. pure-Weak _ tt) p h)
          (Ends-if (matches literal_ident p)
            (λ _. then_same _ _ (advance-Strict (suc f)) (λ _ _. pure-Weak _ tt) p h)
            (Ends-if (token_is_type p) (keyword-Ends p no_star)
              (sync-Strict (suc f) (omega arith) p h)))
