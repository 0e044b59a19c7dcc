-- ===== src/DeclRules/Declarations.antt =====
-- What the rules for declarations use up of the source.
use native.Mathlib.Nat.{le_refl}
use seron.Prelude.{
  ℕ, suc, ◌≤◌, ◌<◌, ◌≡◌, refl, true, false, Option, some, none, arith, Bool-cases, inl, inr,
}
use seron.Outcome.{unexpected_eof}
use seron.Token.{Token, TokenKind, literal_ident, semicolon, kw_proc, kw_table}
use seron.Ast.{Node, null}
use seron.Parser.{
  Parser, Rule, exit, context_decl, ◌>>=◌, pure, matches, is_at_end, choose, parser_advance,
  parser_expect_token, parser_consume,
}
use seron.Parser.Progress.{
  measure, Ends, Any, Ends-ite, Ends-bind, Ends-any, Ends-weaken, advance-Ends, decl_sync-Ends,
  decl_sync-exit,
}
use seron.Parser.Specs.{
  Strict, Weak, relax, lower, pure-Weak, choose-Weak, then_same, weak_then, advance-Strict,
  consume-Strict,
}
use seron.TypeRules.{rule_util_type, rule_util_proc_type}
use seron.TypeRules.Progress.{
  HasName, type-Strict, fieldlist-Strict, paramlist-Strict, proc_name-Weak,
}
use seron.StmtRules.{maybe, rule_stmt_block, rule_stmt}
use seron.StmtRules.Progress.{maybe-Strict, block-Strict, stmt-Strict, measure_ctx}
use seron.DeclRules.{written, rule_decl_proc, rule_decl_table, rule_decl}

-- The token that is there is consumed without a jump.
consume-Ends :
    (n j : ℕ) (kind : TokenKind) (p : Parser)
    → matches kind p ≡ true
    → Ends Any (measure p) j (parser_consume n kind p)
unfolding parser_consume parser_expect_token
consume-Ends n j kind p h = elim (Bool-cases (is_at_end p)) [
  | inl e ↦ rw e (Ends-any (advance-Ends p j))
  | inr e ↦ rw (e, h) (Ends-any (advance-Ends p j))
]

-- What follows the first token of a declaration may jump to where it stands.
head_then {κ} :
    {B : Type κ} {R : B → Type 0} (n d : ℕ) (kind : TokenKind) (f : Token → Rule B) (p : Parser)
    → matches kind p ≡ true
    → measure p ≤ suc d
    → ((t : Token) → Weak (measure p) R (f t))
    → Ends R (measure p) d ((parser_consume n kind >>= f) p)
head_then n d kind f p h le w =
    Ends-bind (consume-Ends n d kind p h)
      λ t q _ m. Ends-weaken (omega arith) (omega arith) (w t q m)

-- A name that is there is read.
written_then :
    {n : ℕ} (ident : Option Token) (f : Token → Rule Node)
    → HasName true ident
    → ((t : Token) → Weak n Any (f t))
    → Weak n Any (written ident >>= f)
written_then (some t) f h w = w t
written_then none f h w = absurd h

-- The declarations, in front of which at most `d + 1` tokens and bytes are left, and less than the
-- fuel `suc f`. They jump to where at most `d` are.
module _ (f d : ℕ) (p : Parser) (lt : measure p < suc f) (le : measure p ≤ suc d) where
  type : Strict (measure p) Any (rule_util_type (suc f))
  type = lower _ (omega arith) (type-Strict (suc f))

  body : Weak (measure p) Any (
      choose
        (matches semicolon)
        (do _ ← parser_advance; pure null)
        (maybe (rule_stmt_block (suc f) (rule_stmt (suc f)))))
  body =
      choose-Weak (matches semicolon) _ _
        (relax _ (then_same _ _ (advance-Strict _) λ _ _. pure-Weak null tt))
        (relax _ (
          maybe-Strict _ (
            lower _ (omega arith)
              (block-Strict (rule_stmt (suc f)) f (lower _ (omega arith) (stmt-Strict (suc f)))))))

  header-Ends :
      matches kw_proc p ≡ true
      → Ends
          (λ r. HasName true r.1)
          (measure p)
          d
          (rule_util_proc_type (suc f) (rule_util_type (suc f)) true p)
  unfolding rule_util_proc_type
  header-Ends h = head_then (suc f) d kw_proc _ p h le λ op.
      weak_then _ _ (proc_name-Weak (suc f) (rule_util_type (suc f)) true (omega arith)) λ o ho.
        relax _ (
          then_same _ _ (paramlist-Strict (suc f) _ (omega arith) type)
            λ _ _. relax _ (then_same _ _ type λ _ _. pure-Weak _ ho))

  proc-Ends : matches kw_proc p ≡ true → Ends Any (measure p) d (rule_decl_proc (suc f) p)
  unfolding rule_decl_proc
  proc-Ends h = Ends-bind (header-Ends h) λ (op, ident, ty) q named m.
      Ends-weaken (omega arith) (omega arith)
        (written_then ident _ named (λ t. weak_then _ _ body λ _ _. pure-Weak _ tt) q m)

  table-Ends : matches kw_table p ≡ true → Ends Any (measure p) d (rule_decl_table (suc f) p)
  unfolding rule_decl_table
  table-Ends h = head_then (suc f) d kw_table _ p h le λ op. relax _ (
      then_same _ _ (consume-Strict (suc f) literal_ident (omega arith)) λ _ _.
        relax _
          (then_same _ _ (fieldlist-Strict (suc f) _ (omega arith) type) λ _ _. pure-Weak _ tt))

abbrev declaring : Parser → Parser
declaring p = record p { ctx = context_decl }

-- A declaration uses something up, jumps after a recovery that did, or stops the program.
pub decl-Ends :
    (f d : ℕ) (p : Parser)
    → measure p < suc f
    → measure p ≤ suc d
    → Ends Any (measure p) d (rule_decl (suc f) p)
unfolding rule_decl
decl-Ends f d p lt le =
    Ends-ite (matches kw_proc p)
      (λ h.
        Ends-weaken (omega (arith, same)) (le_refl d)
          (proc-Ends f d (declaring p) (omega (arith, same)) (omega (arith, same)) h))
      λ no_proc.
        Ends-ite (matches kw_table p)
          (λ h.
            Ends-weaken (omega (arith, same)) (le_refl d)
              (table-Ends f d (declaring p) (omega (arith, same)) (omega (arith, same)) h))
          λ no_table.
            Ends-weaken (omega arith) (le_refl d) (decl_sync-Ends (suc f) d p lt le (ground arith))
  where
    same : measure (declaring p) ≡ measure p
    same = measure_ctx p context_decl

pub decl-exit :
    (f : ℕ) (p : Parser) → is_at_end p ≡ true → rule_decl (suc f) p ≡ exit unexpected_eof
unfolding rule_decl
decl-exit f p h = rw (no_proc, no_table, decl_sync-exit {A = Node} f p h) refl
  where
    no_proc : matches kw_proc p ≡ false
    no_proc = ground arith

    no_table : matches kw_table p ≡ false
    no_table = ground arith
