-- ===== src/Parser/Progress.antt =====
-- How much of the source a rule uses up. `Ends Q b j r`: the result `r` is no panic and did not run
-- out of fuel; if it returns, `Q` holds of the value and fewer than `b` tokens and bytes are left;
-- if it jumps, fewer than `j` are left for the statements, and at most `j` for the declarations.
use seron.Prelude.{
  ℕ, zero, suc, ◌+◌, ◌≤◌, ◌<◌, ◌≡◌, refl, ap, Bool, true, false, [], ◌∷◌, if◌then◌else◌, length,
  arith, Bool-cases, inl, inr,
}
use native.Mathlib.Nat.{le_refl}
use seron.Outcome.{unexpected_eof, Outcome, Exit, Fault, Ensures-ne-panic}
use seron.Token.{Token, same_kind, eof, kw_proc, kw_table}
use seron.Lexer.{Lexer, lexer_next}
use seron.Lexer.Reads.{lexer_next-Ensures}
use seron.Lexer.Calls.{shrinks}
use seron.Parser.{
  Parser, Rule, Result, ok, jump, exit, undefined, ParserContext, context_stmt, context_decl, bind,
  matches_any, is_at_end, next_token, parser_advance, skip_to, parser_recover_stmt,
  parser_recover_decl, recover, long_jump, parser_sync,
}

-- What the lexer has in front of it, and the current token unless it is the end.
unfoldable pub measure : Parser → ℕ
measure p = length p.lexer.src + (if same_kind p.tok.kind eof then 0 else 1)

pub data Ends {ℓ} {A : Type ℓ} (Q : A → Type 0) (b j : ℕ) : Result A → Type ℓ where
  gives : {a : A} {p : Parser} → Q a → measure p < b → Ends Q b j (ok a p)
  to_stmt : {p : Parser} → measure p < j → Ends Q b j (jump context_stmt p)
  to_decl : {p : Parser} → measure p ≤ j → Ends Q b j (jump context_decl p)
  exits : {e : Exit} → Ends Q b j (exit e)
  faults : {u : Fault} → Ends Q b j (undefined u)

abbrev pub Any {ℓ} : {A : Type ℓ} → A → Type 0
Any a = Unit

module _ {ℓ} {A : Type ℓ} {Q : A → Type 0} where
  pub Ends-weaken : {b b' j j' : ℕ} {r : Result A} → b ≤ b' → j ≤ j' → Ends Q b j r → Ends Q b' j' r
  Ends-weaken h k (gives q m) = gives q (omega arith)
  Ends-weaken h k (to_stmt m) = to_stmt (omega arith)
  Ends-weaken h k (to_decl m) = to_decl (omega arith)
  Ends-weaken h k exits = exits
  Ends-weaken h k faults = faults

  pub Ends-if :
      {j b : ℕ} (t : Bool) {x y : Result A}
      → (t ≡ true → Ends Q b j x)
      → Ends Q b j y
      → Ends Q b j (if t then x else y)
  Ends-if true hx hy = hx refl
  Ends-if false hx hy = hy

  pub Ends-ite :
      {j b : ℕ} (t : Bool) {x y : Result A}
      → (t ≡ true → Ends Q b j x)
      → (t ≡ false → Ends Q b j y)
      → Ends Q b j (if t then x else y)
  Ends-ite true hx hy = hx refl
  Ends-ite false hx hy = hy refl

  pub Ends-bind {κ} :
      {B : Type κ} {R : B → Type 0} {b b' j : ℕ} {r : Result A} {f : A → Rule B}
      → Ends Q b j r
      → ((a : A) (p : Parser) → Q a → measure p < b → Ends R b' j (f a p))
      → Ends R b' j (bind r f)
  Ends-bind (gives {a} {p} q m) k = k a p q m
  Ends-bind (to_stmt m) k = to_stmt m
  Ends-bind (to_decl m) k = to_decl m
  Ends-bind exits k = exits
  Ends-bind faults k = faults

pub Ends-any {ℓ} :
    {A : Type ℓ} {Q : A → Type 0} {b j : ℕ} {r : Result A} → Ends Q b j r → Ends Any b j r
Ends-any (gives q m) = gives tt m
Ends-any (to_stmt m) = to_stmt m
Ends-any (to_decl m) = to_decl m
Ends-any exits = exits
Ends-any faults = faults

next_from :
    (p : Parser) (j : ℕ) (r : Outcome (Token × Lexer))
    → lexer_next p.lexer ≡ r
    → is_at_end p ≡ false
    → Ends (λ t. t ≡ p.tok) (measure p) j (next_token p)
unfolding next_token measure
next_from p j (Outcome.done (tok, lexer)) e h =
    rw (e, next_token)
      (gives refl (elim (shrinks p.lexer e) [
        | inl k ↦ ground (arith, ap length k.1)
        | inr k ↦ ground (arith, k)
      ]))
next_from p j (Outcome.exit _) e h = rw (e, next_token) exits
next_from p j Outcome.panic e h = absurd (Ensures-ne-panic (lexer_next-Ensures p.lexer) e)
next_from p j (Outcome.undefined _) e h = rw (e, next_token) faults

-- The token before is returned, and something of the source used up; nothing jumps.
pub advance-Ends : (p : Parser) (j : ℕ) → Ends (λ t. t ≡ p.tok) (measure p) j (parser_advance p)
unfolding parser_advance
advance-Ends p j = elim (Bool-cases (is_at_end p)) [
  | inl e ↦ rw e exits
  | inr e ↦ rw e (next_from p j (lexer_next p.lexer) refl e)
]

skip_to-Ends :
    (test : Parser → Bool) (fuel j : ℕ) (p : Parser)
    → measure p < fuel
    → Ends Any (suc (measure p)) j (skip_to test fuel p)
unfolding skip_to
skip_to-Ends test zero j p h = absurd (omega arith)
skip_to-Ends test (suc fuel) j p h = elim (Bool-cases (test p)) [
  | inl e ↦ rw (e, skip_to) (gives tt (omega arith))
  | inr e ↦
      rw (e, skip_to)
        (Ends-bind (advance-Ends p j) λ t q _ m.
          Ends-weaken (omega arith) (le_refl j) (skip_to-Ends test fuel j q (omega arith)))
]

skip_past-Ends :
    (test : Parser → Bool) (fuel j : ℕ) (p : Parser)
    → test p ≡ false
    → measure p < suc fuel
    → Ends Any (measure p) j (skip_to test (suc fuel) p)
unfolding skip_to
skip_past-Ends test fuel j p e h =
    rw (e, skip_to)
      (Ends-bind (advance-Ends p j)
        λ t q _ m. Ends-weaken (omega arith) (le_refl j) (skip_to-Ends test fuel j q (omega arith)))

-- A recovery uses up something for a statement, and perhaps nothing for a declaration.
abbrev left : ParserContext → Parser → ℕ
left context_stmt p = measure p
left context_decl p = suc (measure p)

recover-Ends :
    (fuel j : ℕ) (c : ParserContext) (p : Parser)
    → measure p < fuel
    → Ends Any (left c p) j (recover fuel c p)
unfolding parser_recover_stmt parser_recover_decl
recover-Ends fuel j context_decl p h = skip_to-Ends _ fuel j p h
recover-Ends fuel j context_stmt p h =
    Ends-bind (skip_to-Ends _ fuel j p h)
      λ _ q _ m. Ends-bind (advance-Ends q j) λ _ r _ k. gives tt (omega arith)

long_jump-Ends {ℓ} :
    {A : Type ℓ} {Q : A → Type 0} (c : ParserContext) (p q : Parser)
    → measure q < left c p
    → Ends Q 0 (measure p) (long_jump {A = A} c q)
long_jump-Ends context_decl p q h = to_decl (omega arith)
long_jump-Ends context_stmt p q h = Ends-if q.ctx_stmt (λ _. to_stmt h) faults

measure_errcount : (p : Parser) (n : ℕ) → measure (record p { errcount = n }) ≡ measure p
unfolding measure
measure_errcount p n = refl

left_errcount :
    (c : ParserContext) (p : Parser) (n : ℕ) → left c (record p { errcount = n }) ≡ left c p
left_errcount context_stmt p n = measure_errcount p n
left_errcount context_decl p n = ap suc (measure_errcount p n)

-- An error with more fuel than tokens and bytes are left: `parser_sync` does not return, does not
-- panic, and does not run out of fuel. If it jumps to the statements, it has used something up; if
-- it jumps to the declarations, no more than before is left.
pub sync-Ends {ℓ} :
    {A : Type ℓ} {Q : A → Type 0} (fuel : ℕ) (p : Parser)
    → measure p < fuel
    → Ends Q 0 (measure p) (parser_sync {A = A} fuel p)
unfolding parser_sync
sync-Ends fuel p h =
    Ends-bind
      (recover-Ends fuel (measure p) p.ctx (record p { errcount = p.errcount + 1 })
        (omega (arith, measure_errcount p (p.errcount + 1))))
      λ _ q _ m. long_jump-Ends p.ctx p q (omega (arith, left_errcount p.ctx p (p.errcount + 1)))

abbrev synced : Parser → Parser
synced p = record p { ctx = context_decl; errcount = p.errcount + 1 }

measure-synced : (p : Parser) → measure (synced p) ≡ measure p
unfolding measure
measure-synced p = refl

-- An error in front of no declaration skips a token at least.
pub decl_sync-Ends {ℓ} :
    {A : Type ℓ} {Q : A → Type 0} (fuel d : ℕ) (p : Parser)
    → measure p < fuel
    → measure p ≤ suc d
    → matches_any (kw_proc ∷ kw_table ∷ []) p ≡ false
    → Ends Q 0 d (parser_sync {A = A} fuel (record p { ctx = context_decl }))
unfolding parser_sync parser_recover_decl
decl_sync-Ends zero d p h le e = absurd (omega arith)
decl_sync-Ends (suc fuel) d p h le e =
    Ends-bind (skip_past-Ends _ fuel d (synced p) e (omega (arith, measure-synced p)))
      λ _ r _ m. to_decl (omega (arith, measure-synced p))

skip_past-exit :
    (test : Parser → Bool) (fuel : ℕ) (p : Parser)
    → test p ≡ false
    → is_at_end p ≡ true
    → skip_to test (suc fuel) p ≡ exit unexpected_eof
unfolding skip_to parser_advance
skip_past-exit test fuel p e h = rw (e, h, skip_to) refl

-- At the end of the source there is no declaration to skip to.
pub decl_sync-exit {ℓ} :
    {A : Type ℓ} (fuel : ℕ) (p : Parser)
    → is_at_end p ≡ true
    → parser_sync {A = A} (suc fuel) (record p { ctx = context_decl }) ≡ exit unexpected_eof
unfolding parser_sync parser_recover_decl
decl_sync-exit fuel p h =
    ap (λ r. bind r (λ _. long_jump context_decl))
      (skip_past-exit (matches_any (kw_proc ∷ kw_table ∷ [])) fuel (synced p) (ground arith) h)

-- In front of the end there is something left.
pub measure_positive : (p : Parser) → is_at_end p ≡ false → (d : ℕ) × (measure p ≡ suc d)
unfolding measure
measure_positive p h = (length p.lexer.src, rw h (omega arith))
