-- ===== src/Parser/Specs.antt =====
-- Specifications of the rules by what they use up, and how they compose.
use native.Mathlib.Nat.{le_refl}
use seron.Prelude.{ℕ, suc, ◌≤◌, ◌<◌, Bool, true, false, if◌then◌else◌, arith}
use seron.Token.{TokenKind}
use seron.Parser.{
  Parser, Rule, ◌>>=◌, pure, matches, is_at_end, choose, parser_advance, parser_sync,
  parser_expect_token, parser_consume,
}
use seron.Parser.Progress.{
  measure, Ends, gives, Any, Ends-weaken, Ends-if, Ends-bind, Ends-any, advance-Ends, sync-Ends,
}

-- The specification of a rule, for every state with fewer than `n` tokens and bytes left: it uses
-- something up, or it may use up nothing.
module _ {ℓ} {A : Type ℓ} where
  abbrev pub Strict : ℕ → (A → Type 0) → Rule A → Type ℓ
  Strict n Q m = (p : Parser) → measure p < n → Ends Q (measure p) (measure p) (m p)

  abbrev pub Weak : ℕ → (A → Type 0) → Rule A → Type ℓ
  Weak n Q m = (p : Parser) → measure p < n → Ends Q (suc (measure p)) (measure p) (m p)

  pub relax : {n : ℕ} {Q : A → Type 0} (m : Rule A) → Strict n Q m → Weak n Q m
  relax m h p k = Ends-weaken (omega arith) (le_refl _) (h p k)

  pub lower : {n k : ℕ} {Q : A → Type 0} (m : Rule A) → k ≤ n → Strict n Q m → Strict k Q m
  lower m le h p k = h p (omega arith)

  pub pure-Weak : {n : ℕ} {Q : A → Type 0} (a : A) → Q a → Weak n Q (pure a)
  pure-Weak a q p k = gives q (omega arith)

  pub sync-Strict : {n : ℕ} {Q : A → Type 0} (fuel : ℕ) → n ≤ fuel → Strict n Q (parser_sync fuel)
  sync-Strict fuel h p k = Ends-weaken (omega arith) (le_refl _) (sync-Ends fuel p (omega arith))

  pub choose-Strict :
      {n : ℕ} {Q : A → Type 0} (test : Parser → Bool) (m k : Rule A)
      → Strict n Q m
      → Strict n Q k
      → Strict n Q (choose test m k)
  choose-Strict test m k hm hk p h = Ends-if (test p) (λ _. hm p h) (hk p h)

  pub if-Weak :
      {n : ℕ} {Q : A → Type 0} (b : Bool) (m k : Rule A)
      → Weak n Q m
      → Weak n Q k
      → Weak n Q (if b then m else k)
  if-Weak true m k hm hk = hm
  if-Weak false m k hm hk = hk

  pub choose-Weak :
      {n : ℕ} {Q : A → Type 0} (test : Parser → Bool) (m k : Rule A)
      → Weak n Q m
      → Weak n Q k
      → Weak n Q (choose test m k)
  choose-Weak test m k hm hk p h = Ends-if (test p) (λ _. hm p h) (hk p h)

module _ {ℓ κ} {A : Type ℓ} {B : Type κ} {Q : A → Type 0} {R : B → Type 0} {n : ℕ} where
  -- What follows a rule that uses something up has a smaller bound.
  pub strict_then :
      (m : Rule A) (f : A → Rule B)
      → Strict (suc n) Q m
      → ((a : A) → Q a → Weak n R (f a))
      → Strict (suc n) R (m >>= f)
  strict_then m f hm hf p h =
      Ends-bind (hm p h)
        λ a q qa k. Ends-weaken (omega arith) (omega arith) (hf a qa q (omega arith))

  pub then_same :
      (m : Rule A) (f : A → Rule B)
      → Strict n Q m
      → ((a : A) → Q a → Weak n R (f a))
      → Strict n R (m >>= f)
  then_same m f hm hf p h =
      Ends-bind (hm p h)
        λ a q qa k. Ends-weaken (omega arith) (omega arith) (hf a qa q (omega arith))

  pub weak_then :
      (m : Rule A) (f : A → Rule B)
      → Weak n Q m
      → ((a : A) → Q a → Weak n R (f a))
      → Weak n R (m >>= f)
  weak_then m f hm hf p h =
      Ends-bind (hm p h)
        λ a q qa k. Ends-weaken (omega arith) (omega arith) (hf a qa q (omega arith))

  pub weak_then_strict :
      (m : Rule A) (f : A → Rule B)
      → Weak n Q m
      → ((a : A) → Q a → Strict n R (f a))
      → Strict n R (m >>= f)
  weak_then_strict m f hm hf p h =
      Ends-bind (hm p h)
        λ a q qa k. Ends-weaken (omega arith) (omega arith) (hf a qa q (omega arith))

pub advance-Strict : (n : ℕ) → Strict n Any parser_advance
advance-Strict n p h = Ends-any (advance-Ends p (measure p))

pub expect-Weak :
    {n : ℕ} (fuel : ℕ) (kind : TokenKind) → n ≤ fuel → Weak n Any (parser_expect_token fuel kind)
unfolding parser_expect_token
expect-Weak fuel kind h =
    choose-Weak (matches kind) (pure tt) (parser_sync fuel) (pure-Weak tt tt)
      (relax _ (sync-Strict fuel h))

pub consume-Strict :
    {n : ℕ} (fuel : ℕ) (kind : TokenKind) → n ≤ fuel → Strict n Any (parser_consume fuel kind)
unfolding parser_consume
consume-Strict {n} fuel kind h =
    weak_then_strict _ _
      (choose-Weak is_at_end (pure tt) (parser_expect_token fuel kind) (pure-Weak tt tt)
        (expect-Weak fuel kind h))
      λ _ _. advance-Strict n
