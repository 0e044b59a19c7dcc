-- ===== src/Outcome.antt =====
-- How a call of the C code ends: with a value, with an error that is printed before `exit`, with a `PANIC` or a
-- failed `assert`, or in undefined behaviour.
use mathlib.Core.Path.{subst}
use seron.Token.{Token}
use seron.Prelude.{◌≡◌, ◌≢◌, refl, Bool, true, false, if◌then◌else◌}

-- The errors that the program exits for. The code prints a diagnostic first and then calls `exit`. Where
-- it prints by `diagnostic_loc`, for some of them with the token that is kept here, that call can be
-- undefined itself (Diagnostics.Lines), so the program may not get to the `exit`.
pub data Exit : Type 0 where
  unterminated_string invalid_character unterminated_character : Exit
  long_number long_identifier : Token → Exit
  unknown_token : Exit
  unexpected_eof unmatched_brace parsing_failed : Exit
  unknown_symbol symbol_is_type : Exit
  invalid_types : Token → Exit
  cannot_open : Exit

-- Undefined behaviour that the code can reach.
pub data Fault : Type 0 where
  -- a read past the end of an array or behind the terminator of a string
  overrun : Fault
  -- `atoll` of a text whose value does not fit a `long long`
  unrepresentable : Fault
  null_pointer : Fault
  division_by_zero : Fault
  -- the value of a variable that was never written
  uninitialised : Fault
  -- a `longjmp` into a function that has returned
  dead_frame : Fault

pub data Outcome {ℓ} (A : Type ℓ) : Type ℓ where
  done : A → Outcome A
  exit : Exit → Outcome A
  panic : Outcome A
  undefined : Fault → Outcome A

infixl 5 ◌>>=◌
abbrev pub ◌>>=◌ {ℓ κ} : {A : Type ℓ} {B : Type κ} → Outcome A → (A → Outcome B) → Outcome B
done a >>= f = f a
exit e >>= f = exit e
panic >>= f = panic
undefined u >>= f = undefined u

-- A bind that returns did so in both parts.
pub >>=-eq-done {ℓ κ} :
    {A : Type ℓ} {B : Type κ} (m : Outcome A) (f : A → Outcome B) {b : B}
    → (m >>= f) ≡ done b
    → (a : A) × (m ≡ done a) × (f a ≡ done b)
>>=-eq-done (done a) f h = (a, refl, h)
>>=-eq-done (exit e) f h = cc
>>=-eq-done panic f h = cc
>>=-eq-done (undefined u) f h = cc

-- The run does not panic, and if it returns, `P` holds of its value.
pub data Ensures {ℓ κ} {A : Type ℓ} (P : A → Type κ) : Outcome A → Type (ℓ ⊔ κ) where
  returns : {a : A} → P a → Ensures P (done a)
  exits : {e : Exit} → Ensures P (exit e)
  faults : {u : Fault} → Ensures P (undefined u)

module _ {ℓ κ} {A : Type ℓ} {P : A → Type κ} where
  pub Ensures-done : {r : Outcome A} {a : A} → Ensures P r → r ≡ done a → P a
  Ensures-done (returns h) e = subst P (cc) h
  Ensures-done exits e = cc
  Ensures-done faults e = cc

  pub Ensures-ne-panic : {r : Outcome A} → Ensures P r → r ≢ panic
  Ensures-ne-panic (returns h) e = cc
  Ensures-ne-panic exits e = cc
  Ensures-ne-panic faults e = cc

  pub Ensures-if :
      (b : Bool) {x y : Outcome A} → Ensures P x → Ensures P y → Ensures P (if b then x else y)
  Ensures-if true hx hy = hx
  Ensures-if false hx hy = hy

  pub Ensures-bind {ℓ' κ'} :
      {B : Type ℓ'} {Q : B → Type κ'} {r : Outcome A} {f : A → Outcome B}
      → Ensures P r
      → ((a : A) → P a → Ensures Q (f a))
      → Ensures Q (r >>= f)
  Ensures-bind (returns {a} h) k = k a h
  Ensures-bind exits k = exits
  Ensures-bind faults k = faults

  pub Ensures-map {κ'} :
      {Q : A → Type κ'} {r : Outcome A} → Ensures P r → ((a : A) → P a → Q a) → Ensures Q r
  Ensures-map (returns {a} h) k = returns (k a h)
  Ensures-map exits k = exits
  Ensures-map faults k = faults

-- The call returns a value with `P`: it neither exits nor panics, and does nothing undefined.
pub data Safe {ℓ κ} {A : Type ℓ} (P : A → Type κ) : Outcome A → Type (ℓ ⊔ κ) where
  gives : {a : A} → P a → Safe P (done a)

pub Safe-bind {ℓ κ ℓ' κ'} :
    {A : Type ℓ} {P : A → Type κ} {B : Type ℓ'} {Q : B → Type κ'} {r : Outcome A}
    {f : A → Outcome B}
    → Safe P r
    → ((a : A) → P a → Safe Q (f a))
    → Safe Q (r >>= f)
Safe-bind (gives {a} p) k = k a p

pub Safe-map {ℓ κ κ'} :
    {A : Type ℓ} {P : A → Type κ} {Q : A → Type κ'} {r : Outcome A}
    → Safe P r
    → ((a : A) → P a → Q a)
    → Safe Q r
Safe-map (gives {a} p) k = gives (k a p)

pub Safe-step {ℓ ℓ' κ} :
    {A : Type ℓ} {B : Type ℓ'} {Q : B → Type κ} {r : Outcome A} {a : A} (f : A → Outcome B)
    → r ≡ done a
    → Safe Q (f a)
    → Safe Q (r >>= f)
Safe-step f e h = rw e h

-- If the call returns, `P` holds of its value.
pub data Returns {ℓ κ} {A : Type ℓ} (P : A → Type κ) : Outcome A → Type (ℓ ⊔ κ) where
  returned : {a : A} → P a → Returns P (done a)
  exited : {e : Exit} → Returns P (exit e)
  panicked : Returns P panic
  faulted : {u : Fault} → Returns P (undefined u)

module _ {ℓ κ} {A : Type ℓ} {P : A → Type κ} where
  pub Returns-done : {r : Outcome A} {a : A} → Returns P r → r ≡ done a → P a
  Returns-done (returned h) e = subst P (cc) h
  Returns-done exited e = cc
  Returns-done panicked e = cc
  Returns-done faulted e = cc

  pub Returns-if :
      (b : Bool) {x y : Outcome A} → Returns P x → Returns P y → Returns P (if b then x else y)
  Returns-if true hx hy = hx
  Returns-if false hx hy = hy

pub Returns-bind {ℓ κ ℓ' κ'} :
    {A : Type ℓ} {P : A → Type κ} {B : Type ℓ'} {Q : B → Type κ'} {r : Outcome A}
    {f : A → Outcome B}
    → Returns P r
    → ((a : A) → P a → Returns Q (f a))
    → Returns Q (r >>= f)
Returns-bind (returned {a} h) k = k a h
Returns-bind exited k = exited
Returns-bind panicked k = panicked
Returns-bind faulted k = faulted

-- A first part of which nothing is known.
pub Returns-after {ℓ ℓ' κ'} :
    {A : Type ℓ} {B : Type ℓ'} {Q : B → Type κ'} (r : Outcome A) {f : A → Outcome B}
    → ((a : A) → Returns Q (f a))
    → Returns Q (r >>= f)
Returns-after (done a) k = k a
Returns-after (exit e) k = exited
Returns-after panic k = panicked
Returns-after (undefined u) k = faulted
