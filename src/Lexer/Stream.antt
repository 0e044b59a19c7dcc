-- ===== src/Lexer/Stream.antt =====
-- The loop of `get_tokencount` and `lexer_collect_tokens` of seronc/lexer.c.
use mathlib.Core.Path.{subst}
use seron.Prelude.{
  sym, ◌≤◌, ℕ, zero, suc, ◌+◌, ◌<◌, ◌≡◌, refl, ap, true, false, List, [], ◌∷◌, Option, some, Bytes,
  arith, length, inl, inr, Bool-cases,
}
use seron.Outcome.{overrun, Outcome, done, exit, panic, undefined}
use seron.Token.{Token, TokenKind, eof, same_kind}
use seron.Lexer.{
  Lexer, lexer_init, lexer_next, store, and_then, counted, count_tokens, collect,
  lexer_collect_tokens,
}
use seron.Lexer.Calls.{
  Stream, last, more, Halted, exits, panics, faults, Breaks, here, later, real-not_eof,
  real-shrinks, next_of, lexing,
}

-- The loops behind the end.
count-eof :
    (fuel : ℕ) {kind : TokenKind} (lex : Lexer)
    → kind ≡ eof
    → count_tokens (suc fuel) kind lex ≡ some (done 0)
unfolding count_tokens
count-eof fuel lex e = rw e refl

count-none :
    (fuel : ℕ) (kind : TokenKind) (lex : Lexer)
    → same_kind kind eof ≡ true
    → count_tokens (suc fuel) kind lex ≡ some (done 0)
unfolding count_tokens
count-none fuel kind lex e = rw (e, count_tokens) refl

collect-eof :
    (fuel room : ℕ) (kind : TokenKind) (lex : Lexer)
    → same_kind kind eof ≡ true
    → collect (suc fuel) kind lex room ≡ some (done [])
unfolding collect
collect-eof fuel room kind lex e = rw (e, collect) refl

-- With enough fuel the first loop counts the tokens of a stream.
count-Stream :
    (fuel : ℕ) (kind : TokenKind) {lex : Lexer} {toks : List Token}
    → length lex.src + 1 < fuel
    → same_kind kind eof ≡ false
    → Stream lex toks
    → count_tokens fuel kind lex ≡ some (done (length toks))
unfolding count_tokens
count-Stream zero kind h k s = absurd (omega arith)
count-Stream (suc zero) kind h k s = absurd (omega arith)
count-Stream (suc (suc fuel)) kind h k (last {lex' = lex'} e ended) =
    rw (k, e, count-eof fuel lex' ended, count_tokens) (ap (λ n. some (done n)) (omega arith))
count-Stream (suc (suc fuel)) kind {lex} h k (more {tok = tok} {toks} e real s) =
    let less = real-shrinks lex e real in
    rw
      (
        k,
        e,
        count-Stream (suc fuel) tok.kind (omega (arith, less)) (real-not_eof tok.kind real) s,
        count_tokens,
      )
      (ap (λ n. some (done n)) (omega arith))

-- What follows a call that does not return does not bear on the outcome.
halted {ℓ κ} :
    {A : Type ℓ} {B : Type κ} (f : A → Option (Outcome B)) {r : Outcome A}
    → Halted r
    → (s : Outcome B) × (and_then f r ≡ some s) × Halted s
halted f exits = (_, refl, exits)
halted f panics = (_, refl, panics)
halted f faults = (_, refl, faults)

counted-Halted :
    (r : Outcome ℕ) → Halted r → (s : Outcome ℕ) × (counted (some r) ≡ some s) × Halted s
counted-Halted (done n) h = elim h [ ]
counted-Halted (exit e) exits = (_, refl, exits)
counted-Halted panic panics = (_, refl, panics)
counted-Halted (undefined u) faults = (_, refl, faults)

-- It stops where the lexer stops.
count-Breaks :
    (fuel : ℕ) (kind : TokenKind) {lex : Lexer}
    → length lex.src + 1 < fuel
    → same_kind kind eof ≡ false
    → Breaks lex
    → (r : Outcome ℕ) × (count_tokens fuel kind lex ≡ some r) × Halted r
unfolding count_tokens
count-Breaks zero kind h k b = absurd (omega arith)
count-Breaks (suc fuel) kind h k (here b) = rw (k, count_tokens) (halted _ b)
count-Breaks (suc fuel) kind {lex} h k (later {lex'} {tok} e real b) =
    let less = real-shrinks lex e real in
    let (r, c, x) =
      count-Breaks fuel tok.kind (omega (arith, less)) (real-not_eof tok.kind real) b in
    rw (k, e, c, count_tokens) (counted-Halted r x)

store-tokens :
    (room : ℕ) (tok : Token) (toks : List Token) (later : ℕ → Option (Outcome (List Token)))
    → later room ≡ some (done toks)
    → store (suc room) tok later ≡ some (done (tok ∷ toks))
store-tokens room tok toks rounds e = rw (e, store) refl

-- With room for them the second loop stores them.
collect-Stream :
    (fuel room : ℕ) (kind : TokenKind) {lex : Lexer} {toks : List Token}
    → length lex.src + 1 < fuel
    → length toks ≤ room
    → same_kind kind eof ≡ false
    → Stream lex toks
    → collect fuel kind lex room ≡ some (done toks)
unfolding collect
collect-Stream zero room kind h q k s = absurd (omega arith)
collect-Stream (suc zero) room kind h q k s = absurd (omega arith)
collect-Stream (suc (suc fuel)) zero kind h q k (last e ended) = absurd (omega (arith, q))
collect-Stream (suc (suc fuel)) zero kind h q k (more e real s) = absurd (omega (arith, q))
collect-Stream (suc (suc fuel)) (suc room) kind h q k (last {lex' = lex'} {tok} e ended) =
    rw (k, e, collect)
      (store-tokens room tok [] (collect (suc fuel) tok.kind lex')
        (collect-eof fuel room tok.kind lex' (ap (λ q. same_kind q eof) ended)))
collect-Stream (suc (suc fuel)) (suc room) kind {lex} h q k
      (more {lex' = lex'} {tok = tok} {toks} e real s) =
    let less = real-shrinks lex e real in
    rw (k, e, collect)
      (store-tokens room tok toks (collect (suc fuel) tok.kind lex') (
        collect-Stream (suc fuel) room tok.kind (omega (arith, less)) (omega (arith, q))
          (real-not_eof tok.kind real) s))

-- What becomes of a source, by what the two unwritten tokens hold.
pub data Collected (first second : TokenKind) (src : Bytes)
    : Option (Outcome (List Token)) → Type 0 where
  whole :
      {toks : List Token}
      → same_kind first eof ≡ false
      → same_kind second eof ≡ false
      → Stream (lexer_init src) toks
      → Collected first second src (some (done toks))
  nothing : same_kind second eof ≡ true → Collected first second src (some (done []))
  overrun_array :
      same_kind first eof ≡ true
      → same_kind second eof ≡ false
      → Collected first second src (some (undefined overrun))
  broken :
      {r : Outcome (List Token)}
      → Breaks (lexer_init src)
      → Halted r
      → Collected first second src (some r)

-- The second loop, where the first counted a stream or nothing.
second-Collected :
    (first second : TokenKind) (src : Bytes) (count : ℕ)
    → ((same_kind second eof ≡ false)
        → Collected first second src
            (collect (suc (suc (length src))) second (lexer_init src) count))
    → Collected first second src (collect (suc (suc (length src))) second (lexer_init src) count)
second-Collected first second src count h = elim (Bool-cases (same_kind second eof)) [
  | inl e ↦
      subst (Collected first second src)
        (sym (collect-eof (suc (length src)) count second (lexer_init src) e)) (nothing e)
  | inr e ↦ h e
]

-- An array without room.
no_room :
    (first second : TokenKind) (src : Bytes)
    → same_kind first eof ≡ true
    → same_kind second eof ≡ false
    → Collected first second src (collect (suc (suc (length src))) second (lexer_init src) 0)
unfolding collect
no_room first second src f s = elim (next_of (lexer_init src) (lexer_next (lexer_init src)) refl) [
  | inl b ↦
      (let (r, e, x) =
          halted (λ (tok, lex'). store 0 tok (collect (suc (length src)) tok.kind lex')) b in
        rw (s, e, collect) (broken (here b) x))
  | inr (tok, lex', e) ↦ rw (s, e, collect) (overrun_array f s)
]

-- The loops end for every source, in one of four ways. Neither of the two unwritten `tok`s happens to hold
-- `TOK_EOF`, and the tokens that are collected are those that `lexer_next` returns in turn, up to the first
-- end and with it, all stored inside the array. Or that of `lexer_collect_tokens` holds it, and nothing is
-- collected. Or that of `get_tokencount` alone holds it, and a token is written behind an array without
-- room. Or a call of `lexer_next` for the source does not return, and neither does this.
pub lexer_collect_tokens-Collected :
    (first second : TokenKind) (src : Bytes)
    → Collected first second src (lexer_collect_tokens first second src)
unfolding lexer_collect_tokens
lexer_collect_tokens-Collected first second src = elim (Bool-cases (same_kind first eof)) [
  | inl f ↦
      rw (count-none (suc (length src)) first (lexer_init src) f, lexer_collect_tokens)
        (second-Collected first second src 0 (no_room first second src f))
  | inr f ↦ elim (lexing (suc (length src)) (lexer_init src) (omega arith)) [
    | inl (toks, st) ↦
        rw (count-Stream (suc (suc (length src))) first (omega arith) f st, lexer_collect_tokens)
          (second-Collected first second src (length toks) λ s.
            rw
              (collect-Stream (suc (suc (length src))) (length toks) second (omega arith)
                (omega arith) s st)
              (whole f s st))
    | inr b ↦
        (let (r, c, x) = count-Breaks (suc (suc (length src))) first (omega arith) f b in
          let (r', e, y) =
            halted (λ count. collect (suc (suc (length src))) second (lexer_init src) count) x in
          rw (c, e, lexer_collect_tokens) (broken b y))
  ]
]
