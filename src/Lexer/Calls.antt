-- ===== src/Lexer/Calls.antt =====
-- Calls of `lexer_next` of seronc/lexer.c, one behind the other.
use seron.Prelude.{
  ℕ, zero, suc, ◌<◌, ◌≡◌, refl, ap, ◌∙◌, false, List, [], ◌∷◌, ◌++◌, arith, length, length-append,
  ◌⊎◌, inl, inr,
}
use seron.Outcome.{Exit, Fault, Outcome, done, exit, panic, undefined}
use seron.Token.{Token, TokenKind, ordinal, eof, same_kind}
use seron.Lexer.{Lexer, lexer_next}
use seron.Lexer.Reads.{lexer_next-Steps}

-- The tokens that `lexer_next` returns in turn from a state on, up to the first end.
pub data Stream : Lexer → List Token → Type 0 where
  last :
      {lex lex' : Lexer} {tok : Token}
      → lexer_next lex ≡ done (tok, lex')
      → tok.kind ≡ eof
      → Stream lex (tok ∷ [])
  more :
      {lex lex' : Lexer} {tok : Token} {toks : List Token}
      → lexer_next lex ≡ done (tok, lex')
      → 2 < ordinal tok.kind
      → Stream lex' toks
      → Stream lex (tok ∷ toks)

-- A call that does not return.
pub data Halted {ℓ} {A : Type ℓ} : Outcome A → Type ℓ where
  exits : {e : Exit} → Halted (exit e)
  panics : Halted panic
  faults : {u : Fault} → Halted (undefined u)

-- From a state on, a call of `lexer_next` does not return, and those in front of it read no end.
pub data Breaks : Lexer → Type 0 where
  here : {lex : Lexer} → Halted (lexer_next lex) → Breaks lex
  later :
      {lex lex' : Lexer} {tok : Token}
      → lexer_next lex ≡ done (tok, lex')
      → 2 < ordinal tok.kind
      → Breaks lex'
      → Breaks lex

-- A call of `lexer_next` reads no more than the source has, and something unless it is at the end.
pub shrinks :
    (lex : Lexer) {tok : Token} {lex' : Lexer}
    → lexer_next lex ≡ done (tok, lex')
    → ((tok.kind ≡ eof) × (lex'.src ≡ []))
      ⊎ ((2 < ordinal tok.kind) × (length lex'.src < length lex.src))
shrinks lex {tok} {lex'} e =
    let st = lexer_next-Steps lex e in
    elim st.reads [
      | inl r ↦ inr (
        r.real,
        omega (
          arith,
          ap length (st.splits ∙ ap (◌++◌ st.gap) r.splits),
          length-append {0} st.gap (r.text ++ lex'.src),
          length-append {0} r.text lex'.src,
          r.measured,
          r.nonempty,
        ),
      )
      | inr r ↦ inl (r.kind, r.src)
    ]

pub real-not_eof : (kind : TokenKind) → 2 < ordinal kind → same_kind kind eof ≡ false
real-not_eof kind h = ground arith

pub real-shrinks :
    (lex : Lexer) {tok : Token} {lex' : Lexer}
    → lexer_next lex ≡ done (tok, lex')
    → 2 < ordinal tok.kind
    → length lex'.src < length lex.src
real-shrinks lex {tok} e real = elim (shrinks lex e) [
  | inl (ended, _) ↦ absurd (omega (arith, real, ap ordinal ended))
  | inr (_, less) ↦ less
]

-- The lexer goes on to the end or stops the program.
pub next_of :
    (lex : Lexer) (r : Outcome (Token × Lexer))
    → lexer_next lex ≡ r
    → Halted (lexer_next lex)
      ⊎ ((tok : Token) × (lex' : Lexer) × (lexer_next lex ≡ done (tok, lex')))
next_of lex (done (tok, lex')) e = inr (tok, lex', e)
next_of lex (exit x) e = inl (rw e exits)
next_of lex panic e = inl (rw e panics)
next_of lex (undefined u) e = inl (rw e faults)

pub lexing :
    (fuel : ℕ) (lex : Lexer)
    → length lex.src < fuel
    → ((toks : List Token) × Stream lex toks) ⊎ Breaks lex
lexing zero lex h = absurd (omega arith)
lexing (suc fuel) lex h = elim (next_of lex (lexer_next lex) refl) [
  | inl b ↦ inr (here b)
  | inr (tok, lex', e) ↦ elim (shrinks lex e) [
    | inl (ended, _) ↦ inl (tok ∷ [], last e ended)
    | inr (real, less) ↦ elim (lexing fuel lex' (omega arith)) [
      | inl (toks, s) ↦ inl (tok ∷ toks, more e real s)
      | inr b ↦ inr (later e real b)
    ]
  ]
]
