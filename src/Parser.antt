-- ===== src/Parser.antt =====
-- The state of the parser of seronc/parser.c, its jumps, and the functions by which the grammar
-- rules look at the current token, move on, and recover from an error.
pub mod Progress
pub mod Specs
use seron.Prelude.{
  ℕ, zero, suc, ◌+◌, Bool, true, false, not, ◌&&◌, ◌||◌, List, [], ◌∷◌, if◌then◌else◌,
}
use seron.Outcome
use seron.Outcome.{Outcome, Exit, Fault, unexpected_eof, dead_frame}
use seron.Token.{Token, TokenKind, same_kind, eof, semicolon, kw_proc, kw_table}
use seron.Lexer.{Lexer, lexer_next}

pub data ParserContext : Type 0 where
  context_stmt context_decl : ParserContext

-- `ctx_stmt` says whether the frame of the `setjmp` that filled it last has not yet returned. That
-- of `ctx_decl` is `rule_program`, which lives as long as any jump. The arena is left out.
-- `table_memory` is what `malloc` leaves in the `field_count` of a new table.
pub record Parser : Type 0 where
  pub tok : Token
  pub lexer : Lexer
  pub ctx : ParserContext
  pub errcount : ℕ
  pub ctx_stmt : Bool
  pub table_memory : ℕ

-- How a call of a rule ends: it returns, or jumps to the `setjmp` of a context, or stops the
-- program as an `Outcome` does. `no_fuel` has no counterpart in the program.
pub data Result {ℓ} (A : Type ℓ) : Type ℓ where
  ok : A → Parser → Result A
  jump : ParserContext → Parser → Result A
  exit : Exit → Result A
  panic : Result A
  undefined : Fault → Result A
  no_fuel : Result A

abbrev pub Rule {ℓ} : Type ℓ → Type ℓ
Rule A = Parser → Result A

abbrev pub pure {ℓ} : {A : Type ℓ} → A → Rule A
pure a p = ok a p

infixl 5 ◌>>=◌ ◌>>◌
abbrev pub bind {ℓ κ} : {A : Type ℓ} {B : Type κ} → Result A → (A → Rule B) → Result B
bind (ok a p) f = f a p
bind (jump c p) f = jump c p
bind (exit e) f = exit e
bind panic f = panic
bind (undefined u) f = undefined u
bind no_fuel f = no_fuel

abbrev pub ◌>>=◌ {ℓ κ} : {A : Type ℓ} {B : Type κ} → Rule A → (A → Rule B) → Rule B
◌>>=◌ m f p = bind (m p) f

abbrev pub ◌>>◌ {ℓ κ} : {A : Type ℓ} {B : Type κ} → Rule A → Rule B → Rule B
◌>>◌ m k p = bind (m p) (λ _. k)

-- `parser_match_token` and `parser_match_tokens`
abbrev pub matches : TokenKind → Parser → Bool
matches kind p = same_kind p.tok.kind kind

abbrev pub matches_any : List TokenKind → Parser → Bool
matches_any [] p = false
matches_any (kind ∷ kinds) p = matches kind p || matches_any kinds p

abbrev pub is_at_end : Parser → Bool
is_at_end = matches eof

-- A rule that goes on by the current token.
abbrev pub choose {ℓ} : {A : Type ℓ} → (Parser → Bool) → Rule A → Rule A → Rule A
choose test m k p = if test p then m p else k p

abbrev pub peek : Rule Token
peek p = ok p.tok p

-- `p->tok = lexer_next(&p->lexer)`, returning the token before
unfoldable pub next_token : Rule Token
next_token p = elim (lexer_next p.lexer) [
  | Outcome.done (tok, lexer) ↦ ok p.tok (record p { tok = tok; lexer = lexer })
  | Outcome.exit e ↦ exit e
  | Outcome.panic ↦ panic
  | Outcome.undefined u ↦ undefined u
]

unfoldable pub parser_advance : Rule Token
parser_advance = choose is_at_end (λ p. exit unexpected_eof) next_token

-- The loops of `parser_recover_stmt` and `parser_recover_decl`, with fuel.
unfoldable pub skip_to : (Parser → Bool) → ℕ → Rule (Unit {0})
skip_to test zero p = no_fuel
skip_to test (suc fuel) p = elim (test p) [
  | true ↦ ok tt p
  | false ↦ (do _ ← parser_advance; skip_to test fuel) p
]

unfoldable pub parser_recover_stmt : ℕ → Rule (Unit {0})
parser_recover_stmt fuel = do skip_to (matches semicolon) fuel; _ ← parser_advance; pure tt

unfoldable pub parser_recover_decl : ℕ → Rule (Unit {0})
parser_recover_decl fuel = skip_to (matches_any (kw_proc ∷ kw_table ∷ [])) fuel

-- A `longjmp` through a `jmp_buf` whose frame has returned is undefined.
abbrev pub long_jump {ℓ} : {A : Type ℓ} → ParserContext → Rule A
long_jump context_decl p = jump context_decl p
long_jump context_stmt p = if p.ctx_stmt then jump context_stmt p else undefined dead_frame

abbrev pub recover : ℕ → ParserContext → Rule (Unit {0})
recover fuel context_decl = parser_recover_decl fuel
recover fuel context_stmt = parser_recover_stmt fuel

-- `errcount++`, recovery in the current context, and the jump; it never returns.
unfoldable pub parser_sync {ℓ} : {A : Type ℓ} → ℕ → Rule A
parser_sync fuel p =
    bind (recover fuel p.ctx (record p { errcount = p.errcount + 1 })) (λ _. long_jump p.ctx)

unfoldable pub parser_expect_token : ℕ → TokenKind → Rule (Unit {0})
parser_expect_token fuel kind = choose (matches kind) (pure tt) (parser_sync fuel)

unfoldable pub parser_consume : ℕ → TokenKind → Rule Token
parser_consume fuel kind = do
  choose is_at_end (pure tt) (parser_expect_token fuel kind)
  parser_advance
