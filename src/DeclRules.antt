-- ===== src/DeclRules.antt =====
-- The grammar rules of seronc/parser.c for declarations and programs, and `parse`.
pub mod Declarations
pub mod Progress
use seron.Prelude.{
  ℕ, zero, suc, ◌+◌, Bool, true, false, Option, none, some, Bytes, length, ◌==◌, if◌then◌else◌,
}
use seron.Outcome
use seron.Outcome.{Outcome, parsing_failed}
use seron.Token.{Token, TokenKind, fresh, literal_ident, semicolon, kw_proc, kw_table}
use seron.Lexer.{Lexer, lexer_init, lexer_next}
use seron.Types.{table_type}
use seron.Ast.{Node, block, proc, table, Nodes, nil, cons, MaybeNode, null, some_node}
use seron.Parser.{
  Parser, Rule, Result, ok, jump, exit, panic, undefined, no_fuel, ParserContext, context_stmt,
  context_decl, ◌>>=◌, ◌>>◌, bind, pure, matches, matches_any, is_at_end, choose, peek,
  parser_advance, parser_sync, parser_consume,
}
use seron.TypeRules.{rule_util_type, rule_util_proc_type, rule_util_fieldlist}
use seron.StmtRules.{maybe, set_context, rule_stmt_block, rule_stmt}

-- The name that `rule_util_proc_type` has written to `out_ident`.
abbrev pub written : Option Token → Rule Token
written none p = panic
written (some tok) p = ok tok p

unfoldable pub rule_decl_proc : ℕ → Rule Node
rule_decl_proc n = do
  (op, out_ident, ty) ← rule_util_proc_type n (rule_util_type n) true
  ident ← written out_ident
  body ←
      choose (matches semicolon) (do _ ← parser_advance; pure null)
        (maybe (rule_stmt_block n (rule_stmt n)))
  pure (proc op ident body ty none 0)

unfoldable pub rule_decl_table : ℕ → Rule Node
rule_decl_table n = do
  op ← parser_consume n kw_table
  ident ← parser_consume n literal_ident
  fields ← rule_util_fieldlist n (rule_util_type n)
  pure (table op ident (table_type fields))

unfoldable pub rule_decl : ℕ → Rule Node
rule_decl n = do
  _ ← set_context context_decl
  choose (matches kw_proc) (rule_decl_proc n)
      (choose (matches kw_table) (rule_decl_table n) (parser_sync n))

-- A jump to the context of declarations lands behind the test of the loop, at the `setjmp`, with
-- no declaration to append; one to the context of statements finds no block running.
abbrev pub land_decl : Rule Nodes → Rule Nodes → Result Node → Result Nodes
land_decl next again (ok node p) = bind (next p) (λ decls. pure (cons node decls))
land_decl next again (jump context_decl p) = again p
land_decl next again (jump context_stmt p) = undefined Outcome.dead_frame
land_decl next again (exit e) = exit e
land_decl next again panic = panic
land_decl next again (undefined u) = undefined u
land_decl next again no_fuel = no_fuel

-- The loop of `rule_program`; the flag says whether the end is tested, or was jumped over.
unfoldable pub program_loop : ℕ → Bool → ℕ → Rule Nodes
program_loop n tested zero p = no_fuel
program_loop n true (suc rounds) p =
    choose is_at_end (pure nil)
      (λ q. land_decl (program_loop n true rounds) (program_loop n false rounds) (rule_decl n q)) p
program_loop n false (suc rounds) p =
    land_decl (program_loop n true rounds) (program_loop n false rounds) (rule_decl n p)

unfoldable pub rule_program : ℕ → Rule Node
rule_program n = do decls ← program_loop n true n; pure (block decls none)

-- What `parse` returns or how it stops the program; `none` if the fuel ran out.
unfoldable pub finish : Result Node → Option (Outcome Node)
finish (ok root p) =
    some (if p.errcount == 0 then Outcome.done root else Outcome.exit parsing_failed)
finish (jump c p) = some (Outcome.undefined Outcome.dead_frame)
finish (exit e) = some (Outcome.exit e)
finish panic = some Outcome.panic
finish (undefined u) = some (Outcome.undefined u)
finish no_fuel = none

-- The zeroed parser with the first token, from the call of `lexer_next` for it; `memory` is what
-- every new table holds.
abbrev pub start : ℕ → Outcome (Token × Lexer) → Result (Unit {0})
start memory first = elim first [
  | Outcome.done (tok, lexer) ↦ ok tt (record {
    tok = tok;
    lexer = lexer;
    ctx = context_stmt;
    errcount = 0;
    ctx_stmt = false;
    table_memory = memory;
  })
  | Outcome.exit e ↦ exit e
  | Outcome.panic ↦ panic
  | Outcome.undefined u ↦ undefined u
]

-- Fuel for a source of this length.
abbrev pub enough : Bytes → ℕ
enough src = suc (length src + 2)

unfoldable pub parse : ℕ → Bytes → Option (Outcome Node)
parse memory src =
    finish (bind (start memory (lexer_next (lexer_init src))) (λ _. rule_program (enough src)))
