-- ===== src/StmtRules.antt =====
-- The grammar rules of seronc/parser.c for statements. `stmt` stands for `rule_stmt` inside braces;
-- `n` is fuel for the loops and for `rule_expr`.
pub mod Progress
use seron.Prelude.{ℕ, zero, suc, Bool, true, false, if◌then◌else◌}
use seron.Outcome.{unmatched_brace}
use seron.Token.{
  Token, TokenKind, literal_ident, semicolon, colon, comma, assign, lbrace, rbrace, kw_vardecl,
  kw_if, kw_else, kw_while, kw_for, kw_return,
}
use seron.Ast.{
  Node, block, vardecl, if_stmt, while_stmt, for_stmt, return_stmt, Nodes, nil, cons, MaybeNode,
  null, some_node,
}
use seron.Parser.{
  Parser, Rule, Result, ok, jump, exit, panic, undefined, no_fuel, ParserContext, context_stmt,
  context_decl, ◌>>=◌, ◌>>◌, bind, pure, matches, matches_any, is_at_end, choose, peek,
  parser_advance, parser_consume,
}
use seron.TypeRules.{rule_util_type}
use seron.ExprRules.{rule_expr}
use mathlib.Core.Option.{none}

-- A rule whose result may be NULL.
abbrev pub maybe : Rule Node → Rule MaybeNode
maybe rule = do node ← rule; pure (some_node node)

-- An expression, or NULL in front of a semicolon.
abbrev pub expr_unless_semicolon : ℕ → Rule MaybeNode
expr_unless_semicolon n = choose (matches semicolon) (pure null) (maybe (rule_expr n))

unfoldable pub rule_exprstmt : ℕ → Rule MaybeNode
rule_exprstmt n = do node ← expr_unless_semicolon n; _ ← parser_consume n semicolon; pure node

unfoldable pub rule_stmt_vardecl : ℕ → Rule Node
rule_stmt_vardecl n = do
  op ← parser_consume n kw_vardecl
  ident ← parser_consume n literal_ident
  _ ← parser_consume n colon
  ty ← rule_util_type n
  value ←
      choose (matches semicolon) (pure null) (do _ ← parser_consume n assign; maybe (rule_expr n))
  _ ← parser_consume n semicolon
  pure (vardecl op ident value ty 0)

-- `setjmp(p->ctx_stmt)` in a running frame, and what is left of it when the frame returns.
abbrev pub set_jump : Bool → Rule (Unit {0})
set_jump live p = ok tt (record p { ctx_stmt = live })

-- The rest of the block behind a statement that ended in `r`: a jump to the context of statements
-- lands at the `setjmp` of the innermost block that runs, with no statement to append.
abbrev pub land : Rule Nodes → Result MaybeNode → Result Nodes
land rest (ok null p) = rest p
land rest (ok (some_node node) p) = bind (rest p) (λ stmts. pure (cons node stmts))
land rest (jump context_stmt p) = rest p
land rest (jump context_decl p) = jump context_decl p
land rest (exit e) = exit e
land rest panic = panic
land rest (undefined u) = undefined u
land rest no_fuel = no_fuel

-- The loop of `rule_stmt_block` from the `setjmp` on. After a jump `setjmp` returns once more, and
-- `ctx_stmt` is still the one that it filled.
unfoldable pub block_loop : Rule MaybeNode → ℕ → Rule Nodes
block_loop stmt zero p = no_fuel
block_loop stmt (suc rounds) p =
    (do
      _ ← set_jump true
      choose (matches rbrace) (pure nil) (
          choose is_at_end (λ q. exit unmatched_brace)
            (λ q. land (block_loop stmt rounds) (stmt q))))
      p

unfoldable pub rule_stmt_block : ℕ → Rule MaybeNode → Rule Node
rule_stmt_block n stmt = do
  _ ← parser_consume n lbrace
  stmts ← block_loop stmt n
  _ ← parser_advance
  _ ← set_jump false
  pure (block stmts none)

unfoldable pub rule_stmt_for : ℕ → Rule MaybeNode → Rule Node
rule_stmt_for n stmt = do
  op ← parser_consume n kw_for
  ident ← parser_consume n literal_ident
  _ ← parser_consume n colon
  ty ← rule_util_type n
  _ ← parser_consume n assign
  expr ← rule_expr n
  _ ← parser_consume n comma
  cond ← rule_expr n
  _ ← parser_consume n comma
  step ← rule_expr n
  body ← rule_stmt_block n stmt
  pure (for_stmt op cond step body ty ident expr)

unfoldable pub rule_stmt_while : ℕ → Rule MaybeNode → Rule Node
rule_stmt_while n stmt = do
  op ← parser_consume n kw_while
  cond ← rule_expr n
  body ← rule_stmt_block n stmt
  pure (while_stmt op cond body)

unfoldable pub rule_stmt_if : ℕ → Rule MaybeNode → Rule Node
rule_stmt_if n stmt = do
  op ← parser_consume n kw_if
  cond ← rule_expr n
  body ← rule_stmt_block n stmt
  otherwise ←
      choose (matches kw_else) (do _ ← parser_advance; maybe (rule_stmt_block n stmt)) (pure null)
  pure (if_stmt op cond body otherwise)

unfoldable pub rule_stmt_return : ℕ → Rule Node
rule_stmt_return n = do
  op ← parser_consume n kw_return
  expr ← expr_unless_semicolon n
  _ ← parser_consume n semicolon
  pure (return_stmt op expr)

-- `p->ctx = …`
abbrev pub set_context : ParserContext → Rule (Unit {0})
set_context c p = ok tt (record p { ctx = c })

unfoldable pub rule_stmt : ℕ → Rule MaybeNode
rule_stmt zero p = no_fuel
rule_stmt (suc f) p =
    (do
      _ ← set_context context_stmt
      choose (matches lbrace) (maybe (rule_stmt_block (suc f) (rule_stmt f))) (
          choose (matches kw_vardecl) (maybe (rule_stmt_vardecl (suc f))) (
            choose (matches kw_if) (maybe (rule_stmt_if (suc f) (rule_stmt f))) (
              choose (matches kw_while) (maybe (rule_stmt_while (suc f) (rule_stmt f))) (
                choose (matches kw_for) (maybe (rule_stmt_for (suc f) (rule_stmt f))) (
                  choose (matches kw_return) (maybe (rule_stmt_return (suc f)))
                    (rule_exprstmt (suc f))))))))
      p
