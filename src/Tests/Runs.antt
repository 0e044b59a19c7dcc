-- ===== src/Tests/Runs.antt =====
-- Runs of the lexer and the parser on small sources.
use seron.Prelude.{◌≡◌, refl, some, codes}
use seron.Outcome.{Outcome, dead_frame, unexpected_eof, parsing_failed}
use seron.Scan.{
  tokenize_single, tokenize_double, tokenize_string, tokenize_char, tokenize_number, tokenize_ident,
  span, until_quote, is_digit, is_ident_head, is_ident_tail, literal_suffix, read_number, atoll,
  decimal, get_keyword, first_match, match_kw,
}
use seron.Lexer.{
  lexer_collect_tokens, count_tokens, collect, lexer_next, next_at, skip, tokenize, tokenize_long,
  tokenize_default,
}
use seron.Parser.{
  next_token, parser_advance, skip_to, parser_recover_stmt, parser_recover_decl, parser_sync,
  parser_expect_token, parser_consume,
}
use seron.TypeRules.{
  type_from_token_keyword, skip_comma, rule_util_param, check_count, param_loop,
  rule_util_paramlist, check_field, field_loop, rule_util_fieldlist, rule_util_proc_type,
  rule_util_type,
}
use seron.ExprRules.{
  literal_from_token, binop_from_token, unaryop_from_token, expr_list, rule_util_arglist,
  rule_grouping, rule_expr_primary, rule_expr_call, rule_expr_index, rule_expr_unary, binop_loop,
  templ_binop, rule_expr_factor, rule_expr_term, rule_expr_comparison, rule_expr_equality,
  rule_expr_bitwise_and, rule_expr_bitwise_or, rule_expr_log_and, rule_expr_log_or,
  rule_expr_assign, rule_expr_array, rule_expr,
}
use seron.StmtRules.{
  rule_exprstmt, rule_stmt_vardecl, block_loop, rule_stmt_block, rule_stmt_for, rule_stmt_while,
  rule_stmt_if, rule_stmt_return, rule_stmt,
}
use seron.DeclRules.{
  rule_decl_proc, rule_decl_table, rule_decl, program_loop, rule_program, finish, parse,
}

-- All that the lexer computes with.
unfoldable pub lexing : Unit {0}
unfolding lexer_collect_tokens count_tokens collect lexer_next next_at skip tokenize tokenize_long
    tokenize_default tokenize_single tokenize_double tokenize_string tokenize_char tokenize_number
    tokenize_ident span until_quote is_digit is_ident_head is_ident_tail literal_suffix read_number
    atoll decimal get_keyword first_match match_kw
lexing = tt

-- All that the parser computes with.
unfoldable pub parsing : Unit {0}
unfolding lexing next_token parser_advance skip_to parser_recover_stmt parser_recover_decl
    parser_sync parser_expect_token parser_consume type_from_token_keyword skip_comma
    rule_util_param check_count param_loop rule_util_paramlist check_field field_loop
    rule_util_fieldlist rule_util_proc_type rule_util_type literal_from_token binop_from_token
    unaryop_from_token expr_list rule_util_arglist rule_grouping rule_expr_primary rule_expr_call
    rule_expr_index rule_expr_unary binop_loop templ_binop rule_expr_factor rule_expr_term
    rule_expr_comparison rule_expr_equality rule_expr_bitwise_and rule_expr_bitwise_or
    rule_expr_log_and rule_expr_log_or rule_expr_assign rule_expr_array rule_expr rule_exprstmt
    rule_stmt_vardecl block_loop rule_stmt_block rule_stmt_for rule_stmt_while rule_stmt_if
    rule_stmt_return rule_stmt rule_decl_proc rule_decl_table rule_decl program_loop rule_program
    finish parse
parsing = tt

-- An `else` without braces, behind a block that has ended: the error jumps into its frame.
else_without_brace :
    parse 0 (codes "proc f() int { if a { } else 1; }") ≡ some (Outcome.undefined dead_frame)
unfolding parsing
else_without_brace = refl

-- The recoveries of two bad statements go on to a third.
two_errors :
    parse 0 (codes "proc f() int { 1 + ; { 2 2; } return 1; }") ≡ some (Outcome.exit parsing_failed)
unfolding parsing
two_errors = refl

-- No declaration is left behind the error.
nothing_to_skip_to :
    parse 0 (codes "proc f() int { return 1; } x") ≡ some (Outcome.exit unexpected_eof)
unfolding parsing
nothing_to_skip_to = refl
