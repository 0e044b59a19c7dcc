-- ===== src/ExprRules.antt =====
-- The grammar rules of seronc/parser.c for expressions. `expr` stands for `rule_expr` on what is
-- nested in brackets; `n` is fuel for the loops.
pub mod LeftAssoc
pub mod Operands
pub mod Binary
pub mod Progress
use seron.Prelude.{ℕ, zero, suc, Bool, true, false, List, [], ◌∷◌, if◌then◌else◌, ◌||◌}
use seron.Token.{
  Token, TokenKind, literal_ident, literal_number, literal_string, plus, minus, asterisk, slash,
  bang, comma, assign, eq, neq, gt, gt_eq, lt, lt_eq, ampersand, pipe, log_or, log_and, lparen,
  rparen, lbracket, rbracket,
}
use seron.Types.{Ty}
use seron.Ast
use seron.Ast.{
  Node, literal, grouping, binop, unaryop, call, array, index, Nodes, nil, cons, astnodelist_append,
  LiteralKind, string_literal, number_literal, ident_literal, BinOpKind, UnaryOpKind, addrof, deref,
  neg,
}
use seron.Parser.{
  Parser, Rule, ok, panic, no_fuel, ◌>>=◌, ◌>>◌, bind, pure, matches, matches_any, choose, peek,
  parser_advance, parser_sync, parser_consume,
}
use seron.TypeRules.{skip_comma, rule_util_type}

unfoldable pub literal_from_token : TokenKind → Rule LiteralKind
literal_from_token literal_ident p = ok ident_literal p
literal_from_token literal_number p = ok number_literal p
literal_from_token literal_string p = ok string_literal p
literal_from_token _ p = panic

unfoldable pub binop_from_token : TokenKind → Rule BinOpKind
binop_from_token plus p = ok BinOpKind.add p
binop_from_token minus p = ok BinOpKind.sub p
binop_from_token slash p = ok BinOpKind.div p
binop_from_token asterisk p = ok BinOpKind.mul p
binop_from_token eq p = ok BinOpKind.eq p
binop_from_token neq p = ok BinOpKind.neq p
binop_from_token lt p = ok BinOpKind.lt p
binop_from_token lt_eq p = ok BinOpKind.lt_eq p
binop_from_token gt p = ok BinOpKind.gt p
binop_from_token gt_eq p = ok BinOpKind.gt_eq p
binop_from_token pipe p = ok BinOpKind.bitwise_or p
binop_from_token ampersand p = ok BinOpKind.bitwise_and p
binop_from_token log_or p = ok BinOpKind.log_or p
binop_from_token log_and p = ok BinOpKind.log_and p
binop_from_token _ p = panic

unfoldable pub unaryop_from_token : TokenKind → Rule UnaryOpKind
unaryop_from_token minus p = ok UnaryOpKind.minus p
unaryop_from_token bang p = ok neg p
unaryop_from_token ampersand p = ok addrof p
unaryop_from_token asterisk p = ok deref p
unaryop_from_token _ p = panic

-- The loop of `rule_util_arglist` and `rule_expr_array`, up to the closing token.
unfoldable pub expr_list : ℕ → Rule Node → TokenKind → ℕ → Rule Nodes
expr_list n expr close zero p = no_fuel
expr_list n expr close (suc rounds) p =
    choose (matches close) (pure nil)
      (do e ← expr; _ ← skip_comma n; rest ← expr_list n expr close rounds; pure (cons e rest)) p

unfoldable pub rule_util_arglist : ℕ → Rule Node → Rule Nodes
rule_util_arglist n expr = do
  _ ← parser_consume n lparen
  args ← expr_list n expr rparen n
  _ ← parser_consume n rparen
  pure args

unfoldable pub rule_grouping : ℕ → Rule Node → Rule Node
rule_grouping n expr = do
  _ ← parser_consume n lparen
  _ ← choose {A = Unit {0}} (matches rparen) (parser_sync n) (pure tt)
  e ← expr
  _ ← parser_consume n rparen
  pure (grouping e)

unfoldable pub rule_expr_primary : ℕ → Rule Node → Rule Node
rule_expr_primary n expr =
    choose (matches_any (literal_number ∷ literal_ident ∷ literal_string ∷ []))
      (do
        tok ← peek
        kind ← literal_from_token tok.kind
        _ ← parser_advance
        pure (literal tok kind))
      (choose (matches lparen) (rule_grouping n expr) (parser_sync n))

unfoldable pub rule_expr_call : ℕ → Rule Node → Rule Node
rule_expr_call n expr = do
  node ← rule_expr_primary n expr
  choose (matches lparen) (do op ← peek; args ← rule_util_arglist n expr; pure (call op node args))
      (pure node)

unfoldable pub rule_expr_index : ℕ → Rule Node → Rule Node
rule_expr_index n expr = do
  node ← rule_expr_call n expr
  choose (matches lbracket)
      (do
        op ← parser_consume n lbracket
        i ← expr
        _ ← parser_consume n rbracket
        pure (index op node i))
      (pure node)

unfoldable pub rule_expr_unary : ℕ → Rule Node → Rule Node
rule_expr_unary n expr =
    choose (matches_any (minus ∷ bang ∷ ampersand ∷ asterisk ∷ []))
      (do
        op ← parser_advance
        kind ← unaryop_from_token op.kind
        node ← rule_expr_index n expr
        pure (unaryop node op kind))
      (rule_expr_index n expr)

-- The loop of `templ_binop` with the operand read so far.
unfoldable pub binop_loop : Rule Node → List TokenKind → ℕ → Node → Rule Node
binop_loop rule kinds zero lhs p = no_fuel
binop_loop rule kinds (suc rounds) lhs p =
    choose (matches_any kinds)
      (do
        op ← parser_advance
        rhs ← rule
        kind ← binop_from_token op.kind
        binop_loop rule kinds rounds (binop lhs rhs op kind))
      (pure lhs) p

unfoldable pub templ_binop : ℕ → Rule Node → List TokenKind → Rule Node
templ_binop n rule kinds = do lhs ← rule; binop_loop rule kinds n lhs

-- The rules for the binary operators, from the tightest to the loosest.
module _ (n : ℕ) (expr : Rule Node) where
  unfoldable pub rule_expr_factor : Rule Node
  rule_expr_factor = templ_binop n (rule_expr_unary n expr) (slash ∷ asterisk ∷ [])

  unfoldable pub rule_expr_term : Rule Node
  rule_expr_term = templ_binop n rule_expr_factor (plus ∷ minus ∷ [])

  unfoldable pub rule_expr_comparison : Rule Node
  rule_expr_comparison = templ_binop n rule_expr_term (lt ∷ lt_eq ∷ gt ∷ gt_eq ∷ [])

  unfoldable pub rule_expr_equality : Rule Node
  rule_expr_equality = templ_binop n rule_expr_comparison (eq ∷ neq ∷ [])

  unfoldable pub rule_expr_bitwise_and : Rule Node
  rule_expr_bitwise_and = templ_binop n rule_expr_equality (ampersand ∷ [])

  unfoldable pub rule_expr_bitwise_or : Rule Node
  rule_expr_bitwise_or = templ_binop n rule_expr_bitwise_and (pipe ∷ [])

  unfoldable pub rule_expr_log_and : Rule Node
  rule_expr_log_and = templ_binop n rule_expr_bitwise_or (log_and ∷ [])

  unfoldable pub rule_expr_log_or : Rule Node
  rule_expr_log_or = templ_binop n rule_expr_log_and (log_or ∷ [])

-- The recursion of `rule_expr_assign` by itself, on rounds of fuel.
unfoldable pub rule_expr_assign : ℕ → Rule Node → ℕ → Rule Node
rule_expr_assign n expr zero p = no_fuel
rule_expr_assign n expr (suc rounds) p =
    (do
      target ← rule_expr_log_or n expr
      choose (matches assign)
          (do
            op ← parser_advance
            value ← rule_expr_assign n expr rounds
            pure (Ast.assign op value target))
          (pure target))
      p

unfoldable pub rule_expr_array : ℕ → Rule Node → Rule Node
rule_expr_array n expr = do
  op ← parser_consume n lbracket
  values ← expr_list n expr rbracket n
  _ ← parser_consume n rbracket
  ty ← rule_util_type n
  pure (array op values ty 0)

unfoldable pub rule_expr : ℕ → Rule Node
rule_expr zero p = no_fuel
rule_expr (suc f) p =
    choose (matches lbracket) (rule_expr_array (suc f) (rule_expr f))
      (rule_expr_assign (suc f) (rule_expr f) (suc f)) p
