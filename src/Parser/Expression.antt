-- ===== src/Parser/Expression.antt =====
-- The expressions of src/parser/parser.c. Each call takes one less of the fuel.
use squel.Parser.State.{Parser, return, spent, ◌>>=◌, ◌>>◌}
use squel.Parser.Syntax.{and, cparen, ident_col, ident_fun, oparen, or, star}
use squel.Parser.Text.{is_letter}
use squel.Parser.Lexer.{
  add_node, expect_char, get_next_char, keyword, next_char, parse_bool_op, parse_constant,
  parse_ident, peek_next_non_alphanumeric, peek_word_matches, set_next_to_child, skip_white,
}
use squel.Common.{codes, if◌then◌else◌, ok, suc, true, zero, ℕ, ◌==◌}

unfoldable pub current_node : Parser ℕ
current_node = λ s. ok (s.current_node, s)

unfoldable pub set_current_node : ℕ → Parser (Unit {0})
set_current_node n = λ s. ok (tt, record s { current_node = n })

-- The middle of `expr`: a function, a column, a star or a constant. The arguments of a function are an
-- `exprlist`.
unfoldable pub parse_operand : Parser (Unit {0}) → ℕ → Parser (Unit {0})
parse_operand arguments c =
    if is_letter c
    then (do
      after_name ← peek_next_non_alphanumeric
      if after_name == 40
          then (do
            parse_ident ident_fun
            set_next_to_child true
            expect_char 40
            arguments
            expect_char 41
            return tt)
          else (parse_ident ident_col))
    else (if c == 42 then (do expect_char 42; add_node star (codes "*")) else parse_constant)

unfoldable mutual
  -- `expr`
  pub parse_expr : ℕ → Parser (Unit {0})
  parse_expr zero = spent
  parse_expr (suc n) = do
    c ← next_char
    if c == 40
        then (do
          expect_char 40
          skip_white
          add_node oparen (codes "(")
          node_open ← current_node
          set_next_to_child true
          parse_until_paren n
          expect_char 41
          skip_white
          add_node cparen (codes ")")
          set_current_node node_open)
        else (do
          parse_operand (parse_exprlist n) c
          skip_white
          is_op ← parse_bool_op
          if is_op then (parse_boolexprlist n) else (return tt))

  -- `while (nextChar != ')')`
  pub parse_until_paren : ℕ → Parser (Unit {0})
  parse_until_paren zero = spent
  parse_until_paren (suc n) = do
    c ← next_char
    if c == 41 then (return tt) else (do parse_expr n; skip_white; parse_until_paren n)

  -- `exprlist`
  pub parse_exprlist : ℕ → Parser (Unit {0})
  parse_exprlist zero = spent
  parse_exprlist (suc n) = do
    skip_white
    parse_expr n
    skip_white
    c ← next_char
    if c == 44 then (do get_next_char; parse_exprlist n) else (return tt)

  -- `boolexprlist`
  pub parse_boolexprlist : ℕ → Parser (Unit {0})
  parse_boolexprlist zero = spent
  parse_boolexprlist (suc n) = do
    skip_white
    parse_expr n
    skip_white
    is_and ← peek_word_matches (codes "AND")
    if is_and then (do keyword (codes "AND") and; parse_boolexprlist n) else (do
      is_or ← peek_word_matches (codes "OR")
      if is_or then (do keyword (codes "OR") or; parse_boolexprlist n) else (return tt))
