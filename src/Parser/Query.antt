-- ===== src/Parser/Query.antt =====
-- The queries of src/parser/parser.c: SELECT, FROM with JOIN, and WHERE.
use squel.Parser.State.{Parser, ensure, return, spent, ◌>>=◌, ◌>>◌}
use squel.Parser.Syntax.{from, ident_tbl, join, on, select, where_clause}
use squel.Parser.Lexer.{
  add_alias, expect_char, get_next_char, keyword, next_char, parse_filename, parse_ident,
  peek_word_matches, set_next_to_child, skip_white,
}
use squel.Parser.Expression.{current_node, parse_boolexprlist, parse_exprlist, set_current_node}
use squel.Common.{codes, if◌then◌else◌, suc, true, zero, ℕ, ◌==◌}

-- What follows a source: `AS` and an alias for the current node.
unfoldable pub parse_as : Parser (Unit {0})
parse_as = do
  is_as ← peek_word_matches (codes "AS")
  if is_as then (do get_next_char; get_next_char; skip_white; add_alias) else (return tt)

-- The alias of a query, which is that of its FROM node.
unfoldable pub parse_query_alias : Parser (Unit {0})
parse_query_alias = do
  is_as ← peek_word_matches (codes "AS")
  if is_as
      then (do get_next_char; get_next_char; skip_white; add_alias; skip_white)
      else (return tt)

unfoldable mutual
  -- `query`
  pub parse_query : ℕ → Parser (Unit {0})
  parse_query zero = spent
  parse_query (suc n) = do
    skip_white
    keyword (codes "SELECT") select
    select_node ← current_node
    skip_white
    set_next_to_child true
    parse_exprlist n
    set_current_node select_node
    keyword (codes "FROM") from
    from_node ← current_node
    set_next_to_child true
    skip_white
    parse_from n
    skip_white
    set_current_node from_node
    parse_query_alias
    is_where ← peek_word_matches (codes "WHERE")
    if is_where
        then (do
          keyword (codes "WHERE") where_clause
          set_next_to_child true
          skip_white
          parse_boolexprlist n
          skip_white)
        else (return tt)

  -- `from`
  pub parse_from : ℕ → Parser (Unit {0})
  parse_from zero = spent
  parse_from (suc n) = do
    skip_white
    parse_source n
    skip_white
    is_join ← peek_word_matches (codes "JOIN")
    if is_join
        then (do
          keyword (codes "JOIN") join
          parse_source n
          skip_white
          is_on ← peek_word_matches (codes "ON")
          ensure is_on
          skip_white
          keyword (codes "ON") on
          set_next_to_child true
          parse_boolexprlist n)
        else (return tt)

  -- `source`: a query, a file or a table.
  pub parse_source : ℕ → Parser (Unit {0})
  parse_source zero = spent
  parse_source (suc n) = do
    skip_white
    c ← next_char
    if c == 40
        then (do get_next_char; parse_query n; expect_char 41; return tt)
        else (if c == 39
            then (do get_next_char; parse_filename; get_next_char; skip_white; parse_as)
            else (do parse_ident ident_tbl; skip_white; parse_as))
