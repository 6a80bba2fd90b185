-- ===== src/Parser/Statement.antt =====
-- The statements of src/parser/parser.c, and `parse`.
use squel.Parser.State.{ParseState, Parser, return, spent, ◌>>=◌, ◌>>◌}
use squel.Parser.Syntax.{
  column_list, datatype, ident_col, ident_tbl, stmt_create, stmt_explain, stmt_insert, table,
}
use squel.Parser.Text.{max_query_size}
use squel.Parser.Tree.{Node}
use squel.Parser.Lexer.{
  add_node, expect_char, expect_word, get_next_char, keyword, next_char, next_to_child, parse_ident,
  parse_number, peek_word_matches, set_next_to_child, skip_white,
}
use squel.Parser.Expression.{current_node, set_current_node}
use squel.Parser.Query.{parse_query}
use squel.Common.{
  Bool, Bytes, List, Run, codes, exit, false, fault, if◌then◌else◌, length, ltb, ok, out_of_bounds,
  out_of_fuel, replicate, suc, true, zero, ℕ, ◌++◌, ◌-◌, ◌==◌,
}

-- `getDatatype`
unfoldable pub get_datatype : Parser (Unit {0})
get_datatype = do
  is_char ← peek_word_matches (codes "CHAR")
  parse_ident datatype
  skip_white
  if is_char
      then (do expect_char 40; set_next_to_child true; parse_number; expect_char 41; return tt)
      else (return tt)

unfoldable pub column_definition : Parser (Unit {0})
column_definition = do
  skip_white
  parse_ident ident_col
  skip_white
  set_next_to_child true
  column ← current_node
  get_datatype
  set_current_node column
  skip_white

-- `columDefinitions`
unfoldable pub column_definitions : ℕ → Parser (Unit {0})
column_definitions zero = spent
column_definitions (suc n) = do
  skip_white
  column_definition
  c ← next_char
  if c == 44 then (do get_next_char; column_definitions n) else (return tt)
  skip_white

-- `create`
unfoldable pub parse_create : ℕ → Parser (Unit {0})
parse_create n = do
  keyword (codes "CREATE") stmt_create
  skip_white
  keyword (codes "TABLE") table
  skip_white
  parse_ident ident_tbl
  skip_white
  expect_word (codes "AS")
  skip_white
  expect_char 40
  add_node column_list (codes "list of columns")
  set_next_to_child true
  column_definitions n
  expect_char 41
  return tt

-- `insert`
unfoldable pub parse_insert : ℕ → Parser (Unit {0})
parse_insert n = do
  keyword (codes "INSERT") stmt_insert
  skip_white
  expect_word (codes "INTO")
  skip_white
  parse_ident ident_tbl
  skip_white
  parse_query n

-- `queryOrStmt`
unfoldable pub query_or_stmt : ℕ → Parser (Unit {0})
query_or_stmt n = do
  is_create ← peek_word_matches (codes "CREATE")
  if is_create then (parse_create n) else (do
    is_insert ← peek_word_matches (codes "INSERT")
    if is_insert then (parse_insert n) else (parse_query n))

-- `explain`
unfoldable pub parse_explain : ℕ → Parser (Unit {0})
parse_explain n = do keyword (codes "EXPLAIN") stmt_explain; skip_white; query_or_stmt n

-- `initGlobals`, `strcpy` and the other assignments at the start of `parse`. `nextToChild` keeps
-- what an earlier call left.
unfoldable pub init_globals : Bytes → Bool → List Node → Run ParseState
init_globals input next_to_child nodes = elim (ltb (length input) max_query_size) [
  | false ↦ fault out_of_bounds
  | true ↦ ok (record {
    reader = record {
      cursor = 0;
      next_char = 0;
      ahead = input ++ replicate (max_query_size - length input) 0;
    };
    qsize = length input;
    next_to_child = next_to_child;
    nodes = nodes;
    current_node = 0;
    node_count = 0;
  })
]

-- The end of `parse`, after `getNextChar`.
unfoldable pub parse_input : ℕ → Parser (Unit {0})
parse_input n = do
  get_next_char
  is_explain ← peek_word_matches (codes "EXPLAIN")
  if is_explain then (parse_explain n) else (query_or_stmt n)

-- `parse`, given the memory with the root in it: what it leaves of the tree, and the global state.
unfoldable pub parse : ℕ → Bytes → Bool → List Node → Run ((Unit {0}) × ParseState)
parse n input next_to_child nodes = elim (init_globals input next_to_child nodes) [
  | ok s ↦ parse_input n s
  | exit ↦ exit
  | fault e ↦ fault e
  | out_of_fuel ↦ out_of_fuel
]
