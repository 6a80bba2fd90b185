-- ===== src/Parser/Fuel/Whole.antt =====
-- Fuel for the queries and statements of src/parser/parser.c, and for `parse`.
use squel.Parser.State.{ParseState, Parser, ensure, return, ◌>>=◌, ◌>>◌}
use squel.Parser.Syntax.{
  from, ident_tbl, join, on, select, stmt_create, stmt_explain, stmt_insert, table, where_clause,
}
use squel.Parser.Text.{max_query_size}
use squel.Parser.Tree.{Node}
use squel.Parser.Lexer.{
  expect_char, expect_word, get_next_char, keyword, parse_filename, parse_ident, peek_word_matches,
  set_next_to_child, skip_white,
}
use squel.Parser.Expression.{current_node, parse_boolexprlist, parse_exprlist, set_current_node}
use squel.Parser.Query.{parse_as, parse_from, parse_query, parse_query_alias, parse_source}
use squel.Parser.Statement.{
  column_definition, column_definitions, get_datatype, init_globals, parse, parse_create,
  parse_explain, parse_input, parse_insert, query_or_stmt,
}
use squel.Parser.Fuel.{
  Eats, Stops, Stops->>, Stops->>=, Stops-if, Stops-return, Stops-then, Within, room,
}
use squel.Parser.Fuel.Steps.{
  expect_word-Eats, get_next_char-Eats, keyword-Eats, next_char-Stops, parse_filename-Stops,
  skip_white-Stops,
}
use squel.Parser.Fuel.Names.{parse_number-Eats}
use squel.Parser.Fuel.Grammar.{parse_boolexprlist-Stops, parse_exprlist-Stops, step_stops}
use squel.Common.{
  Bool, Bool-cases, Bytes, Ends, Ends-exit, Ends-ok, List, Run, arith, codes, exit, fault,
  if◌then◌else◌, inl, inr, length, length-append, length-replicate, ltb, ok, out_of_fuel, replicate,
  suc, true, zero, ℕ, ◌*◌, ◌++◌, ◌+◌, ◌-◌, ◌<◌, ◌==◌, ◌≤◌,
}

-- The words of the language are long enough to take a character.
module _ {b : ℕ} where
  from-Eats : Eats b (keyword (codes "FROM") from)
  from-Eats = keyword-Eats (codes "FROM") from (omega arith)

  where-Eats : Eats b (keyword (codes "WHERE") where_clause)
  where-Eats = keyword-Eats (codes "WHERE") where_clause (omega arith)

  join-Eats : Eats b (keyword (codes "JOIN") join)
  join-Eats = keyword-Eats (codes "JOIN") join (omega arith)

  on-Eats : Eats b (keyword (codes "ON") on)
  on-Eats = keyword-Eats (codes "ON") on (omega arith)

  create-Eats : Eats b (keyword (codes "CREATE") stmt_create)
  create-Eats = keyword-Eats (codes "CREATE") stmt_create (omega arith)

  table-Eats : Eats b (keyword (codes "TABLE") table)
  table-Eats = keyword-Eats (codes "TABLE") table (omega arith)

  insert-Eats : Eats b (keyword (codes "INSERT") stmt_insert)
  insert-Eats = keyword-Eats (codes "INSERT") stmt_insert (omega arith)

  explain-Eats : Eats b (keyword (codes "EXPLAIN") stmt_explain)
  explain-Eats = keyword-Eats (codes "EXPLAIN") stmt_explain (omega arith)

  as-Eats : Eats b (expect_word (codes "AS"))
  as-Eats = expect_word-Eats (codes "AS") (omega arith)

  into-Eats : Eats b (expect_word (codes "INTO"))
  into-Eats = expect_word-Eats (codes "INTO") (omega arith)

ruleset word_stops = (
  step_stops, from-Eats, where-Eats, join-Eats, on-Eats, create-Eats, table-Eats, insert-Eats,
  explain-Eats, as-Eats, into-Eats,
)

parse_as-Stops : {b : ℕ} → Stops b parse_as
unfolding parse_as
parse_as-Stops = search word_stops depth 12

parse_query_alias-Stops : {b : ℕ} → Stops b parse_query_alias
unfolding parse_query_alias
parse_query_alias-Stops = search word_stops depth 12

select-rest :
    {d : ℕ} (items source condition : Parser (Unit {0}))
    → Stops d items
    → Stops d source
    → Stops d condition
    → Stops d (do
      select_node ← current_node
      skip_white
      set_next_to_child true
      items
      set_current_node select_node
      keyword (codes "FROM") from
      from_node ← current_node
      set_next_to_child true
      skip_white
      source
      skip_white
      set_current_node from_node
      parse_query_alias
      is_where ← peek_word_matches (codes "WHERE")
      if is_where
          then (do
            keyword (codes "WHERE") where_clause
            set_next_to_child true
            skip_white
            condition
            skip_white)
          else (return tt))
select-rest items source condition h h' h'' = search (word_stops, parse_query_alias-Stops) depth 24

from-Stops :
    {b : ℕ} (source condition : Parser (Unit {0}))
    → Stops b source
    → Stops b condition
    → Stops b (do
      skip_white
      source
      skip_white
      is_join ← peek_word_matches (codes "JOIN")
      if is_join
          then (do
            keyword (codes "JOIN") join
            source
            skip_white
            is_on ← peek_word_matches (codes "ON")
            ensure is_on
            skip_white
            keyword (codes "ON") on
            set_next_to_child true
            condition)
          else (return tt))
from-Stops source condition h h' = search word_stops depth 20

table_source-Stops :
    {b : ℕ} (c : ℕ)
    → Stops b (
        if c == 39
        then (do get_next_char; parse_filename; get_next_char; skip_white; parse_as)
        else (do parse_ident ident_tbl; skip_white; parse_as))
table_source-Stops c = search (word_stops, parse_filename-Stops, parse_as-Stops) depth 12

query_source-rest :
    {d : ℕ} (query : Parser (Unit {0}))
    → Stops d query
    → Stops d (do query; expect_char 41; return tt)
query_source-rest query h = search word_stops

mutual
  unfolding parse_query parse_from parse_source

  parse_query-Stops : (n b : ℕ) → 3 * b + 3 ≤ n → Stops b (parse_query n)
  parse_query-Stops zero b enough = absurd (omega arith)
  parse_query-Stops (suc n) b enough = Stops->> _ _ skip_white-Stops (
      Stops-then _ _ (keyword-Eats (codes "SELECT") select (omega arith)) λ d e.
        select-rest (parse_exprlist n) (parse_from n) (parse_boolexprlist n)
          (parse_exprlist-Stops n d (omega arith)) (parse_from-Stops n d (omega arith))
          (parse_boolexprlist-Stops n d (omega arith)))

  parse_from-Stops : (n b : ℕ) → 3 * b + 3 ≤ n → Stops b (parse_from n)
  parse_from-Stops zero b enough = absurd (omega arith)
  parse_from-Stops (suc n) b enough =
      from-Stops (parse_source n) (parse_boolexprlist n) (parse_source-Stops n b (omega arith))
        (parse_boolexprlist-Stops n b (omega arith))

  parse_source-Stops : (n b : ℕ) → 3 * b + 2 ≤ n → Stops b (parse_source n)
  parse_source-Stops zero b enough = absurd (omega arith)
  parse_source-Stops (suc n) b enough = Stops->> _ _ skip_white-Stops (
      Stops->>= _ _ next_char-Stops λ c.
        Stops-if (c == 40) _ _
          (Stops-then _ _ get_next_char-Eats
            λ d e. query_source-rest (parse_query n) (parse_query-Stops n d (omega arith)))
          (table_source-Stops c))

get_datatype-Stops : {b : ℕ} → Stops b get_datatype
unfolding get_datatype
get_datatype-Stops = search (word_stops, parse_number-Eats) depth 14

column_definition-Stops : {b : ℕ} → Stops b column_definition
unfolding column_definition
column_definition-Stops = search (word_stops, get_datatype-Stops) depth 14

column_definitions-Stops : (n b : ℕ) → b < n → Stops b (column_definitions n)
unfolding column_definitions
column_definitions-Stops zero b enough = absurd (omega arith)
column_definitions-Stops (suc n) b enough = Stops->> _ _ skip_white-Stops (
    Stops->> _ _ column_definition-Stops (
      Stops->>= _ _ next_char-Stops λ c.
        Stops->> _ _
          (Stops-if (c == 44) _ _
            (Stops-then _ _ get_next_char-Eats λ d e. column_definitions-Stops n d (omega arith))
            (Stops-return tt))
          skip_white-Stops))

parse_create-Stops : (n b : ℕ) → b < n → Stops b (parse_create n)
unfolding parse_create
parse_create-Stops n b enough =
    let columns : Stops b (column_definitions n) = column_definitions-Stops n b enough in
    search word_stops depth 24

parse_insert-Stops : (n b : ℕ) → 3 * b + 3 ≤ n → Stops b (parse_insert n)
unfolding parse_insert
parse_insert-Stops n b enough =
    let query : Stops b (parse_query n) = parse_query-Stops n b enough in search word_stops depth 16

query_or_stmt-Stops : (n b : ℕ) → 3 * b + 3 ≤ n → Stops b (query_or_stmt n)
unfolding query_or_stmt
query_or_stmt-Stops n b enough =
    let query : Stops b (parse_query n) = parse_query-Stops n b enough in
    let insert : Stops b (parse_insert n) = parse_insert-Stops n b enough in
    let create : Stops b (parse_create n) = parse_create-Stops n b (omega arith) in
    search word_stops depth 12

parse_input-Stops : (n b : ℕ) → 3 * b + 3 ≤ n → Stops b (parse_input n)
unfolding parse_input parse_explain
parse_input-Stops n b enough =
    let whole : Stops b (query_or_stmt n) = query_or_stmt-Stops n b enough in
    search word_stops depth 14

stopped : {A : Type 0} (b : ℕ) (run : Run (A × ParseState)) → Within b run → Ends run
stopped b (ok r) h = Ends-ok r
stopped b exit h = Ends-exit
stopped b (fault cause) h = record { end = tt }
stopped b out_of_fuel h = absurd h

abbrev started : Bytes → Bool → List Node → ParseState
started input flag nodes = record {
  reader = record {
    cursor = 0;
    next_char = 0;
    ahead = input ++ replicate (max_query_size - length input) 0;
  };
  qsize = length input;
  next_to_child = flag;
  nodes = nodes;
  current_node = 0;
  node_count = 0;
}

-- Whatever the text and the memory that the parser starts from, fuel for a query that fills its
-- array is enough: the parser returns, exits after a message, or reaches undefined behaviour.
pub parse-Ends :
    (n : ℕ) (input : Bytes) (flag : Bool) (nodes : List Node)
    → 3 * max_query_size + 3 ≤ n
    → Ends (parse n input flag nodes)
unfolding parse init_globals
parse-Ends n input flag nodes enough = elim (Bool-cases (ltb (length input) max_query_size)) [
  | inl e ↦
      let filled = length-append input (replicate (max_query_size - length input) 0) in
      let zeros = length-replicate {A = ℕ} (max_query_size - length input) 0 in
      let start = started input flag nodes in
      let fits : room start ≤ max_query_size = ground (arith, filled, zeros) in
      rw (parse, e)
        (stopped max_query_size (parse_input n start)
          ((parse_input-Stops n max_query_size enough).at_state start fits))
  | inr e ↦ rw (parse, e) (record { end = tt })
]
