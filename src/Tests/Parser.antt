-- ===== src/Tests/Parser.antt =====
-- The parser and the planner of filters at a small query.
use Prim.Native.String.{String}
use squel.Parser.Syntax.{
  NodeType, and, bool_op, cparen, dtype_long, ident_col, number, oparen, root,
}
use squel.Parser.Linked.{AllAhead, IsTree}
use squel.Parser.Linked.Grammar.{parse-IsTree}
use squel.Planner.Result.{ColumnMetadata, ResultSet, find_col_idx_in_res_desc}
use squel.Planner.Filter.Chain.{make_filter_ops}
use squel.Planner.Filter.Enough.{make_filter_ops-Ends}
use squel.Parser.Text.{
  advance, alias_loop, copy_loop, expect_text, ident_loop, is_numeric, non_alphanumeric, peek_loop,
  peek_word, push, white_loop, word_loop,
}
use squel.Parser.Tree.{Node, add_child, add_next, create_node, create_parsetree}
use squel.Parser.State.{
  ParseState, ensure, look, on_node, on_text, on_tree, reading, reject, return, spent, ◌>>=◌, ◌>>◌,
}
use squel.Parser.Lexer.{
  add_alias, add_node, copied, count_node, expect_char, expect_word, get_next_char, keyword,
  next_char, next_to_child, parse_bool_op, parse_constant, parse_filename, parse_ident,
  parse_number, parse_string, peek_next_non_alphanumeric, peek_word_matches, set_next_to_child,
  skip_white,
}
use squel.Parser.Expression.{
  current_node, parse_boolexprlist, parse_expr, parse_exprlist, parse_operand, parse_until_paren,
  set_current_node,
}
use squel.Parser.Query.{parse_as, parse_from, parse_query, parse_query_alias, parse_source}
use squel.Parser.Statement.{
  column_definition, column_definitions, get_datatype, init_globals, parse, parse_create,
  parse_explain, parse_input, parse_insert, query_or_stmt,
}
use squel.Parser.Fuel.Whole.{parse-Ends}
use squel.Parser.Words.{
  behind_word, copy_loop-run, first_of, reader_at, rest_of, wrong_last_character,
}
use squel.Planner.Join.{remap_index, remap_index-columns}
use squel.Planner.Columns.{find_col_idx_in_res_desc-first}
use squel.Common.Int.{pos}
use squel.Common.{
  Bool, Bytes, Ends, List, Option, Run, [], arith, at, bytes_eq, codes, exit, false, fault, none,
  ok, out_of_fuel, refl, some, true, ℕ, ◌++◌, ◌+◌, ◌-◌, ◌^◌, ◌∷◌, ◌≡◌,
}

abbrev root_node : Node
root_node = record {
  type = root;
  content = codes "root";
  next = none;
  child = none;
  alias = [];
  tblref = [];
  identifier = 2 ^ 64 - 1;
}

-- What the parser leaves, and the root alone where it leaves nothing.
abbrev left_by : Run ((Unit {0}) × ParseState) → ParseState → ParseState
left_by (ok (u, s)) default = s
left_by _ default = default

abbrev returns : Run ((Unit {0}) × ParseState) → Bool
returns (ok r) = true
returns _ = false

returned :
    (run : Run ((Unit {0}) × ParseState)) (default : ParseState)
    → returns run ≡ true
    → run ≡ ok (tt, left_by run default)
returned (ok (u, s)) default h = refl
returned exit default h = cc
returned (fault e) default h = cc
returned out_of_fuel default h = cc

abbrev untouched : ParseState
untouched = record {
  reader = record { cursor = 0; next_char = 0; ahead = [] };
  qsize = 0;
  next_to_child = false;
  nodes = root_node ∷ [];
  current_node = 0;
  node_count = 0;
}

abbrev query_text : Bytes
query_text = codes "SELECT a FROM t WHERE (a = 1 OR b < 'x') AND 2 >= a"

abbrev parsed : Run ((Unit {0}) × ParseState)
parsed = parse 20 query_text false (root_node ∷ [])

parsed-returns : returns parsed ≡ true
unfolding advance white_loop push copy_loop ident_loop alias_loop peek_loop peek_word
    non_alphanumeric word_loop expect_text create_node create_parsetree add_child add_next ◌>>=◌
    ◌>>◌ return reject ensure spent look on_text on_tree reading on_node next_char get_next_char
    expect_char peek_word_matches peek_next_non_alphanumeric expect_word count_node
    set_next_to_child next_to_child add_node keyword skip_white copied parse_filename parse_string
    parse_number parse_constant parse_ident parse_bool_op add_alias current_node set_current_node
    parse_operand parse_expr parse_until_paren parse_exprlist parse_boolexprlist parse_as
    parse_query_alias parse_query parse_from parse_source get_datatype column_definition
    column_definitions parse_create parse_insert query_or_stmt parse_explain init_globals
    parse_input parse at
parsed-returns = refl

parse-IsTree_example :
    IsTree (left_by parsed untouched) × ((left_by parsed untouched).next_to_child ≡ false)
parse-IsTree_example =
    parse-IsTree 20 query_text false root_node (refl, refl)
      (returned parsed untouched parsed-returns)

-- `(a = 1) AND 2 >= a`, as the parser lays it out.
abbrev laid : NodeType → String → Option ℕ → Option ℕ → Node
laid type content next child = record {
  type = type;
  content = codes content;
  next = next;
  child = child;
  alias = [];
  tblref = [];
  identifier = 2 ^ 64 - 1;
}

abbrev condition : List Node
condition =
    laid oparen "(" (some 5) (some 1)
    ∷ laid ident_col "a" (some 2) none
    ∷ laid bool_op "=" (some 3) none
    ∷ laid number "1" (some 4) none
    ∷ laid cparen ")" none none
    ∷ laid and "AND" (some 6) none
    ∷ laid number "2" (some 7) none
    ∷ laid bool_op ">=" (some 8) none
    ∷ laid ident_col "a" none none
    ∷ []

condition-AllAhead : AllAhead 0 9 condition
condition-AllAhead = ground arith

abbrev column_named : String → ColumnMetadata
column_named name = record {
  name = codes name;
  result_set_alias = [];
  type = dtype_long;
  size = 8;
  active = true;
}

abbrev one_column : ResultSet
one_column = record { columns = column_named "a" ∷ []; column_order = 0 ∷ []; size = 8 }

make_filter_ops-Ends_example : Ends (make_filter_ops condition one_column 9 0)
make_filter_ops-Ends_example =
    make_filter_ops-Ends condition one_column condition-AllAhead 9 0 (omega arith) (omega arith)

parse-Ends_example : Ends (parse 3003 query_text false (root_node ∷ []))
parse-Ends_example = parse-Ends 3003 query_text false (root_node ∷ []) (omega arith)

-- `SELECX` for `SELECT`.
wrong_last_character_example :
    (peek_word 20 (codes "SELECT") (reader_at 1 (codes "SELEC") 88 (codes " a FROM t")) ≡ ok true)
    × (expect_text (codes "SELECT") (reader_at 1 (codes "SELEC") 88 (codes " a FROM t"))
        ≡ ok (behind_word 1 (codes "SELEC") 88 (codes " a FROM t")))
wrong_last_character_example =
    wrong_last_character (codes "SELEC") 84 88 1 20 (codes " a FROM t") refl (omega arith)
      (omega arith)

abbrev two_columns : List ColumnMetadata
two_columns = column_named "a" ∷ column_named "b" ∷ []

find_col_idx_in_res_desc-first_example :
    (find_col_idx_in_res_desc
        (record one_column { columns = two_columns ++ column_named "c" ∷ [] })
        (codes "c")
        []
      ≡ ok (pos 2))
    × (find_col_idx_in_res_desc (record one_column { columns = two_columns }) (codes "c") [] ≡ exit)
unfolding bytes_eq
find_col_idx_in_res_desc-first_example =
    find_col_idx_in_res_desc-first one_column (codes "c") [] two_columns (column_named "c") []
      (refl, (refl, tt)) refl

remap_index-columns_example :
    (remap_index 3 (pos 2) ≡ pos 2)
    × (remap_index 3 (pos (3 + 1)) ≡ pos 1)
    × (remap_index 3 (pos 3) ≡ pos 3)
remap_index-columns_example = remap_index-columns 3 2 1 (omega arith) (omega arith)

copy_loop-run_example :
    copy_loop is_numeric 20 [] 3 (first_of (codes "42") 41) (rest_of (codes "42") 41 (codes " AND"))
    ≡ ok (codes "42", behind_word 3 (codes "42") 41 (codes " AND"))
copy_loop-run_example =
    copy_loop-run is_numeric 20 [] (codes "42") 41 3 (codes " AND") (refl, (refl, tt)) refl
      (omega arith) (omega arith)
