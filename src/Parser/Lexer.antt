-- ===== src/Parser/Lexer.antt =====
-- The functions of src/parser/parser.c that read words, names and constants.
use squel.Parser.State.{
  Parser, ensure, look, on_node, on_text, on_tree, reading, reject, return, ◌>>=◌, ◌>>◌,
}
use squel.Parser.Syntax.{NodeType, bool_op, filepath, number, string}
use squel.Parser.Text.{
  advance, alias_loop, copy_loop, expect_text, ident_loop, is_numeric, is_quoted, max_expr_size,
  non_alphanumeric, peek_word, white_loop,
}
use squel.Parser.Tree.{add_child, add_next}
use squel.Common.{
  Bool, Bytes, [], codes, defined, drop, false, if◌then◌else◌, length, ltb, ok, out_of_bounds, take,
  true, ℕ, ◌++◌, ◌+◌, ◌-◌, ◌==◌, ◌||◌, ◌∷◌,
}

unfoldable pub next_char : Parser ℕ
next_char = λ s. ok (s.reader.next_char, s)

unfoldable pub get_next_char : Parser ℕ
unfolding advance
get_next_char = do reading (λ s. advance s.reader); next_char

unfoldable pub expect_char : ℕ → Parser ℕ
unfolding get_next_char
expect_char expected = do c ← next_char; if c == expected then get_next_char else reject

unfoldable pub peek_word_matches : Bytes → Parser Bool
peek_word_matches w = look (λ s. peek_word s.qsize w s.reader)

unfoldable pub peek_next_non_alphanumeric : Parser ℕ
peek_next_non_alphanumeric =
    look (λ s. non_alphanumeric s.qsize (s.reader.cursor - 1) (s.reader.next_char ∷ s.reader.ahead))

unfoldable pub expect_word : Bytes → Parser (Unit {0})
expect_word w = reading (λ s. expect_text w s.reader)

unfoldable pub count_node : Parser (Unit {0})
count_node = λ s. ok (tt, record s { node_count = s.node_count + 1 })

unfoldable pub set_next_to_child : Bool → Parser (Unit {0})
set_next_to_child b = λ s. ok (tt, record s { next_to_child = b })

unfoldable pub next_to_child : Parser Bool
next_to_child = λ s. ok (s.next_to_child, s)

-- `addNode`
unfoldable pub add_node : NodeType → Bytes → Parser (Unit {0})
add_node type content = do
  count_node
  child ← next_to_child
  if child
      then (do
        on_tree (λ s. add_child s.nodes s.current_node type content)
        set_next_to_child false)
      else on_tree (λ s. add_next s.nodes s.current_node type content)

unfoldable pub keyword : Bytes → NodeType → Parser (Unit {0})
keyword kw type = do expect_word kw; add_node type kw

unfoldable pub skip_white : Parser (Unit {0})
skip_white = reading (λ s. white_loop s.qsize s.reader.cursor s.reader.next_char s.reader.ahead)

-- A loop that copies to a buffer which is empty at first. No byte of it is zero: the loop for a text
-- that is not closed never comes to its end.
unfoldable pub copied : (ℕ → Bool) → Parser Bytes
copied goes_on =
    on_text (λ s. copy_loop goes_on s.qsize [] s.reader.cursor s.reader.next_char s.reader.ahead)

-- `filename`
unfoldable pub parse_filename : Parser (Unit {0})
parse_filename = do buff ← copied is_quoted; add_node filepath buff

-- `string`
unfoldable pub parse_string : Parser (Unit {0})
parse_string = do expect_char 39; buff ← copied is_quoted; expect_char 39; add_node string buff

-- `expectNumber` and `number`
unfoldable pub parse_number : Parser (Unit {0})
parse_number = do
  c ← next_char
  ensure (is_numeric c)
  buff ← copied is_numeric
  add_node number buff

-- `constant`
unfoldable pub parse_constant : Parser (Unit {0})
parse_constant = do c ← next_char; if c == 39 then parse_string else parse_number

-- `ident`. A buffer that is full has no terminator.
unfoldable pub parse_ident : NodeType → Parser (Unit {0})
parse_ident type = do
  (buff, cut_off) ←
      on_text (λ s. ident_loop s.qsize [] 0 s.reader.cursor s.reader.next_char s.reader.ahead)
  look (λ s. defined (ltb (length buff) max_expr_size) out_of_bounds)
  if cut_off == 0 then (add_node type buff) else (do
    add_node type (drop cut_off buff)
    on_node (λ node. record node { tblref = take cut_off buff }))

-- `boolOp`
unfoldable pub parse_bool_op : Parser Bool
parse_bool_op = do
  c ← next_char
  if c == 61 || (c == 60 || c == 62)
      then (do
        next ← get_next_char
        if next == 61
            then (do get_next_char; add_node bool_op (c ∷ next ∷ []))
            else (add_node bool_op (c ∷ []))
        return true)
      else (if c == 33
          then (do get_next_char; expect_char 61; add_node bool_op (codes "!="); return true)
          else (return false))

-- `addAlias(currentNode)`: what the alias held behind the new letters stays.
unfoldable pub add_alias : Parser (Unit {0})
add_alias = do
  letters ← on_text (λ s. alias_loop [] s.reader.cursor s.reader.next_char s.reader.ahead)
  on_node (λ node. record node { alias = letters ++ drop (length letters) node.alias })
