-- ===== src/Parser/Fuel/Steps.antt =====
-- How much of the query the functions on words, names and constants take.
use squel.Parser.State.{ParseState, ensure, on_node, on_text, on_tree, reading, reject, return}
use squel.Parser.Syntax.{NodeType}
use squel.Parser.Text.{Reader}
use squel.Parser.Tree.{Node, add_child, add_next, create_node}
use squel.Parser.Lexer.{
  add_node, copied, count_node, expect_char, expect_word, get_next_char, keyword, next_char,
  next_to_child, parse_filename, parse_string, peek_word_matches, set_next_to_child, skip_white,
}
use squel.Parser.Expression.{current_node, set_current_node}
use squel.Parser.Fuel.{
  Eats, Eats->>, Eats-if, Eats-later, Eats-reject, EatsAt, Shorter, Stops, Stops->>, Stops->>=,
  Stops-Eats, Stops-if, Stops-look, Stops-return, Within, room,
}
use squel.Parser.Fuel.Loops.{
  Reads, advance-Reads, behind, copy_loop-Reads, itself, white_loop-Reads,
}
use squel.Parser.Fuel.Matches.{expect_text-Reads, peek_word-Ends}
use squel.Common.{
  Bool, Bytes, Ends, Ends-at, Ends-defined, List, Run, [], arith, at, ends_rules, exit, false,
  fault, length, ok, out_of_fuel, set, true, ℕ, ◌==◌, ◌≡◌, ◌≤◌,
}

module _ {b : ℕ} where
  pub Stops-reading :
      (f : ParseState → Run Reader)
      → ((s : ParseState) → Reads itself (room s) 0 (f s))
      → Stops b (reading f)
  unfolding reading
  Stops-reading f h = record { at_state = λ s le. kept s le (f s) (h s) }
    where
      kept :
          (s : ParseState)
          → room s ≤ b
          → (run : Run Reader) → Reads itself (room s) 0 run
          → Within b (reading (λ _. run) s)
      kept s le (ok r) m = let moved = m.moved in omega arith
      kept s le exit m = tt
      kept s le (fault cause) m = tt
      kept s le out_of_fuel m = m.moved

  Eats-reading :
      (f : ParseState → Run Reader)
      → ((s : ParseState) → Reads itself (room s) 1 (f s))
      → Eats b (reading f)
  unfolding reading
  Eats-reading f h = record { at_state = λ s le. kept s le (f s) (h s) }
    where
      kept :
          (s : ParseState)
          → room s ≤ b
          → (run : Run Reader) → Reads itself (room s) 1 run
          → Shorter b (reading (λ _. run) s)
      kept s le (ok r) m = let moved = m.moved in omega arith
      kept s le exit m = tt
      kept s le (fault cause) m = tt
      kept s le out_of_fuel m = m.moved

  pub Stops-on_text :
      {A : Type 0} (f : ParseState → Run (A × Reader))
      → ((s : ParseState) → Reads behind (room s) 0 (f s))
      → Stops b (on_text f)
  unfolding on_text
  Stops-on_text {A = A} f h = record { at_state = λ s le. kept s le (f s) (h s) }
    where
      kept :
          (s : ParseState)
          → room s ≤ b
          → (run : Run (A × Reader)) → Reads behind (room s) 0 run
          → Within b (on_text (λ _. run) s)
      kept s le (ok (a, r)) m = let moved = m.moved in omega arith
      kept s le exit m = tt
      kept s le (fault cause) m = tt
      kept s le out_of_fuel m = m.moved

  pub EatsAt-on_text :
      {A : Type 0} (c : ℕ) (f : ParseState → Run (A × Reader))
      → ((s : ParseState) → s.reader.next_char ≡ c → Reads behind (room s) 1 (f s))
      → EatsAt b c (on_text f)
  unfolding on_text
  EatsAt-on_text {A = A} c f h = record { at_state = λ s le e. kept s le (f s) (h s e) }
    where
      kept :
          (s : ParseState)
          → room s ≤ b
          → (run : Run (A × Reader)) → Reads behind (room s) 1 run
          → Shorter b (on_text (λ _. run) s)
      kept s le (ok (a, r)) m = let moved = m.moved in omega arith
      kept s le exit m = tt
      kept s le (fault cause) m = tt
      kept s le out_of_fuel m = m.moved

  pub Stops-on_tree :
      (f : ParseState → Run (ℕ × List Node)) → ((s : ParseState) → Ends (f s)) → Stops b (on_tree f)
  unfolding on_tree
  Stops-on_tree f h = record { at_state = λ s le. kept s le (f s) (h s) }
    where
      kept :
          (s : ParseState)
          → room s ≤ b
          → (run : Run (ℕ × List Node)) → Ends run
          → Within b (on_tree (λ _. run) s)
      kept s le (ok (n, nodes)) e = le
      kept s le exit e = tt
      kept s le (fault cause) e = tt
      kept s le out_of_fuel e = e.end

  pub Stops-on_node : (f : Node → Node) → Stops b (on_node f)
  unfolding on_node
  Stops-on_node f = record {
    at_state = λ s le. kept s le (at s.nodes s.current_node) (Ends-at s.nodes s.current_node);
  }
    where
      kept :
          (s : ParseState)
          → room s ≤ b
          → (run : Run Node) → Ends run
          → Within b (elim run [
            | ok node ↦ ok (tt, record s { nodes = set s.nodes s.current_node (f node) })
            | exit ↦ exit
            | fault e ↦ fault e
            | out_of_fuel ↦ out_of_fuel
          ])
      kept s le (ok node) e = le
      kept s le exit e = tt
      kept s le (fault cause) e = tt
      kept s le out_of_fuel e = e.end

  pub next_char-Stops : Stops b next_char
  unfolding next_char
  next_char-Stops = record { at_state = λ s h. h }

  pub count_node-Stops : Stops b count_node
  unfolding count_node
  count_node-Stops = record { at_state = λ s h. h }

  pub next_to_child-Stops : Stops b next_to_child
  unfolding next_to_child
  next_to_child-Stops = record { at_state = λ s h. h }

  pub set_next_to_child-Stops : (flag : Bool) → Stops b (set_next_to_child flag)
  unfolding set_next_to_child
  set_next_to_child-Stops flag = record { at_state = λ s h. h }

  pub current_node-Stops : Stops b current_node
  unfolding current_node
  current_node-Stops = record { at_state = λ s h. h }

  pub set_current_node-Stops : (n : ℕ) → Stops b (set_current_node n)
  unfolding set_current_node
  set_current_node-Stops n = record { at_state = λ s h. h }

  pub ensure-Stops : (t : Bool) → Stops b (ensure t)
  unfolding ensure return reject
  ensure-Stops true = record { at_state = λ s h. h }
  ensure-Stops false = record { at_state = λ s h. tt }

  pub get_next_char-Eats : Eats b get_next_char
  unfolding get_next_char
  get_next_char-Eats =
      Eats->> _ _ (Eats-reading _ (λ s. advance-Reads s.reader))
        (λ d e. record { at_state = λ s h. unfold next_char in h })

create_node-Ends : (type : NodeType) (content : Bytes) → Ends (create_node type content)
unfolding create_node
create_node-Ends type content = search ends_rules

add_next-Ends :
    (nodes : List Node) (n : ℕ) (type : NodeType) (content : Bytes)
    → Ends (add_next nodes n type content)
unfolding add_next
add_next-Ends nodes n type content = search (ends_rules, create_node-Ends)

add_child-Ends :
    (nodes : List Node) (n : ℕ) (type : NodeType) (content : Bytes)
    → Ends (add_child nodes n type content)
unfolding add_child
add_child-Ends nodes n type content = search (ends_rules, create_node-Ends)

pub ruleset stops = (
  Stops->>=, Stops->>, Stops-if, Stops-return, Stops-look, Stops-on_text, Stops-on_tree,
  Stops-on_node, Stops-Eats, next_char-Stops, count_node-Stops, next_to_child-Stops,
  set_next_to_child-Stops, ensure-Stops, Ends-defined,
)

pub add_node-Stops : {b : ℕ} (type : NodeType) (content : Bytes) → Stops b (add_node type content)
unfolding add_node
add_node-Stops type content = search (stops, add_next-Ends, add_child-Ends) depth 10

pub expect_char-Eats : {b : ℕ} (c : ℕ) → Eats b (expect_char c)
unfolding expect_char
expect_char-Eats c =
    Eats-later _ _ next_char-Stops (λ a. Eats-if (a == c) _ _ get_next_char-Eats Eats-reject)

pub peek_word_matches-Stops : {b : ℕ} (w : Bytes) → Stops b (peek_word_matches w)
unfolding peek_word_matches
peek_word_matches-Stops w = Stops-look _ (λ s. peek_word-Ends s.qsize w s.reader)

pub expect_word-Eats : {b : ℕ} (w : Bytes) → 2 ≤ length w → Eats b (expect_word w)
unfolding expect_word
expect_word-Eats w long = Eats-reading _ (λ s. expect_text-Reads w s.reader long)

pub keyword-Eats : {b : ℕ} (w : Bytes) (type : NodeType) → 2 ≤ length w → Eats b (keyword w type)
unfolding keyword
keyword-Eats w type long = Eats->> _ _ (expect_word-Eats w long) (λ d e. add_node-Stops type w)

pub skip_white-Stops : {b : ℕ} → Stops b skip_white
unfolding skip_white
skip_white-Stops =
    Stops-reading _
      (λ s. white_loop-Reads s.qsize s.reader.cursor s.reader.next_char s.reader.ahead)

pub copied-Stops : {b : ℕ} (goes_on : ℕ → Bool) → Stops b (copied goes_on)
unfolding copied
copied-Stops goes_on =
    Stops-on_text _
      (λ s. copy_loop-Reads goes_on s.qsize [] s.reader.cursor s.reader.next_char s.reader.ahead)

pub parse_filename-Stops : {b : ℕ} → Stops b parse_filename
unfolding parse_filename
parse_filename-Stops = search (stops, copied-Stops, add_node-Stops)

pub parse_string-Eats : {b : ℕ} → Eats b parse_string
unfolding parse_string
parse_string-Eats =
    Eats->> _ _ (expect_char-Eats 39)
      (λ d e. search (stops, expect_char-Eats, copied-Stops, add_node-Stops) depth 8)
