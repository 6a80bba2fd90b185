-- ===== src/Parser/State.antt =====
-- The global variables of src/parser/parser.c, and its functions as steps on them.
use squel.Common.{Bool, List, Run, at, exit, false, fault, ok, out_of_fuel, set, true, ℕ}
use squel.Parser.Text.{Reader}
use squel.Parser.Tree.{Node}

pub record ParseState : Type 0 where
  pub reader : Reader
  pub qsize : ℕ
  pub next_to_child : Bool
  pub nodes : List Node
  pub current_node : ℕ
  pub node_count : ℕ

abbrev pub Parser : Type 0 → Type 0
Parser A = ParseState → Run (A × ParseState)

abbrev pub after : {A B : Type 0} → Run (A × ParseState) → (A → Parser B) → Run (B × ParseState)
after (ok (a, s)) f = f a s
after exit f = exit
after (fault e) f = fault e
after out_of_fuel f = out_of_fuel

infixl 5 ◌>>=◌ ◌>>◌
unfoldable pub ◌>>=◌ : {A B : Type 0} → Parser A → (A → Parser B) → Parser B
m >>= f = λ s. after (m s) f

unfoldable pub ◌>>◌ : {A B : Type 0} → Parser A → Parser B → Parser B
unfolding ◌>>=◌
m >> k = m >>= λ _. k

unfoldable pub return : {A : Type 0} → A → Parser A
return a = λ s. ok (a, s)

-- `exit(1)` after a message.
unfoldable pub reject : {A : Type 0} → Parser A
reject = λ s. exit

unfoldable pub ensure : Bool → Parser (Unit {0})
unfolding return reject
ensure true = return tt
ensure false = reject

unfoldable pub spent : {A : Type 0} → Parser A
spent = λ s. out_of_fuel

-- Each step takes its result from a function on the state, and writes back where that leads.
unfoldable pub look : {A : Type 0} → (ParseState → Run A) → Parser A
look f = λ s. after_look s (f s)
  where
    after_look : {A : Type 0} → ParseState → Run A → Run (A × ParseState)
    after_look s (ok a) = ok (a, s)
    after_look s exit = exit
    after_look s (fault e) = fault e
    after_look s out_of_fuel = out_of_fuel

-- A step on the text: its result, and the reader where it ends.
unfoldable pub on_text : {A : Type 0} → (ParseState → Run (A × Reader)) → Parser A
on_text f = λ s. moved s (f s)
  where
    moved : {A : Type 0} → ParseState → Run (A × Reader) → Run (A × ParseState)
    moved s (ok (a, r)) = ok (a, record s { reader = r })
    moved s exit = exit
    moved s (fault e) = fault e
    moved s out_of_fuel = out_of_fuel

-- A step on the tree: the place of the node that it made becomes the current one.
unfoldable pub on_tree : (ParseState → Run (ℕ × List Node)) → Parser (Unit {0})
on_tree f = λ s. linked s (f s)
  where
    linked : ParseState → Run (ℕ × List Node) → Run ((Unit {0}) × ParseState)
    linked s (ok (n, nodes)) = ok (tt, record s { current_node = n; nodes = nodes })
    linked s exit = exit
    linked s (fault e) = fault e
    linked s out_of_fuel = out_of_fuel

-- The same for a step that only moves the reader.
unfoldable pub reading : (ParseState → Run Reader) → Parser (Unit {0})
reading f = λ s. moved s (f s)
  where
    moved : ParseState → Run Reader → Run ((Unit {0}) × ParseState)
    moved s (ok r) = ok (tt, record s { reader = r })
    moved s exit = exit
    moved s (fault e) = fault e
    moved s out_of_fuel = out_of_fuel

-- A write to the current node.
unfoldable pub on_node : (Node → Node) → Parser (Unit {0})
on_node f = λ s. written s (at s.nodes s.current_node)
  where
    written : ParseState → Run Node → Run ((Unit {0}) × ParseState)
    written s (ok node) = ok (tt, record s { nodes = set s.nodes s.current_node (f node) })
    written s exit = exit
    written s (fault e) = fault e
    written s out_of_fuel = out_of_fuel
