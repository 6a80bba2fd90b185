-- ===== src/Parser/Fuel/Names.antt =====
-- How much of the query numbers, names and operators take, which depends on the character at hand.
use squel.Parser.State.{ParseState, Parser, after, ensure, look, reject, return, ◌>>=◌, ◌>>◌}
use squel.Parser.Syntax.{NodeType, number}
use squel.Parser.Text.{is_name, is_numeric}
use squel.Parser.Lexer.{
  add_alias, copied, next_char, parse_bool_op, parse_constant, parse_ident, parse_number,
}
use squel.Parser.Fuel.{
  Eats, Eats-if, Eats-later, EatsAt, Shorter, Stops, Stops->>=, after-rest, room,
}
use squel.Parser.Fuel.Loops.{alias_loop-Reads, copy_loop-Reads_one, ident_loop-Reads}
use squel.Parser.Fuel.Steps.{
  EatsAt-on_text, Stops-on_node, Stops-on_text, add_node-Stops, expect_char-Eats,
  get_next_char-Eats, next_char-Stops, parse_string-Eats, stops,
}
use squel.Common.{
  Bool, Ends, Run, [], arith, exit, false, fault, if◌then◌else◌, ok, out_of_fuel, refl, suc, true,
  ℕ, ◌==◌, ◌≡◌, ◌≤◌,
}

-- Steps that take a character if the one before the cursor allows it.
module _ {b : ℕ} where
  pub EatsAt-next :
      {A : Type 0} (f : ℕ → Parser A) → ((c : ℕ) → EatsAt b c (f c)) → Eats b (next_char >>= f)
  unfolding ◌>>=◌ next_char
  EatsAt-next f h = record { at_state = λ s le. (h s.reader.next_char).at_state s le refl }

  pub EatsAt-if :
      {A : Type 0} {c : ℕ} (t : Bool) (m n : Parser A)
      → (t ≡ true → EatsAt b c m)
      → EatsAt b c n
      → EatsAt b c (if t then m else n)
  EatsAt-if true m n hm hn = hm refl
  EatsAt-if false m n hm hn = hn

  pub EatsAt-Eats : {A : Type 0} {c : ℕ} (m : Parser A) → Eats b m → EatsAt b c m
  EatsAt-Eats m h = record { at_state = λ s le e. h.at_state s le }

  pub EatsAt->>= :
      {A B : Type 0} {c : ℕ} (m : Parser A) (f : A → Parser B)
      → EatsAt b c m
      → ((d : ℕ) → b ≡ suc d → (a : A) → Stops d (f a))
      → EatsAt b c (m >>= f)
  unfolding ◌>>=◌
  EatsAt->>= m f km kf = record {
    at_state = λ s le e. after-rest b f (m s) (km.at_state s le e) kf;
  }

  -- A look ahead does not move the reader.
  pub EatsAt-look :
      {A B : Type 0} {c : ℕ} (g : ParseState → Run A) (f : A → Parser B)
      → ((s : ParseState) → Ends (g s))
      → ((a : A) → EatsAt b c (f a))
      → EatsAt b c (look g >>= f)
  unfolding ◌>>=◌ look
  EatsAt-look {A = A} {c = c} g f unspent h = record {
    at_state = λ s le e. kept s le e (g s) (unspent s);
  }
    where
      kept :
          (s : ParseState)
          → room s ≤ b
          → s.reader.next_char ≡ c
          → (run : Run A) → Ends run
          → Shorter b (after (look (λ _. run) s) f)
      kept s le e (ok a) x = (h a).at_state s le e
      kept s le e exit x = tt
      kept s le e (fault cause) x = tt
      kept s le e out_of_fuel x = x.end

  EatsAt-ensure :
      {A : Type 0} {c : ℕ} (t : Bool) (m : Parser A)
      → (t ≡ true → EatsAt b c m)
      → EatsAt b c (ensure t >> m)
  unfolding ◌>>◌ ◌>>=◌ ensure return reject
  EatsAt-ensure true m h = record { at_state = (h refl).at_state }
  EatsAt-ensure false m h = record { at_state = λ s le e. tt }

pub parse_number-Eats : {b : ℕ} → Eats b parse_number
unfolding parse_number copied
parse_number-Eats = EatsAt-next _ λ c. EatsAt-ensure (is_numeric c) _ λ e.
    EatsAt->>= _ _
      (EatsAt-on_text c _ λ s same.
        copy_loop-Reads_one is_numeric s.qsize [] s.reader.cursor s.reader.next_char s.reader.ahead
          (rw same e))
      (λ d e' buff. add_node-Stops number buff)

pub parse_constant-Eats : {b : ℕ} → Eats b parse_constant
unfolding parse_constant
parse_constant-Eats =
    Eats-later _ _ next_char-Stops (λ c. Eats-if (c == 39) _ _ parse_string-Eats parse_number-Eats)

module _ {b : ℕ} where
  pub EatsAt->> :
      {A B : Type 0} {c : ℕ} (m : Parser A) (n : Parser B)
      → EatsAt b c m
      → ((d : ℕ) → b ≡ suc d → Stops d n)
      → EatsAt b c (m >> n)
  unfolding ◌>>◌
  EatsAt->> m n km kn = EatsAt->>= m (λ _. n) km (λ d e _. kn d e)

  pub parse_ident-Stops : (type : NodeType) → Stops b (parse_ident type)
  unfolding parse_ident
  parse_ident-Stops type =
      Stops->>= _ _
        (Stops-on_text _ λ s.
          ident_loop-Reads s.qsize [] 0 s.reader.cursor s.reader.next_char s.reader.ahead 0
            (omega arith) (λ _. refl))
        (λ p. search (stops, add_node-Stops) depth 8)

  pub parse_ident-EatsAt :
      (c : ℕ) (type : NodeType) → is_name c ≡ true → EatsAt b c (parse_ident type)
  unfolding parse_ident
  parse_ident-EatsAt c type name =
      EatsAt->>= _ _
        (EatsAt-on_text c _ λ s same.
          ident_loop-Reads s.qsize [] 0 s.reader.cursor s.reader.next_char s.reader.ahead 1
            (omega arith) (λ e. absurd (cc)))
        (λ d e p. search (stops, add_node-Stops) depth 8)

  pub parse_bool_op-Stops : Stops b parse_bool_op
  unfolding parse_bool_op
  parse_bool_op-Stops =
      search (stops, get_next_char-Eats, expect_char-Eats, add_node-Stops) depth 14

  pub add_alias-Stops : Stops b add_alias
  unfolding add_alias
  add_alias-Stops =
      Stops->>= _ _
        (Stops-on_text _ λ s. alias_loop-Reads [] s.reader.cursor s.reader.next_char s.reader.ahead)
        (λ letters. Stops-on_node _)
