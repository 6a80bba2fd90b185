-- ===== src/Parser/Fuel/Grammar.antt =====
-- Fuel for the recursion of src/parser/parser.c: twice what is left of the query for expressions, and
-- three times for queries.
use squel.Parser.State.{Parser, return, ◌>>=◌, ◌>>◌}
use squel.Parser.Syntax.{and, cparen, ident_col, ident_fun, oparen, or, star}
use squel.Parser.Text.{is_letter}
use squel.Parser.Lexer.{
  add_node, expect_char, get_next_char, keyword, next_char, parse_bool_op,
  peek_next_non_alphanumeric, peek_word_matches, set_next_to_child, skip_white,
}
use squel.Parser.Expression.{
  current_node, parse_boolexprlist, parse_expr, parse_exprlist, parse_operand, parse_until_paren,
  set_current_node,
}
use squel.Parser.Fuel.{
  Eats, Eats->>, Eats-if, EatsAt, Stops, Stops->>, Stops->>=, Stops-if, Stops-return, Stops-then,
}
use squel.Parser.Fuel.Matches.{non_alphanumeric-Ends}
use squel.Parser.Fuel.Steps.{
  add_node-Stops, current_node-Stops, expect_char-Eats, expect_word-Eats, get_next_char-Eats,
  keyword-Eats, next_char-Stops, peek_word_matches-Stops, set_current_node-Stops, skip_white-Stops,
  stops,
}
use squel.Parser.Fuel.Names.{
  EatsAt->>, EatsAt-Eats, EatsAt-if, EatsAt-look, EatsAt-next, add_alias-Stops, parse_bool_op-Stops,
  parse_constant-Eats, parse_ident-EatsAt, parse_ident-Stops,
}
use squel.Common.{
  arith, codes, if◌then◌else◌, suc, true, zero, ℕ, ◌*◌, ◌+◌, ◌-◌, ◌==◌, ◌∷◌, ◌≡◌, ◌≤◌,
}

pub ruleset step_stops = (
  stops, skip_white-Stops, expect_char-Eats, get_next_char-Eats, add_node-Stops, current_node-Stops,
  set_current_node-Stops, parse_bool_op-Stops, peek_word_matches-Stops, keyword-Eats,
  expect_word-Eats, parse_ident-Stops, add_alias-Stops,
)

-- What follows the first step of a function, where the call in it stops.
module _ {d : ℕ} (inner : Parser (Unit {0})) (stopped : Stops d inner) where
  arguments-rest :
      Stops d
        (set_next_to_child true >> (expect_char 40 >> (inner >> (expect_char 41 >> return tt))))
  arguments-rest = search step_stops depth 12

  paren-rest : Stops d (
      skip_white
      >> (add_node oparen (codes "(")
          >> (current_node >>= λ node_open.
              set_next_to_child true
              >> (inner
                  >> (expect_char 41
                      >> (skip_white
                          >> (add_node cparen (codes ")") >> set_current_node node_open)))))))
  paren-rest = search step_stops depth 14

  operand-rest :
      Stops d (skip_white >> (parse_bool_op >>= λ is_op. if is_op then inner else return tt))
  operand-rest = search step_stops depth 12

  exprlist-rest :
      Stops d
        (skip_white >> (next_char >>= λ c. if c == 44 then get_next_char >> inner else return tt))
  exprlist-rest = search step_stops depth 12

  and-Eats : Eats d (keyword (codes "AND") and)
  and-Eats = keyword-Eats (codes "AND") and (omega arith)

  or-Eats : Eats d (keyword (codes "OR") or)
  or-Eats = keyword-Eats (codes "OR") or (omega arith)

  boolexprlist-rest : Stops d (
      skip_white
      >> (peek_word_matches (codes "AND") >>= λ is_and.
          if is_and
          then keyword (codes "AND") and >> inner
          else (peek_word_matches (codes "OR") >>= λ is_or.
              if is_or then keyword (codes "OR") or >> inner else return tt)))
  boolexprlist-rest = search (step_stops, and-Eats, or-Eats) depth 14

parse_operand-EatsAt :
    {b : ℕ} (arguments : Parser (Unit {0})) (c : ℕ)
    → ((d : ℕ) → b ≡ suc d → Stops d arguments)
    → EatsAt b c (parse_operand arguments c)
unfolding parse_operand peek_next_non_alphanumeric
parse_operand-EatsAt arguments c kept =
    EatsAt-if (is_letter c) _ _
      (λ letter.
        EatsAt-look _ _
          (λ s.
            non_alphanumeric-Ends s.qsize (s.reader.cursor - 1)
              (s.reader.next_char ∷ s.reader.ahead))
          λ a.
            EatsAt-if (a == 40) _ _
              (λ e.
                EatsAt->> _ _ (parse_ident-EatsAt c ident_fun (ground arith))
                  λ d e'. arguments-rest arguments (kept d e'))
              (parse_ident-EatsAt c ident_col (ground arith)))
      (EatsAt-Eats _ (
        Eats-if (c == 42) _ _
          (Eats->> _ _ (expect_char-Eats 42) λ d e. add_node-Stops star (codes "*"))
          parse_constant-Eats))

mutual
  unfolding parse_expr parse_until_paren parse_exprlist parse_boolexprlist

  parse_expr-Eats : (n b : ℕ) → 2 * b + 1 ≤ n → Eats b (parse_expr n)
  parse_expr-Eats zero b enough = absurd (omega arith)
  parse_expr-Eats (suc n) b enough = EatsAt-next _ λ c.
      EatsAt-if (c == 40) _ _
        (λ e. EatsAt-Eats _ (
          Eats->> _ _ (expect_char-Eats 40)
            λ d e'. paren-rest (parse_until_paren n) (parse_until_paren-Stops n d (omega arith))))
        (EatsAt->> _ _
          (parse_operand-EatsAt (parse_exprlist n) c
            (λ d e. parse_exprlist-Stops n d (omega arith)))
          λ d e. operand-rest (parse_boolexprlist n) (parse_boolexprlist-Stops n d (omega arith)))

  parse_until_paren-Stops : (n b : ℕ) → 2 * b + 2 ≤ n → Stops b (parse_until_paren n)
  parse_until_paren-Stops zero b enough = absurd (omega arith)
  parse_until_paren-Stops (suc n) b enough = Stops->>= _ _ next_char-Stops λ c.
      Stops-if (c == 41) _ _ (Stops-return tt) (
        Stops-then _ _ (parse_expr-Eats n b (omega arith))
          λ d e. Stops->> _ _ skip_white-Stops (parse_until_paren-Stops n d (omega arith)))

  pub parse_exprlist-Stops : (n b : ℕ) → 2 * b + 2 ≤ n → Stops b (parse_exprlist n)
  parse_exprlist-Stops zero b enough = absurd (omega arith)
  parse_exprlist-Stops (suc n) b enough = Stops->> _ _ skip_white-Stops (
      Stops-then _ _ (parse_expr-Eats n b (omega arith))
        λ d e. exprlist-rest (parse_exprlist n) (parse_exprlist-Stops n d (omega arith)))

  pub parse_boolexprlist-Stops : (n b : ℕ) → 2 * b + 2 ≤ n → Stops b (parse_boolexprlist n)
  parse_boolexprlist-Stops zero b enough = absurd (omega arith)
  parse_boolexprlist-Stops (suc n) b enough = Stops->> _ _ skip_white-Stops (
      Stops-then _ _ (parse_expr-Eats n b (omega arith)) λ d e.
        boolexprlist-rest (parse_boolexprlist n) (parse_boolexprlist-Stops n d (omega arith)))
