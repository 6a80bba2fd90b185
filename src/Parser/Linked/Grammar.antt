-- ===== src/Parser/Linked/Grammar.antt =====
-- The functions for expressions, queries and statements keep the tree.
use squel.Parser.State.{ParseState, Parser, ensure, return, ◌>>=◌, ◌>>◌}
use squel.Parser.Text.{max_query_size}
use squel.Parser.Tree.{Node}
use squel.Parser.Lexer.{
  add_node, expect_char, get_next_char, keyword, peek_word_matches, set_next_to_child, skip_white,
}
use squel.Parser.Syntax.{cparen, from, ident_tbl, join, on, oparen, select, where_clause}
use squel.Parser.Expression.{
  current_node, parse_boolexprlist, parse_expr, parse_exprlist, parse_operand, parse_until_paren,
  set_current_node,
}
use squel.Parser.Query.{parse_as, parse_from, parse_query, parse_query_alias, parse_source}
use squel.Parser.Statement.{
  column_definition, column_definitions, get_datatype, init_globals, parse, parse_create,
  parse_explain, parse_input, parse_insert, query_or_stmt,
}
use squel.Parser.Linked.{
  Builds, Builds-if, Builds-spent, IsTree, Mode, Stands, child_of, next_of, ready, settled,
}
use squel.Parser.Linked.Current.{
  Builds-child_noted, Builds-current_node, Builds-set_current_node-fresh,
}
use squel.Parser.Linked.Rules.{
  Calm, Calm-before, Calm-first, Same, Same-before, Same-ensure, Same-first, Same-last,
  Same-last_ready, Same-last_settled, Same-return, To, back-before, child-before, fresh-before,
  noted_child-before, ready-before, ready-last, settled-before, settled-last,
}
use squel.Parser.Linked.Lexer.{
  add_alias-Same, add_node-Fresh, char_rules, expect_char-Same, get_next_char-Same, keyword-Fresh,
  next_char-Same, parse_bool_op-Calm, parse_constant-Settled, parse_filename-Settled,
  parse_ident-Fresh, parse_number-Settled, peek_word_matches-Same, skip_white-Same, step_rules,
}
use squel.Common.{
  Bool, Bool-cases, Bytes, List, [], arith, codes, false, if◌then◌else◌, inl, inr, length, ltb,
  none, ok, refl, replicate, suc, true, zero, ℕ, ◌++◌, ◌-◌, ◌==◌, ◌∷◌, ◌≡◌,
}

ruleset grammar_rules = (
  step_rules, keyword-Fresh, parse_ident-Fresh, parse_filename-Settled, parse_number-Settled,
  parse_constant-Settled, parse_bool_op-Calm, add_alias-Same,
)

parse_operand-Settled :
    (arguments : Parser (Unit {0})) (c : ℕ)
    → To settled arguments
    → To settled (parse_operand arguments c)
unfolding parse_operand
parse_operand-Settled arguments c h = record {
  builds = λ σ p. search grammar_rules depth 16 fits 8000;
}

-- What stands in brackets, and the node that it comes back to.
bracketed :
    {σ : List ℕ} {p : Mode} {inside : Parser (Unit {0})}
    → To ready inside
    → Builds σ p σ settled (do
      expect_char 40
      skip_white
      add_node oparen (codes "(")
      node_open ← current_node
      set_next_to_child true
      inside
      expect_char 41
      skip_white
      add_node cparen (codes ")")
      set_current_node node_open)
bracketed h = Same-before (expect_char-Same 40) (
    Same-before skip_white-Same (
      fresh-before (add_node-Fresh oparen (codes "(")) (
        Builds-current_node (λ x. noted_child-before (
          ready-before h (
            Same-before (expect_char-Same 41) (
              Same-before skip_white-Same (
                fresh-before (add_node-Fresh cparen (codes ")"))
                  (Builds-set_current_node-fresh x)))))))))

mutual
  unfolding parse_expr parse_until_paren parse_exprlist parse_boolexprlist

  parse_expr-Settled : (n : ℕ) → To settled (parse_expr n)
  parse_expr-Settled zero = record { builds = λ σ p. Builds-spent }
  parse_expr-Settled (suc n) = record {
    builds = λ σ p. Same-first next_char-Same (λ c.
        Builds-if (c == 40) _ _ (bracketed (parse_until_paren-Ready n)) (
          settled-before (parse_operand-Settled (parse_exprlist n) c (parse_exprlist-Settled n)) (
            Same-before skip_white-Same (
              Calm-first parse_bool_op-Calm (λ is_op.
                Builds-if is_op _ _ (settled-last (parse_boolexprlist-Settled n))
                  (Same-last (Same-return tt)))))));
  }

  -- Between the brackets there may be nothing.
  parse_until_paren-Ready : (n : ℕ) → To ready (parse_until_paren n)
  parse_until_paren-Ready zero = record { builds = λ σ p. Builds-spent }
  parse_until_paren-Ready (suc n) = record {
    builds = λ σ p.
        search
          (
            grammar_rules,
            ready-last,
            Same-last_ready,
            parse_expr-Settled n,
            parse_until_paren-Ready n,
          )
          depth 12 fits 8000;
  }

  parse_exprlist-Settled : (n : ℕ) → To settled (parse_exprlist n)
  parse_exprlist-Settled zero = record { builds = λ σ p. Builds-spent }
  parse_exprlist-Settled (suc n) = record {
    builds = λ σ p.
        search (grammar_rules, parse_expr-Settled n, parse_exprlist-Settled n) depth 12 fits 8000;
  }

  parse_boolexprlist-Settled : (n : ℕ) → To settled (parse_boolexprlist n)
  parse_boolexprlist-Settled zero = record { builds = λ σ p. Builds-spent }
  parse_boolexprlist-Settled (suc n) = record {
    builds = λ σ p.
        search (grammar_rules, parse_expr-Settled n, parse_boolexprlist-Settled n) depth 16 fits
          8000;
  }

ruleset expression_rules = (grammar_rules, parse_exprlist-Settled, parse_boolexprlist-Settled)

parse_as-Same : Same parse_as
unfolding parse_as
parse_as-Same =
    search (char_rules, peek_word_matches-Same, skip_white-Same, add_alias-Same) depth 12

parse_query_alias-Same : Same parse_query_alias
unfolding parse_query_alias
parse_query_alias-Same =
    search (char_rules, peek_word_matches-Same, skip_white-Same, add_alias-Same) depth 12

-- The parts of a query, some with what follows.
module _ {σ : List ℕ} {p : Mode} {m : Parser (Unit {0})} where
  selected :
      {n : Parser (Unit {0})}
      → To settled m
      → Builds σ settled σ settled n
      → Builds σ p σ settled (do
        keyword (codes "SELECT") select
        select_node ← current_node
        skip_white
        set_next_to_child true
        m
        set_current_node select_node
        n)
  selected h k = fresh-before (keyword-Fresh (codes "SELECT") select) (
      Builds-current_node (λ x.
        Same-before skip_white-Same (noted_child-before (settled-before h (back-before x k)))))

  sourced :
      {n : Parser (Unit {0})}
      → To settled m
      → Builds σ settled σ settled n
      → Builds σ p σ settled (do
        keyword (codes "FROM") from
        from_node ← current_node
        set_next_to_child true
        skip_white
        m
        skip_white
        set_current_node from_node
        n)
  sourced h k = fresh-before (keyword-Fresh (codes "FROM") from) (
      Builds-current_node (λ x. noted_child-before (
        Same-before skip_white-Same
          (settled-before h (Same-before skip_white-Same (back-before x k))))))

  conditions :
      To settled m
      → Builds σ p σ settled (do
        keyword (codes "WHERE") where_clause
        set_next_to_child true
        skip_white
        m
        skip_white)
  conditions h =
      fresh-before (keyword-Fresh (codes "WHERE") where_clause)
        (child-before (Same-before skip_white-Same (settled-before h (Same-last skip_white-Same))))

  join_condition :
      To settled m
      → Builds σ p σ settled (do
        is_on ← peek_word_matches (codes "ON")
        ensure is_on
        skip_white
        keyword (codes "ON") on
        set_next_to_child true
        m)
  join_condition h = Same-first (peek_word_matches-Same (codes "ON")) (λ is_on.
      Same-before (Same-ensure is_on) (
        Same-before skip_white-Same
          (fresh-before (keyword-Fresh (codes "ON") on) (child-before (settled-last h)))))

mutual
  unfolding parse_query parse_from parse_source

  parse_query-Settled : (n : ℕ) → To settled (parse_query n)
  parse_query-Settled zero = record { builds = λ σ p. Builds-spent }
  parse_query-Settled (suc n) = record {
    builds = λ σ p. Same-before skip_white-Same (
        selected (parse_exprlist-Settled n) (
          sourced (parse_from-Settled n) (
            Same-before parse_query_alias-Same (
              Same-first (peek_word_matches-Same (codes "WHERE")) (λ is_where.
                Builds-if is_where _ _ (conditions (parse_boolexprlist-Settled n))
                  (Same-last (Same-return tt)))))));
  }

  parse_from-Settled : (n : ℕ) → To settled (parse_from n)
  parse_from-Settled zero = record { builds = λ σ p. Builds-spent }
  parse_from-Settled (suc n) = record {
    builds = λ σ p. Same-before skip_white-Same (
        settled-before (parse_source-Settled n) (
          Same-before skip_white-Same (
            Same-first (peek_word_matches-Same (codes "JOIN")) (λ is_join.
              Builds-if is_join _ _
                (fresh-before (keyword-Fresh (codes "JOIN") join) (
                  settled-before (parse_source-Settled n)
                    (Same-before skip_white-Same (join_condition (parse_boolexprlist-Settled n)))))
                (Same-last (Same-return tt))))));
  }

  parse_source-Settled : (n : ℕ) → To settled (parse_source n)
  parse_source-Settled zero = record { builds = λ σ p. Builds-spent }
  parse_source-Settled (suc n) = record {
    builds = λ σ p. Same-before skip_white-Same (
        Same-first next_char-Same (λ c.
          Builds-if (c == 40) _ _
            (Same-before get_next_char-Same (
              settled-before (parse_query-Settled n)
                (Same-before (expect_char-Same 41) (Same-last (Same-return tt)))))
            (Builds-if (c == 39) _ _
              (Same-before get_next_char-Same (
                settled-before parse_filename-Settled (
                  Same-before get_next_char-Same
                    (Same-before skip_white-Same (Same-last parse_as-Same)))))
              (fresh-before (parse_ident-Fresh ident_tbl)
                (Same-before skip_white-Same (Same-last_settled parse_as-Same))))));
  }

get_datatype-Settled : To settled get_datatype
unfolding get_datatype
get_datatype-Settled = record { builds = λ σ p. search grammar_rules depth 16 fits 8000 }

column_definition-Settled : To settled column_definition
unfolding column_definition
column_definition-Settled = record {
  builds =
      λ σ p. search (grammar_rules, Builds-child_noted, get_datatype-Settled) depth 16 fits 8000;
}

more_columns :
    (c : ℕ) (rest : Parser (Unit {0}))
    → To settled rest
    → Calm (if c == 44 then (do get_next_char; rest) else (return tt))
more_columns c rest h = record {
  builds = λ σ.
      Builds-if (c == 44) _ _ (Same-before get_next_char-Same (settled-last h))
        (Same-last (Same-return tt));
}

column_definitions-Settled : (n : ℕ) → To settled (column_definitions n)
unfolding column_definitions
column_definitions-Settled zero = record { builds = λ σ p. Builds-spent }
column_definitions-Settled (suc n) = record {
  builds = λ σ p. Same-before skip_white-Same (
      settled-before column_definition-Settled (
        Same-first next_char-Same (λ c.
          Calm-before (more_columns c (column_definitions n) (column_definitions-Settled n))
            (Same-last skip_white-Same))));
}

parse_create-Settled : (n : ℕ) → To settled (parse_create n)
unfolding parse_create
parse_create-Settled n = record {
  builds = λ σ p. search (grammar_rules, column_definitions-Settled) depth 24 fits 8000;
}

parse_insert-Settled : (n : ℕ) → To settled (parse_insert n)
unfolding parse_insert
parse_insert-Settled n = record {
  builds = λ σ p. search (grammar_rules, parse_query-Settled) depth 16 fits 8000;
}

query_or_stmt-Settled : (n : ℕ) → To settled (query_or_stmt n)
unfolding query_or_stmt
query_or_stmt-Settled n = record {
  builds = λ σ p.
      search (grammar_rules, parse_create-Settled, parse_insert-Settled, parse_query-Settled) depth
        12;
}

parse_explain-Settled : (n : ℕ) → To settled (parse_explain n)
unfolding parse_explain
parse_explain-Settled n = record { builds = λ σ p. search (grammar_rules, query_or_stmt-Settled) }

parse_input-Settled : (n : ℕ) → To settled (parse_input n)
unfolding parse_input
parse_input-Settled n = record {
  builds = λ σ p. search (grammar_rules, parse_explain-Settled, query_or_stmt-Settled) depth 12;
}

-- A root that links to nothing.
abbrev pub BareRoot : Node → Type 0
BareRoot node = (node.next ≡ none) × (node.child ≡ none)

abbrev started : Bytes → Bool → Node → ParseState
started input flag node = record {
  reader = record {
    cursor = 0;
    next_char = 0;
    ahead = input ++ replicate (max_query_size - length input) 0;
  };
  qsize = length input;
  next_to_child = flag;
  nodes = node ∷ [];
  current_node = 0;
  node_count = 0;
}

-- The root is no link's end; its pointers are NULL, whichever is written first.
started-Stands :
    (input : Bytes) (flag : Bool) (node : Node)
    → BareRoot node
    → Stands [] ready (started input flag node)
unfolding next_of child_of
started-Stands input flag node bare = record {
  tree = record {
    counted = refl;
    current = omega arith;
    ahead = ((rw (bare.0) tt, rw (bare.1) tt), tt);
    linked_once = λ j pos lt. absurd (omega (arith, pos, lt));
  };
  saved = tt;
  at_mode = elim (Bool-cases flag) [ inl c ↦ inl (c, bare.1) | inr c ↦ inr (c, bare.0) ];
}

-- A parse that returns, from a root alone and whatever an earlier parse left in `nextToChild`, leaves
-- a tree: the nodes are the root and those that were counted, every link leads to a node that was
-- made later, and to every node but the root leads exactly one. It leaves `nextToChild` unset.
pub parse-IsTree :
    (n : ℕ) (input : Bytes) (flag : Bool) (node : Node) {u : Unit {0}} {s : ParseState}
    → BareRoot node
    → parse n input flag (node ∷ []) ≡ ok (u, s)
    → IsTree s × (s.next_to_child ≡ false)
unfolding parse init_globals
parse-IsTree n input flag node bare e = elim (Bool-cases (ltb (length input) max_query_size)) [
  | inl c ↦
      let start = started input flag node in
      let builds = (parse_input-Settled n).builds [] ready in
      let left = builds.at_state start (started-Stands input flag node bare) in
      let stands = rw (rw (parse, c) at e) at left in (stands.tree, stands.at_mode.0)
  | inr c ↦ cc (rw (parse, c) at e)
]
