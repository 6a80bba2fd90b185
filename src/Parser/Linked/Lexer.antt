-- ===== src/Parser/Linked/Lexer.antt =====
-- The functions on words, names and constants keep the tree, and leave `nextToChild` unset where they
-- add a node.
use squel.Parser.State.{on_node}
use squel.Parser.Syntax.{NodeType}
use squel.Parser.Tree.{Node}
use squel.Parser.Lexer.{
  add_alias, add_node, copied, expect_char, expect_word, get_next_char, keyword, next_char,
  parse_bool_op, parse_constant, parse_filename, parse_ident, parse_number, parse_string,
  peek_next_non_alphanumeric, peek_word_matches, skip_white,
}
use squel.Parser.Linked.{fresh, settled}
use squel.Parser.Linked.Nodes.{Builds-on_node, add_node-Builds}
use squel.Parser.Linked.Rules.{
  Builds-To, Calm, Same, Same-ensure, Same-look, Same-on_text, Same-return, To, order_rules,
  same_rules,
}
use squel.Common.{Bytes, ℕ, ◌≡◌}

pub next_char-Same : Same next_char
unfolding next_char
next_char-Same = record { builds = λ σ p. record { at_state = λ s t. t } }

pub add_node-Fresh : (type : NodeType) (content : Bytes) → To fresh (add_node type content)
add_node-Fresh type content = record { builds = λ σ p. add_node-Builds type content }

on_node-Same :
    (f : Node → Node)
    → ((node : Node) → (f node).next ≡ node.next)
    → ((node : Node) → (f node).child ≡ node.child)
    → Same (on_node f)
on_node-Same f e e' = record { builds = λ σ p. Builds-on_node f e e' }

pub get_next_char-Same : Same get_next_char
unfolding get_next_char
get_next_char-Same = search (same_rules, next_char-Same)

pub ruleset char_rules = (same_rules, next_char-Same, get_next_char-Same)

pub expect_char-Same : (c : ℕ) → Same (expect_char c)
unfolding expect_char
expect_char-Same c = search char_rules

pub peek_word_matches-Same : (w : Bytes) → Same (peek_word_matches w)
unfolding peek_word_matches
peek_word_matches-Same w = search char_rules

pub peek_next_non_alphanumeric-Same : Same peek_next_non_alphanumeric
unfolding peek_next_non_alphanumeric
peek_next_non_alphanumeric-Same = search char_rules

pub expect_word-Same : (w : Bytes) → Same (expect_word w)
unfolding expect_word
expect_word-Same w = search char_rules

pub skip_white-Same : Same skip_white
unfolding skip_white
skip_white-Same = search char_rules

-- The steps by name, each of which is not looked into.
pub ruleset step_rules = (
  order_rules, Same-return, Same-ensure, Same-look, Same-on_text, next_char-Same,
  get_next_char-Same, expect_char-Same, peek_word_matches-Same, peek_next_non_alphanumeric-Same,
  expect_word-Same, skip_white-Same, add_node-Fresh,
)

pub keyword-Fresh : (w : Bytes) (type : NodeType) → To fresh (keyword w type)
unfolding keyword
keyword-Fresh w type = record { builds = λ σ p. search step_rules }

pub parse_filename-Settled : To settled parse_filename
unfolding parse_filename copied
parse_filename-Settled = record { builds = λ σ p. search step_rules }

parse_string-Settled : To settled parse_string
unfolding parse_string copied
parse_string-Settled = record { builds = λ σ p. search step_rules depth 9 }

pub parse_number-Settled : To settled parse_number
unfolding parse_number copied
parse_number-Settled = record { builds = λ σ p. search step_rules depth 9 }

pub parse_constant-Settled : To settled parse_constant
unfolding parse_constant
parse_constant-Settled = record {
  builds = λ σ p. search (step_rules, parse_string-Settled, parse_number-Settled);
}

pub parse_ident-Fresh : (type : NodeType) → To fresh (parse_ident type)
unfolding parse_ident
parse_ident-Fresh type = record { builds = λ σ p. search (step_rules, on_node-Same) depth 9 }

pub add_alias-Same : Same add_alias
unfolding add_alias
add_alias-Same = search (same_rules, on_node-Same) depth 9

pub parse_bool_op-Calm : Calm parse_bool_op
unfolding parse_bool_op
parse_bool_op-Calm = record { builds = λ σ. search (step_rules, Builds-To) depth 12 fits 8000 }
