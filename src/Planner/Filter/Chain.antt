-- ===== src/Planner/Filter/Chain.antt =====
-- `_makeFilterOps` of src/planner/operators/filter.c: from linked nodes to linked operators.
use squel.Common.{
  Bool, List, Option, Run, at, exit, false, fault, if◌then◌else◌, none, null_pointer, ok,
  out_of_fuel, require, some, suc, true, zero, ℕ, ◌>>=◌, ◌>>◌,
}
use squel.Parser.Syntax.{NodeType, and, cparen, oparen, or, stmt_insert}
use squel.Parser.Tree.{Node}
use squel.Planner.Plan.{FilterInfo, Filters, comparison, none_left, wrapper}
use squel.Planner.Result.{ResultSet}
use squel.Planner.Filter.{make_filter_op}

abbrev pub is_oparen : NodeType → Bool
is_oparen oparen = true
is_oparen _ = false

abbrev pub is_cparen : NodeType → Bool
is_cparen cparen = true
is_cparen _ = false

abbrev pub is_and_or : NodeType → Bool
is_and_or and = true
is_and_or or = true
is_and_or _ = false

module _ (nodes : List Node) (result : ResultSet) where
  -- `node->next->...->next`, if none of them is NULL.
  unfoldable pub after_links : ℕ → ℕ → Run (Option ℕ)
  after_links zero p = ok (some p)
  after_links (suc links) p = do
    node ← at nodes p
    elim node.next [ none ↦ ok none | some q ↦ after_links links q ]

  -- The loop that follows the first comparison: `info` is that of `cur_op`, for the node at `p`. A
  -- further operator is made with `operatorNext` 0, the first kind of node.
  unfoldable pub filter_chain : ℕ → ℕ → FilterInfo → NodeType → Run Filters
  filter_chain zero p info operator_next = out_of_fuel
  filter_chain (suc fuel) p info operator_next = do
    third ← after_links 3 p
    fourth ← after_links 4 p
    elim third [
      | none ↦ ok (comparison info operator_next none_left)
      | some o ↦ elim fourth [
        | none ↦ ok (comparison info operator_next none_left)
        | some q ↦ do
          op ← at nodes o
          require (is_and_or op.type)
          info' ← make_filter_op nodes result q
          rest ← filter_chain fuel q info' stmt_insert
          ok (comparison info op.type rest)
      ]
    ]

  -- What follows a parenthesis: the operator that joins it and the node behind that, if any.
  abbrev pub joint : NodeType → Option ℕ → Option (NodeType × ℕ)
  joint op none = none
  joint op (some r) = some (op, r)

  unfoldable pub after_paren : Option ℕ → Run (Option (NodeType × ℕ))
  after_paren none = ok none
  after_paren (some q) = do
    next ← at nodes q
    ok (if is_cparen next.type then none else joint next.type next.next)

  -- `_makeFilterOps` at a parenthesis, where `ops` is the function itself: its child, and then the
  -- operators behind it.
  unfoldable pub behind_paren : (ℕ → Run Filters) → Filters → Option (NodeType × ℕ) → Run Filters
  behind_paren ops child none = ok (wrapper child stmt_insert none_left)
  behind_paren ops child (some (op, r)) = do rest ← ops r; ok (wrapper child op rest)

  unfoldable pub parenthesis : (ℕ → Run Filters) → Option ℕ → Option ℕ → Run Filters
  parenthesis ops none next = exit
  parenthesis ops (some c) next = do
    child ← ops c
    joined ← after_paren next
    behind_paren ops child joined

  -- `_makeFilterOps`
  unfoldable pub make_filter_ops : ℕ → ℕ → Run Filters
  make_filter_ops zero p = out_of_fuel
  make_filter_ops (suc fuel) p = do
    node ← at nodes p
    if is_oparen node.type
        then parenthesis (make_filter_ops fuel) node.child node.next
        else (do info ← make_filter_op nodes result p; filter_chain (suc fuel) p info and)

  -- `makeFilterOps`, for the node of the WHERE or ON.
  unfoldable pub make_where_ops : ℕ → ℕ → Run Filters
  make_where_ops fuel p = do
    node ← at nodes p
    elim node.child [ none ↦ fault null_pointer | some c ↦ make_filter_ops fuel c ]
