-- ===== src/Planner/Query/From.antt =====
-- The FROM of a query is planned in the end: its tables, its join and the condition of that.
use squel.Common.{
  >>=-eq-ok, Bool, Ends, Ends->>=, Ends-at, Ends-exit, Ends-fault, Ends-ok, List, Option, Run, ap,
  arith, at, ends_rules, exit, false, length, none, null_pointer, ok, some, true, ℕ, ◌+◌, ◌<◌,
  ◌>>=◌, ◌∙◌, ◌≡◌, ◌≤◌,
}
use squel.Config.{}
use squel.Parser.Syntax.{NodeType, filepath, ident_tbl}
use squel.Parser.Tree.{Node}
use squel.Parser.State.{}
use squel.Parser.Statement.{}
use squel.Parser.Linked.{Ahead, AllAhead}
use squel.Io.Files.{Files}
use squel.Io.Tdb.{Tdb}
use squel.Planner.Plan.{}
use squel.Planner.Result.{ResultSet}
use squel.Planner.Operator.{Operator, copy_result_description, follow, result_description}
use squel.Planner.Filter.Chain.{make_where_ops}
use squel.Planner.Filter.Enough.{make_filter_ops-Ends}
use squel.Planner.Join.{make_join_filter_ops}
use squel.Planner.Scan.{make_scan_op, make_scan_tdb_op}
use squel.Planner.Project.{}
use squel.Planner.Statement.{}
use squel.Planner.Query.{build_from, choose_scan_op, is_join, join_result, make_join_op}
use squel.Planner.Query.Tables.{Ends-elim, make_scan_op-Ends, make_scan_tdb_op-Ends}
use squel.Planner.Query.Enough.{follow-Ends, follow-later, link-Ends, links_at}

pub make_where_ops-Ends :
    (nodes : List Node) (result : ResultSet) (n p : ℕ)
    → AllAhead 0 (length nodes) nodes
    → length nodes ≤ n + p
    → Ends (make_where_ops nodes result n p)
unfolding make_where_ops
make_where_ops-Ends nodes result n p ahead enough =
    Ends->>= (at nodes p) _ (Ends-at nodes p) λ node e.
      link-Ends nodes ahead n p node.child _ _ (links_at nodes ahead p node e).1 (omega arith)
        (Ends-fault null_pointer) (make_filter_ops-Ends nodes result ahead n)

module _ (files : Files) (raw : Tdb) (hj : Bool) (nodes : List Node)
    (ahead : AllAhead 0 (length nodes) nodes) where
  choose_scan_op-Ends : (node : Node) → Ends (choose_scan_op files raw hj nodes node)
  unfolding choose_scan_op
  choose_scan_op-Ends node = scan node.type
    where
      scan :
          (type : NodeType)
          → Ends (elim type [
            | filepath ↦ make_scan_op files node
            | ident_tbl ↦ make_scan_tdb_op raw files node
            | _ ↦ exit
          ])
      scan filepath = make_scan_op-Ends files node
      scan ident_tbl = make_scan_tdb_op-Ends raw files node
      scan _ = Ends-exit

  join_filters-Ends :
      (n p : ℕ) (result left : ResultSet)
      → length nodes ≤ n + p
      → Ends (make_join_filter_ops nodes result n p left)
  unfolding make_join_filter_ops
  join_filters-Ends n p result left enough =
      Ends->>= _ _ (make_where_ops-Ends nodes result n p ahead enough) λ filters e. Ends-ok _

  join_result-Ends : (left right : ResultSet) → Ends (join_result files raw hj nodes left right)
  unfolding join_result copy_result_description
  join_result-Ends left right = search ends_rules depth 20

  make_join_op-Ends :
      (n p : ℕ) (left right : Operator) (o : Option ℕ)
      → Ahead p (length nodes) o
      → length nodes ≤ n + p
      → Ends (make_join_op files raw hj nodes n left right o)
  unfolding make_join_op
  make_join_op-Ends n p left right none a enough =
      Ends->>= _ _ (join_result-Ends (result_description left) (result_description right))
        λ result e. Ends-fault null_pointer
  make_join_op-Ends n p left right (some q) a enough =
      Ends->>= _ _ (join_result-Ends (result_description left) (result_description right))
        λ result e.
          Ends->>= _ _ (join_filters-Ends n q result (result_description left) (omega (arith, a.0)))
            λ filters e'. Ends-ok _

  -- The node behind another one, if there is one.
  abbrev node_after : Option ℕ → Run (Option Node)
  node_after o = elim o [ none ↦ ok none | some p ↦ do n ← at nodes p; ok (some n) ]

  node_after-Ends : (o : Option ℕ) → Ends (node_after o)
  node_after-Ends none = Ends-ok none
  node_after-Ends (some p) = search ends_rules

  node_after-later :
      (p : ℕ) (o : Option ℕ) (next : Node)
      → Ahead p (length nodes) o
      → node_after o ≡ ok (some next)
      → (q : ℕ) × (p < q) × (at nodes q ≡ ok next)
  node_after-later p none next a e = cc
  node_after-later p (some q) next a e =
      let (n, run, same) = >>=-eq-ok (at nodes q) _ e in
      let same' : n ≡ next = cc in (q, a.0, run ∙ ap ok same')

  join_from-Ends :
      (n q : ℕ) (node next : Node)
      → at nodes q ≡ ok next
      → length nodes ≤ n + q
      → Ends (do
        right_node ← follow nodes next.next
        right ← choose_scan_op files raw hj nodes right_node
        left ← choose_scan_op files raw hj nodes node
        make_join_op files raw hj nodes n left right right_node.next)
  join_from-Ends n q node next at_q enough =
      Ends->>= _ _ (follow-Ends nodes next.next) λ right_node e.
        let (r, lt, at_r) =
          follow-later nodes ahead q next.next right_node (links_at nodes ahead q next at_q).0 e in
        Ends->>= _ _ (choose_scan_op-Ends right_node) λ right e'.
          Ends->>= _ _ (choose_scan_op-Ends node) λ left e''.
            make_join_op-Ends n r left right right_node.next
              (links_at nodes ahead r right_node at_r).0 (omega arith)

  pub build_from-Ends :
      (n p : ℕ) (node : Node)
      → at nodes p ≡ ok node
      → length nodes ≤ n + p
      → Ends (build_from files raw hj nodes n node)
  unfolding build_from
  build_from-Ends n p node at_p enough =
      Ends->>= (node_after node.next) _ (node_after-Ends node.next) λ behind e. from_behind behind e
    where
      from_behind :
          (behind : Option Node)
          → node_after node.next ≡ ok behind
          → Ends (elim behind [
            | none ↦ choose_scan_op files raw hj nodes node
            | some next ↦ elim (is_join next.type) [
              | false ↦ choose_scan_op files raw hj nodes node
              | true ↦ do
                right_node ← follow nodes next.next
                right ← choose_scan_op files raw hj nodes right_node
                left ← choose_scan_op files raw hj nodes node
                make_join_op files raw hj nodes n left right right_node.next
            ]
          ])
      from_behind none e = choose_scan_op-Ends node
      from_behind (some next) e =
          let (q, lt, at_q) =
            node_after-later p node.next next (links_at nodes ahead p node at_p).0 e in
          Ends-elim (is_join next.type) _ _ (join_from-Ends n q node next at_q (omega arith))
            (choose_scan_op-Ends node)
