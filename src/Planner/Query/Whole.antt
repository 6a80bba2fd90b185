-- ===== src/Planner/Query/Whole.antt =====
-- Planning comes to an end on any text of a query.
use squel.Common.{
  Bool, Bytes, Ends, Ends->>=, Ends-at, Ends-exit, Ends-fault, Ends-ok, List, Option, [], arith, at,
  codes, exit, length, none, null_pointer, ok, refl, some, suc, zero, ℕ, ◌+◌, ◌-◌, ◌>>=◌, ◌^◌, ◌∷◌,
  ◌≡◌, ◌≤◌,
}
use squel.Config.{}
use squel.Parser.Syntax.{NodeType, root, select, stmt_create, stmt_explain, stmt_insert}
use squel.Parser.Tree.{Node, create_node, create_parsetree}
use squel.Parser.State.{}
use squel.Parser.Statement.{}
use squel.Parser.Linked.{Ahead, AllAhead}
use squel.Parser.Linked.Grammar.{parse-IsTree}
use squel.Parser.Fuel.Whole.{parse-Ends}
use squel.Io.Files.{Files}
use squel.Io.Tdb.{Tdb}
use squel.Planner.Plan.{}
use squel.Planner.Result.{}
use squel.Planner.Operator.{Operator, explanation, follow, insert_into, result_description}
use squel.Planner.Filter.Chain.{}
use squel.Planner.Filter.Enough.{}
use squel.Planner.Join.{}
use squel.Planner.Scan.{}
use squel.Planner.Project.{}
use squel.Planner.Statement.{make_create_table}
use squel.Planner.Query.{
  build_select, is_select, plan_query, plan_query_ast, plan_select, plan_where, query_fuel,
}
use squel.Planner.Query.Tables.{Ends-elim}
use squel.Planner.Query.Enough.{
  at-lt, follow-Ends, follow-later, has_function-Ends, links_at, make_aggregate_op-Ends,
  make_create_table-Ends, make_project_op-Ends,
}
use squel.Planner.Query.From.{build_from-Ends, make_where_ops-Ends}

module _ (files : Files) (raw : Tdb) (hj : Bool) (nodes : List Node)
    (ahead : AllAhead 0 (length nodes) nodes) where
  plan_where-Ends :
      (n p : ℕ) (o : Option ℕ) (op_from : Operator)
      → Ahead p (length nodes) o
      → length nodes ≤ n + p
      → Ends (plan_where files raw hj nodes n o op_from)
  unfolding plan_where
  plan_where-Ends n p none op_from a enough = Ends-ok op_from
  plan_where-Ends n p (some q) op_from a enough =
      Ends->>= _ _
        (make_where_ops-Ends nodes (result_description op_from) n q ahead (omega (arith, a.0)))
        λ filters e. Ends-ok _

  build_select-Ends :
      (n p : ℕ) (o : Option ℕ) (child : Operator)
      → Ahead p (length nodes) o
      → length nodes ≤ n + p
      → Ends (build_select files raw hj nodes n o child)
  unfolding build_select
  build_select-Ends n p none child a enough = Ends-fault null_pointer
  build_select-Ends n p (some q) child a enough =
      let result = result_description child in
      Ends->>= _ _ (has_function-Ends nodes ahead files raw hj n q a.1 (omega (arith, a.0)))
        λ is_aggregate e.
          Ends-elim is_aggregate _ _
            (Ends->>= _ _ (make_aggregate_op-Ends nodes ahead result n q a.1 (omega (arith, a.0)))
              λ made e'. Ends-ok _)
            (Ends->>= _ _ (make_project_op-Ends nodes ahead result n q a.1 (omega (arith, a.0)))
              λ made e'. Ends-ok _)

  plan_select-Ends :
      (n p : ℕ) (node : Node)
      → at nodes p ≡ ok node
      → length nodes ≤ n + p
      → Ends (plan_select files raw hj nodes n node)
  unfolding plan_select
  plan_select-Ends zero p node at_p enough = absurd (omega (arith, at-lt nodes p node at_p))
  plan_select-Ends (suc n) p node at_p enough =
      Ends->>= _ _ (follow-Ends nodes node.next) λ from_node e.
        let (q, lt, at_q) =
          follow-later nodes ahead p node.next from_node (links_at nodes ahead p node at_p).0 e in
        Ends->>= _ _ (follow-Ends nodes from_node.child) λ source_node e'.
          let (r, lt', at_r) =
            follow-later nodes ahead q from_node.child source_node
              (links_at nodes ahead q from_node at_q).1 e' in
          Ends->>= _ _
            (Ends-elim (is_select source_node.type) _ _
              (plan_select-Ends n r source_node at_r (omega arith))
              (build_from-Ends files raw hj nodes ahead (suc n) r source_node at_r (omega arith)))
            λ op_from e''.
              Ends->>= _ _
                (plan_where-Ends (suc n) q from_node.next op_from
                  (links_at nodes ahead q from_node at_q).0 (omega arith))
                λ below e3.
                  build_select-Ends (suc n) p node.child below (links_at nodes ahead p node at_p).1
                    enough

  plan_query_ast-Ends :
      (n p : ℕ) (node : Node)
      → at nodes p ≡ ok node
      → length nodes ≤ n + p
      → Ends (plan_query_ast files raw hj nodes n node)
  unfolding plan_query_ast
  plan_query_ast-Ends zero p node at_p enough = absurd (omega (arith, at-lt nodes p node at_p))
  plan_query_ast-Ends (suc n) p node at_p enough = planned node.type (plan_query_ast-Ends n)
    where
      planned :
          (type : NodeType)
          → ((q : ℕ) (next : Node)
              → at nodes q ≡ ok next
              → length nodes ≤ n + q
              → Ends (plan_query_ast files raw hj nodes n next))
          → Ends (elim type [
            | stmt_create ↦ make_create_table nodes (suc n) node
            | select ↦ plan_select files raw hj nodes (suc n) node
            | stmt_insert ↦ do
              ident ← follow nodes node.next
              query ← follow nodes ident.next
              child ← plan_query_ast files raw hj nodes n query
              ok (insert_into ident.content child)
            | stmt_explain ↦ do
              query ← follow nodes node.next
              child ← plan_query_ast files raw hj nodes n query
              ok (explanation child)
            | _ ↦ exit
          ])
      planned stmt_create h = make_create_table-Ends nodes ahead (suc n) p node at_p enough
      planned select h = plan_select-Ends (suc n) p node at_p enough
      planned stmt_insert h = Ends->>= _ _ (follow-Ends nodes node.next) λ ident e.
          let (q, lt, at_q) =
            follow-later nodes ahead p node.next ident (links_at nodes ahead p node at_p).0 e in
          Ends->>= _ _ (follow-Ends nodes ident.next) λ query e'.
            let (r, lt', at_r) =
              follow-later nodes ahead q ident.next query (links_at nodes ahead q ident at_q).0
                e' in
            Ends->>= _ _ (h r query at_r (omega arith)) λ child e''. Ends-ok _
      planned stmt_explain h = Ends->>= _ _ (follow-Ends nodes node.next) λ query e.
          let (q, lt, at_q) =
            follow-later nodes ahead p node.next query (links_at nodes ahead p node at_p).0 e in
          Ends->>= _ _ (h q query at_q (omega arith)) λ child e'. Ends-ok _
      planned _ h = Ends-exit

abbrev root_node : Node
root_node = record {
  type = root;
  content = codes "root";
  next = none;
  child = none;
  alias = [];
  tblref = [];
  identifier = 2 ^ 64 - 1;
}

-- Whatever the text of a query, the files and what an earlier query left in the parser: its planning
-- comes to an end, in a plan, in an exit after a message, or in undefined behaviour.
pub plan_query-Ends :
    (files : Files) (raw : Tdb) (enable_hj : Bool) (sql : Bytes) (next_to_child : Bool)
    → Ends (plan_query files raw enable_hj sql next_to_child)
unfolding plan_query create_parsetree create_node
plan_query-Ends files raw hj sql flag =
    Ends->>= _ _ (parse-Ends query_fuel sql flag (root_node ∷ []) (omega arith)) λ (parsed, s) e.
      let (tree, _) = parse-IsTree query_fuel sql flag root_node (refl, refl) e in
      Ends->>= (at s.nodes 0) _ (Ends-at s.nodes 0) λ first e'.
        Ends->>= (follow s.nodes first.next) _ (follow-Ends s.nodes first.next) λ node e''.
          let (q, lt, at_q) =
            follow-later s.nodes tree.ahead 0 first.next node
              (links_at s.nodes tree.ahead 0 first e').0 e'' in
          plan_query_ast-Ends files raw hj s.nodes tree.ahead (length s.nodes) q node at_q
            (omega arith)
