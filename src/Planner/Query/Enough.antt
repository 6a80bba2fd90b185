-- ===== src/Planner/Query/Enough.antt =====
-- Planning comes to an end on any tree that the parser leaves: every step follows a link, and links
-- lead forward.
use squel.Common.{
  Bool, Bytes, Ends, Ends->>=, Ends-at, Ends-exit, Ends-fault, Ends-if, Ends-ok, Ends-require, List,
  Option, Run, [], arith, at, bytes_eq, ends_rules, false, length, none, null_pointer, ok, require,
  some, suc, true, zero, ℕ, ◌+◌, ◌<◌, ◌∷◌, ◌≡◌, ◌≤◌,
}
use squel.Config.{}
use squel.Parser.Syntax.{Datatype, dtype_str}
use squel.Parser.Tree.{Node}
use squel.Parser.Linked.{Ahead, AllAhead, LinksAhead}
use squel.Parser.Linked.Steps.{AllAhead-at}
use squel.Parser.Linked.Grammar.{}
use squel.Parser.Fuel.Whole.{}
use squel.Executor.Tuple.{column}
use squel.Io.Files.{Files}
use squel.Io.Tdb.{Tdb}
use squel.Planner.Plan.{}
use squel.Planner.Result.{ColumnMetadata, ResultSet, find_col_idx_in_res_desc}
use squel.Planner.Operator.{follow, map_parsed_datatype_to_enum_datatype}
use squel.Planner.Filter.Chain.{}
use squel.Planner.Filter.Enough.{find_loop-Ends}
use squel.Planner.Join.{}
use squel.Planner.Project.{
  activate, aggregate_column, find_function, is_ident_col, is_ident_fun, make_aggregate_op,
  make_project_op, map_function_name_to_aggregation, project_loop,
}
use squel.Planner.Statement.{char_length, create_column, create_columns, make_create_table}
use squel.Planner.Query.{has_function}
use squel.Planner.Query.Tables.{Ends-elim, copy_string-Ends}

pub at-lt : {A : Type 0} (xs : List A) (i : ℕ) (x : A) → at xs i ≡ ok x → i < length xs
unfolding at
at-lt [] i x e = cc
at-lt (y ∷ xs) zero x e = omega arith
at-lt (y ∷ xs) (suc i) x e = let rest = at-lt xs i x e in omega arith

pub follow-Ends : (nodes : List Node) (o : Option ℕ) → Ends (follow nodes o)
unfolding follow
follow-Ends nodes none = Ends-fault null_pointer
follow-Ends nodes (some p) = Ends-at nodes p

module _ (nodes : List Node) (ahead : AllAhead 0 (length nodes) nodes) where
  pub links_at : (p : ℕ) (node : Node) → at nodes p ≡ ok node → LinksAhead p (length nodes) node
  links_at p node e =
      let (found, run, leads, put) =
        AllAhead-at 0 (length nodes) p p nodes (omega arith) ahead (at-lt nodes p node e) in
      let same : found ≡ node = cc in rw same at leads

  -- A link that leads to a node leads to a later one.
  pub follow-later :
      (p : ℕ) (o : Option ℕ) (node : Node)
      → Ahead p (length nodes) o
      → follow nodes o ≡ ok node
      → (q : ℕ) × (p < q) × (at nodes q ≡ ok node)
  unfolding follow
  follow-later p none node a e = cc
  follow-later p (some q) node a e = (q, a.0, e)

  create_column-Ends : (node : Node) → Ends (create_column nodes node)
  unfolding create_column char_length map_parsed_datatype_to_enum_datatype
  create_column-Ends node =
      Ends->>= (follow nodes node.child) _ (follow-Ends nodes node.child) λ datatype_node e.
        Ends->>= (map_parsed_datatype_to_enum_datatype datatype_node.content) _
          (search ends_rules depth 12) λ type e'. search (ends_rules, sized datatype_node type)
    where
      sized :
          (d : Node) (type : Datatype)
          → Ends (elim type [ dtype_str ↦ char_length nodes d | _ ↦ ok 0 ])
      sized d dtype_str = search (ends_rules, follow-Ends) depth 12
      sized d _ = Ends-ok 0

  create_columns-Ends :
      (n i p : ℕ) (o : Option ℕ)
      → Ahead p (length nodes) o
      → length nodes ≤ n + suc p
      → Ends (create_columns nodes n i o)
  unfolding create_columns
  create_columns-Ends n i p none a enough = Ends-ok []
  create_columns-Ends zero i p (some q) a enough = absurd (omega (arith, a.0, a.1))
  create_columns-Ends (suc n) i p (some q) a enough =
      let behind : (node : Node)
          → at nodes q ≡ ok node
          → Ends (create_columns nodes n (i + 1) node.next) =
        λ node e.
          create_columns-Ends n (i + 1) q node.next (links_at q node e).0 (omega (arith, a.0)) in
      search (ends_rules, create_column-Ends, behind) depth 16

  pub make_create_table-Ends :
      (n p : ℕ) (node : Node)
      → at nodes p ≡ ok node
      → length nodes ≤ n + p
      → Ends (make_create_table nodes n node)
  unfolding make_create_table
  make_create_table-Ends n p node e enough =
      Ends->>= _ _ (follow-Ends nodes node.next) λ table_node e₁.
        let (q, lt, at_q) = follow-later p node.next table_node (links_at p node e).0 e₁ in
        Ends->>= _ _ (follow-Ends nodes table_node.next) λ ident e₂.
          let (r, lt', at_r) =
            follow-later q table_node.next ident (links_at q table_node at_q).0 e₂ in
          Ends->>= _ _ (follow-Ends nodes ident.next) λ list e₃.
            let (s, lt'', at_s) = follow-later r ident.next list (links_at r ident at_r).0 e₃ in
            Ends->>= _ _
              (create_columns-Ends n 0 s list.child (links_at s list at_s).1 (omega arith))
              λ columns e₄. Ends-ok _

  -- A loop along the links goes on at a later node.
  pub link-Ends :
      {A : Type 0} (n p : ℕ) (o : Option ℕ) (last : Run A) (loop : ℕ → Run A)
      → Ahead p (length nodes) o
      → length nodes ≤ suc n + p
      → Ends last
      → ((q : ℕ) → q < length nodes → length nodes ≤ n + q → Ends (loop q))
      → Ends (elim o [ none ↦ last | some q ↦ loop q ])
  link-Ends n p none last loop a enough h k = h
  link-Ends n p (some q) last loop a enough h k = k q a.1 (omega (arith, a.0))

  pub has_function-Ends :
      (files : Files) (raw : Tdb) (hj : Bool) (n p : ℕ)
      → p < length nodes
      → length nodes ≤ n + p
      → Ends (has_function files raw hj nodes n p)
  unfolding has_function
  has_function-Ends files raw hj zero p lt enough = absurd (omega arith)
  has_function-Ends files raw hj (suc n) p lt enough =
      Ends->>= (at nodes p) _ (Ends-at nodes p) λ node e.
        Ends-elim (is_ident_fun node.type) _ _ (Ends-ok true) (
          link-Ends n p node.next _ _ (links_at p node e).0 enough (Ends-ok false)
            (has_function-Ends files raw hj n))

  project_loop-Ends :
      (child : ResultSet) (n p : ℕ) (columns : List ColumnMetadata) (order : List ℕ)
      → p < length nodes
      → length nodes ≤ n + p
      → Ends (project_loop nodes child n p columns order)
  unfolding project_loop find_col_idx_in_res_desc activate
  project_loop-Ends child zero p columns order lt enough = absurd (omega arith)
  project_loop-Ends child (suc n) p columns order lt enough =
      Ends->>= (at nodes p) _ (Ends-at nodes p) λ node e.
        let behind : (columns' : List ColumnMetadata) (order' : List ℕ)
            → Ends (elim node.next [
              | none ↦ ok (columns', order')
              | some q ↦ project_loop nodes child n q columns' order'
            ]) =
          λ columns' order'.
            link-Ends n p node.next _ _ (links_at p node e).0 enough (Ends-ok _)
              (λ q. project_loop-Ends child n q columns' order') in
        search (ends_rules, find_loop-Ends, behind) depth 20

  pub make_project_op-Ends :
      (child : ResultSet) (n p : ℕ)
      → p < length nodes
      → length nodes ≤ n + p
      → Ends (make_project_op nodes child n p)
  unfolding make_project_op
  make_project_op-Ends child n p lt enough =
      let loop : (columns : List ColumnMetadata) → Ends (project_loop nodes child n p columns []) =
        λ columns. project_loop-Ends child n p columns [] lt enough in
      search (ends_rules, loop) depth 16

  find_function-Ends :
      (child : ResultSet) (n p : ℕ)
      → p < length nodes
      → length nodes ≤ n + p
      → Ends (find_function nodes child n p)
  unfolding find_function
  find_function-Ends child zero p lt enough = absurd (omega arith)
  find_function-Ends child (suc n) p lt enough = Ends->>= (at nodes p) _ (Ends-at nodes p) λ node e.
      Ends-if (is_ident_fun node.type) _ _ (Ends-ok node) (
        link-Ends n p node.next _ _ (links_at p node e).0 enough Ends-exit
          (find_function-Ends child n))

  aggregate_column-Ends :
      (j : ℕ) (name : Bytes) (columns : List ColumnMetadata)
      → Ends (aggregate_column j name columns)
  unfolding aggregate_column
  aggregate_column-Ends j name [] = Ends-exit
  aggregate_column-Ends j name (column ∷ columns) =
      Ends-if (bytes_eq name column.name) _ _ (Ends-ok j)
        (aggregate_column-Ends (j + 1) name columns)

  map_function_name-Ends : (name : Bytes) → Ends (map_function_name_to_aggregation name)
  unfolding map_function_name_to_aggregation
  map_function_name-Ends name = search ends_rules depth 16

  pub make_aggregate_op-Ends :
      (child : ResultSet) (n p : ℕ)
      → p < length nodes
      → length nodes ≤ n + p
      → Ends (make_aggregate_op nodes child n p)
  unfolding make_aggregate_op
  make_aggregate_op-Ends child n p lt enough =
      Ends->>= _ _ (find_function-Ends child n p lt enough) λ node e.
        Ends->>= _ _ (map_function_name-Ends node.content) λ aggtype e₁.
          Ends->>= _ _ (follow-Ends nodes node.child) λ argument e₂.
            Ends->>= _ _ (copy_string-Ends argument.content) λ name e₃.
              Ends->>= (require (is_ident_col argument.type)) _ (Ends-require _) λ u e₄.
                Ends->>= _ _ (aggregate_column-Ends 0 name child.columns) λ col e₅. Ends-ok _
