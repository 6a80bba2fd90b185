-- ===== src/Planner/Filter/Enough.antt =====
-- The planner of filters comes to an end on any tree that the parser leaves.
use mathlib.Core.Path.{fun_ext}
use squel.Common.{
  Bool-cases, Bytes, Ends, Ends->>=, Ends-at, Ends-exit, Ends-if, Ends-ok, List, Option, Run, [],
  ap, arith, at, ends_rules, inl, inr, length, none, ok, refl, require, some, suc, zero, ℕ, ◌+◌,
  ◌<◌, ◌>>=◌, ◌>>◌, ◌∙◌, ◌∷◌, ◌≡◌, ◌≤◌,
}
use squel.Common.Int.{negsuc, pos, ℤ}
use squel.Parser.Syntax.{NodeType, and, number, stmt_insert, string}
use squel.Parser.Tree.{Node}
use squel.Parser.Linked.{Ahead, AllAhead}
use squel.Parser.Linked.Steps.{AllAhead-at}
use squel.Planner.Plan.{FilterInfo, Filters, comparison, none_left}
use squel.Planner.Result.{ColumnMetadata, ResultSet, find_col_idx_in_res_desc, find_loop, is_column}
use squel.Planner.Filter.{
  Constants, add_constant, bool_expr_add_constants, compared_at, make_filter_op, map_bool_expr,
  map_bool_op_to_int, node_behind, number_constant, value_datatype, value_loc,
}
use squel.Planner.Filter.Chain.{
  after_links, after_paren, behind_paren, filter_chain, is_and_or, is_cparen, is_oparen, joint,
  make_filter_ops, parenthesis,
}

map_bool_op_to_int-Ends : (text : Bytes) → Ends (map_bool_op_to_int text)
unfolding map_bool_op_to_int
map_bool_op_to_int-Ends text = search ends_rules depth 16

pub find_loop-Ends :
    (i : ℕ) (name tblref : Bytes) (columns : List ColumnMetadata)
    → Ends (find_loop i name tblref columns)
unfolding find_loop
find_loop-Ends i name tblref [] = Ends-exit
find_loop-Ends i name tblref (column ∷ columns) =
    Ends-if (is_column name tblref column) _ _ (Ends-ok (pos i))
      (find_loop-Ends (i + 1) name tblref columns)

node_behind-Ends : (nodes : List Node) (o : Option ℕ) → Ends (node_behind nodes o)
node_behind-Ends nodes none = Ends-exit
node_behind-Ends nodes (some p) = search ends_rules

value_loc-Ends : (result : ResultSet) (value : Node) → Ends (value_loc result value)
unfolding value_loc find_col_idx_in_res_desc
value_loc-Ends result value = search (ends_rules, find_loop-Ends)

value_datatype-Ends :
    (result : ResultSet) (value : Node) (loc : ℤ) → Ends (value_datatype result value loc)
unfolding value_datatype
value_datatype-Ends result value (pos idx) = search ends_rules
value_datatype-Ends result value (negsuc idx) = search ends_rules

add_constant-Ends :
    (i : ℕ) (node : Node) (constants : Constants) → Ends (add_constant i node constants)
unfolding add_constant number_constant
add_constant-Ends i node constants = kept node.type
  where
    kept : (type : NodeType) → Ends (add_constant i (record node { type = type }) constants)
    kept string = Ends-ok _
    kept number = search ends_rules
    kept _ = Ends-ok _

make_filter_op-Ends :
    (nodes : List Node) (result : ResultSet) (p : ℕ) → Ends (make_filter_op nodes result p)
unfolding make_filter_op compared_at map_bool_expr bool_expr_add_constants
make_filter_op-Ends nodes result p =
    search
      (
        ends_rules, node_behind-Ends, value_loc-Ends, map_bool_op_to_int-Ends, value_datatype-Ends,
        add_constant-Ends,
      )
      depth 20

module _ (nodes : List Node) (result : ResultSet) (ahead : AllAhead 0 (length nodes) nodes) where
  -- A link that is followed, if there is one.
  abbrev followed : ℕ → Option ℕ → Run (Option ℕ)
  followed links none = ok none
  followed links (some q) = after_links nodes result links q

  after_links-followed :
      (links p : ℕ)
      → after_links nodes result (suc links) p ≡ (at nodes p >>= λ node. followed links node.next)
  unfolding after_links
  after_links-followed links p = ap (λ k. at nodes p >>= k) (fun_ext λ node. same node.next)
    where
      same :
          (o : Option ℕ)
          → elim o [ none ↦ ok none | some q ↦ after_links nodes result links q ] ≡ followed links o
      same none = refl
      same (some q) = refl

  followed-Ends :
      (links : ℕ) (o : Option ℕ)
      → ((q : ℕ) → Ends (after_links nodes result links q))
      → Ends (followed links o)
  followed-Ends links none h = Ends-ok none
  followed-Ends links (some q) h = h q

  after_links-Ends : (links p : ℕ) → Ends (after_links nodes result links p)
  after_links-Ends zero p = unfold after_links in Ends-ok _
  after_links-Ends (suc links) p = rw (after_links-followed links p) (
      Ends->>= (at nodes p) _ (Ends-at nodes p)
        λ node e. followed-Ends links node.next (after_links-Ends links))

  -- Links lead forward.
  after_links-lt :
      (links p q : ℕ)
      → p < length nodes
      → after_links nodes result links p ≡ ok (some q)
      → (links + p ≤ q) × (q < length nodes)
  after_links-lt zero p q lt e =
      let same : ok (some p) ≡ ok (some q) = unfold after_links in e in
      let same' : p ≡ q = cc in (omega arith, omega arith)
  after_links-lt (suc links) p q lt e =
      let (node, run, leads, put) = AllAhead-at 0 (length nodes) p p nodes (omega arith) ahead lt in
      step node.next leads.0 (rw (after_links-followed links p, run) at e) (after_links-lt links)
    where
      step :
          (o : Option ℕ)
          → Ahead p (length nodes) o
          → followed links o ≡ ok (some q)
          → ((r q : ℕ)
              → r < length nodes
              → after_links nodes result links r ≡ ok (some q)
              → (links + r ≤ q) × (q < length nodes))
          → (suc links + p ≤ q) × (q < length nodes)
      step none a e h = cc
      step (some r) a e h = let (le, lt) = h r q a.1 e in (omega arith, lt)

  -- One round for each node at most, as every link leads on.
  filter_chain-Ends :
      (n p : ℕ) (info : FilterInfo) (op : NodeType)
      → p < length nodes
      → length nodes ≤ n + p
      → Ends (filter_chain nodes result n p info op)
  unfolding filter_chain
  filter_chain-Ends zero p info op lt enough = absurd (omega arith)
  filter_chain-Ends (suc n) p info op lt enough =
      Ends->>= (after_links nodes result 3 p) _ (after_links-Ends 3 p) λ third e.
        Ends->>= (after_links nodes result 4 p) _ (after_links-Ends 4 p)
          λ fourth e'. round third fourth e' (filter_chain-Ends n)
    where
      round :
          (third fourth : Option ℕ)
          → after_links nodes result 4 p ≡ ok fourth
          → ((q : ℕ) (info : FilterInfo) (op : NodeType)
              → q < length nodes
              → length nodes ≤ n + q
              → Ends (filter_chain nodes result n q info op))
          → Ends (elim third [
            | none ↦ ok (comparison info op none_left)
            | some o ↦ elim fourth [
              | none ↦ ok (comparison info op none_left)
              | some q ↦ do
                joint ← at nodes o
                require (is_and_or joint.type)
                info' ← make_filter_op nodes result q
                rest ← filter_chain nodes result n q info' stmt_insert
                ok (comparison info joint.type rest)
            ]
          ])
      round none fourth e h = Ends-ok _
      round (some o) none e h = Ends-ok _
      round (some o) (some q) e h =
          let (le, lt') = after_links-lt 4 p q lt e in
          let later : (info : FilterInfo) (op : NodeType)
              → Ends (filter_chain nodes result n q info op) =
            λ info op. h q info op lt' (omega arith) in
          search (ends_rules, make_filter_op-Ends, later) depth 12

  after_paren-Ends : (next : Option ℕ) → Ends (after_paren nodes result next)
  unfolding after_paren
  after_paren-Ends none = Ends-ok none
  after_paren-Ends (some q) = search ends_rules

  joint-lt :
      (q r : ℕ) (op op' : NodeType) (o : Option ℕ)
      → Ahead q (length nodes) o
      → joint nodes result op o ≡ some (op', r)
      → (q < r) × (r < length nodes)
  joint-lt q r op op' none a e = cc
  joint-lt q r op op' (some r') a e = let same : r' ≡ r = cc in rw same at a

  after_paren-lt :
      (p r : ℕ) (op : NodeType) (next : Option ℕ)
      → Ahead p (length nodes) next
      → after_paren nodes result next ≡ ok (some (op, r))
      → (p < r) × (r < length nodes)
  unfolding after_paren
  after_paren-lt p r op none a e = cc
  after_paren-lt p r op (some q) a e =
      let (node, run, leads, put) =
        AllAhead-at 0 (length nodes) q q nodes (omega arith) ahead a.1 in
      elim (Bool-cases (is_cparen node.type)) [
        | inl c ↦ cc (rw (run, ◌>>=◌, c) at e)
        | inr c ↦
            let found : ok (joint nodes result node.type node.next) ≡ ok (some (op, r)) =
              rw (run, ◌>>=◌, c) at e in
            let (lt, lt') = joint-lt q r node.type op node.next leads.0 cc in
            (omega (arith, a.0), lt')
      ]

  behind_paren-Ends :
      (ops : ℕ → Run Filters) (child : Filters) (joined : Option (NodeType × ℕ))
      → ((op : NodeType) (r : ℕ) → joined ≡ some (op, r) → Ends (ops r))
      → Ends (behind_paren nodes result ops child joined)
  unfolding behind_paren
  behind_paren-Ends ops child none h = Ends-ok _
  behind_paren-Ends ops child (some (op, r)) h =
      Ends->>= (ops r) _ (h op r refl) λ rest e. Ends-ok _

  parenthesis-Ends :
      (n p : ℕ) (child next : Option ℕ)
      → Ahead p (length nodes) child
      → Ahead p (length nodes) next
      → length nodes ≤ suc n + p
      → ((q : ℕ)
          → q < length nodes
          → length nodes ≤ n + q
          → Ends (make_filter_ops nodes result n q))
      → Ends (parenthesis nodes result (make_filter_ops nodes result n) child next)
  unfolding parenthesis
  parenthesis-Ends n p none next a b enough h = Ends-exit
  parenthesis-Ends n p (some c) next a b enough h =
      Ends->>= (make_filter_ops nodes result n c) _ (h c a.1 (omega (arith, a.0))) λ child e.
        Ends->>= (after_paren nodes result next) _ (after_paren-Ends next) λ joined e'.
          behind_paren-Ends (make_filter_ops nodes result n) child joined (λ op r same.
            let (lt, lt') = after_paren-lt p r op next b (e' ∙ ap ok same) in h r lt' (omega arith))

  -- On nodes whose links lead forward, fuel for the nodes from the first one on is enough: the
  -- planner ends in operators, in an exit or in a fault.
  pub make_filter_ops-Ends :
      (n p : ℕ) → p < length nodes → length nodes ≤ n + p → Ends (make_filter_ops nodes result n p)
  unfolding make_filter_ops
  make_filter_ops-Ends zero p lt enough = absurd (omega arith)
  make_filter_ops-Ends (suc n) p lt enough =
      let (node, run, leads, put) = AllAhead-at 0 (length nodes) p p nodes (omega arith) ahead lt in
      rw (run, ◌>>=◌)
        (Ends-if (is_oparen node.type) _ _
          (parenthesis-Ends n p node.child node.next leads.1 leads.0 enough
            (make_filter_ops-Ends n))
          (Ends->>= (make_filter_op nodes result p) _ (make_filter_op-Ends nodes result p)
            λ info e. filter_chain-Ends (suc n) p info and lt enough))
