-- ===== src/Parser/Linked/Nodes.antt =====
-- `addNode` and the other writes to the nodes keep the tree, and what is known of its nodes.
use squel.Parser.State.{ParseState, on_node, on_tree, ◌>>=◌, ◌>>◌}
use squel.Config.{}
use squel.Parser.Syntax.{NodeType}
use squel.Parser.Tree.{Node, add_child, add_next}
use squel.Parser.Lexer.{add_node, count_node, next_to_child, set_next_to_child}
use squel.Parser.Linked.{
  AtMode, Builds, IsTree, LinksAhead, Mode, Saved, Stands, Stands-ready, child_of, fresh, hits,
  links_of, next_of, noted, ready, settled,
}
use squel.Parser.Linked.Links.{
  child_of-set_same, links_to-set, next_of-append, next_of-set_other, next_of-set_same, pointers-at,
  pointers_last,
}
use squel.Parser.Linked.Steps.{AllAhead-at, AllAhead-grow, create_node-unlinked, linked-IsTree}
use squel.Common.{
  Bool, Bool-cases, Bytes, List, [], arith, at, false, inl, inr, length, length-append, length-set,
  none, ok, refl, set, some, sym, true, ℕ, ◌++◌, ◌+◌, ◌<◌, ◌∙◌, ◌∷◌, ◌≡◌, ◌≤◌,
}

-- The places to come back to are still that, where their `next` is not touched.
Saved-kept :
    (σ : List ℕ) (nodes nodes' : List Node) (c c' : ℕ) (flag flag' : Bool)
    → length nodes ≤ length nodes'
    → ((x : ℕ)
        → x < length nodes
        → (x ≡ c → flag ≡ true)
        → (next_of nodes' x ≡ next_of nodes x) × (x ≡ c' → flag' ≡ true))
    → Saved σ nodes c flag
    → Saved σ nodes' c' flag'
Saved-kept [] nodes nodes' c c' flag flag' le keeps h = tt
Saved-kept (x ∷ σ) nodes nodes' c c' flag flag' le keeps (lt, free, apart, others, h) =
    let (same, apart') = keeps x lt apart in
    (
      omega (arith, lt, le),
      same ∙ free,
      apart',
      others,
      Saved-kept σ nodes nodes' c c' flag flag' le keeps h,
    )

-- The state that `addNode` leaves, over the one that it found.
abbrev grown : ParseState → Node → Node → ParseState
grown s node' new = record s {
  nodes = set s.nodes s.current_node node' ++ new ∷ [];
  current_node = length s.nodes;
  node_count = s.node_count + 1;
  next_to_child = false;
}

grown-Stands :
    {σ : List ℕ} (s : ParseState) (node node' new : Node)
    → Stands σ ready s
    → at s.nodes s.current_node ≡ ok node
    → LinksAhead s.current_node (length s.nodes + 1) node'
    → ((j : ℕ) → links_of j node' ≡ links_of j node + hits j (some (length s.nodes)))
    → ((x : ℕ)
        → (x ≡ s.current_node → s.next_to_child ≡ true)
        → next_of (set s.nodes s.current_node node') x ≡ next_of s.nodes x)
    → new.next ≡ none
    → new.child ≡ none
    → Stands σ fresh (grown s node' new)
grown-Stands {σ = σ} s node node' new t found links one keeps e e' =
    let set_nodes = set s.nodes s.current_node node' in
    let same_length = length-set s.nodes s.current_node node' in
    let (no_next, no_child) = pointers_last set_nodes new in
    record {
      tree =
          linked-IsTree s (grown s node' new) node node' new t.tree found links one e e' refl refl
            refl;
      saved =
          Saved-kept σ s.nodes (set_nodes ++ new ∷ []) s.current_node (length s.nodes)
            s.next_to_child false (omega (arith, same_length, length-append set_nodes (new ∷ [])))
            (λ x lt apart. (
              next_of-append set_nodes x new (omega (arith, same_length, lt)) ∙ keeps x apart,
              λ last. absurd (omega (arith, last, lt)),
            ))
            t.saved;
      at_mode = (refl, rw (← same_length) (no_next ∙ e), rw (← same_length) (no_child ∙ e'));
    }

-- The node that is current, with what is known of its links.
current-node :
    (s : ParseState)
    → IsTree s
    → (node : Node) × (at s.nodes s.current_node ≡ ok node)
      × LinksAhead s.current_node (length s.nodes + 1) node
current-node s t =
    let n = length s.nodes in
    let wider = AllAhead-grow 0 n (n + 1) s.nodes (omega arith) t.ahead in
    let (node, found, links, _) =
      AllAhead-at 0 (n + 1) s.current_node s.current_node s.nodes (omega arith) wider t.current in
    (node, found, links)

pub add_node-Builds :
    {σ : List ℕ} {p : Mode} (type : NodeType) (content : Bytes)
    → Builds σ p σ fresh (add_node type content)
unfolding add_node add_next add_child ◌>>=◌ ◌>>◌ count_node next_to_child set_next_to_child on_tree
add_node-Builds type content = record {
  at_state = λ s t₀.
      let t = Stands-ready s t₀ in
      let (node, found, links) = current-node s t.tree in
      let (next, child) = pointers-at s.nodes s.current_node node found in
      elim (create_node-unlinked type content) [
        | inl e ↦ elim (Bool-cases s.next_to_child) [ inl c ↦ rw (c, e) tt | inr c ↦ rw (c, e) tt ]
        | inr (new, e, e₁, e₂) ↦ elim t.at_mode [
          | inl (c, free) ↦
              let node' : Node = record node { child = some (length s.nodes) } in
              let free' : node.child ≡ none = sym child ∙ free in
              rw (c, e, found)
                (grown-Stands s node node' new t found (links.0, (t.tree.current, omega arith))
                  (λ j. rw free' (omega arith))
                  (λ x apart. next_of-set_same s.nodes s.current_node x node node' found refl) e₁
                  e₂)
          | inr (c, free) ↦
              let node' : Node = record node { next = some (length s.nodes) } in
              let free' : node.next ≡ none = sym next ∙ free in
              rw (c, e, found)
                (grown-Stands s node node' new t found ((t.tree.current, omega arith), links.1)
                  (λ j. rw free' (omega arith))
                  (λ x apart.
                    next_of-set_other s.nodes s.current_node x node' (λ here. cc (apart here, c)))
                  e₁ e₂)
        ]
      ];
}

AtMode-kept :
    (p : Mode) (nodes nodes' : List Node) (c : ℕ) (flag : Bool)
    → next_of nodes' c ≡ next_of nodes c
    → child_of nodes' c ≡ child_of nodes c
    → AtMode p nodes c flag
    → AtMode p nodes' c flag
AtMode-kept ready nodes nodes' c flag e e' (inl h) = inl (h.0, e' ∙ h.1)
AtMode-kept ready nodes nodes' c flag e e' (inr h) = inr (h.0, e ∙ h.1)
AtMode-kept fresh nodes nodes' c flag e e' h = (h.0, e ∙ h.1, e' ∙ h.2)
AtMode-kept settled nodes nodes' c flag e e' h = (h.0, e ∙ h.1)
AtMode-kept (noted x) nodes nodes' c flag e e' h = (h.0, e ∙ h.1, e' ∙ h.2, h.3)

-- A write to the current node that leaves its pointers.
pub Builds-on_node :
    {σ : List ℕ} {p : Mode} (f : Node → Node)
    → ((node : Node) → (f node).next ≡ node.next)
    → ((node : Node) → (f node).child ≡ node.child)
    → Builds σ p σ p (on_node f)
unfolding on_node
Builds-on_node {σ = σ} {p = p} f e e' = record {
  at_state = λ s t.
      let (node, found, links, put) =
        AllAhead-at 0 (length s.nodes) s.current_node s.current_node s.nodes (omega arith)
          t.tree.ahead t.tree.current in
      let same = length-set s.nodes s.current_node (f node) in
      let links' : LinksAhead s.current_node (length s.nodes) (f node) =
        rw (e node, e' node) links in
      let nexts : (x : ℕ) → next_of (set s.nodes s.current_node (f node)) x ≡ next_of s.nodes x =
        λ x. next_of-set_same s.nodes s.current_node x node (f node) found (e node) in
      let children : (x : ℕ)
          → child_of (set s.nodes s.current_node (f node)) x ≡ child_of s.nodes x =
        λ x. child_of-set_same s.nodes s.current_node x node (f node) found (e' node) in
      let sums : (j : ℕ) → links_of j (f node) ≡ links_of j node = λ j. rw (e node, e' node) refl in
      rw found (record {
        tree = record {
          counted = same ∙ t.tree.counted;
          current = rw same t.tree.current;
          ahead = rw same (put (f node) links');
          linked_once = λ j pos lt.
              let before = t.tree.linked_once j pos (rw same at lt) in
              omega
                (arith, links_to-set j s.nodes s.current_node node (f node) found, sums j, before);
        };
        saved =
            Saved-kept σ s.nodes (set s.nodes s.current_node (f node)) s.current_node s.current_node
              s.next_to_child s.next_to_child (omega (arith, same)) (λ x lt apart. (nexts x, apart))
              t.saved;
        at_mode =
            AtMode-kept p s.nodes (set s.nodes s.current_node (f node)) s.current_node
              s.next_to_child (nexts s.current_node) (children s.current_node) t.at_mode;
      });
}
