-- ===== src/Parser/Linked/Steps.antt =====
-- A new node behind the others, which the current one links to, keeps the tree.
use native.Mathlib.Nat.{zero-add}
use squel.Parser.State.{ParseState}
use squel.Config.{char_max_size}
use squel.Parser.Syntax.{NodeType}
use squel.Parser.Tree.{Node, create_node}
use squel.Parser.Lexer.{}
use squel.Parser.Linked.{Ahead, AllAhead, IsTree, LinksAhead, hits, links_of, links_to}
use squel.Parser.Linked.Links.{hits_before, hits_self, links_beyond, links_to-append, links_to-set}
use squel.Common.{
  Bool-cases, Bytes, List, Option, [], ap, arith, at, false, fault, inl, inr, length, length-append,
  length-set, ltb, ltb→lt, none, ok, out_of_bounds, refl, set, some, suc, zero, ℕ, ◌++◌, ◌+◌, ◌-◌,
  ◌<◌, ◌^◌, ◌∙◌, ◌∷◌, ◌≡◌, ◌≤◌, ◌⊎◌,
}

pub Ahead-grow : (i n m : ℕ) (o : Option ℕ) → n ≤ m → Ahead i n o → Ahead i m o
Ahead-grow i n m none le h = tt
Ahead-grow i n m (some j) le h = (h.0, omega (arith, h.1))

pub AllAhead-grow :
    (i n m : ℕ) (nodes : List Node) → n ≤ m → AllAhead i n nodes → AllAhead i m nodes
AllAhead-grow i n m [] le h = tt
AllAhead-grow i n m (node ∷ nodes) le h = (
  (Ahead-grow i n m node.next le h.0.0, Ahead-grow i n m node.child le h.0.1),
  AllAhead-grow (suc i) n m nodes le h.1,
)

AllAhead-append :
    (i n : ℕ) (nodes : List Node) (new : Node)
    → AllAhead i n nodes
    → new.next ≡ none
    → new.child ≡ none
    → AllAhead i n (nodes ++ new ∷ [])
AllAhead-append i n [] new h e e' = ((rw e tt, rw e' tt), tt)
AllAhead-append i n (node ∷ nodes) new h e e' = (h.0, AllAhead-append (suc i) n nodes new h.1 e e')

-- The node at a place, which is `q` in the whole list, and a write there.
pub AllAhead-at :
    (i n p q : ℕ) (nodes : List Node)
    → q ≡ i + p
    → AllAhead i n nodes
    → p < length nodes
    → (node : Node) × (at nodes p ≡ ok node)
      × LinksAhead q n node
      × ((new : Node) → LinksAhead q n new → AllAhead i n (set nodes p new))
unfolding at
AllAhead-at i n p q [] e h lt = absurd (omega arith)
AllAhead-at i n zero q (node ∷ nodes) e h lt =
    let here : i ≡ q = omega arith in
    (node, refl, rw here at (h.0), λ new links. (rw (← here) at links, h.1))
AllAhead-at i n (suc p) q (node ∷ nodes) e h lt =
    let (found, run, links, write) =
      AllAhead-at (suc i) n p q nodes (omega arith) h.1 (omega arith) in
    (found, run, links, λ new links'. (h.0, write new links'))

pub create_node-unlinked :
    (type : NodeType) (content : Bytes)
    → (create_node type content ≡ fault out_of_bounds)
      ⊎ ((new : Node) × (create_node type content ≡ ok new)
          × (new.next ≡ none)
          × (new.child ≡ none))
unfolding create_node
create_node-unlinked type content =
    let new : Node = record {
      type = type;
      content = content;
      next = none;
      child = none;
      alias = [];
      tblref = [];
      identifier = 2 ^ 64 - 1;
    } in
    elim (Bool-cases (ltb (length content) char_max_size)) [
      | inl e ↦ inr (new, rw e, refl, refl)
      | inr e ↦ inl (rw e)
    ]

last_place : (j n : ℕ) → ltb j n ≡ false → j < n + 1 → j ≡ n
last_place j n h lt = ground arith

-- What a write to the current node and a new node behind the others make of a tree, where the new
-- node is linked to by a pointer that was NULL.
pub linked-IsTree :
    (s s' : ParseState) (node node' new : Node)
    → IsTree s
    → at s.nodes s.current_node ≡ ok node
    → LinksAhead s.current_node (length s.nodes + 1) node'
    → ((j : ℕ) → links_of j node' ≡ links_of j node + hits j (some (length s.nodes)))
    → new.next ≡ none
    → new.child ≡ none
    → s'.nodes ≡ set s.nodes s.current_node node' ++ new ∷ []
    → s'.current_node ≡ length s.nodes
    → s'.node_count ≡ s.node_count + 1
    → IsTree s'
linked-IsTree s s' node node' new t found links one e e' nodes cur count =
    let n = length s.nodes in
    let longer : length (set s.nodes s.current_node node' ++ new ∷ []) ≡ n + 1 =
      length-append (set s.nodes s.current_node node') (new ∷ [])
      ∙ ap (λ m. m + 1) (length-set s.nodes s.current_node node') in
    let grown = AllAhead-grow 0 n (n + 1) s.nodes (omega arith) t.ahead in
    let (_, _, _, put) =
      AllAhead-at 0 (n + 1) s.current_node s.current_node s.nodes (omega arith) grown t.current in
    record {
      counted = rw (nodes, count, longer) (omega (arith, t.counted));
      current = rw (nodes, cur, longer) (omega arith);
      ahead =
          rw (nodes, longer)
            (AllAhead-append 0 (n + 1) (set s.nodes s.current_node node') new (put node' links) e
              e');
      linked_once = λ j pos lt. rw nodes (once j pos (rw (nodes, longer) at lt));
    }
  where
    unlinked : (j : ℕ) → links_of j new ≡ 0
    unlinked j = rw (e, e') refl

    total :
        (j : ℕ)
        → links_to j (set s.nodes s.current_node node' ++ new ∷ [])
          ≡ links_to j s.nodes + hits j (some (length s.nodes))
    total j =
        let written = links_to-set j s.nodes s.current_node node node' found in
        let added = links_to-append j (set s.nodes s.current_node node') new in
        omega (arith, written, added, one j, unlinked j)

    once :
        (j : ℕ)
        → 0 < j
        → j < length s.nodes + 1
        → links_to j (set s.nodes s.current_node node' ++ new ∷ []) ≡ 1
    once j pos lt = elim (Bool-cases (ltb j (length s.nodes))) [
      | inl before ↦
          let before' = ltb→lt j (length s.nodes) before in
          rw (total j, t.linked_once j pos before', hits_before j (length s.nodes) before') refl
      | inr last ↦
          let here = last_place j (length s.nodes) last lt in
          rw (total j, here, links_beyond 0 (length s.nodes) s.nodes t.ahead, zero-add)
            (hits_self (length s.nodes))
    ]
