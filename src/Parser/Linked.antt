-- ===== src/Parser/Linked.antt =====
-- What src/parser/parser.c builds is a tree: links lead to nodes made later, and one link to each.
pub mod Links
pub mod Steps
pub mod Nodes
pub mod Current
pub mod Rules
pub mod Lexer
pub mod Grammar
use squel.Parser.State.{
  ParseState, Parser, after, ensure, look, on_text, reading, reject, return, spent, ◌>>=◌, ◌>>◌,
}
use squel.Parser.Text.{Reader}
use squel.Parser.Tree.{Node}
use squel.Parser.Expression.{}
use squel.Common.{
  Bool, List, Option, Run, [], exit, false, fault, if◌then◌else◌, inr, length, none, ok,
  out_of_fuel, some, suc, true, zero, ℕ, ◌+◌, ◌<◌, ◌==◌, ◌∷◌, ◌≡◌, ◌⊎◌,
}

-- A pointer of the node at `i` is NULL, or leads to a later node among `n`.
abbrev pub Ahead : ℕ → ℕ → Option ℕ → Type 0
Ahead i n none = Unit
Ahead i n (some j) = (i < j) × (j < n)

abbrev pub LinksAhead : ℕ → ℕ → Node → Type 0
LinksAhead i n node = Ahead i n node.next × Ahead i n node.child

-- Every node from place `i` on links to later ones, where there are `n` in all.
abbrev pub AllAhead : ℕ → ℕ → List Node → Type 0
AllAhead i n [] = Unit
AllAhead i n (node ∷ nodes) = LinksAhead i n node × AllAhead (suc i) n nodes

abbrev pub hits : ℕ → Option ℕ → ℕ
hits j none = 0
hits j (some k) = if j == k then 1 else 0

-- How many of the pointers of a node, or of some nodes, lead to the node at `j`.
abbrev pub links_of : ℕ → Node → ℕ
links_of j node = hits j node.next + hits j node.child

unfoldable pub links_to : ℕ → List Node → ℕ
links_to j [] = 0
links_to j (node ∷ nodes) = links_of j node + links_to j nodes

-- The nodes are those that were counted and the root; the current one is among them. Every node but
-- the root is linked to by one pointer, from a node that was made before it.
pub record IsTree (s : ParseState) : Type 0 where
  pub counted : length s.nodes ≡ s.node_count + 1
  pub current : s.current_node < length s.nodes
  pub ahead : AllAhead 0 (length s.nodes) s.nodes
  pub linked_once : (j : ℕ) → 0 < j → j < length s.nodes → links_to j s.nodes ≡ 1

-- The pointers of the node at a place, NULL where there is none.
unfoldable pub next_of : List Node → ℕ → Option ℕ
next_of [] i = none
next_of (node ∷ nodes) zero = node.next
next_of (node ∷ nodes) (suc i) = next_of nodes i

unfoldable pub child_of : List Node → ℕ → Option ℕ
child_of [] i = none
child_of (node ∷ nodes) zero = node.child
child_of (node ∷ nodes) (suc i) = child_of nodes i

-- What is known of the current node between two steps. `ready`: the pointer that `addNode` would write
-- is NULL. `fresh`: `nextToChild` is not set, and both pointers are NULL. `settled`: it is not set, and
-- `next` is NULL. `noted`: as `fresh`, at a place that the parser has noted.
pub data Mode : Type 0 where
  ready fresh settled : Mode
  noted : ℕ → Mode

abbrev pub AtMode : Mode → List Node → ℕ → Bool → Type 0
AtMode ready nodes c flag =
    ((flag ≡ true) × (child_of nodes c ≡ none)) ⊎ ((flag ≡ false) × (next_of nodes c ≡ none))
AtMode fresh nodes c flag = (flag ≡ false) × (next_of nodes c ≡ none) × (child_of nodes c ≡ none)
AtMode settled nodes c flag = (flag ≡ false) × (next_of nodes c ≡ none)
AtMode (noted x) nodes c flag =
    (flag ≡ false) × (next_of nodes c ≡ none) × (child_of nodes c ≡ none) × (c ≡ x)

abbrev pub Other : ℕ → List ℕ → Type 0
Other x [] = Unit
Other x (y ∷ σ) = (x ≡ y → ⊥) × Other x σ

-- The places that the parser will come back to: `next` of each is NULL, and stays so for now.
abbrev pub Saved : List ℕ → List Node → ℕ → Bool → Type 0
Saved [] nodes c flag = Unit
Saved (x ∷ σ) nodes c flag =
    (x < length nodes)
    × (next_of nodes x ≡ none)
    × (x ≡ c → flag ≡ true)
    × Other x σ
    × Saved σ nodes c flag

pub record Stands (σ : List ℕ) (p : Mode) (s : ParseState) : Type 0 where
  pub tree : IsTree s
  pub saved : Saved σ s.nodes s.current_node s.next_to_child
  pub at_mode : AtMode p s.nodes s.current_node s.next_to_child

abbrev pub Leaves : {A : Type 0} → List ℕ → Mode → Run (A × ParseState) → Type 0
Leaves τ q (ok (a, s)) = Stands τ q s
Leaves τ q _ = Unit

-- From a tree in one mode, the step leaves a tree in another one, if it returns.
pub record Builds {A : Type 0} (σ : List ℕ) (p : Mode) (τ : List ℕ) (q : Mode) (m : Parser A)
    : Type 0 where
  pub at_state : (s : ParseState) → Stands σ p s → Leaves τ q (m s)

-- Every mode is as good as `ready`, for what comes next.
pub AtMode-ready :
    (p : Mode) (nodes : List Node) (c : ℕ) (flag : Bool)
    → AtMode p nodes c flag
    → AtMode ready nodes c flag
AtMode-ready ready nodes c flag h = h
AtMode-ready fresh nodes c flag h = inr (h.0, h.1)
AtMode-ready settled nodes c flag h = inr h
AtMode-ready (noted x) nodes c flag h = inr (h.0, h.1)

pub Stands-ready : {σ : List ℕ} {p : Mode} (s : ParseState) → Stands σ p s → Stands σ ready s
Stands-ready {p = p} s h = record {
  tree = h.tree;
  saved = h.saved;
  at_mode = AtMode-ready p s.nodes s.current_node s.next_to_child h.at_mode;
}

module _ {σ : List ℕ} {p : Mode} where
  pub Builds-ready :
      {A : Type 0} {τ : List ℕ} {q : Mode} (m : Parser A) → Builds σ ready τ q m → Builds σ p τ q m
  Builds-ready m h = record { at_state = λ s t. h.at_state s (Stands-ready s t) }

  pub Builds-spent : {A : Type 0} {τ : List ℕ} {q : Mode} → Builds σ p τ q (spent {A = A})
  unfolding spent
  Builds-spent = record { at_state = λ s t. tt }

  pub Builds-reject : {A : Type 0} {τ : List ℕ} {q : Mode} → Builds σ p τ q (reject {A = A})
  unfolding reject
  Builds-reject = record { at_state = λ s t. tt }

  pub Builds-return : {A : Type 0} (a : A) → Builds σ p σ p (return a)
  unfolding return
  Builds-return a = record { at_state = λ s t. t }

  pub Builds-return_ready : {A : Type 0} (a : A) → Builds σ p σ ready (return a)
  Builds-return_ready a = Builds-ready (return a) (Builds-return' a)
    where
      Builds-return' : {A : Type 0} (a : A) → Builds σ ready σ ready (return a)
      Builds-return' a = record { at_state = λ s t. unfold return in t }

  pub Builds-ensure : (b : Bool) → Builds σ p σ p (ensure b)
  unfolding ensure return reject
  Builds-ensure true = record { at_state = λ s t. t }
  Builds-ensure false = record { at_state = λ s t. tt }

  pub Builds-if :
      {A : Type 0} {τ : List ℕ} {q : Mode} (b : Bool) (m n : Parser A)
      → Builds σ p τ q m
      → Builds σ p τ q n
      → Builds σ p τ q (if b then m else n)
  Builds-if true m n hm hn = hm
  Builds-if false m n hm hn = hn

  pub Builds->>= :
      {A B : Type 0} {τ υ : List ℕ} {q r : Mode} (m : Parser A) (f : A → Parser B)
      → Builds σ p τ q m
      → ((a : A) → Builds τ q υ r (f a))
      → Builds σ p υ r (m >>= f)
  unfolding ◌>>=◌
  Builds->>= {A = A} {τ = τ} {υ = υ} {q = q} {r = r} m f hm hf = record {
    at_state = λ s t. left (m s) (hm.at_state s t);
  }
    where
      left : (run : Run (A × ParseState)) → Leaves τ q run → Leaves υ r (after run f)
      left (ok (a, s)) t = (hf a).at_state s t
      left exit t = tt
      left (fault e) t = tt
      left out_of_fuel t = tt

  pub Builds->> :
      {A B : Type 0} {τ υ : List ℕ} {q r : Mode} (m : Parser A) (n : Parser B)
      → Builds σ p τ q m
      → Builds τ q υ r n
      → Builds σ p υ r (m >> n)
  unfolding ◌>>◌
  Builds->> m n hm hn = Builds->>= m (λ _. n) hm (λ _. hn)

  pub Builds-look : {A : Type 0} (f : ParseState → Run A) → Builds σ p σ p (look f)
  unfolding look
  Builds-look {A = A} f = record { at_state = λ s t. left s t (f s) }
    where
      left : (s : ParseState) → Stands σ p s → (run : Run A) → Leaves σ p (look (λ _. run) s)
      left s t (ok a) = t
      left s t exit = tt
      left s t (fault e) = tt
      left s t out_of_fuel = tt

  -- The text is no part of the tree.
  pub Stands-reader :
      (s : ParseState) (r : Reader) → Stands σ p s → Stands σ p (record s { reader = r })
  Stands-reader s r t = record {
    tree = record {
      counted = t.tree.counted;
      current = t.tree.current;
      ahead = t.tree.ahead;
      linked_once = t.tree.linked_once;
    };
    saved = t.saved;
    at_mode = t.at_mode;
  }

  pub Builds-on_text : {A : Type 0} (f : ParseState → Run (A × Reader)) → Builds σ p σ p (on_text f)
  unfolding on_text
  Builds-on_text {A = A} f = record { at_state = λ s t. left s t (f s) }
    where
      left :
          (s : ParseState)
          → Stands σ p s
          → (run : Run (A × Reader)) → Leaves σ p (on_text (λ _. run) s)
      left s t (ok (a, r)) = Stands-reader s r t
      left s t exit = tt
      left s t (fault e) = tt
      left s t out_of_fuel = tt

  pub Builds-reading : (f : ParseState → Run Reader) → Builds σ p σ p (reading f)
  unfolding reading
  Builds-reading f = record { at_state = λ s t. left s t (f s) }
    where
      left :
          (s : ParseState) → Stands σ p s → (run : Run Reader) → Leaves σ p (reading (λ _. run) s)
      left s t (ok r) = Stands-reader s r t
      left s t exit = tt
      left s t (fault e) = tt
      left s t out_of_fuel = tt
