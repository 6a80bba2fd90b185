-- ===== src/Parser/Linked/Links.antt =====
-- The pointers of the nodes of src/parser/parsetree.c, after a node is written or added.
use squel.Parser.Tree.{Node}
use squel.Parser.Linked.{Ahead, AllAhead, child_of, hits, links_of, links_to, next_of}
use squel.Common.{
  List, Option, [], ap, arith, at, length, none, ok, refl, set, some, suc, zero, ℕ, ◌++◌, ◌+◌, ◌<◌,
  ◌∙◌, ◌∷◌, ◌≡◌,
}

-- A node written at a place changes the links by the difference of the two nodes.
pub links_to-set :
    (j : ℕ) (nodes : List Node) (i : ℕ) (node new : Node)
    → at nodes i ≡ ok node
    → links_to j (set nodes i new) + links_of j node ≡ links_to j nodes + links_of j new
unfolding links_to at
links_to-set j [] i node new e = cc
links_to-set j (node' ∷ nodes) zero node new e =
    let same : node' ≡ node = cc in rw same (omega arith)
links_to-set j (node' ∷ nodes) (suc i) node new e =
    let ih = links_to-set j nodes i node new e in omega (arith, ih)

pub links_to-append :
    (j : ℕ) (nodes : List Node) (new : Node)
    → links_to j (nodes ++ new ∷ []) ≡ links_to j nodes + links_of j new
unfolding links_to
links_to-append j [] new = omega arith
links_to-append j (node ∷ nodes) new = omega (arith, links_to-append j nodes new)

hits_beyond : (i n : ℕ) (o : Option ℕ) → Ahead i n o → hits n o ≡ 0
hits_beyond i n none h = refl
hits_beyond i n (some k) h = ground (arith, h.1)

pub hits_before : (j n : ℕ) → j < n → hits j (some n) ≡ 0
hits_before j n h = ground arith

pub hits_self : (n : ℕ) → hits n (some n) ≡ 1
hits_self n = ground arith

-- No link leads past the end.
pub links_beyond : (i n : ℕ) (nodes : List Node) → AllAhead i n nodes → links_to n nodes ≡ 0
unfolding links_to
links_beyond i n [] h = refl
links_beyond i n (node ∷ nodes) h = omega (
  arith,
  hits_beyond i n node.next h.0.0,
  hits_beyond i n node.child h.0.1,
  links_beyond (suc i) n nodes h.1,
)

pub pointers-at :
    (nodes : List Node) (i : ℕ) (node : Node)
    → at nodes i ≡ ok node
    → (next_of nodes i ≡ node.next) × (child_of nodes i ≡ node.child)
unfolding next_of child_of at
pointers-at [] i node e = cc
pointers-at (node' ∷ nodes) zero node e =
    let same : node' ≡ node = cc in
    (ap (λ (x : Node). x.next) same, ap (λ (x : Node). x.child) same)
pointers-at (node' ∷ nodes) (suc i) node e = pointers-at nodes i node e

pub next_of-set_other :
    (nodes : List Node) (i x : ℕ) (new : Node)
    → (x ≡ i → ⊥)
    → next_of (set nodes i new) x ≡ next_of nodes x
unfolding next_of
next_of-set_other [] i x new ne = refl
next_of-set_other (node ∷ nodes) zero zero new ne = absurd (ne refl)
next_of-set_other (node ∷ nodes) zero (suc x) new ne = refl
next_of-set_other (node ∷ nodes) (suc i) zero new ne = refl
next_of-set_other (node ∷ nodes) (suc i) (suc x) new ne =
    next_of-set_other nodes i x new (λ e. ne (ap suc e))

-- A node with the `next` of the one it replaces.
pub next_of-set_same :
    (nodes : List Node) (i x : ℕ) (node new : Node)
    → at nodes i ≡ ok node
    → new.next ≡ node.next
    → next_of (set nodes i new) x ≡ next_of nodes x
unfolding next_of at
next_of-set_same [] i x node new e same = refl
next_of-set_same (node' ∷ nodes) zero zero node new e same =
    let other : node ≡ node' = cc in same ∙ ap (λ (n : Node). n.next) other
next_of-set_same (node' ∷ nodes) zero (suc x) node new e same = refl
next_of-set_same (node' ∷ nodes) (suc i) zero node new e same = refl
next_of-set_same (node' ∷ nodes) (suc i) (suc x) node new e same =
    next_of-set_same nodes i x node new e same

pub child_of-set_same :
    (nodes : List Node) (i x : ℕ) (node new : Node)
    → at nodes i ≡ ok node
    → new.child ≡ node.child
    → child_of (set nodes i new) x ≡ child_of nodes x
unfolding child_of at
child_of-set_same [] i x node new e same = refl
child_of-set_same (node' ∷ nodes) zero zero node new e same =
    let other : node ≡ node' = cc in same ∙ ap (λ (n : Node). n.child) other
child_of-set_same (node' ∷ nodes) zero (suc x) node new e same = refl
child_of-set_same (node' ∷ nodes) (suc i) zero node new e same = refl
child_of-set_same (node' ∷ nodes) (suc i) (suc x) node new e same =
    child_of-set_same nodes i x node new e same

pub next_of-append :
    (nodes : List Node) (x : ℕ) (new : Node)
    → x < length nodes
    → next_of (nodes ++ new ∷ []) x ≡ next_of nodes x
unfolding next_of
next_of-append [] x new h = absurd (omega arith)
next_of-append (node ∷ nodes) zero new h = refl
next_of-append (node ∷ nodes) (suc x) new h = next_of-append nodes x new (omega arith)

pub pointers_last :
    (nodes : List Node) (new : Node)
    → (next_of (nodes ++ new ∷ []) (length nodes) ≡ new.next)
      × (child_of (nodes ++ new ∷ []) (length nodes) ≡ new.child)
unfolding next_of child_of
pointers_last [] new = (refl, refl)
pointers_last (node ∷ nodes) new = pointers_last nodes new
