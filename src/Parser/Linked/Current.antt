-- ===== src/Parser/Linked/Current.antt =====
-- The current node and `nextToChild`: a node is noted, its child is asked for, and it becomes the
-- current one again.
use squel.Parser.State.{ParseState, Parser, return, ◌>>=◌, ◌>>◌}
use squel.Parser.Tree.{Node}
use squel.Parser.Lexer.{set_next_to_child}
use squel.Parser.Expression.{current_node, set_current_node}
use squel.Parser.Linked.{
  AtMode, Builds, Builds->>, Builds-return, Leaves, Mode, Other, Saved, fresh, noted, ready,
  settled,
}
use squel.Common.{
  Bool, List, Run, [], exit, false, fault, inl, inr, ok, out_of_fuel, refl, sym, true, ℕ, ◌∷◌, ◌≡◌,
  ◌⊎◌,
}

-- The current node is none of those to come back to, unless its child is next.
Saved-Other :
    (σ : List ℕ) (nodes : List Node) (c : ℕ) (flag : Bool)
    → flag ≡ false
    → Saved σ nodes c flag
    → Other c σ
Saved-Other [] nodes c flag e h = tt
Saved-Other (x ∷ σ) nodes c flag e (_, _, apart, _, h) =
    (λ here. cc (apart (sym here), e), Saved-Other σ nodes c flag e h)

Saved-child :
    (σ : List ℕ) (nodes : List Node) (c : ℕ) (flag : Bool)
    → Saved σ nodes c flag
    → Saved σ nodes c true
Saved-child [] nodes c flag h = tt
Saved-child (x ∷ σ) nodes c flag (lt, free, _, others, h) =
    (lt, free, λ here. refl, others, Saved-child σ nodes c flag h)

Saved-back :
    (σ : List ℕ) (nodes : List Node) (c c' : ℕ) (flag flag' : Bool)
    → Other c' σ
    → Saved σ nodes c flag
    → Saved σ nodes c' flag'
Saved-back [] nodes c c' flag flag' o h = tt
Saved-back (x ∷ σ) nodes c c' flag flag' o (lt, free, _, others, h) =
    (lt, free, λ here. absurd (o.0 (sym here)), others, Saved-back σ nodes c c' flag flag' o.1 h)

module _ {σ : List ℕ} where
  pub Builds-set_next_to_child : Builds σ fresh σ ready (set_next_to_child true)
  unfolding set_next_to_child
  Builds-set_next_to_child = record {
    at_state = λ s t. record {
      tree = record {
        counted = t.tree.counted;
        current = t.tree.current;
        ahead = t.tree.ahead;
        linked_once = t.tree.linked_once;
      };
      saved = Saved-child σ s.nodes s.current_node s.next_to_child t.saved;
      at_mode = inl (refl, t.at_mode.2);
    };
  }

  -- A node that was noted is one to come back to, once its child is next.
  pub Builds-set_next_to_child_noted :
      {x : ℕ} → Builds σ (noted x) (x ∷ σ) ready (set_next_to_child true)
  unfolding set_next_to_child
  Builds-set_next_to_child_noted {x = x} = record {
    at_state = λ s t.
        let (flag, next, child, here) = t.at_mode in
        record {
          tree = record {
            counted = t.tree.counted;
            current = t.tree.current;
            ahead = t.tree.ahead;
            linked_once = t.tree.linked_once;
          };
          saved = (
            rw here at t.tree.current,
            rw here at next,
            λ same. refl,
            rw here at (Saved-Other σ s.nodes s.current_node s.next_to_child flag t.saved),
            Saved-child σ s.nodes s.current_node s.next_to_child t.saved,
          );
          at_mode = inl (refl, child);
        };
  }

  pub Builds-current_node :
      {A : Type 0} {υ : List ℕ} {r : Mode} {f : ℕ → Parser A}
      → ((x : ℕ) → Builds σ (noted x) υ r (f x))
      → Builds σ fresh υ r (current_node >>= f)
  unfolding ◌>>=◌ current_node
  Builds-current_node {f = f} h = record {
    at_state = λ s t. (h s.current_node).at_state s (record {
      tree = t.tree;
      saved = t.saved;
      at_mode = (t.at_mode.0, t.at_mode.1, t.at_mode.2, refl);
    });
  }

  -- The same, where the child is asked for first.
  pub Builds-child_noted :
      {A : Type 0} {υ : List ℕ} {r : Mode} {f : ℕ → Parser A}
      → ((x : ℕ) → Builds (x ∷ σ) ready υ r (f x))
      → Builds σ fresh υ r (set_next_to_child true >> (current_node >>= f))
  unfolding ◌>>=◌ ◌>>◌ current_node set_next_to_child
  Builds-child_noted {A = A} {υ = υ} {r = r} {f = f} h = record {
    at_state = λ s t.
        let noted_first =
          Builds-current_node {f = λ x. set_next_to_child true >> f x}
            (λ x. Builds->> (set_next_to_child true) (f x) Builds-set_next_to_child_noted (h x)) in
        noted_first.at_state s t;
  }

  back :
      {x : ℕ} {p : Mode}
      → (p ≡ settled) ⊎ (p ≡ fresh)
      → Builds (x ∷ σ) p σ settled (set_current_node x)
  unfolding set_current_node
  back {x = x} {p = p} e = record {
    at_state = λ s t.
        let (lt, free, _, others, rest) = t.saved in
        record {
          tree = record {
            counted = t.tree.counted;
            current = lt;
            ahead = t.tree.ahead;
            linked_once = t.tree.linked_once;
          };
          saved = Saved-back σ s.nodes s.current_node x s.next_to_child s.next_to_child others rest;
          at_mode = (unset p s.nodes s.current_node s.next_to_child e t.at_mode, free);
        };
  }
    where
      unset :
          (p : Mode) (nodes : List Node) (c : ℕ) (flag : Bool)
          → (p ≡ settled) ⊎ (p ≡ fresh)
          → AtMode p nodes c flag
          → flag ≡ false
      unset p nodes c flag (inl e) h = let h' : AtMode settled nodes c flag = rw e at h in h'.0
      unset p nodes c flag (inr e) h = let h' : AtMode fresh nodes c flag = rw e at h in h'.0

  pub Builds-set_current_node : (x : ℕ) → Builds (x ∷ σ) settled σ settled (set_current_node x)
  Builds-set_current_node x = back (inl refl)

  pub Builds-set_current_node-fresh : (x : ℕ) → Builds (x ∷ σ) fresh σ settled (set_current_node x)
  Builds-set_current_node-fresh x = back (inr refl)

  -- Where both pointers are NULL, `next` is.
  pub Builds-settled :
      {A : Type 0} {p : Mode} (m : Parser A) → Builds σ p σ fresh m → Builds σ p σ settled m
  Builds-settled {A = A} m h = record { at_state = λ s t. less (m s) (h.at_state s t) }
    where
      less : (run : Run (A × ParseState)) → Leaves σ fresh run → Leaves σ settled run
      less (ok (a, s)) t = record {
        tree = t.tree;
        saved = t.saved;
        at_mode = (t.at_mode.0, t.at_mode.1);
      }
      less exit t = tt
      less (fault e) t = tt
      less out_of_fuel t = tt

  pub Builds-return_settled : {A : Type 0} (a : A) → Builds σ fresh σ settled (return a)
  Builds-return_settled a = Builds-settled (return a) (Builds-return a)
