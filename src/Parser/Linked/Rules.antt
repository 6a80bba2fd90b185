-- ===== src/Parser/Linked/Rules.antt =====
-- The steps of the parser by the mode that they leave, so that a function is read from its first step
-- to its last.
use squel.Parser.State.{
  ParseState, Parser, ensure, look, on_text, reading, reject, return, ◌>>=◌, ◌>>◌,
}
use squel.Parser.Lexer.{set_next_to_child}
use squel.Parser.Text.{Reader}
use squel.Parser.Linked.{
  Builds, Builds->>, Builds->>=, Builds-ensure, Builds-if, Builds-look, Builds-on_text,
  Builds-reading, Builds-ready, Builds-reject, Builds-return, Mode, fresh, noted, ready, settled,
}
use squel.Parser.Linked.Current.{
  Builds-current_node, Builds-set_current_node, Builds-set_current_node-fresh,
  Builds-set_next_to_child, Builds-set_next_to_child_noted, Builds-settled,
}
use squel.Parser.Expression.{set_current_node}
use squel.Common.{Bool, List, Run, false, if◌then◌else◌, true, ℕ, ◌∷◌}

-- The step leaves what it finds.
pub record Same {A : Type 0} (m : Parser A) : Type 0 where
  pub builds : (σ : List ℕ) (p : Mode) → Builds σ p σ p m

-- The step leaves one mode, whatever it finds.
pub record To {A : Type 0} (q : Mode) (m : Parser A) : Type 0 where
  pub builds : (σ : List ℕ) (p : Mode) → Builds σ p σ q m

-- The step leaves a settled tree settled.
pub record Calm {A : Type 0} (m : Parser A) : Type 0 where
  pub builds : (σ : List ℕ) → Builds σ settled σ settled m

pub Same-return : {A : Type 0} (a : A) → Same (return a)
Same-return a = record { builds = λ σ p. Builds-return a }

pub Same-reject : {A : Type 0} → Same (reject {A = A})
Same-reject = record { builds = λ σ p. Builds-reject }

pub Same-ensure : (b : Bool) → Same (ensure b)
Same-ensure b = record { builds = λ σ p. Builds-ensure b }

pub Same-if : {A : Type 0} (b : Bool) (m n : Parser A) → Same m → Same n → Same (if b then m else n)
Same-if true m n hm hn = hm
Same-if false m n hm hn = hn

pub Same->>= :
    {A B : Type 0} (m : Parser A) (f : A → Parser B)
    → Same m
    → ((a : A) → Same (f a))
    → Same (m >>= f)
Same->>= m f hm hf = record {
  builds = λ σ p. Builds->>= m f (hm.builds σ p) (λ a. (hf a).builds σ p);
}

pub Same->> : {A B : Type 0} (m : Parser A) (n : Parser B) → Same m → Same n → Same (m >> n)
Same->> m n hm hn = record { builds = λ σ p. Builds->> m n (hm.builds σ p) (hn.builds σ p) }

pub Same-look : {A : Type 0} (f : ParseState → Run A) → Same (look f)
Same-look f = record { builds = λ σ p. Builds-look f }

pub Same-on_text : {A : Type 0} (f : ParseState → Run (A × Reader)) → Same (on_text f)
Same-on_text f = record { builds = λ σ p. Builds-on_text f }

pub Same-reading : (f : ParseState → Run Reader) → Same (reading f)
Same-reading f = record { builds = λ σ p. Builds-reading f }

pub ruleset same_rules = (
  Same-return, Same-reject, Same-ensure, Same-if, Same->>=, Same->>, Same-look, Same-on_text,
  Same-reading,
)

pub Builds-To :
    {A : Type 0} (q : Mode) (m : Parser A) → ((σ : List ℕ) (p : Mode) → Builds σ p σ q m) → To q m
Builds-To q m h = record { builds = h }

pub Builds-Calm :
    {A : Type 0} (m : Parser A) → ((σ : List ℕ) → Builds σ settled σ settled m) → Calm m
Builds-Calm m h = record { builds = h }

module _ {σ : List ℕ} where
  module _ {p : Mode} {A : Type 0} where
    pub Same-last : {m : Parser A} → Same m → Builds σ p σ p m
    Same-last {m = m} h = h.builds σ p

    pub Same-last_ready : {m : Parser A} → Same m → Builds σ p σ ready m
    Same-last_ready {m = m} h = Builds-ready m (h.builds σ ready)

    pub fresh-last : {m : Parser A} → To fresh m → Builds σ p σ fresh m
    fresh-last {m = m} h = h.builds σ p

    pub fresh-last_settled : {m : Parser A} → To fresh m → Builds σ p σ settled m
    fresh-last_settled {m = m} h = Builds-settled m (h.builds σ p)

    pub settled-last : {m : Parser A} → To settled m → Builds σ p σ settled m
    settled-last {m = m} h = h.builds σ p

    pub ready-last : {m : Parser A} → To ready m → Builds σ p σ ready m
    ready-last {m = m} h = h.builds σ p

    module _ {B : Type 0} {υ : List ℕ} {r : Mode} where
      pub Same-first :
          {m : Parser A} {f : A → Parser B}
          → Same m
          → ((a : A) → Builds σ p υ r (f a))
          → Builds σ p υ r (m >>= f)
      Same-first {m = m} {f = f} h k = Builds->>= m f (h.builds σ p) k

      pub fresh-first :
          {m : Parser A} {f : A → Parser B}
          → To fresh m
          → ((a : A) → Builds σ fresh υ r (f a))
          → Builds σ p υ r (m >>= f)
      fresh-first {m = m} {f = f} h k = Builds->>= m f (h.builds σ p) k

      pub Same-before :
          {m : Parser A} {n : Parser B} → Same m → Builds σ p υ r n → Builds σ p υ r (m >> n)
      Same-before {m = m} {n = n} h k = Builds->> m n (h.builds σ p) k

      pub fresh-before :
          {m : Parser A} {n : Parser B}
          → To fresh m
          → Builds σ fresh υ r n
          → Builds σ p υ r (m >> n)
      fresh-before {m = m} {n = n} h k = Builds->> m n (h.builds σ p) k

      pub settled-before :
          {m : Parser A} {n : Parser B}
          → To settled m
          → Builds σ settled υ r n
          → Builds σ p υ r (m >> n)
      settled-before {m = m} {n = n} h k = Builds->> m n (h.builds σ p) k

      pub ready-before :
          {m : Parser A} {n : Parser B}
          → To ready m
          → Builds σ ready υ r n
          → Builds σ p υ r (m >> n)
      ready-before {m = m} {n = n} h k = Builds->> m n (h.builds σ p) k

  module _ {A : Type 0} where
    pub Same-last_settled : {m : Parser A} → Same m → Builds σ fresh σ settled m
    Same-last_settled {m = m} h = Builds-settled m (h.builds σ fresh)

    pub Calm-last : {m : Parser A} → Calm m → Builds σ settled σ settled m
    Calm-last {m = m} h = h.builds σ

    module _ {B : Type 0} {υ : List ℕ} {r : Mode} where
      pub Calm-first :
          {m : Parser A} {f : A → Parser B}
          → Calm m
          → ((a : A) → Builds σ settled υ r (f a))
          → Builds σ settled υ r (m >>= f)
      Calm-first {m = m} {f = f} h k = Builds->>= m f (h.builds σ) k

      pub Calm-before :
          {m : Parser A} {n : Parser B}
          → Calm m
          → Builds σ settled υ r n
          → Builds σ settled υ r (m >> n)
      Calm-before {m = m} {n = n} h k = Builds->> m n (h.builds σ) k

  module _ {B : Type 0} {υ : List ℕ} {r : Mode} {n : Parser B} where
    pub child-before : Builds σ ready υ r n → Builds σ fresh υ r (set_next_to_child true >> n)
    child-before k = Builds->> (set_next_to_child true) n Builds-set_next_to_child k

    pub noted_child-before :
        {x : ℕ} → Builds (x ∷ σ) ready υ r n → Builds σ (noted x) υ r (set_next_to_child true >> n)
    noted_child-before k = Builds->> (set_next_to_child true) n Builds-set_next_to_child_noted k

    pub back-before :
        (x : ℕ) → Builds σ settled υ r n → Builds (x ∷ σ) settled υ r (set_current_node x >> n)
    back-before x k = Builds->> (set_current_node x) n (Builds-set_current_node x) k

pub ruleset order_rules = (
  Builds-if, Same-last, Same-last_settled, fresh-last, settled-last, Calm-last, fresh-last_settled,
  Same-first, Same-before, fresh-before, settled-before, Calm-first, child-before,
  noted_child-before, back-before, Builds-current_node, Builds-set_current_node,
  Builds-set_current_node-fresh,
)
