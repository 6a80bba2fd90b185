-- ===== src/Parser/Fuel.antt =====
-- How much of the query is left after a step of the parser, which needs only so much fuel.
pub mod Loops
pub mod Matches
pub mod Steps
pub mod Names
pub mod Grammar
pub mod Whole
use squel.Parser.State.{ParseState, Parser, after, look, reject, return, ◌>>=◌, ◌>>◌}
use squel.Common.{
  Bool, Ends, Run, arith, exit, false, fault, if◌then◌else◌, length, ok, out_of_fuel, refl, suc,
  true, zero, ℕ, ◌<◌, ◌≡◌, ◌≤◌,
}

-- The characters ahead of the cursor.
abbrev pub room : ParseState → ℕ
room s = length s.reader.ahead

-- The step has not spent its fuel, and leaves at most `b` characters.
abbrev pub Within : {A : Type 0} → ℕ → Run (A × ParseState) → Type 0
Within b (ok (a, s)) = room s ≤ b
Within b out_of_fuel = ⊥
Within b _ = Unit

-- From at most `b` characters, the step leaves no more than that.
pub record Stops {A : Type 0} (b : ℕ) (m : Parser A) : Type 0 where
  pub at_state : (s : ParseState) → room s ≤ b → Within b (m s)

abbrev pub Shorter : {A : Type 0} → ℕ → Run (A × ParseState) → Type 0
Shorter b (ok (a, s)) = room s < b
Shorter b out_of_fuel = ⊥
Shorter b _ = Unit

-- From at most `b` characters, the step leaves fewer than that.
pub record Eats {A : Type 0} (b : ℕ) (m : Parser A) : Type 0 where
  pub at_state : (s : ParseState) → room s ≤ b → Shorter b (m s)

-- It does where the character before the cursor is `c`.
pub record EatsAt {A : Type 0} (b c : ℕ) (m : Parser A) : Type 0 where
  pub at_state : (s : ParseState) → room s ≤ b → s.reader.next_char ≡ c → Shorter b (m s)

within : {A : Type 0} (b : ℕ) (run : Run (A × ParseState)) → Shorter b run → Within b run
within b (ok r) h = omega arith
within b exit h = tt
within b (fault e) h = tt
within b out_of_fuel h = h

shorter : {A : Type 0} (b d : ℕ) (run : Run (A × ParseState)) → d < b → Within d run → Shorter b run
shorter b d (ok r) lt h = omega arith
shorter b d exit lt h = tt
shorter b d (fault e) lt h = tt
shorter b d out_of_fuel lt h = h

module _ {A B : Type 0} (b : ℕ) (f : A → Parser B) where
  after-Within :
      (run : Run (A × ParseState))
      → Within b run
      → ((a : A) → Stops b (f a))
      → Within b (after run f)
  after-Within (ok (a, s)) h k = (k a).at_state s h
  after-Within exit h k = tt
  after-Within (fault e) h k = tt
  after-Within out_of_fuel h k = h

  after-Shorter :
      (run : Run (A × ParseState))
      → Within b run
      → ((a : A) → Eats b (f a))
      → Shorter b (after run f)
  after-Shorter (ok (a, s)) h k = (k a).at_state s h
  after-Shorter exit h k = tt
  after-Shorter (fault e) h k = tt
  after-Shorter out_of_fuel h k = h

  -- What follows a step that took a character has one less.
  pub after-rest :
      (run : Run (A × ParseState))
      → Shorter b run
      → ((d : ℕ) → b ≡ suc d → (a : A) → Stops d (f a))
      → Shorter b (after run f)
  after-rest (ok (a, s)) h k = rest b h k
    where
      rest :
          (b : ℕ) → room s < b → ((d : ℕ) → b ≡ suc d → (a : A) → Stops d (f a)) → Shorter b (f a s)
      rest zero h k = absurd (omega arith)
      rest (suc d) h k =
          shorter (suc d) d (f a s) (omega arith) ((k d refl a).at_state s (omega arith))
  after-rest exit h k = tt
  after-rest (fault e) h k = tt
  after-rest out_of_fuel h k = h

module _ {A B : Type 0} {b : ℕ} (m : Parser A) (f : A → Parser B) where
  pub Stops->>= : Stops b m → ((a : A) → Stops b (f a)) → Stops b (m >>= f)
  unfolding ◌>>=◌
  Stops->>= km kf = record { at_state = λ s h. after-Within b f (m s) (km.at_state s h) kf }

  pub Stops-later : Eats b m → ((d : ℕ) → b ≡ suc d → (a : A) → Stops d (f a)) → Stops b (m >>= f)
  unfolding ◌>>=◌
  Stops-later km kf = record {
    at_state = λ s h. within b (after (m s) f) (after-rest b f (m s) (km.at_state s h) kf);
  }

  pub Eats-later : Stops b m → ((a : A) → Eats b (f a)) → Eats b (m >>= f)
  unfolding ◌>>=◌
  Eats-later km kf = record { at_state = λ s h. after-Shorter b f (m s) (km.at_state s h) kf }

  pub Eats->>= : Eats b m → ((d : ℕ) → b ≡ suc d → (a : A) → Stops d (f a)) → Eats b (m >>= f)
  unfolding ◌>>=◌
  Eats->>= km kf = record { at_state = λ s h. after-rest b f (m s) (km.at_state s h) kf }

module _ {A B : Type 0} {b : ℕ} (m : Parser A) (n : Parser B) where
  pub Stops->> : Stops b m → Stops b n → Stops b (m >> n)
  unfolding ◌>>◌
  Stops->> km kn = Stops->>= m (λ _. n) km (λ _. kn)

  pub Stops-then : Eats b m → ((d : ℕ) → b ≡ suc d → Stops d n) → Stops b (m >> n)
  unfolding ◌>>◌
  Stops-then km kn = Stops-later m (λ _. n) km (λ d e _. kn d e)

  pub Eats-then : Stops b m → Eats b n → Eats b (m >> n)
  unfolding ◌>>◌
  Eats-then km kn = Eats-later m (λ _. n) km (λ _. kn)

  pub Eats->> : Eats b m → ((d : ℕ) → b ≡ suc d → Stops d n) → Eats b (m >> n)
  unfolding ◌>>◌
  Eats->> km kn = Eats->>= m (λ _. n) km (λ d e _. kn d e)

module _ {A : Type 0} {b : ℕ} where
  pub Stops-if : (t : Bool) (m n : Parser A) → Stops b m → Stops b n → Stops b (if t then m else n)
  Stops-if true m n km kn = km
  Stops-if false m n km kn = kn

  pub Eats-if : (t : Bool) (m n : Parser A) → Eats b m → Eats b n → Eats b (if t then m else n)
  Eats-if true m n km kn = km
  Eats-if false m n km kn = kn

  pub Stops-Eats : (m : Parser A) → Eats b m → Stops b m
  Stops-Eats m h = record { at_state = λ s le. within b (m s) (h.at_state s le) }

  pub Stops-return : (a : A) → Stops b (return a)
  unfolding return
  Stops-return a = record { at_state = λ s h. h }

  pub Eats-reject : Eats b (reject {A = A})
  unfolding reject
  Eats-reject = record { at_state = λ s h. tt }

  pub Stops-look : (f : ParseState → Run A) → ((s : ParseState) → Ends (f s)) → Stops b (look f)
  unfolding look
  Stops-look f ends = record { at_state = λ s h. kept s h (f s) (ends s) }
    where
      kept : (s : ParseState) → room s ≤ b → (run : Run A) → Ends run → Within b (look (λ _. run) s)
      kept s h (ok a) e = h
      kept s h exit e = tt
      kept s h (fault cause) e = tt
      kept s h out_of_fuel e = e.end
