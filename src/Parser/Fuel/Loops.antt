-- ===== src/Parser/Fuel/Loops.antt =====
-- How far the loops of the parser move the reader.
use squel.Parser.Text.{
  Reader, advance, alias_loop, copy_loop, ident_loop, is_letter, is_name, is_white_space,
  max_expr_size, push, white_loop,
}
use squel.Common.{
  Bool, Bool-cases, Bytes, Ends, Ends-defined, Ends-require, Fault, Run, [], arith, defined,
  ends_rules, exit, false, fault, if◌then◌else◌, inl, inr, leb, length, ltb, ok, out_of_bounds,
  out_of_fuel, refl, require, true, ℕ, ◌&&◌, ◌++◌, ◌+◌, ◌==◌, ◌>>=◌, ◌∷◌, ◌≡◌, ◌≤◌,
}

-- The loop has ended, at least `k` characters below the `n` that it had ahead.
abbrev pub Moved : {X : Type 0} → (X → Reader) → ℕ → ℕ → Run X → Type 0
Moved at_end n k (ok x) = length (at_end x).ahead + k ≤ n
Moved at_end n k out_of_fuel = ⊥
Moved at_end n k _ = Unit

pub record Reads {X : Type 0} (at_end : X → Reader) (n k : ℕ) (run : Run X) : Type 0 where
  pub moved : Moved at_end n k run

abbrev pub itself : Reader → Reader
itself r = r

abbrev pub behind : {A : Type 0} → A × Reader → Reader
behind (a, r) = r

module _ {X : Type 0} {at_end : X → Reader} {n k : ℕ} where
  pub Reads-ok : (x : X) → length (at_end x).ahead + k ≤ n → Reads at_end n k (ok x)
  Reads-ok x h = record { moved = h }

  pub Reads-exit : Reads at_end n k exit
  Reads-exit = record { moved = tt }

  pub Reads-fault : (cause : Fault) → Reads at_end n k (fault cause)
  Reads-fault cause = record { moved = tt }

  Reads-if :
      (b : Bool) (m l : Run X)
      → Reads at_end n k m
      → Reads at_end n k l
      → Reads at_end n k (if b then m else l)
  Reads-if true m l hm hl = hm
  Reads-if false m l hm hl = hl

  Reads->>= :
      {Y : Type 0} (m : Run Y) (f : Y → Run X)
      → Ends m
      → ((y : Y) → Reads at_end n k (f y))
      → Reads at_end n k (m >>= f)
  Reads->>= (ok y) f e h = h y
  Reads->>= exit f e h = Reads-exit
  Reads->>= (fault cause) f e h = Reads-fault cause
  Reads->>= out_of_fuel f e h = absurd (e.end)

  -- A loop that goes on from further ahead.
  Reads-further :
      {n' k' : ℕ} (run : Run X) → Reads at_end n' k' run → n' + k ≤ n + k' → Reads at_end n k run
  Reads-further (ok x) h le = let m = h.moved in Reads-ok x (omega arith)
  Reads-further exit h le = Reads-exit
  Reads-further (fault cause) h le = Reads-fault cause
  Reads-further out_of_fuel h le = absurd (h.moved)

push-Ends : (buff : Bytes) (c : ℕ) → Ends (push buff c)
unfolding push
push-Ends buff c = search ends_rules

pub advance-Reads : (r : Reader) → Reads itself (length r.ahead) 1 (advance r)
unfolding advance
advance-Reads r = step r.ahead
  where
    step : (ahead : Bytes) → Reads itself (length ahead) 1 (advance (record r { ahead = ahead }))
    step [] = Reads-fault out_of_bounds
    step (c ∷ ahead) = Reads-ok _ (omega arith)

pub white_loop-Reads :
    (q cursor c : ℕ) (ahead : Bytes) → Reads itself (length ahead) 0 (white_loop q cursor c ahead)
unfolding white_loop
white_loop-Reads q cursor c [] =
    Reads-if (is_white_space c && ltb cursor q) _ _ (Reads-fault out_of_bounds)
      (Reads-ok _ (omega arith))
white_loop-Reads q cursor c (d ∷ ahead) =
    Reads-if (is_white_space c && ltb cursor q) _ _
      (Reads-further _ (white_loop-Reads q (cursor + 1) d ahead) (omega arith))
      (Reads-ok _ (omega arith))

pub copy_loop-Reads :
    (goes_on : ℕ → Bool) (q : ℕ) (buff : Bytes) (cursor c : ℕ) (ahead : Bytes)
    → Reads behind (length ahead) 0 (copy_loop goes_on q buff cursor c ahead)
unfolding copy_loop
copy_loop-Reads goes_on q buff cursor c [] =
    Reads-if (goes_on c) _ _ (Reads-fault out_of_bounds) (Reads-ok _ (omega arith))
copy_loop-Reads goes_on q buff cursor c (d ∷ ahead) =
    Reads-if (goes_on c) _ _
      (Reads->>= (push buff c) _ (push-Ends buff c) λ buff'.
        Reads->>= (require (leb (length buff') q)) _ (Ends-require _) λ u.
          Reads-further _ (copy_loop-Reads goes_on q (buff ++ c ∷ []) (cursor + 1) d ahead)
            (omega arith))
      (Reads-ok _ (omega arith))

-- A loop that takes its first character.
pub copy_loop-Reads_one :
    (goes_on : ℕ → Bool) (q : ℕ) (buff : Bytes) (cursor c : ℕ) (ahead : Bytes)
    → goes_on c ≡ true
    → Reads behind (length ahead) 1 (copy_loop goes_on q buff cursor c ahead)
unfolding copy_loop
copy_loop-Reads_one goes_on q buff cursor c [] e = rw e (Reads-fault out_of_bounds)
copy_loop-Reads_one goes_on q buff cursor c (d ∷ ahead) e = rw e (
    Reads->>= (push buff c) _ (push-Ends buff c) λ buff'.
      Reads->>= (require (leb (length buff') q)) _ (Ends-require _) λ u.
        Reads-further _ (copy_loop-Reads goes_on q (buff ++ c ∷ []) (cursor + 1) d ahead)
          (omega arith))

pub alias_loop-Reads :
    (alias : Bytes) (cursor c : ℕ) (ahead : Bytes)
    → Reads behind (length ahead) 0 (alias_loop alias cursor c ahead)
unfolding alias_loop
alias_loop-Reads alias cursor c [] =
    Reads-if (is_letter c) _ _ (Reads-fault out_of_bounds) (Reads-ok _ (omega arith))
alias_loop-Reads alias cursor c (d ∷ ahead) =
    Reads-if (is_letter c) _ _
      (Reads->>= (defined (ltb (length alias) max_expr_size) out_of_bounds) _ (Ends-defined _ _)
        λ u.
          Reads-further _ (alias_loop-Reads (alias ++ c ∷ []) (cursor + 1) d ahead) (omega arith))
      (Reads-ok _ (omega arith))

-- `k` is 1 for a loop that takes its first character, and 0 for any.
pub ident_loop-Reads :
    (q : ℕ) (buff : Bytes) (cut cursor c : ℕ) (ahead : Bytes) (k : ℕ)
    → k ≤ 1
    → (is_name c ≡ false → k ≡ 0)
    → Reads behind (length ahead) k (ident_loop q buff cut cursor c ahead)
unfolding ident_loop
ident_loop-Reads q buff cut cursor c [] k le stays = elim (Bool-cases (is_name c)) [
  | inl e ↦ rw e (Reads-fault out_of_bounds)
  | inr e ↦ let zero_k = stays e in rw e (Reads-ok _ (omega arith))
]
ident_loop-Reads q buff cut cursor c (d ∷ []) k le stays = elim (Bool-cases (is_name c)) [
  | inl e ↦ rw e (
      Reads->>= (push buff c) _ (push-Ends buff c) λ buff'.
        Reads-if (d == 46) _ _ (Reads-fault out_of_bounds) (
          Reads->>= (require (leb (length buff') q)) _ (Ends-require _) λ u.
            Reads-further _
              (ident_loop-Reads q (buff ++ c ∷ []) cut (cursor + 1) d [] 0 (omega arith)
                (λ _. refl))
              (omega arith)))
  | inr e ↦ let zero_k = stays e in rw e (Reads-ok _ (omega arith))
]
ident_loop-Reads q buff cut cursor c (d ∷ e' ∷ ahead) k le stays = elim (Bool-cases (is_name c)) [
  | inl e ↦ rw e (
      Reads->>= (push buff c) _ (push-Ends buff c) λ buff'.
        Reads->>= (require (leb (length buff') q)) _ (Ends-require _) λ u.
          Reads-if (d == 46) _ _
            (Reads-further _
              (ident_loop-Reads q (buff ++ c ∷ []) (length buff + 1) (cursor + 2) e' ahead 0
                (omega arith) (λ _. refl))
              (omega arith))
            (Reads-further _
              (ident_loop-Reads q (buff ++ c ∷ []) cut (cursor + 1) d (e' ∷ ahead) 0 (omega arith)
                (λ _. refl))
              (omega arith)))
  | inr e ↦ let zero_k = stays e in rw e (Reads-ok _ (omega arith))
]
