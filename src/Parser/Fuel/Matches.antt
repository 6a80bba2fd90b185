-- ===== src/Parser/Fuel/Matches.antt =====
-- How far the loops over words move the reader, and that those that look ahead end.
use squel.Parser.Text.{
  Reader, expect_text, is_alpha_numeric, non_alphanumeric, peek_loop, peek_word, word_loop,
}
use squel.Parser.Fuel.Loops.{Reads, Reads-exit, Reads-fault, Reads-ok, itself}
use squel.Common.{
  Bool, Bool-cases, Bytes, Ends, Ends->>=, Ends-ok, Fault, Run, [], arith, exit, false, fault,
  if◌then◌else◌, inl, inr, leb, length, ltb, ok, out_of_bounds, out_of_fuel, refl, require, suc,
  true, ℕ, ◌&&◌, ◌+◌, ◌==◌, ◌>>=◌, ◌∷◌, ◌≡◌, ◌≤◌,
}

-- The loop over a word has taken one character less than it counts.
record ReadsWord (n : ℕ) (run : Run (ℕ × Reader)) : Type 0 where
  pub counted : (i : ℕ) (r : Reader) → run ≡ ok (i, r) → length r.ahead + i ≤ n + 1
  pub ends : Ends run

ReadsWord-ok : (n : ℕ) (r : Reader) → length r.ahead ≤ n → ReadsWord n (ok (1, r))
ReadsWord-ok n r le = record {
  counted = λ i r' e.
      let same : r ≡ r' = cc in
      let one : 1 ≡ i = cc in
      let le' : length r'.ahead ≤ n = rw (← same) le in omega (arith, le', one);
  ends = Ends-ok (1, r);
}

ReadsWord-fault : (n : ℕ) (cause : Fault) → ReadsWord n (fault cause)
ReadsWord-fault n cause = record { counted = λ i r e. cc; ends = record { end = tt } }

ReadsWord-suc :
    (n : ℕ) (run : Run (ℕ × Reader))
    → ReadsWord n run
    → ReadsWord (suc n) (run >>= λ p. ok (p.0 + 1, p.1))
ReadsWord-suc n (ok (i, r)) h = record {
  counted = λ i' r' e.
      let le = h.counted i r refl in
      let same : r ≡ r' = cc in
      let more : i + 1 ≡ i' = cc in
      let le' : length r'.ahead + i ≤ n + 1 = rw (← same) le in omega (arith, le', more);
  ends = Ends-ok (i + 1, r);
}
ReadsWord-suc n exit h = record { counted = λ i r e. cc; ends = record { end = tt } }
ReadsWord-suc n (fault cause) h = ReadsWord-fault (suc n) cause
ReadsWord-suc n out_of_fuel h = absurd (h.ends.end)

word_loop-ReadsWord :
    (w : Bytes) (cursor c : ℕ) (ahead : Bytes)
    → ReadsWord (length ahead) (word_loop w cursor c ahead)
unfolding word_loop
word_loop-ReadsWord [] cursor c ahead = elim (Bool-cases (c == 0)) [
  | inl e ↦ rw e (ReadsWord-fault (length ahead) out_of_bounds)
  | inr e ↦ rw e (ReadsWord-ok (length ahead) _ (omega arith))
]
word_loop-ReadsWord (x ∷ w) cursor c [] = elim (Bool-cases (x == c)) [
  | inl e ↦ rw e (ReadsWord-fault 0 out_of_bounds)
  | inr e ↦ rw e (ReadsWord-ok 0 _ (omega arith))
]
word_loop-ReadsWord (x ∷ w) cursor c (d ∷ ahead) = elim (Bool-cases (x == c)) [
  | inl e ↦ rw e (ReadsWord-suc (length ahead) _ (word_loop-ReadsWord w (cursor + 1) d ahead))
  | inr e ↦ rw e (ReadsWord-ok (suc (length ahead)) _ (omega arith))
]

-- A word of at least two characters takes at least one.
pub expect_text-Reads :
    (w : Bytes) (r : Reader) → 2 ≤ length w → Reads itself (length r.ahead) 1 (expect_text w r)
unfolding expect_text
expect_text-Reads w r long =
    matched (word_loop w r.cursor r.next_char r.ahead)
      (word_loop-ReadsWord w r.cursor r.next_char r.ahead)
  where
    taken :
        (i : ℕ) (r' : Reader) (b : Bool)
        → leb (length w) i ≡ b
        → length r'.ahead + i ≤ length r.ahead + 1
        → Reads itself (length r.ahead) 1 (require b >>= λ _. ok r')
    taken i r' true e le = Reads-ok r' (ground arith)
    taken i r' false e le = Reads-exit

    matched :
        (run : Run (ℕ × Reader))
        → ReadsWord (length r.ahead) run
        → Reads itself
            (length r.ahead)
            1
            (run >>= λ p. require (leb (length w) (p.0)) >>= λ _. ok (p.1))
    matched (ok (i, r')) h = taken i r' (leb (length w) i) refl (h.counted i r' refl)
    matched exit h = Reads-exit
    matched (fault cause) h = Reads-fault cause
    matched out_of_fuel h = absurd (h.ends.end)

Ends-fault {ℓ} : {A : Type ℓ} (cause : Fault) → Ends {Value = A} (fault cause)
Ends-fault cause = record { end = tt }

Ends-if {ℓ} : {A : Type ℓ} (b : Bool) (m n : Run A) → Ends m → Ends n → Ends (if b then m else n)
Ends-if true m n hm hn = hm
Ends-if false m n hm hn = hn

peek_loop-Ends : (w text : Bytes) → Ends (peek_loop w text)
unfolding peek_loop
peek_loop-Ends [] [] = Ends-fault out_of_bounds
peek_loop-Ends (x ∷ w) [] = Ends-fault out_of_bounds
peek_loop-Ends [] (c ∷ text) = Ends-if (c == 0) _ _ (Ends-fault out_of_bounds) (Ends-ok 1)
peek_loop-Ends (x ∷ w) (c ∷ text) =
    Ends-if (x == c) _ _
      (Ends->>= (peek_loop w text) _ (peek_loop-Ends w text) λ i e. Ends-ok (i + 1)) (Ends-ok 1)

pub peek_word-Ends : (q : ℕ) (w : Bytes) (r : Reader) → Ends (peek_word q w r)
unfolding peek_word
peek_word-Ends q w r =
    Ends->>= (peek_loop w (r.next_char ∷ r.ahead)) _ (peek_loop-Ends w (r.next_char ∷ r.ahead))
      λ i e. Ends-ok _

pub non_alphanumeric-Ends : (q start : ℕ) (text : Bytes) → Ends (non_alphanumeric q start text)
unfolding non_alphanumeric
non_alphanumeric-Ends q start [] = Ends-fault out_of_bounds
non_alphanumeric-Ends q start (c ∷ text) =
    Ends-if (is_alpha_numeric c && ltb (start + 1) q) _ _ (non_alphanumeric-Ends q (start + 1) text)
      (Ends-ok _)
