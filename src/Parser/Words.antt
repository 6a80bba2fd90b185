-- ===== src/Parser/Words.antt =====
-- What `peekWordMatches` and `expectWord` of src/parser/parser.c accept.
use mathlib.Core.Path.{ap₂}
use squel.Common.{
  Bool, Bytes, [], ap, append-nil, append_assoc, arith, false, length, length-append, le→leb,
  lt→ltb, ok, refl, sym, true, ℕ, ◌++◌, ◌+◌, ◌<◌, ◌==◌, ◌>>=◌, ◌∙◌, ◌∷◌, ◌≡◌, ◌≤◌,
}
use squel.Parser.Text.{
  Reader, copy_loop, expect_text, max_expr_size, peek_loop, peek_word, push, word_loop,
}

same_char : (c : ℕ) → (c == c) ≡ true
same_char c = ground arith

peek_loop-last :
    (w : Bytes) (x y : ℕ) (rest : Bytes)
    → (x == y) ≡ false
    → peek_loop (w ++ x ∷ []) (w ++ y ∷ rest) ≡ ok (length w + 1)
unfolding peek_loop
peek_loop-last [] x y rest e = rw e refl
peek_loop-last (c ∷ w) x y rest e =
    rw (same_char c, peek_loop-last w x y rest e, ◌>>=◌) (ap ok (omega arith))

-- The first character of a word and what follows, where `y` and `rest` come after the word.
abbrev pub first_of : Bytes → ℕ → ℕ
first_of [] y = y
first_of (z ∷ w) y = z

abbrev pub rest_of : Bytes → ℕ → Bytes → Bytes
rest_of [] y rest = rest
rest_of (z ∷ w) y rest = w ++ y ∷ rest

abbrev pub reader_at : ℕ → Bytes → ℕ → Bytes → Reader
reader_at cursor w y rest = record {
  cursor = cursor;
  next_char = first_of w y;
  ahead = rest_of w y rest;
}

-- Where the loop stops, behind the word.
abbrev pub behind_word : ℕ → Bytes → ℕ → Bytes → Reader
behind_word cursor w y rest = record { cursor = cursor + length w; next_char = y; ahead = rest }

word_loop-here :
    (x y cursor : ℕ) (rest : Bytes)
    → (x == y) ≡ false
    → word_loop (x ∷ []) cursor y rest
      ≡ ok (1, record { cursor = cursor; next_char = y; ahead = rest })
unfolding word_loop
word_loop-here x y cursor [] e = rw e refl
word_loop-here x y cursor (d ∷ rest) e = rw e refl

word_loop-last :
    (w : Bytes) (x y cursor : ℕ) (rest : Bytes)
    → (x == y) ≡ false
    → word_loop (w ++ x ∷ []) cursor (first_of w y) (rest_of w y rest)
      ≡ ok (length w + 1, behind_word cursor w y rest)
unfolding word_loop
word_loop-last [] x y cursor rest e =
    word_loop-here x y cursor rest e
    ∙ ap (λ n. ok (1, record { cursor = n; next_char = y; ahead = rest })) (omega arith)
word_loop-last (z ∷ []) x y cursor rest e =
    rw (same_char z, word_loop-here x y (cursor + 1) rest e, ◌>>=◌) refl
word_loop-last (z ∷ z' ∷ w) x y cursor rest e =
    rw (same_char z, word_loop-last (z' ∷ w) x y (cursor + 1) rest e, ◌>>=◌)
      (ap₂ (λ i n. ok (i, record { cursor = n; next_char = y; ahead = rest })) (omega arith)
        (omega arith))

split_text : (w : Bytes) (y : ℕ) (rest : Bytes) → first_of w y ∷ rest_of w y rest ≡ w ++ y ∷ rest
split_text [] y rest = refl
split_text (z ∷ w) y rest = refl

-- A text that differs from a word in the word's last character only is taken for the word, by the
-- look ahead where the query is long enough, and by the function that then reads it.
pub wrong_last_character :
    (w : Bytes) (x y cursor q : ℕ) (rest : Bytes)
    → (x == y) ≡ false
    → 0 < cursor
    → cursor + length w ≤ q
    → (peek_word q (w ++ x ∷ []) (reader_at cursor w y rest) ≡ ok true)
      × (expect_text (w ++ x ∷ []) (reader_at cursor w y rest) ≡ ok (behind_word cursor w y rest))
unfolding peek_word expect_text
wrong_last_character w x y cursor q rest e started fits =
    let longer = length-append w (x ∷ []) in
    let seen : peek_loop (w ++ x ∷ []) (first_of w y ∷ rest_of w y rest) ≡ ok (length w + 1) =
      rw (split_text w y rest) (peek_loop-last w x y rest e) in
    (
      rw (seen, ◌>>=◌) (ground (arith, longer)),
      rw
          (
            word_loop-last w x y cursor rest e,
            ◌>>=◌,
            le→leb (length (w ++ x ∷ [])) (length w + 1) (omega (arith, longer)),
          )
          refl,
    )

copy_step :
    (goes_on : ℕ → Bool) (q : ℕ) (buff : Bytes) (cursor z d : ℕ) (ahead : Bytes)
    → goes_on z ≡ true
    → length buff < max_expr_size
    → length buff < q
    → copy_loop goes_on q buff cursor z (d ∷ ahead)
      ≡ copy_loop goes_on q (buff ++ z ∷ []) (cursor + 1) d ahead
unfolding copy_loop push
copy_step goes_on q buff cursor z d ahead goes room below =
    let longer = length-append buff (z ∷ []) in
    rw (
      goes,
      lt→ltb (length buff) max_expr_size room,
      ◌>>=◌,
      le→leb (length (buff ++ z ∷ [])) q (omega (arith, longer)),
    )

abbrev pub AllGo : (ℕ → Bool) → Bytes → Type 0
AllGo goes_on [] = Unit
AllGo goes_on (z ∷ w) = (goes_on z ≡ true) × AllGo goes_on w

copy_loop-end :
    (goes_on : ℕ → Bool) (q : ℕ) (buff : Bytes) (cursor y : ℕ) (rest : Bytes)
    → goes_on y ≡ false
    → copy_loop goes_on q buff cursor y rest
      ≡ ok (buff, record { cursor = cursor; next_char = y; ahead = rest })
unfolding copy_loop
copy_loop-end goes_on q buff cursor y [] stops = rw stops refl
copy_loop-end goes_on q buff cursor y (d ∷ rest) stops = rw stops refl

-- The loop of strings, file names and numbers copies all characters up to the first at which it
-- stops, behind what the buffer held, if the buffer and the query are long enough.
pub copy_loop-run :
    (goes_on : ℕ → Bool) (q : ℕ) (buff w : Bytes) (y cursor : ℕ) (rest : Bytes)
    → AllGo goes_on w
    → goes_on y ≡ false
    → length buff + length w ≤ max_expr_size
    → length buff + length w ≤ q
    → copy_loop goes_on q buff cursor (first_of w y) (rest_of w y rest)
      ≡ ok (buff ++ w, behind_word cursor w y rest)
copy_loop-run goes_on q buff [] y cursor rest go stops room below =
    copy_loop-end goes_on q buff cursor y rest stops
    ∙ ap₂ (λ b n. ok (b, record { cursor = n; next_char = y; ahead = rest }))
        (sym (append-nil buff)) (omega arith)
copy_loop-run goes_on q buff (z ∷ w) y cursor rest go stops room below =
    let longer = length-append buff (z ∷ []) in
    ap (copy_loop goes_on q buff cursor z) (sym (split_text w y rest))
    ∙ copy_step goes_on q buff cursor z (first_of w y) (rest_of w y rest) go.0 (omega arith)
        (omega arith)
    ∙ copy_loop-run goes_on q (buff ++ z ∷ []) w y (cursor + 1) rest go.1 stops
        (omega (arith, longer)) (omega (arith, longer))
    ∙ ap₂ (λ b n. ok (b, record { cursor = n; next_char = y; ahead = rest }))
        (append_assoc buff (z ∷ []) w) (omega arith)
