-- ===== src/Io/TextFile/Lines.antt =====
-- A file of lines is read line by line.
use squel.Common.{
  Bytes, List, [], ap, append_assoc, arith, at, drop, false, length, length-append, lt→ltb, ok,
  refl, set, some, suc, zero, ℕ, ◌++◌, ◌+◌, ◌-◌, ◌<◌, ◌==◌, ◌>>=◌, ◌∷◌, ◌≡◌, ◌≤◌,
}
use squel.Config.{lf, line_buff}
use squel.Executor.Tuple.{}
use squel.Executor.Tuple.Strings.{NoZero, c_string-terminated}
use squel.Io.TextFile.{fgets, read_line_to_buffer, remove_lf, store_string, take_line}

abbrev NoLf : Bytes → Type 0
NoLf [] = Unit
NoLf (c ∷ line) = ((c == lf) ≡ false) × NoLf line

-- A line, without its end, that `fgets` takes whole.
pub record IsLine (line : Bytes) : Type 0 where
  pub no_zero : NoZero line
  pub no_lf : NoLf line
  pub short : length line + 2 ≤ line_buff

take_line-lf :
    (room : ℕ) (line rest : Bytes)
    → NoLf line
    → length line < room
    → take_line room (line ++ lf ∷ rest) ≡ (line ++ lf ∷ [], rest)
unfolding take_line
take_line-lf zero line rest h k = absurd (omega arith)
take_line-lf (suc room) [] rest h k = refl
take_line-lf (suc room) (c ∷ line) rest h k =
    rw (h.0, take_line-lf room line rest h.1 (omega arith))

pub fgets-line :
    (n : ℕ) (line rest : Bytes)
    → NoLf line
    → length line + 1 < n
    → fgets n (line ++ lf ∷ rest) ≡ some (line ++ lf ∷ [], rest)
unfolding fgets
fgets-line n [] rest h k = ap some (take_line-lf (n - 1) [] rest h (omega arith))
fgets-line n (c ∷ line) rest h k = ap some (take_line-lf (n - 1) (c ∷ line) rest h (omega arith))

pub NoZero-snoc : (line : Bytes) (c : ℕ) → NoZero line → 0 < c → NoZero (line ++ c ∷ [])
NoZero-snoc [] c h k = (k, tt)
NoZero-snoc (d ∷ line) c h k = (h.0, NoZero-snoc line c h.1 k)

at-last {ℓ} : {A : Type ℓ} (xs : List A) (x : A) → at (xs ++ x ∷ []) (length xs) ≡ ok x
unfolding at
at-last [] x = refl
at-last (y ∷ xs) x = at-last xs x

pub set-middle {ℓ} :
    {A : Type ℓ} (xs ys : List A) (x v : A) → set (xs ++ x ∷ ys) (length xs) v ≡ xs ++ v ∷ ys
set-middle [] ys x v = refl
set-middle (y ∷ xs) ys x v = ap (λ t. y ∷ t) (set-middle xs ys x v)

-- The end of a line becomes the terminator of its string.
pub remove_lf-line :
    (line others : Bytes)
    → NoZero line
    → remove_lf ((line ++ lf ∷ []) ++ 0 ∷ others) ≡ ok (line ++ 0 ∷ (0 ∷ others))
unfolding remove_lf
remove_lf-line line others h =
    let size : length (line ++ lf ∷ []) ≡ suc (length line) =
      omega (arith, length-append line (lf ∷ [])) in
    let before : length (line ++ lf ∷ []) - 1 ≡ length line = omega (arith, size) in
    rw (
      c_string-terminated (line ++ lf ∷ []) others (NoZero-snoc line lf h (omega arith)),
      ◌>>=◌,
      lt→ltb 0 (length (line ++ lf ∷ [])) (omega (arith, size)),
      before,
      at-last line lf,
      append_assoc line (lf ∷ []) (0 ∷ others),
      set-middle line (0 ∷ others) lf 0,
    )

pub read_line_to_buffer-line :
    (line rest buff : Bytes)
    → IsLine line
    → line_buff ≤ length buff
    → read_line_to_buffer (line ++ lf ∷ rest) buff line_buff
      ≡ ok (some (rest, line ++ 0 ∷ (0 ∷ drop (length line + 2) buff)))
unfolding read_line_to_buffer store_string
read_line_to_buffer-line line rest buff h room =
    let size : length (line ++ lf ∷ []) ≡ length line + 1 =
      omega (arith, length-append line (lf ∷ [])) in
    let next : length line + 1 + 1 ≡ length line + 2 = omega arith in
    rw (
      fgets-line line_buff line rest h.no_lf (omega (arith, h.short)),
      read_line_to_buffer,
      lt→ltb (length (line ++ lf ∷ [])) (length buff) (omega (arith, size, h.short)),
      ◌>>=◌,
      remove_lf-line line (drop (length (line ++ lf ∷ []) + 1) buff) h.no_zero,
      size,
      next,
    )
