-- ===== src/Operators/ScanTdb/Fill.antt =====
-- `fillBuffer` reads a block of whole records, or the end of the file.
use native.Mathlib.Nat.{mul-add-div_right, mul-div_left, div-eq_of_lt, suc-mul, mul-le-mul_right}
use mathlib.Core.Path.{subst}
use squel.Common.{
  Bytes, List, Run, [], ap, append-nil, append_assoc, arith, drop, drop-length-append, drop_all,
  false, inl, inr, length, length-append, le→leb, ltb, lt→ltb, ok, refl, some, suc, sym, take,
  take-append, true, zero, ℕ, ◌*◌, ◌++◌, ◌+◌, ◌/◌, ◌<◌, ◌>>=◌, ◌||◌, ◌∙◌, ◌∷◌, ◌≡◌, ◌≤◌, ◌⊎◌,
}
use squel.Io.Files.{Files}
use squel.Executor.Tuple.{max_cols}
use squel.Planner.Result.{ColumnMetadata}
use squel.Operators.Source.{}
use squel.Operators.ScanTdb.{ScanState, copy_bytes, fill_buffer, opened}
use squel.Operators.ScanTdb.Layout.{total_size}
use squel.Operators.ScanTdb.Order.{
  AllSized, AllSized-append, AllSized-flip_onto, blocks_reversed, blocks_reversed-full,
  blocks_reversed-short, flatten, flip_onto, length-flatten, length-flip_onto, read_order, split,
  stacked, stacked-flip_onto,
}

take_all {ℓ} : {A : Type ℓ} (n : ℕ) (xs : List A) → length xs ≤ n → take n xs ≡ xs
take_all zero [] h = refl
take_all zero (x ∷ xs) h = absurd (omega arith)
take_all (suc n) [] h = refl
take_all (suc n) (x ∷ xs) h = ap (λ t. x ∷ t) (take_all n xs (omega arith))

flatten-append {ℓ} :
    {A : Type ℓ} (xs ys : List (List A)) → flatten (xs ++ ys) ≡ flatten xs ++ flatten ys
flatten-append [] ys = refl
flatten-append (x ∷ xs) ys =
    ap (λ t. x ++ t) (flatten-append xs ys) ∙ sym (append_assoc x (flatten xs) (flatten ys))

block-lt : (k n size p : ℕ) → k < n → p < size → k * size + p < n * size
block-lt k n size p h h' =
    omega (arith, suc-mul k size, mul-le-mul_right {m = suc k} {n = n} size (omega arith))

-- The bytes of a record at the start of others are copied to the start of a block.
pub copy_bytes-front :
    (n : ℕ) (r bytes block : Bytes)
    → length r ≡ n
    → n ≤ length block
    → copy_bytes n (r ++ bytes) block ≡ ok (r ++ drop n block)
unfolding copy_bytes
copy_bytes-front n r bytes block e h = rw (
  ← e,
  le→leb (length r) (length (r ++ bytes)) (omega (arith, length-append r bytes)),
  le→leb (length r) (length block) (omega (arith, e)),
  take-append r bytes,
)

module _ (files : Files) (path : Bytes) (columns : List ColumnMetadata) (record_size m : ℕ)
    (wide : 0 < record_size) (whole : total_size columns ≡ record_size)
    (few : length columns ≤ max_cols) (left_over : Bytes)
    (partial : length left_over < record_size) where
  abbrev pub buffer_size : ℕ
  buffer_size = suc m * record_size

  -- Either the file has been read, or `xs` and then `left_over` are what is left of it.
  abbrev pub Ahead : List Bytes → ScanState → Type 0
  Ahead xs s =
      ((s.file_read ≡ true) × (xs ≡ []))
      ⊎ ((s.file_read ≡ false)
          × (opened files path columns record_size buffer_size s ≡ ok (flatten xs ++ left_over)))

  -- The records of the buffer that are left are those of `front`, and then `xs` follow.
  pub record Ready (front xs : List Bytes) (s : ScanState) : Type 0 where
    pub tail : Bytes
    pub buffer : s.buffer ≡ stacked front ++ tail
    pub count : s.records_in_buffer ≡ length front
    pub front_sized : AllSized record_size front
    pub sized : AllSized record_size xs
    pub ahead : Ahead xs s
    pub live : s.freed ≡ false

  abbrev pub fill : ScanState → Run ScanState
  fill s = fill_buffer files path columns record_size buffer_size s

  -- A block was read: either it is not empty, or the file has been read.
  pub record Filled (xs : List Bytes) (s : ScanState) : Type 0 where
    pub front : List Bytes
    pub others : List Bytes
    pub filled : ScanState
    pub run : fill s ≡ ok filled
    pub ready : Ready front others filled
    pub same : front ++ read_order (suc m) others ≡ read_order (suc m) xs
    pub progress : (filled.file_read ≡ true) ⊎ (length front ≡ suc m)

  -- What `fillBuffer` leaves, of a file that starts with `bytes` and goes on with `rest`.
  abbrev pub after : Bytes → Bytes → ScanState → ScanState
  after bytes rest s = record s {
    rest = some rest;
    buffer = bytes;
    cursor = s.cursor + length bytes;
    records_in_buffer = length bytes / record_size;
    file_read = s.file_read || ltb (length bytes) buffer_size;
  }

  fill-after :
      (s : ScanState) (file bytes rest : Bytes)
      → opened files path columns record_size buffer_size s ≡ ok file
      → take buffer_size file ≡ bytes
      → drop buffer_size file ≡ rest
      → fill s ≡ ok (after bytes rest s)
  unfolding fill_buffer
  fill-after s file bytes rest open' took left =
      rw (open', ◌>>=◌, took, left, lt→ltb 0 record_size wide)

  -- The file ends in this block.
  fill_short :
      (xs : List Bytes) (s : ScanState)
      → s.freed ≡ false
      → opened files path columns record_size buffer_size s ≡ ok (flatten xs ++ left_over)
      → AllSized record_size xs
      → length xs < suc m
      → Filled xs s
  unfolding blocks_reversed
  fill_short xs s live open' sized short =
      let file = flatten xs ++ left_over in
      let total : length file ≡ length xs * record_size + length left_over =
        omega (arith, length-append (flatten xs) left_over, length-flatten record_size xs sized) in
      let below : length file < buffer_size =
        rw total (block-lt (length xs) (suc m) record_size (length left_over) short partial) in
      record {
        front = flip_onto xs [];
        others = [];
        filled = after file [] s;
        run =
            fill-after s file file [] open' (take_all buffer_size file (omega arith))
              (drop_all buffer_size file (omega arith));
        ready = record {
          tail = left_over;
          buffer = ap (λ t. t ++ left_over) (sym (stacked-flip_onto xs []));
          count =
              rw
                (total, mul-add-div_right wide (length xs) (length left_over), div-eq_of_lt partial)
                (omega (arith, length-flip_onto xs []));
          front_sized = AllSized-flip_onto record_size xs [] sized tt;
          sized = tt;
          ahead = inl (rw (lt→ltb (length file) buffer_size below) (ground arith), refl);
          live = live;
        };
        same =
            append-nil (flip_onto xs [])
            ∙ sym (blocks_reversed-short (suc m) [] xs (suc m) (omega arith));
        progress = inl (rw (lt→ltb (length file) buffer_size below) (ground arith));
      }

  fill_full :
      (f ys : List Bytes) (s : ScanState)
      → s.freed ≡ false
      → s.file_read ≡ false
      → opened files path columns record_size buffer_size s ≡ ok (flatten (f ++ ys) ++ left_over)
      → AllSized record_size (f ++ ys)
      → length f ≡ suc m
      → Filled (f ++ ys) s
  fill_full f ys s live unread open' sized e =
      let (front_sized, others_sized) = AllSized-append record_size f ys sized in
      let rest = flatten ys ++ left_over in
      let size : length (flatten f) ≡ buffer_size =
        length-flatten record_size f front_sized ∙ ap (λ (k : ℕ). k * record_size) e in
      let file : flatten (f ++ ys) ++ left_over ≡ flatten f ++ rest =
        rw (flatten-append f ys) (append_assoc (flatten f) (flatten ys) left_over) in
      let unread' : (s.file_read || ltb (length (flatten f)) buffer_size) ≡ false =
        rw (unread, size) (ground arith) in
      record {
        front = flip_onto f [];
        others = ys;
        filled = after (flatten f) rest s;
        run =
            fill-after s (flatten f ++ rest) (flatten f) rest (open' ∙ ap ok file)
              (rw (← size) (take-append (flatten f) rest))
              (rw (← size) (drop-length-append (flatten f) rest));
        ready = record {
          tail = [];
          buffer = sym (append-nil (stacked (flip_onto f [])) ∙ stacked-flip_onto f []);
          count = rw (size, mul-div_left (suc m) wide) (omega (arith, length-flip_onto f [], e));
          front_sized = AllSized-flip_onto record_size f [] front_sized tt;
          sized = others_sized;
          ahead = inr (unread', unfold opened in refl);
          live = live;
        };
        same = sym (rw e at (blocks_reversed-full m [] f ys));
        progress = inr (omega (arith, length-flip_onto f [], e));
      }

  pub fill-Filled :
      (xs : List Bytes) (s : ScanState)
      → s.freed ≡ false
      → s.file_read ≡ false
      → opened files path columns record_size buffer_size s ≡ ok (flatten xs ++ left_over)
      → AllSized record_size xs
      → Filled xs s
  fill-Filled xs s live unread open' sized = elim (split (suc m) xs) [
    | inl short ↦ fill_short xs s live open' sized short
    | inr (f, ys, e, e') ↦
        subst (λ (t : List Bytes). Filled t s) (sym e')
          (fill_full f ys s live unread (rw e' at open') (rw e' at sized) e)
  ]
