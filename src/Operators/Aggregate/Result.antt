-- ===== src/Operators/Aggregate/Result.antt =====
-- `aggregateGetTuple` hands out one tuple, in which the caller reads the aggregate.
use native.Mathlib.Nat.{zero-add}
use squel.Common.{
  Bytes, List, [], ap, arith, at, decode-encode, drop, encode, false, inl, inr, length, le→leb, map,
  ok, refl, set, suc, to_signed, to_unsigned, true, zero, ℕ, ◌++◌, ◌<◌, ◌>>=◌, ◌^◌, ◌∷◌, ◌≡◌, ◌≤◌,
  ◌⊎◌,
}
use squel.Common.Int.{ℤ}
use squel.Planner.Plan.{AggregationType, tuple_size}
use squel.Executor.Tuple.{
  Row, Tuple, TupleType, base, column, get_tuple_long_col_by_index, init_tuple_of_size, is_long,
  long_column, mark_tuple_as_empty, read_long, tpl_delimited, tpl_tdb,
}
use squel.Operators.Source.{Source, Yields}
use squel.Operators.Aggregate.{AggState, aggregate_get_tuple, finish, start_result, write_result}
use squel.Operators.Aggregate.Fold.{Observes, agg_loop-fold, fold}

-- The caller's tuple has room for a `long`, and its arrays are not empty.
pub record HasRoom (tpl : Tuple) : Type 0 where
  pub block : 8 ≤ length tpl.block
  pub casted : 0 < length tpl.casted
  pub offsets : 0 < length tpl.offsets
  pub longs : 0 < length tpl.longs

to_unsigned-lt : (v : ℤ) → is_long v ≡ true → to_unsigned v < 2 ^ 64
to_unsigned-lt v h = ground arith

to_signed-to_unsigned : (v : ℤ) → is_long v ≡ true → to_signed (to_unsigned v) ≡ v
to_signed-to_unsigned v h = ground arith

read_long-encode :
    (v : ℤ) (rest : Bytes) → is_long v ≡ true → read_long (encode 8 (to_unsigned v) ++ rest) ≡ ok v
unfolding read_long
read_long-encode v rest h =
    rw (decode-encode 8 (to_unsigned v) rest (to_unsigned-lt v h))
      (ap ok (to_signed-to_unsigned v h))

at-set_first {ℓ} : {A : Type ℓ} (xs : List A) (a : A) → 0 < length xs → at (set xs 0 a) 0 ≡ ok a
unfolding at
at-set_first [] a h = elim h [ ]
at-set_first (x ∷ xs) a h = refl

-- The tuple that `write_result` leaves.
abbrev result_tuple : ℤ → Tuple → Tuple
result_tuple v tpl = record tpl {
  block = encode 8 (to_unsigned v) ++ drop 8 tpl.block;
  long_count = 1;
  casted = set tpl.casted 0 true;
  offsets = set tpl.offsets 0 0;
  longs = set tpl.longs 0 v;
}

TupleType-cases : (t : TupleType) → (t ≡ tpl_tdb) ⊎ (t ≡ tpl_delimited)
TupleType-cases tpl_tdb = inl refl
TupleType-cases tpl_delimited = inr refl

column_first :
    (v : ℤ) (tpl : Tuple)
    → HasRoom tpl
    → column (result_tuple v tpl) 0 ≡ ok (encode 8 (to_unsigned v) ++ drop 8 tpl.block)
unfolding column
column_first v tpl room = rw (
  at-set_first tpl.offsets 0 room.offsets,
  ◌>>=◌,
  le→leb 0 (length (result_tuple v tpl).block) (omega arith),
)

long_column_first :
    (v : ℤ) (tpl : Tuple)
    → is_long v ≡ true
    → HasRoom tpl
    → long_column (result_tuple v tpl) 0 ≡ ok (v, result_tuple v tpl)
unfolding long_column
long_column_first v tpl fits room = elim (TupleType-cases tpl.type) [
  | inl e ↦ rw (e, column_first v tpl room, ◌>>=◌, read_long-encode v (drop 8 tpl.block) fits)
  | inr e ↦ rw (
    e,
    at-set_first tpl.casted true room.casted,
    at-set_first tpl.offsets 0 room.offsets,
    at-set_first tpl.longs v room.longs,
  )
]

-- The number at place 0 of the tuple that was written, as a caller reads it.
write_result-read :
    (v : ℤ) (tpl : Tuple)
    → is_long v ≡ true
    → HasRoom tpl
    → (write_result v (base tpl) ≡ ok (base (result_tuple v tpl)))
      × (get_tuple_long_col_by_index (base (result_tuple v tpl)) 0
          ≡ ok (v, base (result_tuple v tpl)))
write_result-read v tpl fits room = (
  unfold write_result in rw (le→leb 8 (length tpl.block) room.block),
  unfold get_tuple_long_col_by_index in rw (long_column_first v tpl fits room),
)

module _ (child : Source) {A : Type 0} (Fits : Row → Type 0) (Shows : A → Row → Type 0)
    (aggtype : AggregationType) (col : ℕ) (value : A → ℤ) where
  -- The operator's one tuple shows the number `v`, and then there are no more.
  abbrev pub Answers : ℕ → AggState child → Tuple → ℤ → Type 0
  Answers fuel st tpl v =
      (out : Tuple) × (st' : AggState child) × (aggregate_get_tuple child aggtype col fuel st
          (base tpl)
        ≡ ok (base out, st'))
      × (get_tuple_long_col_by_index (base out) 0 ≡ ok (v, base out))
      × ((n : ℕ) (row : Row)
          → aggregate_get_tuple child aggtype col n st' row ≡ ok (mark_tuple_as_empty row, st'))

  -- A fold that ends in `r` over all the items gives what `finish` makes of it.
  pub aggregate-Answers :
      Observes child Fits Shows aggtype col value
      → (items : List A) (fuel : ℕ) (s : child.State) (tpl : Tuple) (r v : ℤ) → length items < fuel
      → Yields child Fits Shows items s
      → Fits (base (init_tuple_of_size tuple_size))
      → HasRoom tpl
      → fold aggtype (start_result aggtype) (map value items) ≡ ok r
      → finish aggtype r (length items) ≡ ok v
      → is_long v ≡ true
      → Answers fuel (record { aggregation_done = false; child_state = s }) tpl v
  unfolding aggregate_get_tuple
  aggregate-Answers observes items zero s tpl r v h y fits room folded finished long =
      absurd (omega arith)
  aggregate-Answers observes items (suc n) s tpl r v h y fits room folded finished long =
      let (s', loop) =
        agg_loop-fold child Fits Shows aggtype col value observes items n s _ (start_result aggtype)
          0 (omega arith) (y _ fits) folded in
      let (written, read) = write_result-read v tpl long room in
      (
        result_tuple v tpl,
        record { aggregation_done = true; child_state = s' },
        rw (loop, ◌>>=◌, zero-add, finished, written),
        read,
        λ n row. refl,
      )
