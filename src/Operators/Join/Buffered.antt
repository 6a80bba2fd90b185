-- ===== src/Operators/Join/Buffered.antt =====
-- The first call of join.c reads the whole right side into the buffer, in its order.
use native.Mathlib.Nat.{add-zero}
use squel.Common.{
  List, Run, [], ap, append-nil, append_assoc, arith, length, length-append, length-set, ok, refl,
  suc, zero, ℕ, ◌++◌, ◌+◌, ◌<◌, ◌>>=◌, ◌∙◌, ◌∷◌, ◌≡◌, ◌≤◌,
}
use squel.Planner.Plan.{Filters, tuple_size}
use squel.Executor.Tuple.{Row, Tuple, base}
use squel.Executor.TupleBuffer.{TupleBuffer, init_tuple_buffer, write_tuple}
use squel.Executor.TupleBuffer.Bounds.{
  Extended, IsBuffer, get_tuple_from_buffer-Extended, init_tuple_buffer-IsBuffer,
}
use squel.Operators.Source.{Gives, OnBase, Source}
use squel.Operators.Join.{collect, join_buff_size}
use squel.Operators.Join.Held.{Held, Held-append, Held-snoc, as_base_empty, as_base_fits, set_last}

length-snoc {ℓ κ} :
    {A : Type ℓ} {B : Type κ} (xs : List A) (ys : List B) (x : A) (y : B)
    → length xs ≡ length ys
    → length (xs ++ x ∷ []) ≡ length (ys ++ y ∷ [])
length-snoc xs ys x y e = omega (arith, length-append xs (x ∷ []), length-append ys (y ∷ []))

module _ (left right : Source) (filters : Filters) (left_column_count : ℕ) (raw : ℕ → Tuple)
    {B : Type 0} (Fits : Tuple → Type 0) (Shows : B → Tuple → Type 0) where
  -- The right side fills an uninitialised slot as it would any tuple.
  abbrev pub RawFits : Type 0
  RawFits = (i : ℕ) → Fits (record (raw i) { size = tuple_size })

  abbrev pub RightGives : List B → Run (Row × right.State) → Type 0
  RightGives = Gives right (OnBase Fits) (λ b. OnBase (Shows b))

  pub record Filled (bs : List B) (buff : TupleBuffer) : Type 0 where
    pub valid : IsBuffer buff
    pub data_size : buff.tuple_data_size ≡ tuple_size
    pub held : Held Shows bs buff.tuples

  pub slot_fits :
      RawFits
      → (buff : TupleBuffer) (slot : Tuple) {done : List B} → Filled done buff
      → slot ≡ record (raw (length buff.tuples)) { size = buff.tuple_data_size }
      → Fits slot
  slot_fits rf buff slot f e = rw (e, f.data_size) (rf (length buff.tuples))

  -- The buffer after the slot at its end was handed out and filled.
  pub Extended-tuples :
      (buff : TupleBuffer) (slot : Tuple × TupleBuffer) (t : Tuple)
      → Extended (raw (length buff.tuples)) buff slot
      → (write_tuple slot.1 (length buff.tuples) t).tuples ≡ buff.tuples ++ t ∷ []
  unfolding write_tuple
  Extended-tuples buff slot t x = rw x.slots (set_last buff.tuples slot.0 t)

  pub Extended-Filled :
      (bs : List B) {done : List B} (buff : TupleBuffer) (slot : Tuple × TupleBuffer) (t : Tuple)
      → Filled done buff
      → Extended (raw (length buff.tuples)) buff slot
      → Held Shows bs (buff.tuples ++ t ∷ [])
      → Filled bs (write_tuple slot.1 (length buff.tuples) t)
  Extended-Filled bs buff slot t f x h = record {
    valid =
        unfold write_tuple in
        record {
          below = rw (length-set slot.1.tuples (length buff.tuples) t) x.valid.below;
          placed = rw (length-set slot.1.tuples (length buff.tuples) t) x.valid.placed;
        };
    data_size = unfold write_tuple in x.data_size ∙ f.data_size;
    held = rw (Extended-tuples buff slot t x) h;
  }

  pub collect-Filled :
      RawFits
      → (bs done : List B) (n : ℕ) (buff : TupleBuffer) (counted : ℕ) (s : right.State)
      → length bs ≤ n
      → Filled done buff
      → length buff.tuples ≡ length done
      → ((row : Row) → OnBase Fits row → RightGives bs (right.get_tuple s row))
      → (buff' : TupleBuffer) × (s' : right.State) × (collect left right filters left_column_count
            raw
            (suc n)
            buff
            counted
            s
          ≡ ok (buff', counted + length bs, s'))
        × Filled (done ++ bs) buff'
  unfolding collect
  collect-Filled rf [] done n buff counted s h f e g =
      let (slot, run, x) = get_tuple_from_buffer-Extended (raw (length buff.tuples)) buff f.valid in
      let (r, gave, empty) = g (base slot.0) (slot_fits rf buff slot.0 f x.slot) in
      let (t, read, _) = as_base_empty slot.0 r.0 empty in
      (
        write_tuple slot.1 (length buff.tuples) t,
        r.1,
        rw (run, ◌>>=◌, gave, read, empty, add-zero),
        rw append-nil (
            Extended-Filled done buff slot t f x
              (Held-append Shows done buff.tuples (t ∷ []) f.held)),
      )
  collect-Filled rf (b ∷ bs) done zero buff counted s h f e g = elim h [ ]
  collect-Filled rf (b ∷ bs) done (suc n) buff counted s h f e g =
      let (slot, run, x) = get_tuple_from_buffer-Extended (raw (length buff.tuples)) buff f.valid in
      let (r, gave, more, fits, shows, rest) =
        g (base slot.0) (slot_fits rf buff slot.0 f x.slot) in
      let (t, is_base, read, fits') = as_base_fits Fits slot.0 r.0 fits in
      let buff' = write_tuple slot.1 (length buff.tuples) t in
      let shows' : Shows b t = rw is_base at shows in
      let (buff'', s', loop, filled) =
        collect-Filled rf bs (done ++ b ∷ []) n buff' (counted + 1) r.1 (omega arith)
          (Extended-Filled (done ++ b ∷ []) buff slot t f x
            (Held-snoc Shows done buff.tuples b t f.held e shows'))
          (rw (Extended-tuples buff slot t x) (length-snoc buff.tuples done t b e)) rest in
      (
        buff'',
        s',
        rw (run, ◌>>=◌, gave, read, more) (loop ∙ ap (λ k. ok (buff'', k, s')) (omega arith)),
        rw append_assoc at filled,
      )

  -- With fuel above the number of right items, the buffer holds them all and counts them.
  pub collect_all :
      RawFits
      → (bs : List B) (fuel : ℕ) (s : right.State) → length bs < fuel
      → ((row : Row) → OnBase Fits row → RightGives bs (right.get_tuple s row))
      → (buff : TupleBuffer) × (s' : right.State) × (collect left right filters left_column_count
            raw fuel
            (init_tuple_buffer join_buff_size tuple_size)
            0
            s
          ≡ ok (buff, length bs, s'))
        × Filled bs buff
  collect_all rf bs zero s h g = absurd (omega arith)
  collect_all rf bs (suc n) s h g =
      let start : Filled [] (init_tuple_buffer join_buff_size tuple_size) = record {
        valid = init_tuple_buffer-IsBuffer join_buff_size tuple_size (omega arith);
        data_size = unfold init_tuple_buffer in refl;
        held = tt;
      } in
      let (buff, s', run, filled) =
        collect-Filled rf bs [] n (init_tuple_buffer join_buff_size tuple_size) 0 s (omega arith)
          start (unfold init_tuple_buffer in refl) g in
      (buff, s', run ∙ ap (λ k. ok (buff, k, s')) (omega arith), filled)
