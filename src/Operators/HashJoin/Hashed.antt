-- ===== src/Operators/HashJoin/Hashed.antt =====
-- The first call of hashjoin.c reads the right side into the buffer, and its places into the table.
use native.Mathlib.Nat.{add-zero}
use squel.Common.{
  Bool-cases, Bytes, List, Run, [], ap, append-nil, append_assoc, arith, bytes_eq, false,
  if◌then◌else◌, inl, inr, is_empty, length, length-append, ok, refl, suc, zero, ℕ, ◌++◌, ◌+◌, ◌<◌,
  ◌>>=◌, ◌^◌, ◌∙◌, ◌∷◌, ◌≡◌, ◌≤◌,
}
use squel.Common.Int.{}
use squel.Parser.Syntax.{NodeType}
use squel.Planner.Plan.{FilterInfo, Filters, comparison, none_left, tuple_size}
use squel.Executor.Tuple.{Row, Tuple, base, column_string}
use squel.Executor.TupleBuffer.{TupleBuffer, init_tuple_buffer, write_tuple}
use squel.Executor.TupleBuffer.Bounds.{get_tuple_from_buffer-Extended, init_tuple_buffer-IsBuffer}
use squel.Util.Hashmap.{Hashmap, init_hashmap, insert_to_hashmap, key_size, values_size}
use squel.Util.Hashmap.Multimap.{IsMap, position, slot, values}
use squel.Util.Hashmap.Operations.{init_hashmap-IsMap, insert_to_hashmap-Stored}
use squel.Operators.Source.{All, OnBase, Source}
use squel.Operators.Join.{join_buff_size}
use squel.Operators.Join.Held.{Held, Held-append, Held-snoc, as_base_empty, as_base_fits}
use squel.Operators.Join.Buffered.{
  Extended-Filled, Extended-tuples, Filled, RawFits, RightGives, slot_fits,
}
use squel.Operators.HashJoin.{as_index, collect_hashed}
use squel.Operators.HashJoin.Keys.{
  found, found-snoc, length-found, length-places, places, places-append,
}

-- Under each key, the table has the places of its items, none of them read.
pub record Lists {B : Type 0} (key_r : B → Bytes) (bs : List B) (m : Hashmap) : Type 0 where
  pub valid : IsMap m
  pub listed : (k : Bytes) → values m k ≡ places (found key_r k 0 bs)

pub record Unread (m : Hashmap) : Type 0 where
  pub placed : (k : Bytes) → position m k ≡ 0

module _ (left right : Source) (info : FilterInfo) (operator_next : NodeType)
    (left_column_count : ℕ) (ht_size : ℕ) (raw : ℕ → Tuple) {B : Type 0} (Fits : Tuple → Type 0)
    (Shows : B → Tuple → Type 0) (key_r : B → Bytes) where
  -- A key that the table can take.
  abbrev pub IsKey : B → Type 0
  IsKey b = (is_empty (key_r b) ≡ false) × (length (key_r b) < key_size)

  -- The column of the comparison reads as the key.
  abbrev pub ReadsRight : Type 0
  ReadsRight =
      (j : ℕ) × (as_index info.right_index ≡ ok j)
      × ((b : B) (t : Tuple) → Shows b t → column_string t j ≡ ok (key_r b))

  abbrev filters : Filters
  filters = comparison info operator_next none_left

  abbrev BufferFilled : List B → TupleBuffer → Type 0
  BufferFilled = Filled left right filters left_column_count raw Fits Shows

  -- One more item.
  insert-Lists :
      (done : List B) (b : B) (m : Hashmap)
      → Lists key_r done m
      → Unread m
      → IsKey b
      → length done < values_size
      → (m' : Hashmap) × (insert_to_hashmap m (key_r b) (length done) ≡ ok m')
        × Lists key_r (done ++ b ∷ []) m'
        × Unread m'
  insert-Lists done b m lists u (full, short) room =
      let few : length (values m (key_r b)) < values_size = rw (lists.listed (key_r b)) (
        omega (
          arith,
          length-places (found key_r (key_r b) 0 done),
          length-found key_r (key_r b) 0 done,
        )) in
      let (m', run, s) =
        insert_to_hashmap-Stored m (key_r b) (length done) lists.valid full short few in
      (
        m',
        run,
        record { valid = s.next.valid; listed = λ k. s.listed k ∙ one_more k },
        record { placed = λ k. s.placed k ∙ u.placed k },
      )
    where
      one_more :
          (k : Bytes)
          → (if bytes_eq (key_r b) k then values m k ++ length done ∷ [] else values m k)
            ≡ places (found key_r k 0 (done ++ b ∷ []))
      one_more k = elim (Bool-cases (bytes_eq (key_r b) k)) [
        | inl same ↦
            let e : 0 + length done ≡ length done = omega arith in
            rw
              (
                found-snoc key_r k 0 done b,
                same,
                lists.listed k,
                e,
                places-append (found key_r k 0 done) ((length done, b) ∷ []),
              )
              refl
        | inr other ↦ rw (found-snoc key_r k 0 done b, other, lists.listed k, append-nil) refl
      ]

  abbrev RightGives' : List B → Run (Row × right.State) → Type 0
  RightGives' = RightGives left right filters left_column_count raw Fits Shows

  -- The same loop, with the count written as one more.
  counted-loop :
      (n c c' more : ℕ) (m m' : Hashmap) (buff buff' : TupleBuffer) (s s' : right.State)
      → c' ≡ c + 1
      → collect_hashed left right info operator_next left_column_count ht_size raw
          (suc n)
          m
          buff
          c'
          s
        ≡ ok (m', buff', c' + more, s')
      → collect_hashed left right info operator_next left_column_count ht_size raw
          (suc n)
          m
          buff
          (c + 1)
          s
        ≡ ok (m', buff', c + suc more, s')
  counted-loop n c c' more m m' buff buff' s s' e loop =
      let shifted : c' + more ≡ c + suc more = omega (arith, e) in
      let loop' = loop ∙ ap (λ (k : ℕ). ok (m', buff', k, s')) shifted in rw e at loop'

  collect_hashed-Lists :
      RawFits left right filters left_column_count raw Fits Shows
      → ReadsRight
      → (bs done : List B) (n : ℕ) (m : Hashmap) (buff : TupleBuffer) (s : right.State)
      → All IsKey bs
      → length done + length bs ≤ values_size
      → length bs ≤ n
      → Lists key_r done m
      → Unread m
      → BufferFilled done buff
      → length buff.tuples ≡ length done
      → ((row : Row) → OnBase Fits row → RightGives' bs (right.get_tuple s row))
      → (m' : Hashmap) × (buff' : TupleBuffer) × (s' : right.State) × (collect_hashed left right
            info operator_next left_column_count ht_size raw
            (suc n)
            m
            buff
            (length done)
            s
          ≡ ok (m', buff', length done + length bs, s'))
        × Lists key_r (done ++ bs) m'
        × Unread m'
        × BufferFilled (done ++ bs) buff'
  unfolding collect_hashed
  collect_hashed-Lists rf (j, place, reads) [] done n m buff s keys room h lists u f e g =
      let (slot, run, x) = get_tuple_from_buffer-Extended (raw (length buff.tuples)) buff f.valid in
      let (r, gave, empty) =
        g (base slot.0)
          (slot_fits left right filters left_column_count raw Fits Shows rf buff slot.0 f x.slot) in
      let (t, read, _) = as_base_empty slot.0 r.0 empty in
      (
        m,
        write_tuple slot.1 (length buff.tuples) t,
        r.1,
        rw (run, ◌>>=◌, gave, read, empty, add-zero),
        rw append-nil lists,
        u,
        rw append-nil (
            Extended-Filled left right filters left_column_count raw Fits Shows done buff slot t f x
              (Held-append Shows done buff.tuples (t ∷ []) f.held)),
      )
  collect_hashed-Lists rf rr (b ∷ bs) done zero m buff s keys room h lists u f e g = elim h [ ]
  collect_hashed-Lists rf (j, place, reads) (b ∷ bs) done (suc n) m buff s keys room h lists u f e
        g =
      let (slot, run, x) = get_tuple_from_buffer-Extended (raw (length buff.tuples)) buff f.valid in
      let (r, gave, more, fits, shows, rest) =
        g (base slot.0)
          (slot_fits left right filters left_column_count raw Fits Shows rf buff slot.0 f x.slot) in
      let (t, is_base, read, fits') = as_base_fits Fits slot.0 r.0 fits in
      let buff' = write_tuple slot.1 (length buff.tuples) t in
      let shows' : Shows b t = rw is_base at shows in
      let (m', put, lists', u') = insert-Lists done b m lists u keys.0 (omega arith) in
      let longer : length (done ++ b ∷ []) ≡ length done + 1 =
        omega (arith, length-append done (b ∷ [])) in
      let (m'', buff'', s', loop, lists'', u'', filled) =
        collect_hashed-Lists rf (j, place, reads) bs (done ++ b ∷ []) n m' buff' r.1 keys.1
          (omega (arith, longer)) (omega arith) lists' u'
          (Extended-Filled left right filters left_column_count raw Fits Shows (done ++ b ∷ []) buff
            slot t f x (Held-snoc Shows done buff.tuples b t f.held e shows'))
          (rw (Extended-tuples left right filters left_column_count raw Fits Shows buff slot t x)
            (omega (arith, longer, length-append buff.tuples (t ∷ []))))
          rest in
      (
        m'',
        buff'',
        s',
        rw (run, ◌>>=◌, gave, read, more, place, reads b t shows', put)
            (counted-loop n (length done) (length (done ++ b ∷ [])) (length bs) m' m'' buff' buff''
              r.1 s' longer loop),
        rw append_assoc at lists'',
        u'',
        rw append_assoc at filled,
      )

  -- With fuel above the number of right items, the table has the places of them all, and the buffer
  -- their tuples.
  pub collect_hashed-whole :
      RawFits left right filters left_column_count raw Fits Shows
      → ReadsRight
      → (bs : List B) (fuel : ℕ) (s : right.State) → All IsKey bs
      → length bs ≤ values_size
      → length bs < fuel
      → 0 < ht_size
      → ht_size ≤ 2 ^ 32
      → ((row : Row) → OnBase Fits row → RightGives' bs (right.get_tuple s row))
      → (m : Hashmap) × (buff : TupleBuffer) × (s' : right.State) × (collect_hashed left right info
            operator_next left_column_count ht_size raw fuel
            (init_hashmap ht_size)
            (init_tuple_buffer join_buff_size tuple_size)
            0
            s
          ≡ ok (m, buff, length bs, s'))
        × Lists key_r bs m
        × Unread m
        × Held Shows bs buff.tuples
  collect_hashed-whole rf rr bs zero s keys room h pos_size size g = absurd (omega arith)
  collect_hashed-whole rf rr bs (suc n) s keys room h pos_size size g =
      let (valid, empty) = init_hashmap-IsMap ht_size pos_size size in
      let start : BufferFilled [] (init_tuple_buffer join_buff_size tuple_size) = record {
        valid = init_tuple_buffer-IsBuffer join_buff_size tuple_size (omega arith);
        data_size = unfold init_tuple_buffer in refl;
        held = tt;
      } in
      let (m, buff, s', run, lists, u, filled) =
        collect_hashed-Lists rf rr bs [] n (init_hashmap ht_size)
          (init_tuple_buffer join_buff_size tuple_size) s keys (omega arith) (omega arith)
          (record { valid = valid; listed = λ k. (empty k).0 })
          (record { placed = λ k. (empty k).1 }) start (unfold init_tuple_buffer in refl) g in
      (m, buff, s', run ∙ ap (λ (k : ℕ). ok (m, buff, k, s')) (omega arith), lists, u, filled.held)
