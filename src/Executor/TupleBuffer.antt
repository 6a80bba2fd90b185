-- ===== src/Executor/TupleBuffer.antt =====
-- src/executor/tuplebuffer.c: the growing array that keeps the tuples of a join's right side.
pub mod Bounds
use squel.Common.{
  Bool, List, Run, [], at, defined, if◌then◌else◌, leb, length, ltb, not, ok, out_of_bounds, set, ℕ,
  ◌&&◌, ◌*◌, ◌++◌, ◌+◌, ◌-◌, ◌>>=◌, ◌>>◌, ◌∷◌,
}
use squel.Executor.Tuple.{Tuple}

-- `tuples` are the slots handed out so far, so their number is `size`. The bytes of each are those
-- that its `data` points to; `cursor` is where the next slot's bytes begin.
pub record TupleBuffer : Type 0 where
  pub tuples : List Tuple
  pub capacity : ℕ
  pub tuple_data_size : ℕ
  pub cursor : ℕ

-- `initTupleBuffer`; allocation is taken to succeed.
unfoldable pub init_tuple_buffer : ℕ → ℕ → TupleBuffer
init_tuple_buffer p_capacity p_tuple_size = record {
  tuples = [];
  capacity = p_capacity;
  tuple_data_size = p_tuple_size;
  cursor = 0;
}

-- `resizeTupleBuffer`: the slots keep their contents.
unfoldable pub resize_tuple_buffer : TupleBuffer → TupleBuffer
resize_tuple_buffer buff = record buff { capacity = buff.capacity * 2 }

-- `buff->size >= buff->capacity - 1`, in a type where 0 - 1 is the largest number.
unfoldable pub is_full : TupleBuffer → Bool
is_full buff = ltb 0 buff.capacity && leb (buff.capacity - 1) (length buff.tuples)

-- The first lines of `getTupleFromBuffer`.
unfoldable pub make_room : TupleBuffer → TupleBuffer
unfolding is_full resize_tuple_buffer
make_room buff = if is_full buff then resize_tuple_buffer buff else buff

-- The other lines. `raw` is what the uninitialised slot and its bytes happen to hold; the slot and
-- its bytes have to lie in the two arrays.
unfoldable pub take_slot : Tuple → TupleBuffer → Run (Tuple × TupleBuffer)
take_slot raw buff = do
  let tpl = record raw { size = buff.tuple_data_size }
  defined (ltb (length buff.tuples) buff.capacity) out_of_bounds
  defined (leb (buff.cursor + buff.tuple_data_size) (buff.capacity * buff.tuple_data_size))
      out_of_bounds
  ok (
    tpl,
    record buff { tuples = buff.tuples ++ tpl ∷ []; cursor = buff.cursor + buff.tuple_data_size },
  )

-- `getTupleFromBuffer`
unfoldable pub get_tuple_from_buffer : Tuple → TupleBuffer → Run (Tuple × TupleBuffer)
unfolding make_room take_slot
get_tuple_from_buffer raw buff = take_slot raw (make_room buff)

-- `getTupleByIndex`, which first points the tuple to its bytes again.
unfoldable pub get_tuple_by_index : TupleBuffer → ℕ → Run Tuple
unfolding at
get_tuple_by_index buff idx = at buff.tuples idx

-- What a caller changes in the tuple that it was given a pointer to.
unfoldable pub write_tuple : TupleBuffer → ℕ → Tuple → TupleBuffer
write_tuple buff idx tpl = record buff { tuples = set buff.tuples idx tpl }

-- `isTupleBufferEmpty`
unfoldable pub is_tuple_buffer_empty : TupleBuffer → Bool
is_tuple_buffer_empty buff = not (ltb 0 (length buff.tuples))
