-- ===== src/Executor/TupleBuffer/Bounds.antt =====
-- The slots of tuplebuffer.c and their bytes stay within the arrays.
use mathlib.Core.Path.{ap₂}
use squel.Common.{
  [], ap, arith, length, length-append, le→leb, lt→ltb, ok, sym, ℕ, ◌*◌, ◌++◌, ◌+◌, ◌<◌, ◌∙◌, ◌∷◌,
  ◌≡◌, ◌≤◌,
}
use squel.Executor.Tuple.{Tuple}
use squel.Executor.TupleBuffer.{
  TupleBuffer, get_tuple_from_buffer, init_tuple_buffer, make_room, take_slot,
}

pub record IsBuffer (buff : TupleBuffer) : Type 0 where
  pub below : length buff.tuples < buff.capacity
  pub placed : buff.cursor ≡ length buff.tuples * buff.tuple_data_size

pub init_tuple_buffer-IsBuffer : (n m : ℕ) → 0 < n → IsBuffer (init_tuple_buffer n m)
unfolding init_tuple_buffer
init_tuple_buffer-IsBuffer n m h = record { below = h; placed = omega arith }

-- What a slot that was handed out is, and the buffer behind it.
pub record Extended (raw : Tuple) (buff : TupleBuffer) (r : Tuple × TupleBuffer) : Type 0 where
  pub valid : IsBuffer r.1
  pub slot : r.0 ≡ record raw { size = buff.tuple_data_size }
  pub slots : r.1.tuples ≡ buff.tuples ++ r.0 ∷ []
  pub data_size : r.1.tuple_data_size ≡ buff.tuple_data_size
  pub grown : buff.capacity ≤ r.1.capacity

fits_bytes : (n c d : ℕ) → n < c → n * d + d ≤ c * d
fits_bytes n c d h = grind arith

-- After making room a further slot fits, with one to spare.
make_room-fits :
    (buff : TupleBuffer)
    → IsBuffer buff
    → (length (make_room buff).tuples + 1 < (make_room buff).capacity)
      × ((make_room buff).tuples ≡ buff.tuples)
      × ((make_room buff).tuple_data_size ≡ buff.tuple_data_size)
      × ((make_room buff).cursor ≡ buff.cursor)
      × (buff.capacity ≤ (make_room buff).capacity)
unfolding make_room
make_room-fits buff v = ground arith

-- What `take_slot` hands out, and leaves behind.
abbrev slot_of : Tuple → TupleBuffer → Tuple
slot_of raw buff = record raw { size = buff.tuple_data_size }

abbrev after : Tuple → TupleBuffer → TupleBuffer
after raw buff = record buff {
  tuples = buff.tuples ++ slot_of raw buff ∷ [];
  cursor = buff.cursor + buff.tuple_data_size;
}

take_slot-run :
    (raw : Tuple) (buff : TupleBuffer)
    → IsBuffer buff
    → take_slot raw buff ≡ ok (slot_of raw buff, after raw buff)
unfolding take_slot
take_slot-run raw buff v =
    let bytes = fits_bytes (length buff.tuples) buff.capacity buff.tuple_data_size v.below in
    rw (
      lt→ltb (length buff.tuples) buff.capacity v.below,
      le→leb (buff.cursor + buff.tuple_data_size) (buff.capacity * buff.tuple_data_size)
          (rw v.placed bytes),
    )

after-IsBuffer :
    (raw : Tuple) (buff : TupleBuffer)
    → IsBuffer buff
    → length buff.tuples + 1 < buff.capacity
    → IsBuffer (after raw buff)
after-IsBuffer raw buff v h =
    let longer = length-append buff.tuples (slot_of raw buff ∷ []) in
    record { below = omega (arith, longer); placed = rw longer (omega (arith, v.placed)) }

-- A buffer whose slots lie in its array hands out one more, with its size set, behind the others,
-- whatever the fill: the array has room for it or is made to, and no slot moves.
pub get_tuple_from_buffer-Extended :
    (raw : Tuple) (buff : TupleBuffer)
    → IsBuffer buff
    → (r : Tuple × TupleBuffer) × (get_tuple_from_buffer raw buff ≡ ok r) × Extended raw buff r
get_tuple_from_buffer-Extended raw buff v =
    let (fits, tuples, data_size, cursor, grown) = make_room-fits buff v in
    let b = make_room buff in
    let valid : IsBuffer b = record {
      below = omega arith;
      placed = cursor ∙ v.placed ∙ ap₂ (λ n m. n * m) (ap length (sym tuples)) (sym data_size);
    } in
    (
      (slot_of raw b, after raw b),
      unfold get_tuple_from_buffer in take_slot-run raw b valid,
      record {
        valid = after-IsBuffer raw b valid fits;
        slot = ap (λ n. record raw { size = n }) data_size;
        slots = ap (λ ts. ts ++ slot_of raw b ∷ []) tuples;
        data_size = data_size;
        grown = grown;
      },
    )
