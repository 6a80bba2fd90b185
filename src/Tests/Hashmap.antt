-- ===== src/Tests/Hashmap.antt =====
-- The laws of hashmap.c and tuplebuffer.c at a table of eight buckets and a buffer of four slots.
use squel.Common.{Bytes, [], arith, bytes_eq, ok, refl, ℕ, ◌∷◌, ◌≡◌}
use squel.Util.Hashmap.{
  Hashmap, MapNode, get_value_from_hashmap, hash_loop, init_hashmap, insert_to_hashmap,
  is_in_hashmap, last, link, reset_cursor, write_bucket,
}
use squel.Util.Hashmap.Nodes.{IsNode, find_node}
use squel.Util.Hashmap.Multimap.{IsMap, position, slot, values, write-IsMap}
use squel.Util.Hashmap.Operations.{
  IsNext, Read, Restarted, Stored, get_value_from_hashmap-Read, init_hashmap-IsMap,
  insert_to_hashmap-Stored, insert_to_hashmap_empty, is_in_hashmap-unread, reset_cursor-Restarted,
  unread,
}
use squel.Executor.Tuple.{Tuple, init_tuple_of_size}
use squel.Executor.TupleBuffer.{TupleBuffer, get_tuple_from_buffer, init_tuple_buffer}
use squel.Executor.TupleBuffer.Bounds.{
  Extended, get_tuple_from_buffer-Extended, init_tuple_buffer-IsBuffer,
}

abbrev empty_map : Hashmap
empty_map = init_hashmap 8

init_hashmap-IsMap_example :
    IsMap empty_map × ((j : Bytes) → (values empty_map j ≡ []) × (position empty_map j ≡ 0))
init_hashmap-IsMap_example = init_hashmap-IsMap 8 (omega arith) (omega arith)

-- Two keys that share a bucket: 'a' in the table, and 'i' behind it.
abbrev key_a : Bytes
key_a = 97 ∷ []

abbrev key_i : Bytes
key_i = 105 ∷ []

abbrev node : Bytes → MapNode
node key = record { key = key; values = 3 ∷ 4 ∷ []; cursor = 1 }

abbrev two_keys : Hashmap
two_keys = write_bucket empty_map (slot empty_map key_a) (link (node key_a) (last (node key_i)))

node-IsNode : (c : ℕ) (key : Bytes) → IsNode (node (c ∷ key))
node-IsNode c key = record { within = omega arith; named = refl }

two_keys-IsMap : IsMap two_keys
two_keys-IsMap =
    write-IsMap empty_map key_a (link (node key_a) (last (node key_i))) init_hashmap-IsMap_example.0
      (node-IsNode 97 [], omega arith, node-IsNode 105 [])

insert_to_hashmap-Stored_example :
    (m' : Hashmap) × (insert_to_hashmap two_keys key_i 5 ≡ ok m') × Stored key_i 5 two_keys m'
unfolding bytes_eq
insert_to_hashmap-Stored_example =
    insert_to_hashmap-Stored two_keys key_i 5 two_keys-IsMap refl (omega arith)
      (unfold init_hashmap hash_loop write_bucket values find_node in omega arith)

insert_to_hashmap_empty_example :
    (m' : Hashmap) × (insert_to_hashmap two_keys [] 5 ≡ ok m')
    × IsNext two_keys m'
    × ((j : Bytes) → (values m' j ≡ values two_keys j) × (position m' j ≡ position two_keys j))
insert_to_hashmap_empty_example = insert_to_hashmap_empty two_keys 5 two_keys-IsMap

is_in_hashmap-unread_example : is_in_hashmap two_keys key_i ≡ ok (unread two_keys key_i)
is_in_hashmap-unread_example = is_in_hashmap-unread two_keys key_i two_keys-IsMap

get_value_from_hashmap-Read_example :
    (r : ℕ × Hashmap) × (get_value_from_hashmap two_keys key_i ≡ ok r) × Read key_i two_keys r
get_value_from_hashmap-Read_example = get_value_from_hashmap-Read two_keys key_i two_keys-IsMap

reset_cursor-Restarted_example :
    (m' : Hashmap) × (reset_cursor two_keys key_i ≡ ok m') × Restarted key_i two_keys m'
reset_cursor-Restarted_example = reset_cursor-Restarted two_keys key_i two_keys-IsMap

abbrev some_tuple : Tuple
some_tuple = init_tuple_of_size 500

get_tuple_from_buffer-Extended_example :
    (r : Tuple × TupleBuffer) × (get_tuple_from_buffer some_tuple (init_tuple_buffer 4 500) ≡ ok r)
    × Extended some_tuple (init_tuple_buffer 4 500) r
get_tuple_from_buffer-Extended_example =
    get_tuple_from_buffer-Extended some_tuple (init_tuple_buffer 4 500)
      (init_tuple_buffer-IsBuffer 4 500 (omega arith))
