-- ===== src/Util/Hashmap.antt =====
-- src/util/hashmap.c: a hash table with separate chaining whose nodes hold several values and a
-- cursor. The first node of a bucket lies in the table; the others are allocated behind it.
pub mod Nodes
pub mod Chains
pub mod Cursors
pub mod Multimap
pub mod Operations
use squel.Common.{
  Bool, Bytes, List, Run, [], at, bytes_eq, defined, division_by_zero, false, fault, get_or,
  if◌then◌else◌, is_empty, length, ltb, ok, out_of_bounds, replicate, set, zero, ℕ, ◌%◌, ◌*◌, ◌++◌,
  ◌+◌, ◌-◌, ◌==◌, ◌>>=◌, ◌>>◌, ◌^◌, ◌||◌, ◌∷◌,
}

-- `char key[100]` and `size_t values[10000]`.
abbrev pub key_size : ℕ
key_size = 100

abbrev pub values_size : ℕ
values_size = 10000

-- The values written so far stand for the array and its count `obs`.
pub record MapNode : Type 0 where
  pub key : Bytes
  pub values : List ℕ
  pub cursor : ℕ

abbrev pub obs : MapNode → ℕ
obs n = length n.values

-- A node with the nodes that its `next` leads to.
pub data Chain : Type 0 where
  last : MapNode → Chain
  link : MapNode → Chain → Chain

pub record Hashmap : Type 0 where
  pub buckets : List Chain
  pub table_size : ℕ

-- What `calloc` gives: an empty key, no value, the cursor at the start.
abbrev pub new_node : MapNode
new_node = record { key = []; values = []; cursor = 0 }

-- Allocation is taken to succeed.
unfoldable pub init_hashmap : ℕ → Hashmap
init_hashmap table_size = record {
  buckets = replicate table_size (last new_node);
  table_size = table_size;
}

-- A `char` is signed: a byte from 128 on is added with its sign extended to 64 bits.
abbrev pub sign_extend : ℕ → ℕ
sign_extend c = if ltb c 128 then c else c + 2 ^ 64 - 256

-- `hashval = (hashval << 5) + *key++` in unsigned arithmetic of 64 bits.
unfoldable pub hash_loop : ℕ → Bytes → ℕ
hash_loop hashval [] = hashval
hash_loop hashval (c ∷ key) = hash_loop ((hashval * 32 + sign_extend c) % 2 ^ 64) key

-- The result is an `unsigned int` of 32 bits.
unfoldable pub hash : Bytes → ℕ → Run ℕ
unfolding hash_loop
hash key zero = fault division_by_zero
hash key table_size = ok (hash_loop 0 key % table_size % 2 ^ 32)

-- `memcpy` of a key with no room for its terminator makes the later `strcmp` run past it.
unfoldable pub write_key : Bytes → MapNode → Run MapNode
write_key key n = do defined (ltb (length key) key_size) out_of_bounds; ok (record n { key = key })

-- `node->values[node->obs] = value`, and `node->obs++`. The test `node->obs >= 10000` comes after
-- the write, so the write at 10000 is out of bounds before it is reached.
unfoldable pub append_value : ℕ → MapNode → Run MapNode
append_value value n = do
  defined (ltb (obs n) values_size) out_of_bounds
  ok (record n { values = n.values ++ value ∷ [] })

-- The body of `_tryInsert` where it stays at `node`: the node is unused, or has the key.
unfoldable pub insert_here : Bytes → ℕ → MapNode → Run MapNode
unfolding write_key append_value
insert_here key value n = do
  n' ← if obs n == 0 then write_key key n else ok n
  append_value value n'

abbrev pub stays : Bytes → MapNode → Bool
stays key n = obs n == 0 || bytes_eq key n.key

-- `_tryInsert` with a key that is not empty; a node is allocated at the end of the chain.
unfoldable pub insert_chain : Bytes → ℕ → Chain → Run Chain
insert_chain key value (last n) =
    if stays key n
    then (do n' ← insert_here key value n; ok (last n'))
    else (do new ← insert_here key value new_node; ok (link n (last new)))
insert_chain key value (link n c) =
    let rest = insert_chain key value c in
    if stays key n
    then (do n' ← insert_here key value n; ok (link n' c))
    else (do c' ← rest; ok (link n c'))

unfoldable pub try_insert : Bytes → ℕ → Chain → Run Chain
try_insert key value c = if is_empty key then ok c else insert_chain key value c

-- The end of `_isInHashmap`: `if (cursor == obs) return 0; return obs > 0 ? 1 : 0;`
abbrev pub has_more : MapNode → Bool
has_more n = if n.cursor == obs n then false else ltb 0 (obs n)

-- `_isInHashmap`
unfoldable pub is_in_chain : Bytes → Chain → Bool
is_in_chain key (last n) = if bytes_eq key n.key then has_more n else false
is_in_chain key (link n c) = if bytes_eq key n.key then has_more n else is_in_chain key c

-- `return -1` from a function of type `size_t`.
abbrev pub exhausted : ℕ
exhausted = 2 ^ 64 - 1

-- The end of `_getValueFromHashmap`. The invariant keeps the cursor within the values.
unfoldable pub take_value : MapNode → ℕ × MapNode
take_value n =
    if n.cursor == obs n
    then (exhausted, n)
    else (get_or n.values n.cursor 0, record n { cursor = n.cursor + 1 })

-- `_getValueFromHashmap`: 0 if the key is in no node.
unfoldable pub get_value_chain : Bytes → Chain → ℕ × Chain
unfolding take_value
get_value_chain key (last n) =
    if bytes_eq key n.key then (let (v, n') = take_value n in (v, last n')) else (0, last n)
get_value_chain key (link n c) =
    if bytes_eq key n.key
    then (let (v, n') = take_value n in (v, link n' c))
    else (let (v, c') = get_value_chain key c in (v, link n c'))

-- `map->data[idx].cursor = 0`: the node in the table, whatever its key.
unfoldable pub reset_head : Chain → Chain
reset_head (last n) = last (record n { cursor = 0 })
reset_head (link n c) = link (record n { cursor = 0 }) c

-- `&map->data[idx]`
unfoldable pub bucket : Hashmap → Bytes → Run (ℕ × Chain)
unfolding hash at
bucket m key = do idx ← hash key m.table_size; c ← at m.buckets idx; ok (idx, c)

unfoldable pub write_bucket : Hashmap → ℕ → Chain → Hashmap
write_bucket m idx c = record m { buckets = set m.buckets idx c }

unfoldable pub insert_to_hashmap : Hashmap → Bytes → ℕ → Run Hashmap
unfolding bucket write_bucket try_insert
insert_to_hashmap m key value = do
  (idx, c) ← bucket m key
  c' ← try_insert key value c
  ok (write_bucket m idx c')

unfoldable pub is_in_hashmap : Hashmap → Bytes → Run Bool
unfolding bucket is_in_chain
is_in_hashmap m key = do (idx, c) ← bucket m key; ok (is_in_chain key c)

unfoldable pub reset_cursor : Hashmap → Bytes → Run Hashmap
unfolding bucket write_bucket reset_head
reset_cursor m key = do (idx, c) ← bucket m key; ok (write_bucket m idx (reset_head c))

unfoldable pub get_value_from_hashmap : Hashmap → Bytes → Run (ℕ × Hashmap)
unfolding bucket write_bucket get_value_chain
get_value_from_hashmap m key = do
  (idx, c) ← bucket m key
  let (v, c') = get_value_chain key c
  ok (v, write_bucket m idx c')
