-- ===== src/Util/Hashmap/Operations.antt =====
-- Each operation of hashmap.c on the map from keys to values and positions.
use squel.Common.{
  Bool, Bytes, [], arith, bytes_eq, bytes_eq_iff, false, get_or, get_or-replicate, if◌then◌else◌,
  is_empty, length, length-replicate, ltb, ok, refl, suc, true, ℕ, ◌&&◌, ◌++◌, ◌<◌, ◌==◌, ◌^◌, ◌∷◌,
  ◌≡◌, ◌≤◌,
}
use squel.Util.Hashmap.{
  Hashmap, get_value_chain, get_value_from_hashmap, init_hashmap, insert_to_hashmap, is_in_hashmap,
  key_size, last, new_node, reset_cursor, reset_head, try_insert, values_size, write_bucket,
}
use squel.Util.Hashmap.Nodes.{find_node, new_node-IsNode}
use squel.Util.Hashmap.Chains.{insert_chain-Inserted}
use squel.Util.Hashmap.Cursors.{
  get_value_chain-Taken, head_key, is_in_chain-more, more, reset_head-Reset,
}
use squel.Util.Hashmap.Multimap.{
  IsMap, bucket-chain_of, chain_of, position, slot, values, write-IsMap, written,
}

-- `m'` is a valid table of the same size as `m`.
pub record IsNext (m m' : Hashmap) : Type 0 where
  pub valid : IsMap m'
  pub size : m'.table_size ≡ m.table_size

pub record Stored (key : Bytes) (value : ℕ) (m m' : Hashmap) : Type 0 where
  pub next : IsNext m m'
  pub listed :
      (j : Bytes) → values m' j ≡ (if bytes_eq key j then values m j ++ value ∷ [] else values m j)
  pub placed : (j : Bytes) → position m' j ≡ position m j

same_slot : (m : Hashmap) (key j : Bytes) → bytes_eq key j ≡ true → (slot m key == slot m j) ≡ true
same_slot m key j e = let same : key ≡ j = (bytes_eq_iff key j).0 e in rw same (ground arith)

-- In a valid table, an insertion of a key that is not empty and fits, under which there is room,
-- stores the value behind those of its key. It changes no other key and no position.
pub insert_to_hashmap-Stored :
    (m : Hashmap) (key : Bytes) (value : ℕ)
    → IsMap m
    → is_empty key ≡ false
    → length key < key_size
    → length (values m key) < values_size
    → (m' : Hashmap) × (insert_to_hashmap m key value ≡ ok m') × Stored key value m m'
unfolding values position try_insert insert_to_hashmap
insert_to_hashmap-Stored m key value v full short room =
    let (c, run, i) =
      insert_chain-Inserted key value (chain_of m key) full short room (v.chains (slot m key)) in
    (
      write_bucket m (slot m key) c,
      rw (bucket-chain_of m key v, full, run),
      record {
        next = record { valid = write-IsMap m key c v i.valid; size = unfold write_bucket in refl };
        listed = λ j. ground (arith, written m key c v j, i.values j, same_slot m key j);
        placed = λ j. ground (arith, written m key c v j, i.cursor j, same_slot m key j);
      },
    )

-- The empty key is dropped: a valid table keeps all its values and positions.
pub insert_to_hashmap_empty :
    (m : Hashmap) (value : ℕ)
    → IsMap m
    → (m' : Hashmap) × (insert_to_hashmap m [] value ≡ ok m')
      × IsNext m m'
      × ((j : Bytes) → (values m' j ≡ values m j) × (position m' j ≡ position m j))
unfolding values position try_insert insert_to_hashmap
insert_to_hashmap_empty m value v = (
  write_bucket m (slot m []) (chain_of m []),
  rw (bucket-chain_of m [] v),
  record {
    valid = write-IsMap m [] (chain_of m []) v (v.chains (slot m []));
    size = unfold write_bucket in refl;
  },
  λ j. (
    ground (arith, written m [] (chain_of m []) v j),
    ground (arith, written m [] (chain_of m []) v j),
  ),
)

unfoldable pub unread : Hashmap → Bytes → Bool
unread m key = ltb (position m key) (length (values m key))

-- In a valid table, the test says whether a value under the key is left to read.
pub is_in_hashmap-unread :
    (m : Hashmap) (key : Bytes) → IsMap m → is_in_hashmap m key ≡ ok (unread m key)
unfolding values position is_in_hashmap unread
is_in_hashmap-unread m key v =
    rw (bucket-chain_of m key v, is_in_chain-more key (chain_of m key) (v.chains (slot m key)))
      (unfold more in refl)

pub record Read (key : Bytes) (m : Hashmap) (r : ℕ × Hashmap) : Type 0 where
  pub next : IsNext m r.1
  pub listed : (j : Bytes) → values r.1 j ≡ values m j
  pub placed :
      (j : Bytes)
      → position r.1 j
        ≡ (if bytes_eq key j && unread m key then suc (position m j) else position m j)
  pub value : unread m key ≡ true → r.0 ≡ get_or (values m key) (position m key) 0

-- In a valid table, a read gives the value at the key's position, if one is left, and moves that
-- position alone.
pub get_value_from_hashmap-Read :
    (m : Hashmap) (key : Bytes)
    → IsMap m
    → (r : ℕ × Hashmap) × (get_value_from_hashmap m key ≡ ok r) × Read key m r
unfolding values position get_value_from_hashmap unread more
get_value_from_hashmap-Read m key v =
    let c = chain_of m key in
    let t = get_value_chain-Taken key c (v.chains (slot m key)) in
    let r = get_value_chain key c in
    (
      (r.0, write_bucket m (slot m key) r.1),
      rw (bucket-chain_of m key v),
      record {
        next = record {
          valid = write-IsMap m key r.1 v t.valid;
          size = unfold write_bucket in refl;
        };
        listed = λ j. ground (arith, written m key r.1 v j, t.values j, same_slot m key j);
        placed = λ j. ground (arith, written m key r.1 v j, t.cursor j, same_slot m key j);
        value = t.value;
      },
    )

-- The key of the node that lies in the table itself, in the bucket of a key.
pub head_of : Hashmap → Bytes → Bytes
head_of m key = head_key (chain_of m key)

pub record Restarted (key : Bytes) (m m' : Hashmap) : Type 0 where
  pub next : IsNext m m'
  pub listed : (j : Bytes) → values m' j ≡ values m j
  pub placed :
      (j : Bytes)
      → position m' j
        ≡ (if slot m key == slot m j && bytes_eq j (head_of m key) then 0 else position m j)

-- In a valid table, a reset moves one position to the start, that of the key in the node that lies in the table:
-- for a key further down its chain, nothing changes.
pub reset_cursor-Restarted :
    (m : Hashmap) (key : Bytes)
    → IsMap m
    → (m' : Hashmap) × (reset_cursor m key ≡ ok m') × Restarted key m m'
unfolding values position reset_cursor head_of
reset_cursor-Restarted m key v =
    let c = chain_of m key in
    let t = reset_head-Reset c (v.chains (slot m key)) in
    (
      write_bucket m (slot m key) (reset_head c),
      rw (bucket-chain_of m key v),
      record {
        next = record {
          valid = write-IsMap m key (reset_head c) v t.valid;
          size = unfold write_bucket in refl;
        };
        listed =
            λ j. ground (arith, written m key (reset_head c) v j, t.values j, same_slot m key j);
        placed = λ j. ground (arith, written m key (reset_head c) v j, t.cursor j);
      },
    )

-- A new table is valid and holds no value, if its size is not 0 and at most 2 ^ 32.
pub init_hashmap-IsMap :
    (n : ℕ)
    → 0 < n
    → n ≤ 2 ^ 32
    → IsMap (init_hashmap n)
      × ((j : Bytes) → (values (init_hashmap n) j ≡ []) × (position (init_hashmap n) j ≡ 0))
unfolding init_hashmap values position find_node
init_hashmap-IsMap n h h' = (
  record {
    width = length-replicate n (last new_node);
    nonzero = h;
    indexed = h';
    chains = λ i. rw (get_or-replicate n i (last new_node)) new_node-IsNode;
  },
  λ j.
      rw (get_or-replicate n (slot (init_hashmap n) j) (last new_node))
        (ground arith, ground arith),
)
