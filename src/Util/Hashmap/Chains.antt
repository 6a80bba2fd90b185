-- ===== src/Util/Hashmap/Chains.antt =====
-- One chain of hashmap.c holds a list of values and a cursor for each key.
use squel.Common.{
  Bool-cases, Bytes, List, [], arith, bytes_eq, bytes_eq_iff, false, if◌then◌else◌, inl, inr,
  is_empty, length, ok, refl, true, ℕ, ◌++◌, ◌<◌, ◌∷◌, ◌≡◌,
}
use squel.Util.Hashmap.{
  MapNode, obs, Chain, last, link, new_node, key_size, values_size, insert_chain, stays,
}
use squel.Util.Hashmap.Nodes.{
  stays_cases, find_node, values_of, cursor_of, IsNode, IsChain, new_node-IsNode, filled,
  insert_here-filled, filled-IsNode,
}

-- What the insertion of a value under a key makes of a chain.
pub record Inserted (key : Bytes) (value : ℕ) (c c' : Chain) : Type 0 where
  pub valid : IsChain c'
  pub values :
      (j : Bytes)
      → values_of j c' ≡ (if bytes_eq key j then values_of j c ++ value ∷ [] else values_of j c)
  pub cursor : (j : Bytes) → cursor_of j c' ≡ cursor_of j c

-- What a key reads from the node alone.
abbrev read : Bytes → MapNode → MapNode
read j n = if bytes_eq j n.key then n else new_node

module _ (key : Bytes) (value : ℕ) (n : MapNode) (v : IsNode n) (same : stays key n ≡ true) where
  obs_room : length (read key n).values < values_size → obs n < values_size
  obs_room room = elim (stays_cases key n v same) [
    | inl e ↦ rw e (omega arith)
    | inr e ↦ ground (arith, bytes_eq_iff key n.key)
  ]

  filled_values :
      (j : Bytes)
      → (read j (filled key value n)).values
        ≡ (if bytes_eq key j then (read j n).values ++ value ∷ [] else (read j n).values)
  filled_values j = elim (stays_cases key n v same) [
    | inl e ↦ rw e (ground (arith, bytes_eq_iff key j, bytes_eq_iff j key))
    | inr e ↦ ground (arith, bytes_eq_iff key j, bytes_eq_iff j key, bytes_eq_iff j n.key)
  ]

  filled_cursor : (j : Bytes) → (read j (filled key value n)).cursor ≡ (read j n).cursor
  filled_cursor j = elim (stays_cases key n v same) [
    | inl e ↦ rw e (ground (arith, bytes_eq_iff key j, bytes_eq_iff j key))
    | inr e ↦ ground (arith, bytes_eq_iff key j, bytes_eq_iff j key, bytes_eq_iff j n.key)
  ]

kept_room :
    (key : Bytes) (n : MapNode) (other : List ℕ)
    → stays key n ≡ true
    → 0 < obs n
    → length (if bytes_eq key n.key then n.values else other) < values_size
    → obs n < values_size
kept_room key n other same used room = ground (arith, bytes_eq_iff key n.key)

pub insert_chain-Inserted :
    (key : Bytes) (value : ℕ) (c : Chain)
    → is_empty key ≡ false
    → length key < key_size
    → length (values_of key c) < values_size
    → IsChain c
    → (c' : Chain) × (insert_chain key value c ≡ ok c') × Inserted key value c c'
unfolding insert_chain find_node
insert_chain-Inserted key value (last n) full short room v = elim (Bool-cases (stays key n)) [
  | inl same ↦ (
    last (filled key value n),
    rw (same, insert_here-filled key value n short (obs_room key value n v same room) same),
    record {
      valid = (filled-IsNode key value n full v).0;
      values = filled_values key value n v same;
      cursor = filled_cursor key value n v same;
    },
  )
  | inr other ↦ (
    link n (last (filled key value new_node)),
    rw (other, insert_here-filled key value new_node short (omega arith) refl),
    record {
      valid = (v, ground arith, (filled-IsNode key value new_node full new_node-IsNode).0);
      values = λ j. ground (
        arith,
        bytes_eq_iff key n.key,
        bytes_eq_iff j n.key,
        bytes_eq_iff j key,
        bytes_eq_iff key j,
      );
      cursor = λ j. ground (
        arith,
        bytes_eq_iff key n.key,
        bytes_eq_iff j n.key,
        bytes_eq_iff j key,
        bytes_eq_iff key j,
      );
    },
  )
]
insert_chain-Inserted key value (link n c) full short room v = elim (Bool-cases (stays key n)) [
  | inl same ↦
      let (valid, used) = filled-IsNode key value n full v.0 in
      (
        link (filled key value n) c,
        rw (
          same,
          insert_here-filled key value n short
              (kept_room key n (values_of key c) same v.1 (ground arith)) same,
        ),
        record {
          valid = (valid, used, v.2);
          values = λ j. ground (
            arith,
            bytes_eq_iff key n.key,
            bytes_eq_iff key j,
            bytes_eq_iff j key,
            bytes_eq_iff j n.key,
          );
          cursor =
              λ j. ground (arith, bytes_eq_iff key n.key, bytes_eq_iff j key, bytes_eq_iff j n.key);
        },
      )
  | inr other ↦
      let (c', run, i) = insert_chain-Inserted key value c full short (ground arith) v.2 in
      (
        link n c',
        rw (other, run),
        record {
          valid = (v.0, v.1, i.valid);
          values = λ j.
              ground (
                arith,
                i.values j,
                bytes_eq_iff key n.key,
                bytes_eq_iff j n.key,
                bytes_eq_iff key j,
              );
          cursor = λ j. ground (arith, i.cursor j);
        },
      )
]
