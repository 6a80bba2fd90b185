-- ===== src/Util/Hashmap/Cursors.antt =====
-- Reading a chain of hashmap.c: the tests, the values one by one, and the reset of the cursor.
use squel.Common.{
  Bool, Bytes, arith, bytes_eq, bytes_eq_iff, get_or, if◌then◌else◌, length, ltb, suc, true, ℕ,
  ◌&&◌, ◌≡◌,
}
use squel.Util.Hashmap.{
  MapNode, obs, Chain, last, link, take_value, is_in_chain, get_value_chain, reset_head,
}
use squel.Util.Hashmap.Nodes.{find_node, values_of, cursor_of, IsNode, IsChain, take_value-IsNode}

unfoldable pub more : Bytes → Chain → Bool
more key c = ltb (cursor_of key c) (length (values_of key c))

pub is_in_chain-more : (key : Bytes) (c : Chain) → IsChain c → is_in_chain key c ≡ more key c
unfolding is_in_chain find_node more
is_in_chain-more key (last n) v = ground arith
is_in_chain-more key (link n c) v = ground (arith, is_in_chain-more key c v.2)

-- What reading one value under a key makes of a chain.
pub record Taken (key : Bytes) (c : Chain) (r : ℕ × Chain) : Type 0 where
  pub valid : IsChain r.1
  pub values : (j : Bytes) → values_of j r.1 ≡ values_of j c
  pub cursor :
      (j : Bytes)
      → cursor_of j r.1
        ≡ (if bytes_eq key j && more key c then suc (cursor_of j c) else cursor_of j c)
  pub value : more key c ≡ true → r.0 ≡ get_or (values_of key c) (cursor_of key c) 0

take_value_fields :
    (n : MapNode) → ((take_value n).1.key ≡ n.key) × ((take_value n).1.values ≡ n.values)
unfolding take_value
take_value_fields n = ground arith

take_value_cursor :
    (n : MapNode)
    → IsNode n
    → (take_value n).1.cursor ≡ (if ltb n.cursor (obs n) then suc n.cursor else n.cursor)
unfolding take_value
take_value_cursor n v = ground arith

take_value_value :
    (n : MapNode) → ltb n.cursor (obs n) ≡ true → (take_value n).0 ≡ get_or n.values n.cursor 0
unfolding take_value
take_value_value n h = ground arith

pub get_value_chain-Taken :
    (key : Bytes) (c : Chain) → IsChain c → Taken key c (get_value_chain key c)
unfolding get_value_chain find_node more
get_value_chain-Taken key (last n) v = record {
  valid = ground (arith, take_value-IsNode n v);
  values = λ j. ground (arith, take_value_fields n);
  cursor = λ j. ground (
    arith,
    take_value_fields n,
    take_value_cursor n v,
    bytes_eq_iff key j,
    bytes_eq_iff key n.key,
    bytes_eq_iff j n.key,
  );
  value = λ h. ground (arith, take_value_value n);
}
get_value_chain-Taken key (link n c) v =
    let t = get_value_chain-Taken key c v.2 in
    record {
      valid = ground (arith, take_value-IsNode n v.0, t.valid);
      values = λ j. ground (arith, take_value_fields n, t.values j);
      cursor = λ j. ground (
        arith,
        take_value_fields n,
        take_value_cursor n v.0,
        t.cursor j,
        bytes_eq_iff key j,
        bytes_eq_iff key n.key,
        bytes_eq_iff j n.key,
      );
      value = λ h. ground (arith, take_value_value n, t.value);
    }

abbrev pub head_key : Chain → Bytes
head_key (last n) = n.key
head_key (link n c) = n.key

-- What `resetCursor` makes of a chain: only the key of the node in the table starts again.
pub record Reset (c c' : Chain) : Type 0 where
  pub valid : IsChain c'
  pub values : (j : Bytes) → values_of j c' ≡ values_of j c
  pub cursor : (j : Bytes) → cursor_of j c' ≡ (if bytes_eq j (head_key c) then 0 else cursor_of j c)

pub reset_head-Reset : (c : Chain) → IsChain c → Reset c (reset_head c)
unfolding reset_head find_node
reset_head-Reset (last n) v = record {
  valid = record { within = omega arith; named = v.named };
  values = λ j. ground arith;
  cursor = λ j. ground arith;
}
reset_head-Reset (link n c) v = record {
  valid = (record { within = omega arith; named = v.0.named }, v.1, v.2);
  values = λ j. ground arith;
  cursor = λ j. ground arith;
}
