-- ===== src/Util/Hashmap/Nodes.antt =====
-- What a chain holds under a key, and the nodes that the operations of hashmap.c leave behind.
use squel.Common.{
  Bool-cases, Bytes, List, [], arith, bytes_eq, bytes_eq_iff, false, if◌then◌else◌, inl, inr,
  is_empty, length, length-append, ok, refl, true, ℕ, ◌++◌, ◌<◌, ◌==◌, ◌∷◌, ◌≡◌, ◌≤◌, ◌⊎◌,
}
use squel.Util.Hashmap.{
  MapNode, obs, Chain, last, link, new_node, key_size, values_size, insert_here, stays, take_value,
}

-- The node that has the key, or a fresh one.
unfoldable pub find_node : Bytes → Chain → MapNode
find_node key (last n) = if bytes_eq key n.key then n else new_node
find_node key (link n c) = if bytes_eq key n.key then n else find_node key c

abbrev pub values_of : Bytes → Chain → List ℕ
values_of key c = (find_node key c).values

abbrev pub cursor_of : Bytes → Chain → ℕ
cursor_of key c = (find_node key c).cursor

-- A node is unused exactly as long as its key is empty, and its cursor stays within its values.
pub record IsNode (n : MapNode) : Type 0 where
  pub within : n.cursor ≤ obs n
  pub named : is_empty n.key ≡ (obs n == 0)

-- Only the end of a chain may be unused: the node in the table, before the first insertion.
abbrev pub IsChain : Chain → Type 0
IsChain (last n) = IsNode n
IsChain (link n c) = IsNode n × (0 < obs n) × IsChain c

pub new_node-IsNode : IsNode new_node
new_node-IsNode = record { within = omega arith; named = refl }

-- The node that `insert_here` leaves.
abbrev pub filled : Bytes → ℕ → MapNode → MapNode
filled key value n = record { key = key; values = n.values ++ value ∷ []; cursor = n.cursor }

pub insert_here-filled :
    (key : Bytes) (value : ℕ) (n : MapNode)
    → length key < key_size
    → obs n < values_size
    → stays key n ≡ true
    → insert_here key value n ≡ ok (filled key value n)
unfolding insert_here
insert_here-filled key value n short room same = ground (arith, bytes_eq_iff key n.key)

pub filled-IsNode :
    (key : Bytes) (value : ℕ) (n : MapNode)
    → is_empty key ≡ false
    → IsNode n
    → IsNode (filled key value n) × (0 < obs (filled key value n))
filled-IsNode key value n full v =
    let longer = length-append n.values (value ∷ []) in ground (arith, longer)

pub take_value-IsNode :
    (n : MapNode) → IsNode n → IsNode (take_value n).1 × (obs (take_value n).1 ≡ obs n)
unfolding take_value
take_value-IsNode n v = ground arith

eq_nil : {xs : List ℕ} → is_empty xs ≡ true → xs ≡ []
eq_nil {xs = []} h = refl
eq_nil {xs = x ∷ xs} h = cc

eq_nil_of_length : {xs : List ℕ} → length xs ≡ 0 → xs ≡ []
eq_nil_of_length {xs = []} h = refl
eq_nil_of_length {xs = x ∷ xs} h = absurd (omega arith)

-- An unused node is as `calloc` made it.
unused-new_node : (n : MapNode) → IsNode n → obs n ≡ 0 → n ≡ new_node
unused-new_node n v h =
    let none_left : n.values ≡ [] = eq_nil_of_length h in
    let no_key : n.key ≡ [] = eq_nil (ground arith) in
    let start : n.cursor ≡ 0 = omega arith in
    λ i. record { key = no_key i; values = none_left i; cursor = start i }

-- `_tryInsert` stays at a fresh node, or at one that has the key.
pub stays_cases :
    (key : Bytes) (n : MapNode) → IsNode n → stays key n ≡ true → (n ≡ new_node) ⊎ (n.key ≡ key)
stays_cases key n v same = elim (Bool-cases (obs n == 0)) [
  | inl e ↦ inl (unused-new_node n v (ground arith))
  | inr e ↦ inr (ground (arith, bytes_eq_iff key n.key))
]
