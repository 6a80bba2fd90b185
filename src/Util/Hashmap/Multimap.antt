-- ===== src/Util/Hashmap/Multimap.antt =====
-- The table of hashmap.c refines a map from keys to a list of values and a position in it.
use native.Mathlib.Nat.{mod-lt, mod-eq_of_lt, lt_of_lt_of_le}
use squel.Common.{
  Bool-cases, Bytes, List, ap, arith, at-get_or, get_or, get_or-set_ne, get_or-set_self,
  if◌then◌else◌, inl, inr, length, length-set, ok, suc, zero, ℕ, ◌%◌, ◌<◌, ◌==◌, ◌^◌, ◌∙◌, ◌≡◌, ◌≤◌,
}
use squel.Util.Hashmap.{Chain, Hashmap, bucket, hash, hash_loop, last, new_node, write_bucket}
use squel.Util.Hashmap.Nodes.{IsChain, cursor_of, values_of}

abbrev pub slot : Hashmap → Bytes → ℕ
slot m key = hash_loop 0 key % m.table_size

abbrev pub chain_at : Hashmap → ℕ → Chain
chain_at m i = get_or m.buckets i (last new_node)

abbrev pub chain_of : Hashmap → Bytes → Chain
chain_of m key = chain_at m (slot m key)

-- The table's array has the size that the table names, no larger than an `unsigned int` can index.
pub record IsMap (m : Hashmap) : Type 0 where
  pub width : length m.buckets ≡ m.table_size
  pub nonzero : 0 < m.table_size
  pub indexed : m.table_size ≤ 2 ^ 32
  pub chains : (i : ℕ) → IsChain (chain_at m i)

-- The abstract state: the values under a key, oldest first, and how many have been read.
unfoldable pub values : Hashmap → Bytes → List ℕ
values m key = values_of key (chain_of m key)

unfoldable pub position : Hashmap → Bytes → ℕ
position m key = cursor_of key (chain_of m key)

hash-remainder : (key : Bytes) (n : ℕ) → 0 < n → n ≤ 2 ^ 32 → hash key n ≡ ok (hash_loop 0 key % n)
unfolding hash
hash-remainder key zero h h' = absurd (omega arith)
hash-remainder key (suc n) h h' =
    ap ok (mod-eq_of_lt (lt_of_lt_of_le (mod-lt (hash_loop 0 key) (omega arith)) h'))

slot-lt : (m : Hashmap) (key : Bytes) → IsMap m → slot m key < length m.buckets
slot-lt m key v = rw v.width (mod-lt (hash_loop 0 key) v.nonzero)

pub bucket-chain_of :
    (m : Hashmap) (key : Bytes) → IsMap m → bucket m key ≡ ok (slot m key, chain_of m key)
bucket-chain_of m key v =
    unfold bucket in
    rw (
      hash-remainder key m.table_size v.nonzero v.indexed,
      at-get_or m.buckets (slot m key) (last new_node) (slot-lt m key v),
    )

-- Writing one bucket back changes what stands under the keys of that bucket, and nothing else.
chain_at-write :
    (m : Hashmap) (key : Bytes) (c : Chain) (i : ℕ)
    → IsMap m
    → chain_at (write_bucket m (slot m key) c) i ≡ (if slot m key == i then c else chain_at m i)
unfolding write_bucket
chain_at-write m key c i v = elim (Bool-cases (slot m key == i)) [
  | inl e ↦
      let same : slot m key ≡ i = ground arith in
      rw (e, ← same) (get_or-set_self m.buckets (slot m key) c (last new_node) (slot-lt m key v))
  | inr e ↦ rw e (get_or-set_ne m.buckets (slot m key) i c (last new_node) (ground arith))
]

module _ (m : Hashmap) (key : Bytes) (c : Chain) (v : IsMap m) where
  pub write-IsMap : IsChain c → IsMap (write_bucket m (slot m key) c)
  write-IsMap h = record {
    width = unfold write_bucket in length-set m.buckets (slot m key) c ∙ v.width;
    nonzero = unfold write_bucket in v.nonzero;
    indexed = unfold write_bucket in v.indexed;
    chains = λ i. elim (Bool-cases (slot m key == i)) [
      | inl e ↦ rw (chain_at-write m key c i v, e) h
      | inr e ↦ rw (chain_at-write m key c i v, e) (v.chains i)
    ];
  }

  pub written :
      (j : Bytes)
      → chain_of (write_bucket m (slot m key) c) j
        ≡ (if slot m key == slot m j then c else chain_of m j)
  written j = unfold write_bucket in (unfold write_bucket in chain_at-write m key c (slot m j) v)
