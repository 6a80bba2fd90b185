-- ===== src/Operators/HashJoin/First.antt =====
-- The first round of hashjoin.c looks at a blank tuple, under whose key there is nothing to read.
use squel.Common.{
  Bytes, List, [], arith, at-get_or, bytes_eq, false, get_or-replicate, is_empty, length-replicate,
  ok, refl, replicate, ℕ, ◌+◌, ◌<◌, ◌>>=◌, ◌∷◌, ◌≡◌,
}
use squel.Common.Int.{}
use squel.Parser.Syntax.{NodeType}
use squel.Planner.Plan.{FilterInfo, tuple_size}
use squel.Executor.Tuple.{
  Tuple, base, c_string, column, column_string, init_tuple_of_size, is_tuple_empty, max_cols,
}
use squel.Executor.TupleBuffer.{}
use squel.Util.Hashmap.{Hashmap}
use squel.Util.Hashmap.Multimap.{}
use squel.Util.Hashmap.Operations.{unread}
use squel.Operators.Source.{All, Source}
use squel.Operators.Join.{}
use squel.Operators.Join.Buffered.{}
use squel.Operators.Join.Pairs.{}
use squel.Operators.Join.Held.{}
use squel.Operators.HashJoin.{}
use squel.Operators.HashJoin.Keys.{found}
use squel.Operators.HashJoin.Hashed.{IsKey, Lists}

-- The tuple that the first round looks at has the empty text in every column.
pub blank_column : (i : ℕ) → i < max_cols → column_string (init_tuple_of_size tuple_size) i ≡ ok []
unfolding column_string column init_tuple_of_size c_string
blank_column i h =
    let place =
      at-get_or {A = ℕ} (replicate max_cols 0) i 0
        (omega (arith, length-replicate {A = ℕ} max_cols 0)) in
    rw (place, ◌>>=◌, get_or-replicate {A = ℕ} max_cols i 0) refl

pub blank-filled : is_tuple_empty (base (init_tuple_of_size tuple_size)) ≡ false
unfolding is_tuple_empty init_tuple_of_size
blank-filled = refl

bytes_eq_empty : (key : Bytes) → is_empty key ≡ false → bytes_eq key [] ≡ false
unfolding bytes_eq
bytes_eq_empty [] e = cc
bytes_eq_empty (c ∷ key) e = refl

module _ (left right : Source) (info : FilterInfo) (operator_next : NodeType)
    (left_column_count : ℕ) (ht_size : ℕ) (raw : ℕ → Tuple) {B : Type 0} (Fits : Tuple → Type 0)
    (ShowsR : B → Tuple → Type 0) (key_r : B → Bytes) where
  no_empty_key :
      (i : ℕ) (items : List B)
      → All
          (IsKey left right info operator_next left_column_count ht_size raw Fits ShowsR key_r)
          items
      → found key_r [] i items ≡ []
  no_empty_key i [] keys = refl
  no_empty_key i (b ∷ items) keys =
      rw (bytes_eq_empty (key_r b) keys.0.0) (no_empty_key (i + 1) items keys.1)

  pub nothing_unread :
      (bs : List B) (m : Hashmap)
      → Lists key_r bs m
      → All (IsKey left right info operator_next left_column_count ht_size raw Fits ShowsR key_r) bs
      → unread m [] ≡ false
  unfolding unread
  nothing_unread bs m lists keys = rw (lists.listed [], no_empty_key 0 bs keys) (ground arith)
