-- ===== src/Tests/HashJoin.antt =====
-- The law of hashjoin.c at two tables of texts, joined where the texts are equal.
use squel.Common.{
  &&_true, Bool, Bytes, List, [], arith, at, bytes_eq, codes, false, length, le→leb, map, ok, refl,
  strcmp, ℕ, ◌++◌, ◌>>=◌, ◌∷◌, ◌≡◌,
}
use squel.Common.Int.{negsuc, pos}
use squel.Parser.Syntax.{and, dtype_str}
use squel.Planner.Plan.{FilterInfo, cmp_col_col, comparison, none_left}
use squel.Executor.Tuple.{
  Tuple, base, column, column_string, get_tuple_col_by_index, is_tuple_empty, joined,
  mark_tuple_as_empty, tpl_delimited,
}
use squel.Executor.Tuple.Strings.{NoZero, c_string-terminated}
use squel.Operators.Source.{All, Lends, OnBase, Yields}
use squel.Operators.Filter.{
  combine, compare_columns, compare_operands, eq_zero, evaluate_filter_op, evaluate_filter_ops,
  evaluate_loop, first, second, string_column, test_result,
}
use squel.Operators.Join.Pairs.{DecidesPairs}
use squel.Operators.Join.Stream.{NotEmpty, ShowsPair}
use squel.Operators.HashJoin.{hashjoin_source}
use squel.Operators.HashJoin.Keys.{}
use squel.Operators.HashJoin.Hashed.{}
use squel.Operators.HashJoin.Probes.{ReadsLeft}
use squel.Operators.HashJoin.Stream.{hashjoin_source-Lends, unprobed}
use squel.Tests.Sample.{number_tuple, table_scan}
use squel.Tests.Sample.{}

abbrev text_tuple : Bytes → Tuple
text_tuple v = record (number_tuple (pos 0)) { block = v ++ 0 ∷ []; type = tpl_delimited }

-- The tuple's first column is the text.
unfoldable ShowsText : Bytes → Tuple → Type 0
ShowsText v tpl = (column_string tpl 0 ≡ ok v) × (is_tuple_empty (base tpl) ≡ false)

text_tuple-shows : (v : Bytes) → NoZero v → ShowsText v (text_tuple v)
unfolding ShowsText column_string column is_tuple_empty at
text_tuple-shows v nz =
    (rw (le→leb 0 (length (v ++ 0 ∷ [])) (omega arith)) (c_string-terminated v [] nz), refl)

abbrev AnyTuple : Tuple → Type 0
AnyTuple t = Unit

texts-Yields :
    (vs : List Bytes)
    → All NoZero vs
    → Yields table_scan (OnBase AnyTuple) (λ v. OnBase (ShowsText v)) vs (map text_tuple vs)
unfolding mark_tuple_as_empty is_tuple_empty
texts-Yields [] h (base tpl) f = (_, refl, refl)
texts-Yields [] h (joined tpl) f = (_, refl, refl)
texts-Yields (v ∷ vs) h row f = (_, refl, refl, tt, text_tuple-shows v h.0, texts-Yields vs h.1)

abbrev equal_texts : FilterInfo
equal_texts = record {
  left_index = pos 0;
  bool_op = negsuc 0;
  right_index = pos 0;
  left_type = dtype_str;
  right_type = dtype_str;
  char_constants = [];
  num_constants = [];
  comp_type = cmp_col_col;
}

abbrev same_text : Bytes → Bytes → Bool
same_text a b = eq_zero (strcmp a b)

abbrev blank_slot : ℕ → Tuple
blank_slot i = number_tuple (pos 0)

text_read :
    (t : Tuple) (v : Bytes) → column_string t 0 ≡ ok v → string_column (base t) (pos 0) ≡ ok v
unfolding string_column get_tuple_col_by_index column_string
text_read t v e = e

equal_texts-decides :
    DecidesPairs table_scan table_scan
      (comparison equal_texts and none_left)
      1
      blank_slot
      AnyTuple
      ShowsText
      ShowsText
      same_text
unfolding evaluate_filter_ops evaluate_loop combine evaluate_filter_op compare_operands
    compare_columns test_result ShowsText string_column strcmp first second
equal_texts-decides a b l r more fits hl hr =
    (l, r, rw (text_read l a hl.0, ◌>>=◌, text_read r b hr.0, &&_true) refl, more, tt, hl, hr)

abbrev left_texts : List Bytes
left_texts = codes "x" ∷ codes "yy" ∷ codes "z" ∷ []

abbrev right_texts : List Bytes
right_texts = codes "yy" ∷ codes "x" ∷ codes "yy" ∷ []

text_keys :
    ReadsLeft table_scan table_scan equal_texts and 1 3 blank_slot AnyTuple ShowsText ShowsText
      (λ v. v)
      (λ v. v)
      same_text
unfolding ShowsText
text_keys = (0, refl, λ a t h. h.0)

hashjoin_source-Lends_example :
    Lends
      (hashjoin_source table_scan table_scan equal_texts and 1 3 blank_slot 20)
      NotEmpty
      (ShowsPair 1 AnyTuple ShowsText ShowsText)
      ((codes "x", codes "x") ∷ (codes "yy", codes "yy") ∷ (codes "yy", codes "yy") ∷ [])
      (unprobed table_scan table_scan equal_texts and 1 3 blank_slot 20
        (map text_tuple left_texts)
        (map text_tuple right_texts))
unfolding ShowsText bytes_eq strcmp text_keys
hashjoin_source-Lends_example =
    hashjoin_source-Lends table_scan table_scan equal_texts and 1 3 blank_slot 20 AnyTuple ShowsText
      ShowsText (λ v. v) (λ v. v) same_text text_keys equal_texts-decides right_texts (omega arith)
      AnyTuple left_texts (map text_tuple left_texts) (map text_tuple right_texts) (omega arith)
      (0, refl, λ b t h. h.0)
      ((refl, omega arith), ((refl, omega arith), ((refl, omega arith), tt)))
      ((refl, (refl, tt)), ((refl, tt), (tt, tt))) (omega arith) (omega arith) (omega arith)
      (texts-Yields left_texts (omega arith)) (texts-Yields right_texts (omega arith)) (λ i. tt) tt
      (omega arith)
