-- ===== src/Tests/Sharing.antt =====
-- join.c at two rows of text on the left and one on the right, under callers that do and do not cast
-- the column that the filter compares.
use squel.Parser.Syntax.{and, dtype_str}
use squel.Planner.Plan.{Filters, cmp_col_col, comparison, none_left}
use squel.Executor.Tuple.{
  Row, Tuple, atol, base, c_string, cast_column_to_long, column, digits_value,
  get_tuple_col_by_index, get_tuple_long_col_by_index, is_tuple_empty, long_column,
  mark_tuple_as_empty, signed_digits, tpl_delimited,
}
use squel.Executor.TupleBuffer.{
  get_tuple_by_index, get_tuple_from_buffer, init_tuple_buffer, write_tuple,
}
use squel.Executor.TupleBuffer.Bounds.{}
use squel.Operators.Join.{
  JoinState, as_base, collect, collected, hand_out, join_get_tuple, next_left, ready_left,
  scan_pairs, take_back,
}
use squel.Operators.Join.Stream.{unstarted}
use squel.Operators.Filter.{
  combine, compare_columns, compare_operands, evaluate_filter_op, evaluate_filter_ops,
  evaluate_loop, first, second, string_column, test_result,
}
use squel.Tests.Sample.{number_tuple, table_scan}
use squel.Common.{
  Bool, Run, [], at, codes, false, not, ok, refl, strcmp, true, ◌++◌, ◌>>=◌, ◌∷◌, ◌≡◌,
}
use squel.Common.Int.{negsuc, pos}

-- The two columns "x" and "7", in a row of text.
abbrev two_texts : Tuple
two_texts = record (number_tuple (pos 0)) {
  block = codes "x" ++ 0 ∷ (codes "7" ++ 0 ∷ []);
  offsets = 0 ∷ 2 ∷ 0 ∷ 0 ∷ [];
  type = tpl_delimited;
}

abbrev equal_second : Filters
equal_second =
    comparison
      (record {
        left_index = pos 1;
        bool_op = negsuc 0;
        right_index = pos 1;
        left_type = dtype_str;
        right_type = dtype_str;
        char_constants = [];
        num_constants = [];
        comp_type = cmp_col_col;
      })
      and none_left

abbrev call : JoinState table_scan table_scan → Row → Run (Row × JoinState table_scan table_scan)
call = join_get_tuple table_scan table_scan equal_second 2 (λ i. two_texts) 9

-- Whether the second call finds a pair, after what the caller does with the first one.
abbrev second_found : (Row → Run Row) → Run Bool
second_found use_row = do
  (row, st) ←
      call
        (unstarted table_scan table_scan equal_second 2 (λ i. two_texts) 9
          (two_texts ∷ two_texts ∷ []) (two_texts ∷ []))
        (base two_texts)
  row' ← use_row row
  (row'', st') ← call st row'
  ok (not (is_tuple_empty row''))

-- A caller that only looks at the first pair gets the second one.
finds_both : second_found (λ row. ok row) ≡ ok true
unfolding join_get_tuple take_back collected collect get_tuple_from_buffer write_tuple
    init_tuple_buffer ready_left next_left as_base scan_pairs get_tuple_by_index evaluate_filter_ops
    evaluate_loop combine evaluate_filter_op compare_operands compare_columns test_result
    string_column get_tuple_col_by_index column c_string strcmp first second hand_out is_tuple_empty
    mark_tuple_as_empty at
finds_both = refl

-- A caller that reads the right column of the first pair as a number does not.
loses_second :
    second_found (λ row. do (v, row') ← get_tuple_long_col_by_index row 3; ok row') ≡ ok false
unfolding join_get_tuple take_back collected collect get_tuple_from_buffer write_tuple
    init_tuple_buffer ready_left next_left as_base scan_pairs get_tuple_by_index evaluate_filter_ops
    evaluate_loop combine evaluate_filter_op compare_operands compare_columns test_result
    string_column get_tuple_col_by_index column c_string strcmp first second hand_out is_tuple_empty
    mark_tuple_as_empty at get_tuple_long_col_by_index long_column cast_column_to_long atol
    signed_digits digits_value
loses_second = refl
