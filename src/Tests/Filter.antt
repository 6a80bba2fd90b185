-- ===== src/Tests/Filter.antt =====
-- The laws of filter.c at a table of three numbers.
use squel.Common.{
  &&_true, Bool, List, [], arith, false, map, ok, refl, true, ◌+◌, ◌>>=◌, ◌^◌, ◌∷◌, ◌≡◌,
}
use squel.Common.Int.{ltb_ℤ, negsuc, pos, ℤ, ◌-ℤ◌}
use squel.Parser.Syntax.{and}
use squel.Planner.Plan.{FilterInfo, Filters, comparison, none_left}
use squel.Executor.Tuple.{Row, base, joined}
use squel.Operators.Source.{OnBase, Yields}
use squel.Operators.Join.Held.{}
use squel.Operators.Filter.{
  Operands, combine, evaluate_filter_op, evaluate_filter_ops, evaluate_loop, same,
}
use squel.Operators.Filter.Comparison.{
  Comparator, compares, decide_longs, decide_longs_exact, decide_longs_wraps, equal, greater, less,
}
use squel.Operators.Filter.Formula.{
  Decided, Formula, both, chain, either, evaluate_filter_ops-truth, test,
}
use squel.Operators.Filter.Stream.{Decides, filter_source, filter_source-Yields}
use squel.Tests.Sample.{
  IsSmall, ShowsNumber, column_with, column_with-decides, number_tuple, number_tuple-shows,
  table_scan, table_scan-Yields,
}

decide_longs_exact_example : decide_longs less (negsuc 4) (pos 7) ≡ ok true
unfolding ◌-ℤ◌
decide_longs_exact_example = decide_longs_exact less (negsuc 4) (pos 7) refl

decide_longs_wraps_example : decide_longs equal (pos (5 + 2 ^ 32)) (pos 5) ≡ ok true
decide_longs_wraps_example =
    decide_longs_wraps (pos (5 + 2 ^ 32)) (pos 5) 1 (unfold ◌-ℤ◌ in refl) (omega arith)

-- `left > 3 AND (left < 9 OR left = 20)`
abbrev three_tests : Formula
three_tests =
    both (test (column_with greater (pos 3)))
      (either (test (column_with less (pos 9))) (test (column_with equal (pos 20))))

abbrev ShowsSix : Operands → Type 0
ShowsSix s = s ≡ same (base (number_tuple (pos 6)))

abbrev on_six : FilterInfo → Bool
on_six info = ltb_ℤ info.bool_op (negsuc 0)

column_with-six :
    (c : Comparator) (k : ℤ)
    → IsSmall k
    → (b : Bool) → compares c (pos 6) k ≡ b
    → (s : Operands) → ShowsSix s
    → (s' : Operands) × (evaluate_filter_op (column_with c k) s ≡ ok (b, s')) × ShowsSix s'
column_with-six c k small b e s i =
    let t = number_tuple (pos 6) in
    (
      same (base t),
      rw (i, column_with-decides c (pos 6) k t (number_tuple-shows (pos 6) (omega arith)) small, e),
      refl,
    )

three_tests-Decided : Decided on_six ShowsSix three_tests
three_tests-Decided = (
  column_with-six greater (pos 3) (omega arith) true refl,
  (
    column_with-six less (pos 9) (omega arith) true refl,
    column_with-six equal (pos 20) (omega arith) false refl,
  ),
)

evaluate_filter_ops-truth_example :
    (s' : Operands) × (evaluate_filter_ops
        (chain three_tests and none_left)
        (same (base (number_tuple (pos 6))))
      ≡ ok (true, s'))
    × ShowsSix s'
evaluate_filter_ops-truth_example =
    evaluate_filter_ops-truth on_six ShowsSix three_tests (same (base (number_tuple (pos 6))))
      three_tests-Decided refl

abbrev above_two : Filters
above_two = comparison (column_with greater (pos 2)) and none_left

abbrev numbers : List ℤ
numbers = pos 5 ∷ negsuc 1 ∷ pos 3 ∷ []

abbrev AnyRow : Row → Type 0
AnyRow row = Unit

above_two-Decides :
    Decides table_scan above_two AnyRow
      (λ v. OnBase (ShowsNumber v))
      (λ v. compares greater v (pos 2))
unfolding evaluate_filter_ops evaluate_loop combine
above_two-Decides v (base t) more fits h = (
  base t,
  rw (column_with-decides greater v (pos 2) t h (omega arith), ◌>>=◌, &&_true),
  more,
  tt,
  h,
)
above_two-Decides v (joined t) more fits h = absurd h

filter_source-Yields_example :
    Yields
      (filter_source table_scan above_two 4)
      AnyRow
      (λ v. OnBase (ShowsNumber v))
      (pos 5 ∷ pos 3 ∷ [])
      (map number_tuple numbers)
filter_source-Yields_example =
    filter_source-Yields table_scan above_two AnyRow (λ v. OnBase (ShowsNumber v))
      (λ v. compares greater v (pos 2)) above_two-Decides numbers 4 (map number_tuple numbers)
      (omega arith)
      (table_scan-Yields AnyRow (λ v h. tt) numbers (omega arith, (omega arith, (omega arith, tt))))
