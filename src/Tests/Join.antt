-- ===== src/Tests/Join.antt =====
-- The law of join.c at two tables of numbers, joined where the numbers are equal.
use squel.Common.{&&_true, List, [], arith, map, ℕ, ◌>>=◌, ◌∷◌}
use squel.Common.Int.{pos, ℤ}
use squel.Parser.Syntax.{and}
use squel.Planner.Plan.{Filters, comparison, none_left}
use squel.Executor.Tuple.{Tuple}
use squel.Operators.Source.{Lends, OnBase, Yields}
use squel.Operators.Join.Held.{}
use squel.Operators.Join.Pairs.{DecidesPairs}
use squel.Operators.Join.Stream.{NotEmpty, ShowsPair, join_source, join_source-Lends, unstarted}
use squel.Operators.Filter.{combine, evaluate_filter_ops, evaluate_loop}
use squel.Operators.Filter.Comparison.{compares, equal}
use squel.Tests.Sample.{
  ShowsNumber, Small, first_columns, first_columns-decides, number_tuple, table_scan,
  table_scan-Yields,
}

abbrev equal_numbers : Filters
equal_numbers = comparison (first_columns equal) and none_left

abbrev AnyTuple : Tuple → Type 0
AnyTuple t = Unit

abbrev raw_slot : ℕ → Tuple
raw_slot i = number_tuple (pos 0)

abbrev lefts : List ℤ
lefts = pos 4 ∷ pos 7 ∷ []

abbrev rights : List ℤ
rights = pos 7 ∷ pos 4 ∷ pos 7 ∷ []

numbers-Yields :
    (vs : List ℤ)
    → Small vs
    → Yields table_scan (OnBase AnyTuple) (λ v. OnBase (ShowsNumber v)) vs (map number_tuple vs)
numbers-Yields vs h = table_scan-Yields (OnBase AnyTuple) (λ v k. tt) vs h

equal_numbers-decides :
    DecidesPairs table_scan table_scan equal_numbers 1 raw_slot AnyTuple ShowsNumber ShowsNumber
      (compares equal)
unfolding evaluate_filter_ops evaluate_loop combine
equal_numbers-decides a b l r more fits hl hr =
    (l, r, rw (first_columns-decides equal a b l r hl hr, ◌>>=◌, &&_true), more, tt, hl, hr)

join_source-Lends_example :
    Lends
      (join_source table_scan table_scan equal_numbers 1 raw_slot 9)
      NotEmpty
      (ShowsPair 1 AnyTuple ShowsNumber ShowsNumber)
      ((pos 4, pos 4) ∷ (pos 7, pos 7) ∷ (pos 7, pos 7) ∷ [])
      (unstarted table_scan table_scan equal_numbers 1 raw_slot 9
        (map number_tuple lefts)
        (map number_tuple rights))
join_source-Lends_example =
    join_source-Lends table_scan table_scan equal_numbers 1 raw_slot 9 AnyTuple ShowsNumber
      ShowsNumber (compares equal) equal_numbers-decides rights AnyTuple (pos 4) (pos 7 ∷ [])
      (map number_tuple lefts) (map number_tuple rights)
      (numbers-Yields lefts (omega arith, (omega arith, tt)))
      (numbers-Yields rights (omega arith, (omega arith, (omega arith, tt)))) (λ i. tt) tt
      (omega arith)
