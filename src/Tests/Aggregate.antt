-- ===== src/Tests/Aggregate.antt =====
-- The laws of aggregate.c at a table of three numbers, and at one of two numbers below zero.
use squel.Common.{List, [], arith, map, refl, ◌-◌, ◌/◌, ◌>>=◌, ◌^◌, ◌∷◌}
use squel.Common.Int.{negsuc, pos, ℤ, ◌+ℤ◌}
use squel.Planner.Plan.{AggregationType, avg, count, max, min, sum}
use squel.Executor.Tuple.{Row, Tuple, base, get_tuple_long_col_by_index, joined}
use squel.Operators.Source.{OnBase, Yields}
use squel.Operators.Join.Held.{}
use squel.Operators.Aggregate.{long_max}
use squel.Operators.Aggregate.Fold.{Reads}
use squel.Operators.Aggregate.Values.{IsMax, IsMin}
use squel.Operators.Aggregate.Result.{Answers, HasRoom}
use squel.Operators.Aggregate.Answers.{
  avg-Answer, avg_of_negative, count-Answer, fresh, max-Answer, min-Answer, sum-Answer,
}
use squel.Tests.Sample.{ShowsNumber, number_tuple, table_scan, table_scan-Yields}

abbrev AnyRow : Row → Type 0
AnyRow row = Unit

abbrev Number : ℤ → Row → Type 0
Number v = OnBase (ShowsNumber v)

abbrev same_number : ℤ → ℤ
same_number v = v

first_column-Reads :
    (aggtype : AggregationType) → Reads table_scan AnyRow Number aggtype 0 same_number
unfolding get_tuple_long_col_by_index ShowsNumber
first_column-Reads aggtype v (base t) more fits h = (base t, rw (h.0, ◌>>=◌), tt)
first_column-Reads aggtype v (joined t) more fits h = absurd h

abbrev room_tuple : Tuple
room_tuple = number_tuple (pos 0)

room_tuple-HasRoom : HasRoom room_tuple
room_tuple-HasRoom = record {
  block = omega arith;
  casted = omega arith;
  offsets = omega arith;
  longs = omega arith;
}

abbrev numbers : List ℤ
numbers = pos 5 ∷ negsuc 1 ∷ pos 3 ∷ []

numbers-Yields : Yields table_scan AnyRow Number numbers (map number_tuple numbers)
numbers-Yields =
    table_scan-Yields AnyRow (λ v h. tt) numbers (omega arith, (omega arith, (omega arith, tt)))

abbrev negatives : List ℤ
negatives = negsuc 4 ∷ negsuc 1 ∷ []

negatives-Yields : Yields table_scan AnyRow Number negatives (map number_tuple negatives)
negatives-Yields = table_scan-Yields AnyRow (λ v h. tt) negatives (omega arith, (omega arith, tt))

abbrev Answered : AggregationType → List ℤ → ℤ → Type 0
Answered aggtype items v =
    Answers table_scan AnyRow Number aggtype 0 same_number 9
      (fresh table_scan (map number_tuple items)) room_tuple v

count-Answer_example :
    Answers table_scan AnyRow Number count 7
      (λ a. pos 0)
      9
      (fresh table_scan (map number_tuple numbers))
      room_tuple
      (pos 3)
count-Answer_example =
    count-Answer table_scan AnyRow Number 7 numbers 9 (map number_tuple numbers) room_tuple
      (omega arith) numbers-Yields tt room_tuple-HasRoom (omega arith)

sum-Answer_example : Answered sum numbers (pos 6)
unfolding ◌+ℤ◌
sum-Answer_example =
    sum-Answer table_scan AnyRow Number 0 same_number numbers 9 (map number_tuple numbers)
      room_tuple (omega arith) numbers-Yields tt room_tuple-HasRoom (first_column-Reads sum)
      (refl, (refl, (refl, tt)))

max-Answer_example : (r : ℤ) × IsMax (pos 0) numbers r × Answered max numbers r
max-Answer_example =
    max-Answer table_scan AnyRow Number 0 same_number numbers 9 (map number_tuple numbers)
      room_tuple (omega arith) numbers-Yields tt room_tuple-HasRoom (first_column-Reads max)
      (refl, (refl, (refl, tt)))

min-Answer_example : (r : ℤ) × IsMin long_max numbers r × Answered min numbers r
min-Answer_example =
    min-Answer table_scan AnyRow Number 0 same_number numbers 9 (map number_tuple numbers)
      room_tuple (omega arith) numbers-Yields tt room_tuple-HasRoom (first_column-Reads min)
      (refl, (refl, (refl, tt)))

avg-Answer_example : Answered avg numbers (pos 2)
unfolding ◌+ℤ◌
avg-Answer_example =
    avg-Answer table_scan AnyRow Number 0 same_number numbers 9 (map number_tuple numbers)
      room_tuple (omega arith) numbers-Yields tt room_tuple-HasRoom 6 (first_column-Reads avg)
      (refl, (refl, (refl, tt))) refl (omega arith)

avg_of_negative_example : Answered avg negatives (pos ((2 ^ 64 - 7) / 2))
unfolding ◌+ℤ◌
avg_of_negative_example =
    avg_of_negative table_scan AnyRow Number 0 same_number negatives 9 (map number_tuple negatives)
      room_tuple (omega arith) negatives-Yields tt room_tuple-HasRoom 6 (first_column-Reads avg)
      (refl, (refl, tt)) refl (omega arith)
