-- ===== src/Planner/Columns.antt =====
-- The search for a column in src/planner/planner.c gives the first one with its name.
use squel.Common.{
  Bytes, List, [], ap, arith, exit, false, length, ok, refl, true, ℕ, ◌++◌, ◌+◌, ◌∙◌, ◌∷◌, ◌≡◌,
}
use squel.Common.Int.{pos}
use squel.Planner.Result.{ColumnMetadata, ResultSet, find_col_idx_in_res_desc, find_loop, is_column}

-- No column has the name.
abbrev pub NoColumn : Bytes → Bytes → List ColumnMetadata → Type 0
NoColumn name tblref [] = Unit
NoColumn name tblref (column ∷ columns) =
    (is_column name tblref column ≡ false) × NoColumn name tblref columns

find_loop-first :
    (i : ℕ) (name tblref : Bytes) (before : List ColumnMetadata) (column : ColumnMetadata)
    (others : List ColumnMetadata)
    → NoColumn name tblref before
    → is_column name tblref column ≡ true
    → find_loop i name tblref (before ++ column ∷ others) ≡ ok (pos (i + length before))
unfolding find_loop
find_loop-first i name tblref [] column others unnamed is =
    rw is (ap (λ j. ok (pos j)) (omega arith))
find_loop-first i name tblref (c ∷ before) column others unnamed is =
    rw (unnamed.0, find_loop-first (i + 1) name tblref before column others unnamed.1 is)
      (ap (λ j. ok (pos j)) (omega arith))

find_loop-none :
    (i : ℕ) (name tblref : Bytes) (columns : List ColumnMetadata)
    → NoColumn name tblref columns
    → find_loop i name tblref columns ≡ exit
unfolding find_loop
find_loop-none i name tblref [] unnamed = refl
find_loop-none i name tblref (c ∷ columns) unnamed =
    rw (unnamed.0, find_loop-none (i + 1) name tblref columns unnamed.1)

-- The search gives the place of the first column that has the name in the table that is referred to,
-- and exits on the columns before it, of which none has.
pub find_col_idx_in_res_desc-first :
    (result : ResultSet) (name tblref : Bytes) (before : List ColumnMetadata)
    (column : ColumnMetadata) (others : List ColumnMetadata)
    → NoColumn name tblref before
    → is_column name tblref column ≡ true
    → (find_col_idx_in_res_desc (record result { columns = before ++ column ∷ others }) name tblref
        ≡ ok (pos (length before)))
      × (find_col_idx_in_res_desc (record result { columns = before }) name tblref ≡ exit)
unfolding find_col_idx_in_res_desc
find_col_idx_in_res_desc-first result name tblref before column others unnamed is = (
  find_loop-first 0 name tblref before column others unnamed is
      ∙ ap (λ j. ok (pos j)) (omega arith),
  find_loop-none 0 name tblref before unnamed,
)
