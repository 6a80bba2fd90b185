-- ===== src/Planner/Result.antt =====
-- The result descriptions of src/include/planner/planner.h, and the search for a column in
-- src/planner/planner.c.
use squel.Common.{
  Bool, Bytes, List, Run, [], bytes_eq, exit, if◌then◌else◌, length, ok, ℕ, ◌&&◌, ◌+◌, ◌∷◌,
}
use squel.Common.Int.{pos, ℤ}
use squel.Parser.Syntax.{Datatype}

-- The fields of ColumnMetadata that the program reads; `alias` and `identifier` are not read.
pub record ColumnMetadata : Type 0 where
  pub name : Bytes
  pub result_set_alias : Bytes
  pub type : Datatype
  pub size : ℕ
  pub active : Bool

-- `columnCount` is the length of `columns`, and `columnOrderCount` that of `column_order`, which
-- has the places of the columns in the order of a projection. `id` is not read.
pub record ResultSet : Type 0 where
  pub columns : List ColumnMetadata
  pub column_order : List ℕ
  pub size : ℕ

abbrev pub column_count : ResultSet → ℕ
column_count result = length result.columns

-- Whether a column has the name, in the table that the reference names.
abbrev pub is_column : Bytes → Bytes → ColumnMetadata → Bool
is_column name tblref column = bytes_eq name column.name && bytes_eq tblref column.result_set_alias

-- The loop of `findColIdxInResDesc`, from the column `i` on.
unfoldable pub find_loop : ℕ → Bytes → Bytes → List ColumnMetadata → Run ℤ
find_loop i name tblref [] = exit
find_loop i name tblref (column ∷ columns) =
    let rest = find_loop (i + 1) name tblref columns in
    if is_column name tblref column then ok (pos i) else rest

-- `findColIdxInResDesc`
unfoldable pub find_col_idx_in_res_desc : ResultSet → Bytes → Bytes → Run ℤ
unfolding find_loop
find_col_idx_in_res_desc result name tblref = find_loop 0 name tblref result.columns
