-- ===== src/Planner/Operator.antt =====
-- The tree of operators that the planner makes, and the parts of src/planner/planner.c that do not
-- plan a query: datatypes, pointers, and the descriptions of results.
use squel.Common.{
  Bytes, List, Option, Run, [], at, bytes_eq, codes, defined, exit, fault, if◌then◌else◌, leb, map,
  none, null_pointer, ok, out_of_bounds, some, ℕ, ◌++◌, ◌+◌, ◌>>◌,
}
use squel.Common.Int.{}
use squel.Config.{array_max_size}
use squel.Parser.Syntax.{Datatype, dtype_long, dtype_str}
use squel.Parser.Tree.{Node}
use squel.Io.Tdb.{Tdb}
use squel.Planner.Plan.{AggregationType, Filters}
use squel.Planner.Result.{ColumnMetadata, ResultSet, column_count}
use squel.Planner.Join.{JoinType}

-- ScanInfo as the planner makes it for a table file.
pub record ScanInfo : Type 0 where
  pub tbldef : Tdb
  pub record_size : ℕ
  pub buffer_size : ℕ

-- CreateInfo: `colCount` is the length of the columns.
pub record CreateInfo : Type 0 where
  pub columns : List ColumnMetadata
  pub object_name : Bytes

-- The operators by their types. The list of filters behind `info.filter` stands for its operators,
-- of which only the first one's description is read; the description of a statement is empty.
pub data Operator : Type 0 where
  text_scan : Bytes → ResultSet → Operator
  table_scan : ScanInfo → ResultSet → Operator
  projection : ResultSet → Operator → Operator
  filtering : Filters → ResultSet → Operator → Operator
  joining : JoinType → Filters → ResultSet → Operator → Operator → Operator
  aggregation : AggregationType → ℕ → ResultSet → Operator → Operator
  create_table : CreateInfo → Operator
  insert_into : Bytes → Operator → Operator
  explanation : Operator → Operator

abbrev pub no_result : ResultSet
no_result = record { columns = []; column_order = []; size = 0 }

unfoldable pub result_description : Operator → ResultSet
result_description (text_scan path result) = result
result_description (table_scan info result) = result
result_description (projection result child) = result
result_description (filtering filters result child) = result
result_description (joining type filters result left right) = result
result_description (aggregation aggtype col result child) = result
result_description _ = no_result

-- `mapParsedDatatypeToEnumDatatype`
unfoldable pub map_parsed_datatype_to_enum_datatype : Bytes → Run Datatype
map_parsed_datatype_to_enum_datatype parsed =
    if bytes_eq parsed (codes "CHAR")
    then ok dtype_str
    else if bytes_eq parsed (codes "INT")
    then ok dtype_long
    else if bytes_eq parsed (codes "LONG")
    then ok dtype_long
    else exit

-- `node->next`, `node->child`, where the source does not look whether the pointer is NULL.
unfoldable pub follow : List Node → Option ℕ → Run Node
follow nodes none = fault null_pointer
follow nodes (some p) = at nodes p

-- `checkPtrNotNull` of a link.
unfoldable pub check_ptr_not_null : Option ℕ → Run ℕ
check_ptr_not_null none = exit
check_ptr_not_null (some p) = ok p

-- What `copyResultDescription` writes to one column.
abbrev pub copied_column : ColumnMetadata → ColumnMetadata
copied_column column = record column { size = 0 }

-- `copyResultDescription`. Both calls have as `offset` the number of columns that `opTo` has, and a
-- scan as `opFrom`, which has all its columns in its order. The order of the second one is not moved by the offset.
unfoldable pub copy_result_description : ResultSet → ResultSet → Run ResultSet
copy_result_description op_from op_to = do
  defined (leb (column_count op_to + column_count op_from) array_max_size) out_of_bounds
  ok (record op_to {
    columns = op_to.columns ++ map copied_column op_from.columns;
    column_order = op_to.column_order ++ op_from.column_order;
  })
