-- ===== src/Parser/Syntax.antt =====
-- src/include/parser/parsetree.h: the kinds of nodes and of data.
use mathlib.Core.Bool.{Bool, true, false}

pub data Datatype : Type 0 where
  dtype_str dtype_int dtype_undefined dtype_long : Datatype

abbrev pub datatype_eq : Datatype → Datatype → Bool
datatype_eq dtype_str dtype_str = true
datatype_eq dtype_int dtype_int = true
datatype_eq dtype_undefined dtype_undefined = true
datatype_eq dtype_long dtype_long = true
datatype_eq _ _ = false

pub data NodeType : Type 0 where
  stmt_insert stmt_create stmt_explain expr ident_col ident_tbl filepath string number select :
      NodeType
  ident_fun join star from where_clause on root bool_op datatype column_list and table or : NodeType
  oparen cparen : NodeType
