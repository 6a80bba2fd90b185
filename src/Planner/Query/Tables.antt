-- ===== src/Planner/Query/Tables.antt =====
-- What the planner reads of tables comes to an end on any file.
use squel.Config.{line_buff}
use squel.Common.{
  Bool, Bytes, Ends, Ends->>=, Ends-defined, Ends-exit, Ends-fault, Ends-if, Ends-ok, List, Option,
  Run, [], decode, drop, ends_rules, exit, false, none, null_pointer, ok, out_of_bounds, some, suc,
  true, zero, ℕ, ◌++◌, ◌+◌, ◌==◌, ◌∷◌,
}
use squel.Parser.Syntax.{Datatype}
use squel.Parser.Tree.{Node}
use squel.Executor.Tuple.{c_string}
use squel.Io.Files.{Files, find_file, open_read, read_bytes, read_number}
use squel.Io.Tdb.{
  Tdb, TdbColumn, build_path_to_tdb_table, code_datatype, copy_string, read_column, read_columns,
  read_tdb_metadata, read_tdb_metadata_from_fd,
}
use squel.Io.TextFile.{fgets, read_line, remove_lf, store_string}
use squel.Planner.Plan.{}
use squel.Planner.Catalog.{add_type, catalog_file, infer_datatype, names_loop, types_loop}
use squel.Planner.Scan.{make_scan_op, make_scan_tdb_op, scan_columns, tdb_columns}
use squel.Planner.Filter.Enough.{}

open_read-Ends : (files : Files) (path : Bytes) → Ends (open_read files path)
unfolding open_read
open_read-Ends files path = found (find_file files path)
  where
    found : (o : Option Bytes) → Ends (elim o [ none ↦ exit | some content ↦ ok content ])
    found none = Ends-exit
    found (some content) = Ends-ok content

pub copy_string-Ends : (text : Bytes) → Ends (copy_string text)
unfolding copy_string
copy_string-Ends text = search ends_rules

c_string-Ends : (block : Bytes) → Ends (c_string block)
unfolding c_string
c_string-Ends [] = Ends-fault out_of_bounds
c_string-Ends (zero ∷ block) = Ends-ok []
c_string-Ends (suc c ∷ block) =
    Ends->>= (c_string block) _ (c_string-Ends block) λ rest e. Ends-ok _

decode-Ends : (n : ℕ) (bytes : Bytes) → Ends (decode n bytes)
unfolding decode
decode-Ends zero bytes = Ends-ok 0
decode-Ends (suc n) [] = Ends-fault out_of_bounds
decode-Ends (suc n) (c ∷ bytes) =
    Ends->>= (decode n bytes) _ (decode-Ends n bytes) λ rest e. Ends-ok _

read_number-Ends : (n : ℕ) (file : Bytes) → Ends (read_number n file)
unfolding read_number read_bytes
read_number-Ends n file = search (ends_rules, decode-Ends) depth 12

code_datatype-Ends : (code : ℕ) → Ends (code_datatype code)
unfolding code_datatype
code_datatype-Ends code = search ends_rules depth 12

read_column-Ends : (file : Bytes) → Ends (read_column file)
unfolding read_column read_bytes
read_column-Ends file =
    search (ends_rules, read_number-Ends, c_string-Ends, code_datatype-Ends) depth 20

read_columns-Ends : (left i : ℕ) (file : Bytes) → Ends (read_columns left i file)
unfolding read_columns
read_columns-Ends zero i file = Ends-ok _
read_columns-Ends (suc left) i file =
    let rest : (file' : Bytes) → Ends (read_columns left (i + 1) file') =
      read_columns-Ends left (i + 1) in
    search (ends_rules, read_column-Ends, rest) depth 12

read_tdb_metadata-Ends :
    (raw : Tdb) (files : Files) (path : Bytes) → Ends (read_tdb_metadata raw files path)
unfolding read_tdb_metadata read_tdb_metadata_from_fd
read_tdb_metadata-Ends raw files path =
    search (ends_rules, open_read-Ends, read_number-Ends, read_columns-Ends, copy_string-Ends) depth
      20

tdb_columns-Ends : (alias : Bytes) (columns : List TdbColumn) → Ends (tdb_columns alias columns)
unfolding tdb_columns
tdb_columns-Ends alias [] = Ends-ok _
tdb_columns-Ends alias (c ∷ cs) =
    Ends->>= (copy_string c.name) _ (copy_string-Ends c.name) λ name e.
      Ends->>= (copy_string alias) _ (copy_string-Ends alias) λ alias' e'.
        Ends->>= (tdb_columns alias cs) _ (tdb_columns-Ends alias cs)
          λ (columns, sizes) e''. Ends-ok _

pub make_scan_tdb_op-Ends :
    (raw : Tdb) (files : Files) (node : Node) → Ends (make_scan_tdb_op raw files node)
unfolding make_scan_tdb_op build_path_to_tdb_table
make_scan_tdb_op-Ends raw files node =
    search (ends_rules, copy_string-Ends, read_tdb_metadata-Ends, tdb_columns-Ends) depth 20

fgets_or-Ends :
    {A : Type 0} (o : Option (Bytes × Bytes)) (none_case : Run A)
    (some_case : Bytes → Bytes → Run A)
    → Ends none_case
    → ((line rest : Bytes) → Ends (some_case line rest))
    → Ends (elim o [ none ↦ none_case | some (line, rest) ↦ some_case line rest ])
fgets_or-Ends none n s h k = h
fgets_or-Ends (some (line, rest)) n s h k = k line rest

read_line-Ends : (file : Bytes) → Ends (read_line file)
unfolding read_line store_string remove_lf
read_line-Ends file =
    fgets_or-Ends (fgets line_buff file) _ _ (Ends-fault null_pointer)
      λ line rest. search (ends_rules, c_string-Ends) depth 24

names_loop-Ends :
    (delim : ℕ) (header : Bytes) (names : List Bytes) (name : Bytes)
    → Ends (names_loop delim header names name)
unfolding names_loop
names_loop-Ends delim [] names name = Ends-ok _
names_loop-Ends delim (c ∷ header) names name =
    Ends-if (c == delim) _ _
      (Ends->>= _ _ (Ends-defined _ _) λ u e. names_loop-Ends delim header (names ++ name ∷ []) [])
      (Ends->>= _ _ (Ends-defined _ _) λ u e. names_loop-Ends delim header names (name ++ c ∷ []))

add_type-Ends : (size : ℕ) (types : List Datatype) (item : Bytes) → Ends (add_type size types item)
unfolding add_type infer_datatype
add_type-Ends size types item = search ends_rules depth 16

pub Ends-elim :
    {A : Type 0} (b : Bool) (m n : Run A) → Ends m → Ends n → Ends (elim b [ true ↦ m | false ↦ n ])
Ends-elim true m n em en = em
Ends-elim false m n em en = en

types_loop-Ends :
    (delim size : ℕ) (line : Bytes) (types : List Datatype) (item : Bytes)
    → Ends (types_loop delim size line types item)
unfolding types_loop
types_loop-Ends delim size [] types item = add_type-Ends size types item
types_loop-Ends delim size (c ∷ line) types item =
    Ends-elim (c == delim) _ _
      (Ends->>= _ _ (add_type-Ends size types item)
        λ types' e. types_loop-Ends delim size line types' [])
      (types_loop-Ends delim size line types (item ++ c ∷ []))

catalog_file-Ends :
    (files : Files) (path : Bytes) (delim : ℕ) → Ends (catalog_file files path delim)
unfolding catalog_file
catalog_file-Ends files path delim =
    search
      (
        ends_rules, open_read-Ends, read_line-Ends, copy_string-Ends, names_loop-Ends,
        types_loop-Ends,
      )
      depth 24

scan_columns-Ends :
    (alias : Bytes) (names : List Bytes) (types : List Datatype)
    → Ends (scan_columns alias names types)
unfolding scan_columns
scan_columns-Ends alias [] types = Ends-ok []
scan_columns-Ends alias (name ∷ names) types =
    Ends->>= (copy_string name) _ (copy_string-Ends name) λ name' e.
      Ends->>= (copy_string alias) _ (copy_string-Ends alias) λ alias' e'.
        Ends->>= (scan_columns alias names (drop 1 types)) _
          (scan_columns-Ends alias names (drop 1 types)) λ columns e''. Ends-ok _

pub make_scan_op-Ends : (files : Files) (node : Node) → Ends (make_scan_op files node)
unfolding make_scan_op
make_scan_op-Ends files node = search (ends_rules, catalog_file-Ends, scan_columns-Ends) depth 16
