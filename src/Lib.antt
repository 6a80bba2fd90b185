-- ===== src/Lib.antt =====
-- squel, a query engine for SQL over text files and its own row-oriented table files.
--
-- A query text is parsed to a tree (src/parser/), planned to a tree of operators (src/planner/), and run by
-- asking the operator at the top for one tuple after the other (src/executor/, src/operators/). Each operator
-- asks its children in turn.
--
-- Common: results of C code (`Run`: a value, an `exit(1)`, undefined behaviour as a `fault`, or fuel
--   that ran out), the bytes of strings, integers of any sign, lists.
-- Config: src/include/const.h.
-- Io/Files: the file system as a list of paths with their bytes; Io/Tdb: src/io/tdb.c, the head of a
--   table file; Io/TextFile: src/io/flatfile.c, the lines of a text file.
-- Util/Hashmap: src/util/hashmap.c. `insert_to_hashmap` is `insertToHashmap`, `insert_chain` is
--   `_tryInsert`, and so on; a bucket is its first node with the nodes that `next` leads to. Multimap
--   gives the abstract view: the values under a key and how many of them have been read.
-- Executor/Tuple: src/executor/tuple.c. A `Row` is a tuple of a table, whose columns lie in its block, or
--   the tuple of a join, which holds what its pointers lead to: two tuples of the join's own.
-- Executor/TupleBuffer: src/executor/tuplebuffer.c, whose slots keep the right side of a join.
-- Parser: src/parser/. Text has the loops over the characters of the query, Tree the nodes in memory,
--   whose pointers are places in it, and State the global variables of src/parser/parser.c, with a bind
--   for functions that change them. Lexer, Expression, Query and Statement have its functions, where
--   a name of the C code that is also a kind of node has `parse_` in front. Linked is about what
--   they leave in memory, Fuel about how much of the query they take, Words about what they accept.
-- Executor/Execution: src/executor/executor.c, from a plan to sources and the loop over their tuples;
--   Executor/Statements: src/executor/statements/.
-- Planner/Plan, Planner/Result, Planner/Operator: the records of src/include/planner/planner.h, with
--   the search for a column and the copies of descriptions of src/planner/planner.c. Planner/Query
--   has its other functions, makeJoinOp, and insert.c and explain.c of src/planner/operators/.
-- Planner/Catalog: src/planner/catalog.c; Planner/Scan: scan.c and scanTDB.c of src/planner/operators/;
--   Planner/Project: project.c and aggregate.c there; Planner/Statement: createtable.c there.
-- Planner/Filter: src/planner/operators/filter.c, from the nodes in memory to the operators;
--   Planner/Join: the filters of a join in src/planner/operators/join.c.
-- Operators/Source: the pointer `getTuple` and the state behind it, as an interface. What a source
--   promises is `Yields`: a list of items that its tuples show one by one, and then an empty tuple.
--   A join promises `Lends`: the same to a caller that gives each tuple back still showing its item.
--   The caller's tuple points into the join, so at its next call `take_back` puts the two tuples, as
--   the caller left them, in the join's left tuple and buffer.
-- Operators/Filter: src/operators/filter.c; Operators/Aggregate: src/operators/aggregate.c;
--   Operators/Join: src/operators/join.c; Operators/HashJoin, Scan, ScanTdb and Project: the files of
--   src/operators/ with these names. Each takes its children as sources, so that they nest as plans do.
-- Shell/Print: what src/squel.c prints, as a list of bytes; Shell/Options: its `main`, with
--   src/util/options.c.
-- Tests: tables in memory, and each law at concrete input.
--
-- Numbers: `size_t`, `int` and `long` wrap or fault as in C on a 64-bit machine with two's complement,
-- where a conversion to a smaller type keeps the low bits. Loops over tuples run on fuel; the theorems
-- name an amount that is enough: the number of tuples or of pairs and one more, or the number of nodes.
-- The recursion of the parser runs on fuel as well, one for each call inside another: three for each
-- character of a query of the largest size, and three more, are enough. The planner has fuel for
-- each node that the parser left. Allocation is taken to succeed, and freed memory matters only where the code uses it again (the end of a join or a scan).
--
-- Not modelled: the functions of the C library, except for what the code relies on (`atol`, `strtoull`,
-- `printf` of a number, files as lists of bytes); src/api/ and the ODBC driver, which hand tuples to an
-- outside driver manager; the freeing of plans and buffers.
pub mod Common
pub mod Config
pub mod Io
pub mod Util
pub mod Parser
pub mod Executor
pub mod Planner
pub mod Operators
pub mod Shell
mod Tests
