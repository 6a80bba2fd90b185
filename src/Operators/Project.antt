-- ===== src/Operators/Project.antt =====
-- src/operators/project.c: a projection changes the description of the result alone.
use squel.Common.{Run}
use squel.Executor.Tuple.{Row}
use squel.Operators.Source.{Source}

-- `projectGetTuple`; the executor sets the pointers that it tests.
unfoldable pub project_get_tuple : (child : Source) → child.State → Row → Run (Row × child.State)
project_get_tuple child s row = child.get_tuple s row

abbrev pub project_source : Source → Source
project_source child = record { State = child.State; get_tuple = project_get_tuple child }
