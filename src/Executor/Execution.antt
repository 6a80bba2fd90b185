-- ===== src/Executor/Execution.antt =====
-- src/executor/executor.c: the functions behind the operators of a plan, and the loop over its tuples.
pub mod Loop
use squel.Common.{
  Bytes, Run, exit, false, fault, length, ltb, none, null_pointer, ok, out_of_fuel, require, suc,
  true, zero, ℕ, ◌>>=◌, ◌>>◌,
}
use squel.Config.{}
use squel.Planner.Plan.{Filters, comparison, none_left, tuple_size}
use squel.Planner.Result.{ResultSet, column_count}
use squel.Planner.Join.{JoinType, op_hashjoin, op_join}
use squel.Planner.Operator.{
  Operator, aggregation, filtering, joining, projection, result_description, table_scan, text_scan,
}
use squel.Io.Files.{Files}
use squel.Executor.Tuple.{Row, Tuple, base, init_tuple_of_size, is_tuple_empty}
use squel.Operators.Source.{Source}
use squel.Operators.Project.{project_source}
use squel.Operators.Scan.{scan_source}
use squel.Operators.ScanTdb.{scan_tdb_source, unread_scan}
use squel.Operators.Filter.Stream.{filter_source}
use squel.Operators.Join.{}
use squel.Operators.Join.Stream.{join_source, unstarted}
use squel.Operators.HashJoin.{hashjoin_source}
use squel.Operators.Aggregate.{AggState, aggregate_get_tuple}

-- An operator with its `getTuple` and its state.
pub record Machine : Type 1 where
  pub source : Source
  pub state : source.State

abbrev pub join_machine :
    ℕ → ℕ → (ℕ → Tuple) → JoinType → Filters → ℕ → Machine → Machine → Run Machine
join_machine fuel table_size raw op_join filters columns left right = ok (record {
  source = join_source left.source right.source filters columns raw fuel;
  state = unstarted left.source right.source filters columns raw fuel left.state right.state;
})
join_machine fuel table_size raw op_hashjoin (comparison info next none_left) columns left right =
    ok (record {
      source = hashjoin_source left.source right.source info next columns table_size raw fuel;
      state = record {
        left_state = left.state;
        right_state = right.state;
        hashmap = none;
        right_tuples = none;
        left_tuple = none;
        right_slot = 0;
        right_tuple_count = 0;
        right_tuples_collected = false;
        freed = false;
      };
    })
-- `deduceJoinType` gives no hash join for other filters.
join_machine fuel table_size raw op_hashjoin filters columns left right = fault null_pointer

-- `fuel` is for the loops of the operators, `table_size` the option OPT_HTSIZE; `raw` and `raw_buffer` are
-- what memory from `malloc` holds.
module _ (fuel table_size : ℕ) (raw : ℕ → Tuple) (raw_buffer : Bytes) (files : Files) where
  -- `assignGetTupleFunction` and `doAssignGetTupleFunction`, with the state that the planner made.
  unfoldable pub assign_get_tuple : Operator → Run Machine
  assign_get_tuple (text_scan path result) = ok (record {
    source = scan_source files path raw_buffer;
    state = record { tablefile = none; freed = false };
  })
  assign_get_tuple (table_scan info result) = ok (record {
    source =
        scan_tdb_source files info.tbldef.path result.columns info.record_size info.buffer_size;
    state = unread_scan info.tbldef.metadata_size;
  })
  assign_get_tuple (projection result child) = do
    m ← assign_get_tuple child
    ok (record { source = project_source m.source; state = m.state })
  assign_get_tuple (filtering filters result child) = do
    m ← assign_get_tuple child
    ok (record { source = filter_source m.source filters fuel; state = m.state })
  assign_get_tuple (joining type filters result left right) = do
    l ← assign_get_tuple left
    r ← assign_get_tuple right
    join_machine fuel table_size raw type filters (column_count (result_description left)) l r
  assign_get_tuple (aggregation aggtype col result child) = do
    m ← assign_get_tuple child
    ok (record {
      source = record {
        State = AggState m.source;
        get_tuple = aggregate_get_tuple m.source aggtype col fuel;
      };
      state = record { aggregation_done = false; child_state = m.state };
    })
  assign_get_tuple _ = exit

-- The loop of `executeSelect`. The handler may change the tuple that it is shown; `H` is what it
-- keeps outside of it.
module _ (src : Source) {H : Type 0} (tuple_handler : H → Row → Run (Row × H)) where
  unfoldable pub tuple_loop : ℕ → src.State → Row → H → Run H
  tuple_loop zero s row h = out_of_fuel
  tuple_loop (suc fuel) s row h = do
    (row₁, s₁) ← src.get_tuple s row
    elim (is_tuple_empty row₁) [
      | true ↦ ok h
      | false ↦ do (row₂, h₁) ← tuple_handler h row₁; tuple_loop fuel s₁ row₂ h₁
    ]

-- `executeSelect`
unfoldable pub execute_select :
    {H : Type 0} → ℕ → ResultSet → Machine → (H → Row → Run (Row × H)) → H → Run H
execute_select fuel result m tuple_handler h = do
  require (ltb 0 (length result.column_order))
  tuple_loop m.source tuple_handler fuel m.state (base (init_tuple_of_size tuple_size)) h
