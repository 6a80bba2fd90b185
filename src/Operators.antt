-- ===== src/Operators.antt =====
-- src/operators: the operators of a query plan, each of which hands out one tuple at a call.
pub mod Source
pub mod Filter
pub mod Aggregate
pub mod Join
pub mod ScanTdb
pub mod Scan
pub mod HashJoin
pub mod Project
