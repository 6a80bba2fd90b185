-- ===== src/Executor.antt =====
-- src/executor: tuples and the buffer of tuples.
pub mod Tuple
pub mod TupleBuffer
pub mod Execution
pub mod Statements
