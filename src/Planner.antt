-- ===== src/Planner.antt =====
-- src/planner/ and src/include/planner/: from the tree of a query to a tree of operators.
pub mod Plan
pub mod Result
pub mod Filter
pub mod Columns
pub mod Join
pub mod Catalog
pub mod Operator
pub mod Scan
pub mod Project
pub mod Statement
pub mod Query
