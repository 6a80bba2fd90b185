-- ===== src/Parser.antt =====
-- src/parser/ and src/include/parser/: the query text to its tree.
pub mod Syntax
pub mod Text
pub mod Tree
pub mod State
pub mod Lexer
pub mod Expression
pub mod Query
pub mod Statement
pub mod Linked
pub mod Fuel
pub mod Words
