-- ===== src/Shell.antt =====
-- src/squel.c: the command line, and what a query prints.
pub mod Print
pub mod Options
pub mod Fields
pub mod Numbers
pub mod Tables
