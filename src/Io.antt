-- ===== src/Io.antt =====
-- src/io: files as their contents, and the metadata of a table.
pub mod Files
pub mod Tdb
pub mod TextFile
