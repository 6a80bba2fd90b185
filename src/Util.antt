-- ===== src/Util.antt =====
-- src/util: the chained hash table of the hash join.
pub mod Hashmap
