-- ===== src/Tests.antt =====
-- Runs of the model at fixed inputs, and the theorems at inputs that meet their hypotheses.
mod Sample
mod Hashmap
mod Filter
mod Aggregate
mod Join
mod Parser
mod Tables
mod Inserts
mod Sharing
mod Shell
mod HashJoin
mod Catalog
