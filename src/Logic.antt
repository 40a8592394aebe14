-- ===== src/Logic.antt =====
-- go/logic: the parts that run a migration.
pub mod Throttler
pub mod Applier
pub mod Migrator
pub mod Operations
pub mod CutOver
pub mod Migration
pub mod Changelog
pub mod RowCopy
pub mod Inspector
pub mod Streamer
pub mod WriteFuncs
pub mod Server
