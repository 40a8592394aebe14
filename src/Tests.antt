-- ===== src/Tests.antt =====
-- Runs of the definitions at concrete inputs.
mod Servers
mod Statements
mod Context
mod Copying
mod CuttingOver
mod Commanding
mod Migrating
mod Renaming
mod Running
mod Applying
mod Streaming
mod Writing
mod Granting
