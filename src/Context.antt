-- ===== src/Context.antt =====
-- go/base: the state that the parts of a migration share, and the check of a connection. The state is
-- split by what uses it: the names of the tables, the numeric settings, the loads, and throttling.
pub mod Names
pub mod Settings
pub mod LoadMap
pub mod Throttling
pub mod Validate
