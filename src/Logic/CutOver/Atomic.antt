-- ===== src/Logic/CutOver/Atomic.antt =====
-- go/logic/migrator.go, `atomicCutOver`: three goroutines that agree over channels, in any interleaving.
pub mod State
pub mod MagicLock
pub mod Rename
pub mod Main
pub mod Steps
pub mod Knowledge
pub mod Kept
pub mod Invariant
pub mod Safety
pub mod Blocked
pub mod Sent
pub mod Room
