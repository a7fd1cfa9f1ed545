-- ===== src/Trigger.antt =====
-- The GC trigger of ART, mmtk/src/gc_trigger.rs.
pub mod Double
pub mod State
pub mod Policy
pub mod Limits
pub mod Polling
pub mod Sizing
pub mod Relief
pub mod Threads
pub mod Accesses
pub mod Example
mod Tests
