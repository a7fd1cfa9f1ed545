-- ===== src/Api.antt =====
-- The calls that ART makes, mmtk/src/api.rs, apart from those that start MMTk.
pub mod Cursors
pub mod Objects
pub mod Barriers
pub mod Calls
pub mod Order
pub mod Lending
mod Tests
