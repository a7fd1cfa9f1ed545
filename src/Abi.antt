-- ===== src/Abi.antt =====
-- mmtk/src/abi.rs
pub mod Layout
pub mod Primitive
pub mod Status
pub mod Flags
pub mod Offsets
pub mod Class
pub mod ClassSize
pub mod Sizes
pub mod Objects
pub mod Superclasses
pub mod Casts
pub mod Codes
mod Tests
