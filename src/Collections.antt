-- ===== src/Collections.antt =====
-- The parts of Rust's standard library that the crates keep their state in.
pub mod BTreeMap
pub mod HashMap
pub mod Sort
pub mod Filter
