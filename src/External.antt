-- ===== src/External.antt =====
-- What the code uses of the crates that it depends on.
pub mod Petgraph
