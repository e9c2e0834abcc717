-- ===== src/Sorting.antt =====
-- src/sorting: how a load order is computed.
pub mod Vertex
pub mod Graph
pub mod Error
pub mod Search
pub mod Groups
pub mod Validate
pub mod Plugins
pub mod Sort
pub mod Samples
