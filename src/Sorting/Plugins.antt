-- ===== src/Sorting/Plugins.antt =====
-- src/sorting/plugins.rs: the graph of plugins, and the edges that the sort puts into it.
pub mod Data
pub mod Cache
pub mod Finder
pub mod Graph
pub mod Specific
pub mod Grouping
pub mod Overlap
pub mod TieBreak
