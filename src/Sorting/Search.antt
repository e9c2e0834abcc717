-- ===== src/Sorting/Search.antt =====
-- src/sorting/search.rs: the searches in a graph, and the search for a cycle.
pub mod Bfs
pub mod Dfs
pub mod Cycle
