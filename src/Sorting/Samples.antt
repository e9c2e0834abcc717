-- ===== src/Sorting/Samples.antt =====
-- Examples of the theorems on sorting.
mod Toposort
mod Plugins
mod Examples
