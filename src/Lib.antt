-- ===== src/Lib.antt =====
-- A model of the sorting of plugins and of metadata documents in libloot, and theorems about it.
--
-- libloot sorts the plugins of a game into a load order. `sort_plugins` checks the plugins, splits
-- them into masters, blueprint masters and the others, and sorts each part in a graph of its own:
-- the edges that metadata and plugin data ask for come first and are checked for cycles, then the
-- edges between groups, between overlapping plugins and between tied plugins are added, none of
-- which may close a cycle, and a topological sort of the graph is the result.
--
-- The files, and the code that they follow (below src/sorting, for Sorting):
--   Sorting/Vertex, Sorting/Error      vertex.rs and the types of error.rs
--   Sorting/Search/Bfs                 search.rs: bidirectional_bfs and its visitors
--   Sorting/Search/Dfs                 search.rs: depth_first_search and its visitors
--   Sorting/Search/Cycle               search.rs: CycleDetector and find_cycle
--   Sorting/Validate                   validate.rs
--   Sorting/Groups                     groups.rs, without find_path
--   Sorting/Plugins/Data               plugins.rs: PluginSortingData and the trait SortingPlugin
--   Sorting/Plugins/Cache, Finder      plugins.rs: the cache of paths, PathCacher and PathFinder
--   Sorting/Plugins/Graph              plugins.rs: PluginsGraph, add_edge, path_exists, find_path
--   Sorting/Plugins/Specific           plugins.rs: add_specific_edges, add_early_loading_plugin_edges
--   Sorting/Plugins/Grouping           plugins.rs: add_group_edges and GroupsPathVisitor
--   Sorting/Plugins/Overlap            plugins.rs: add_overlap_edges
--   Sorting/Plugins/TieBreak           plugins.rs: add_tie_break_edges and pin_node_position
--   Sorting/Sort                       plugins.rs: sort_plugins and sort_plugins_partition
-- and below src/metadata, for Metadata:
--   Metadata/Masterlist                metadata_document.rs: replace_prelude and what it calls;
--                                      error.rs: adjust_location
--   Metadata/Message, File, Group, Tag, Location, CleaningData
--                                      message.rs, file.rs, group.rs, tag.rs, location.rs and
--                                      plugin_cleaning_data.rs: the types and their builders
--   Metadata/PluginName                plugin_metadata.rs: PluginName and its helpers
--   Metadata/Plugin                    plugin_metadata.rs: PluginMetadata and merge_metadata
--   Metadata/Document                  metadata_document.rs: MetadataDocument
--   Metadata/Common                    metadata_document.rs: OrderedCounts and the common values
-- The modules below these hold the proofs. Sorting/Graph is about walks in any graph, Prelude holds
-- the shared names and lemmas, and Sorting/Samples and Metadata/Samples have an example of each
-- theorem.
--
-- Code that the repository does not hold is a parameter. External/Petgraph is a record of the
-- operations of the petgraph crate that the sort calls, with laws from the crate's documentation,
-- and External/Petgraph/Sample is an instance of it; `toposort` and the comparison of unicase are
-- arguments. The trait SortingPlugin is a record of functions, so a plugin is of any type.
-- For metadata, the comparison of names, the making of a regular expression and its search are
-- arguments, and so are the greatest values of the machine's word.
--
-- The sort uses names as opaque texts; metadata has them as their UTF-8 bytes, since the code there
-- reads bytes. Text holds what it uses of Rust's `str`, Prelude/Dict what it uses of `HashMap`.
--
-- A function that takes `&mut self` returns the new state. The cache of paths is part of the graph's
-- state, as in the code, and a search returns the cache that it filled. A hash set or map with node
-- indices for keys is a function, and the hash map of group names is a list of pairs. The `?`
-- operator is the bind of `Result`.
--
-- Loops are recursion on lists, or on fuel. The fuel of the bidirectional search is one more than
-- the number of nodes: each round takes a node off the forward queue, and none enters it twice. The
-- fuel of the loops of `PathFinder::path` is the number of nodes, for what is followed is a list of
-- parents, the oldest of which stands first. The fuel of the depth-first search is one round for each
-- edge of the start node and for the node, and one for each node and edge of the graph. As edges
-- are taken off a stack and only a white node puts more on it, that covers every round.
--
-- Not modelled: the texts of the log and of the errors, `find_path` of groups.rs, loading and saving
-- of metadata as YAML, and the rest of the library: plugin files, archives, conditions, the game and
-- the bindings.
pub mod Prelude
pub mod Text
pub mod External
pub mod Metadata
pub mod Sorting
