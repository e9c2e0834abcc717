-- ===== src/Sorting/Plugins/Graph.antt =====
-- src/sorting/plugins.rs: the plugins graph and its cache of paths.
pub mod Paths
pub mod Found
pub mod Growth
use libloot.Prelude.{ℕ, Bool, true, List, Option, none, empty_map, if◌then◌else◌}
use libloot.Prelude.Result.{Result, ok}
use libloot.External.Petgraph.{Petgraph}
use libloot.Sorting.Vertex.{EdgeType}
use libloot.Sorting.Error.{PathfindingError}
use libloot.Sorting.Search.Bfs.{bidirectional_bfs}
use libloot.Sorting.Plugins.Data.{SortingPlugin, PluginSortingData, name}
use libloot.Sorting.Plugins.Cache.{PathsCache, cache_path, is_path_cached, path_cacher}
use libloot.Sorting.Plugins.Finder.{path_finder, finder_visitor, path}

module _ {E T : Type 0} (trait : SortingPlugin E T) (P : Petgraph (PluginSortingData T)) where
  pub record PluginsGraph : Type 0 where
    pub inner : P.Graph
    pub paths_cache : PathsCache

  abbrev pub new : PluginsGraph
  new = record { inner = P.new; paths_cache = empty_map }

  unfoldable pub add_node : PluginSortingData T → PluginsGraph → PluginsGraph
  add_node plugin graph = record graph { inner = P.add_node graph.inner plugin }

  unfoldable pub add_edge : ℕ → ℕ → EdgeType → PluginsGraph → PluginsGraph
  unfolding is_path_cached cache_path
  add_edge from to edge_type graph =
      if is_path_cached from to graph.paths_cache then graph else record {
        inner = P.add_edge graph.inner from to edge_type;
        paths_cache = cache_path from to graph.paths_cache;
      }

  -- The result, and the graph with what the search put into the cache.
  unfoldable pub path_exists : ℕ → ℕ → PluginsGraph → Bool × PluginsGraph
  unfolding is_path_cached bidirectional_bfs path_cacher
  path_exists from to graph =
      if is_path_cached from to graph.paths_cache
      then (true, graph)
      else let (found, cache) =
          bidirectional_bfs P graph.inner from to (path_cacher from to) graph.paths_cache in
        (found, record graph { paths_cache = cache })

  unfoldable pub find_path :
      ℕ → ℕ → PluginsGraph → Result PathfindingError (Option (List ℕ)) × PluginsGraph
  unfolding bidirectional_bfs path_finder finder_visitor path
  find_path from to graph =
      let (found, finder) =
        bidirectional_bfs P graph.inner from to (finder_visitor from to)
          (path_finder graph.paths_cache) in
      (
        if found
            then path (λ i. name trait (P.index graph.inner i)) (P.node_count graph.inner) from to
                finder
            else ok none,
        record graph { paths_cache = finder.cache },
      )
