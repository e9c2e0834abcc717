-- ===== src/Sorting/Plugins/Overlap.antt =====
-- src/sorting/plugins.rs: the edges between plugins that overlap.
pub mod Leads
pub mod Safe
pub mod Edges
pub mod Ordered
pub mod Settled
use libloot.Prelude.{
  ℕ, Bool, true, false, not, ◌&&◌, ◌||◌, List, [], ◌∷◌, Option, none, some, range, ltb, ◌==◌,
  if◌then◌else◌,
}
use libloot.Prelude.Result.{Result, ok, ◌>>=◌, map_err}
use libloot.External.Petgraph.{Petgraph}
use libloot.Sorting.Vertex.{EdgeType}
use libloot.Sorting.Error.{SortingError, PluginDataError, plugin_data}
use libloot.Sorting.Plugins.Data.{
  SortingPlugin, PluginSortingData, asset_count, do_records_overlap, do_assets_overlap,
}
use libloot.Sorting.Plugins.Cache.{is_path_cached}
use libloot.Sorting.Plugins.Graph.{PluginsGraph, add_edge, path_exists}

module _ {E T : Type 0} (trait : SortingPlugin E T) (P : Petgraph (PluginSortingData T)) where
  abbrev Graph : Type 0
  Graph = PluginsGraph trait P

  -- `a == b || !plugin.do_records_overlap(other)?`: the second test is made only if the first fails.
  unfoldable pub records_do_not_decide :
      PluginSortingData T → PluginSortingData T → Result (PluginDataError E) Bool
  records_do_not_decide plugin other =
      if plugin.override_record_count == other.override_record_count
      then ok true
      else do_records_overlap trait plugin other >>= λ overlap. ok (not overlap)

  -- Whether the first plugin loads first, and the type of the edge; `none` is the `continue`.
  unfoldable pub overlap_order :
      PluginSortingData T
      → PluginSortingData T
      → Result (PluginDataError E) (Option (Bool × EdgeType))
  unfolding records_do_not_decide
  overlap_order plugin other = do
    by_assets ← records_do_not_decide plugin other
    let assets = asset_count trait plugin
    let other_assets = asset_count trait other
    ok (
        if by_assets
        then if assets == other_assets || not (do_assets_overlap trait plugin other)
          then none
          else some (ltb other_assets assets, EdgeType.asset_overlap)
        else some
            (ltb other.override_record_count plugin.override_record_count, EdgeType.record_overlap))

  -- The end of the loop's body.
  unfoldable pub add_edge_unless_cyclic : ℕ → ℕ → EdgeType → Graph → Graph
  unfolding is_path_cached add_edge path_exists
  add_edge_unless_cyclic from_index to_index edge_type graph =
      if is_path_cached from_index to_index graph.paths_cache
      then graph
      else let (cyclic, graph') = path_exists trait P to_index from_index graph in
        if cyclic then graph' else add_edge trait P from_index to_index edge_type graph'

  -- The body of the inner loop.
  unfoldable pub add_overlap_edge :
      PluginSortingData T → ℕ → ℕ → Graph → Result (SortingError E) Graph
  unfolding overlap_order add_edge_unless_cyclic
  add_overlap_edge plugin node_index other graph =
      if P.contains_edge graph.inner node_index other
        || P.contains_edge graph.inner other node_index
      then ok graph
      else do
        order ← map_err plugin_data (overlap_order plugin (P.index graph.inner other))
        elim order [
          | none ↦ ok graph
          | some (first, edge_type) ↦ ok (
              if first
              then add_edge_unless_cyclic node_index other edge_type graph
              else add_edge_unless_cyclic other node_index edge_type graph)
        ]

  unfoldable pub add_overlap_edges_to :
      PluginSortingData T → ℕ → List ℕ → Graph → Result (SortingError E) Graph
  unfolding add_overlap_edge
  add_overlap_edges_to plugin node_index [] graph = ok graph
  add_overlap_edges_to plugin node_index (other ∷ others) graph =
      add_overlap_edge plugin node_index other graph
      >>= add_overlap_edges_to plugin node_index others

  -- The body of the outer loop: a plugin with no overrides and no assets is skipped.
  unfoldable pub add_overlap_edges_at : ℕ → List ℕ → Graph → Result (SortingError E) Graph
  unfolding add_overlap_edges_to
  add_overlap_edges_at node_index later graph =
      let plugin = P.index graph.inner node_index in
      if plugin.override_record_count == 0 && asset_count trait plugin == 0
      then ok graph
      else add_overlap_edges_to plugin node_index later graph

  unfoldable pub add_overlap_edges_from : List ℕ → Graph → Result (SortingError E) Graph
  unfolding add_overlap_edges_at
  add_overlap_edges_from [] graph = ok graph
  add_overlap_edges_from (node_index ∷ later) graph =
      add_overlap_edges_at node_index later graph >>= add_overlap_edges_from later

  unfoldable pub add_overlap_edges : Graph → Result (SortingError E) Graph
  unfolding add_overlap_edges_from
  add_overlap_edges graph = add_overlap_edges_from (range (P.node_count graph.inner)) graph
