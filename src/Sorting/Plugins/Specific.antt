-- ===== src/Sorting/Plugins/Specific.antt =====
-- src/sorting/plugins.rs: the edges from plugin data, from metadata other than groups, and from
-- the early loaders. `unicase_eq` is `unicase::eq`.
pub mod Names
pub mod Follow
pub mod Flags
pub mod Heeded
pub mod Positions
pub mod Loaders
pub mod Early
use libloot.Prelude.{
  ℕ, Bool, String, List, [], ◌∷◌, Option, none, some, find, range, windows, position, last?, leb,
  if◌then◌else◌,
}
use libloot.Prelude.Sort.{stable_sort}
use libloot.Prelude.Result.{Result, ok, ◌>>=◌, map_err}
use libloot.External.Petgraph.{Petgraph}
use libloot.Sorting.Vertex.{EdgeType}
use libloot.Sorting.Error.{SortingError, plugin_data}
use libloot.Sorting.Plugins.Data.{SortingPlugin, PluginSortingData, name, masters}
use libloot.Sorting.Plugins.Graph.{PluginsGraph, add_edge}

module _ {E T : Type 0} (trait : SortingPlugin E T) (P : Petgraph (PluginSortingData T))
    (unicase_eq : String → String → Bool) where
  abbrev Graph : Type 0
  Graph = PluginsGraph trait P

  -- `self[node_index]`
  abbrev pub at : Graph → ℕ → PluginSortingData T
  at graph i = P.index graph.inner i

  abbrev pub node_indices : Graph → List ℕ
  node_indices graph = range (P.node_count graph.inner)

  unfoldable pub node_index_by_name : String → Graph → Option ℕ
  node_index_by_name n graph =
      find (λ i. unicase_eq (name trait (at graph i)) n) (node_indices graph)

  -- The loop over names of other plugins that a plugin loads after.
  unfoldable pub add_edges_from_names : EdgeType → List String → ℕ → Graph → Graph
  unfolding node_index_by_name
  add_edges_from_names edge_type [] node_index graph = graph
  add_edges_from_names edge_type (file ∷ files) node_index graph =
      add_edges_from_names edge_type files node_index (elim (node_index_by_name file graph) [
        | none ↦ graph
        | some other_node_index ↦ add_edge trait P other_node_index node_index edge_type graph
      ])

  -- The loop over the nodes that follow in the iteration.
  unfoldable pub add_master_flag_edges : PluginSortingData T → ℕ → List ℕ → Graph → Graph
  add_master_flag_edges plugin node_index [] graph = graph
  add_master_flag_edges plugin node_index (other ∷ others) graph =
      let other_plugin = at graph other in
      add_master_flag_edges plugin node_index others (
        if plugin.is_master
        then if other_plugin.is_master
          then graph
          else add_edge trait P node_index other EdgeType.master_flag graph
        else if other_plugin.is_master
        then add_edge trait P other node_index EdgeType.master_flag graph
        else graph)

  -- The body of the loop over the nodes.
  unfoldable pub add_specific_edges_at : ℕ → List ℕ → Graph → Result (SortingError E) Graph
  unfolding add_master_flag_edges add_edges_from_names
  add_specific_edges_at node_index later graph = do
    let plugin = at graph node_index
    let flagged = add_master_flag_edges plugin node_index later graph
    names ← map_err plugin_data (masters trait plugin)
    let g₁ = add_edges_from_names EdgeType.master names node_index flagged
    let g₂ =
        add_edges_from_names EdgeType.masterlist_requirement plugin.masterlist_req node_index g₁
    let g₃ = add_edges_from_names EdgeType.user_requirement plugin.user_req node_index g₂
    let g₄ =
        add_edges_from_names EdgeType.masterlist_load_after plugin.masterlist_load_after node_index
          g₃
    ok (add_edges_from_names EdgeType.user_load_after plugin.user_load_after node_index g₄)

  unfoldable pub add_specific_edges_from : List ℕ → Graph → Result (SortingError E) Graph
  unfolding add_specific_edges_at
  add_specific_edges_from [] graph = ok graph
  add_specific_edges_from (node_index ∷ later) graph =
      add_specific_edges_at node_index later graph >>= add_specific_edges_from later

  unfoldable pub add_specific_edges : Graph → Result (SortingError E) Graph
  unfolding add_specific_edges_from
  add_specific_edges graph = add_specific_edges_from (node_indices graph) graph

  -- The loop that sorts the nodes into early loaders, with their positions, and others.
  unfoldable pub split_early_loaders : List String → List ℕ → Graph → List (ℕ × ℕ) × List ℕ
  split_early_loaders early [] graph = ([], [])
  split_early_loaders early (node_index ∷ rest) graph =
      let (loaders, others) = split_early_loaders early rest graph in
      elim (position (λ e. unicase_eq e (name trait (at graph node_index))) early) [
        | some i ↦ ((i, node_index) ∷ loaders, others)
        | none ↦ (loaders, node_index ∷ others)
      ]

  unfoldable pub add_hardcoded_edges : List ((ℕ × ℕ) × (ℕ × ℕ)) → Graph → Graph
  add_hardcoded_edges [] graph = graph
  add_hardcoded_edges (((i, from), (j, to)) ∷ rest) graph =
      add_hardcoded_edges rest (add_edge trait P from to EdgeType.hardcoded graph)

  unfoldable pub add_hardcoded_edges_from : ℕ → List ℕ → Graph → Graph
  add_hardcoded_edges_from from [] graph = graph
  add_hardcoded_edges_from from (to ∷ rest) graph =
      add_hardcoded_edges_from from rest (add_edge trait P from to EdgeType.hardcoded graph)

  unfoldable pub add_early_loading_plugin_edges : List String → Graph → Graph
  unfolding split_early_loaders add_hardcoded_edges add_hardcoded_edges_from stable_sort
  add_early_loading_plugin_edges [] graph = graph
  add_early_loading_plugin_edges (e ∷ es) graph =
      let (found, others) = split_early_loaders (e ∷ es) (node_indices graph) graph in
      let loaders = stable_sort (λ (a b : ℕ × ℕ). leb a.0 b.0) found in
      let chained = add_hardcoded_edges (windows loaders) graph in
      elim (last? loaders) [
        | none ↦ chained
        | some (i, from_index) ↦ add_hardcoded_edges_from from_index others chained
      ]
