-- ===== src/Sorting/Sort.antt =====
-- src/sorting/plugins.rs: `sort_plugins`, which sorts masters, other plugins and blueprint masters
-- in a graph each. `toposort` is `petgraph::algo::toposort`, which returns the nodes in an order
-- or a node that is on a cycle.
pub mod Order
pub mod Unique
pub mod Nodes
pub mod Rules
pub mod Partition
pub mod Parts
pub mod Whole
use libloot.Prelude.{
  ℕ, Bool, not, String, List, [], ◌∷◌, ◌++◌, map, keep, range, Option, none, some, str_le, windows,
  find, if◌then◌else◌,
}
use libloot.Prelude.Sort.{stable_sort}
use libloot.Prelude.Result.{Result, ok, err, ◌>>=◌, ◌>>◌, map_err}
use libloot.External.Petgraph.{Petgraph}
use libloot.Sorting.Error.{SortingError, CyclicInteractionError}
use libloot.Sorting.Search.Cycle.{find_cycle}
use libloot.Sorting.Validate.{validate_plugin_groups, validate_specific_and_hardcoded_edges}
use libloot.Sorting.Plugins.Data.{SortingPlugin, PluginSortingData, name, is_blueprint_master}
use libloot.Sorting.Plugins.Graph.{PluginsGraph, new, add_node}
use libloot.Sorting.Plugins.Specific.{add_specific_edges, add_early_loading_plugin_edges}
use libloot.Sorting.Plugins.Grouping.{add_group_edges}
use libloot.Sorting.Plugins.Overlap.{add_overlap_edges}
use libloot.Sorting.Plugins.TieBreak.{TieState, add_tie_break_edges}

module _ {E T : Type 0} (trait : SortingPlugin E T) (P : Petgraph (PluginSortingData T))
    (Q : Petgraph String) (unicase_eq : String → String → Bool)
    (toposort : P.Graph → Result ℕ (List ℕ)) where
  abbrev Graph : Type 0
  Graph = PluginsGraph trait P

  unfoldable pub check_for_cycles : Graph → Result CyclicInteractionError (Unit {0})
  check_for_cycles graph = elim (find_cycle P graph.inner (name trait)) [
    | some cycle ↦ err (record { cycle = cycle })
    | none ↦ ok tt
  ]

  unfoldable pub topological_sort : Graph → Result (SortingError E) (List ℕ)
  topological_sort graph =
      map_err (λ i. SortingError.cycle_involving (name trait (P.index graph.inner i)))
        (toposort graph.inner)

  -- The first pair of consecutive nodes with no edge between them.
  unfoldable pub check_path_is_hamiltonian : Graph → List ℕ → Option (ℕ × ℕ)
  check_path_is_hamiltonian graph path =
      find (λ (pair : ℕ × ℕ). not (P.contains_edge graph.inner pair.0 pair.1)) (windows path)

  unfoldable pub add_nodes : List (PluginSortingData T) → Graph → Graph
  add_nodes [] graph = graph
  add_nodes (plugin ∷ plugins) graph = add_nodes plugins (add_node trait P plugin graph)

  -- The check of the path only writes to the log.
  unfoldable pub sort_plugins_partition :
      List (PluginSortingData T) → Q.Graph → List String → Result (SortingError E) (List String)
  sort_plugins_partition plugins groups_graph early = do
    g₁ ← add_specific_edges trait P unicase_eq (add_nodes plugins (new trait P))
    let g₂ = add_early_loading_plugin_edges trait P unicase_eq early g₁
    map_err SortingError.cycle_found (check_for_cycles g₂)
    g₃ ← map_err SortingError.undefined_group (add_group_edges trait P Q groups_graph g₂)
    g₄ ← add_overlap_edges trait P g₃
    s ← map_err SortingError.pathfinding_error (add_tie_break_edges trait P g₄)
    map_err SortingError.cycle_found (check_for_cycles s.graph)
    sorted_nodes ← topological_sort s.graph
    ok (map (λ i. name trait (P.index s.graph.inner i)) sorted_nodes)

  -- The plugins in the order of their names, and the three partitions.
  abbrev by_name : List (PluginSortingData T) → List (PluginSortingData T)
  by_name plugins = stable_sort (λ a b. str_le (name trait a) (name trait b)) plugins

  abbrev plain_masters : List (PluginSortingData T) → List (PluginSortingData T)
  plain_masters plugins =
      keep (λ p. not (is_blueprint_master trait p))
        (keep (λ (p : PluginSortingData T). p.is_master) plugins)

  abbrev blueprint_masters : List (PluginSortingData T) → List (PluginSortingData T)
  blueprint_masters plugins =
      keep (is_blueprint_master trait) (keep (λ (p : PluginSortingData T). p.is_master) plugins)

  abbrev non_masters : List (PluginSortingData T) → List (PluginSortingData T)
  non_masters plugins = keep (λ (p : PluginSortingData T). not p.is_master) plugins

  unfoldable pub sort_plugins :
      List (PluginSortingData T) → Q.Graph → List String → Result (SortingError E) (List String)
  sort_plugins [] groups_graph early = ok []
  sort_plugins (p ∷ ps) groups_graph early = do
    map_err SortingError.undefined_group (
        validate_plugin_groups (p ∷ ps)
          (map (Q.index groups_graph) (range (Q.node_count groups_graph))))
    let plugins = by_name (p ∷ ps)
    map_err SortingError.validation_error (
        validate_specific_and_hardcoded_edges unicase_eq trait (plain_masters plugins)
          (blueprint_masters plugins) (non_masters plugins) early)
    masters_order ← sort_plugins_partition (plain_masters plugins) groups_graph early
    blueprint_order ← sort_plugins_partition (blueprint_masters plugins) groups_graph early
    other_order ← sort_plugins_partition (non_masters plugins) groups_graph early
    ok ((masters_order ++ other_order) ++ blueprint_order)
