-- ===== src/Sorting/Sort/Partition.antt =====
-- src/sorting/plugins.rs: `sort_plugins_partition` as a whole.
use libloot.Prelude.{ℕ, ◌<◌, ◌≡◌, ◌⊎◌, Bool, String, List}
use libloot.Prelude.Result.{Result, ok, err}
use libloot.External.Petgraph.{Petgraph}
use libloot.Sorting.Graph.{Reach, Acyclic}
use libloot.Sorting.Vertex.{Vertex}
use libloot.Sorting.Error.{SortingError, PluginDataError}
use libloot.Sorting.Plugins.Data.{SortingPlugin, PluginSortingData, masters}
use libloot.Sorting.Plugins.Graph.{PluginsGraph, new}
use libloot.Sorting.Plugins.Graph.Paths.{next_of, IsCacheSound}
use libloot.Sorting.Plugins.Graph.Growth.{Grows}
use libloot.Sorting.Plugins.Specific.{add_specific_edges, add_early_loading_plugin_edges}
use libloot.Sorting.Sort.{add_nodes}
use libloot.Sorting.Plugins.Overlap.Leads.{CannotCompare}
use libloot.Sorting.Sort.Rules.{IsLoadOrder, MeetsRules}
use libloot.Sorting.Groups.{get_default_group_node}

module _ {E T : Type 0} (trait : SortingPlugin E T) (P : Petgraph (PluginSortingData T))
    (Q : Petgraph String) (unicase_eq : String → String → Bool)
    (toposort : P.Graph → Result ℕ (List ℕ)) where
  abbrev Graph : Type 0
  Graph = PluginsGraph trait P

  abbrev pub start : List (PluginSortingData T) → Graph
  start plugins = add_nodes trait P Q unicase_eq toposort plugins (new trait P)

  module _ (plugins : List (PluginSortingData T)) (groups_graph : Q.Graph)
      (early : List String) where
    -- The error is that of reading a plugin's masters, or of comparing the records of two plugins.
    abbrev pub IsUnreadable : PluginDataError E → Type 0
    IsUnreadable e =
        let graph = start plugins in
        ((i : ℕ) × (i < P.node_count graph.inner) × (masters trait (P.index graph.inner i) ≡ err e))
        ⊎ ((x : ℕ) × (y : ℕ) × (x < P.node_count graph.inner)
            × (y < P.node_count graph.inner)
            × CannotCompare trait P (P.index graph.inner x) (P.index graph.inner y) e)

    -- What a partition's sort comes to: a load order that meets the rules, or an error of the
    -- plugins' data, no default group, or a cycle of the specific edges and the early loaders'.
    abbrev pub SortOutcome : Result (SortingError E) (List String) → Type 0
    SortOutcome (ok names) = IsLoadOrder trait P unicase_eq early (start plugins) names
    SortOutcome (err (SortingError.validation_error e)) = ⊥
    SortOutcome (err (SortingError.undefined_group e)) =
        get_default_group_node Q groups_graph ≡ err e
    SortOutcome (err (SortingError.cycle_found e)) =
        (graph : Graph) × (add_specific_edges trait P unicase_eq (start plugins) ≡ ok graph)
        × ¬ (
            Acyclic
              (next_of trait P (add_early_loading_plugin_edges trait P unicase_eq early graph)))
    SortOutcome (err (SortingError.cycle_involving e)) = ⊥
    SortOutcome (err (SortingError.plugin_data e)) = IsUnreadable e
    SortOutcome (err (SortingError.pathfinding_error e)) = ⊥

    -- A result whose errors the sort may end with.
    abbrev Fails : {X : Type 0} → Result (SortingError E) X → Type 0
    Fails (ok x) = Unit
    Fails (err e) = SortOutcome (err e)

    -- The specific edges and the early loaders' edges of the plugins' graph.
    record IsPrepared (g₁ g₂ : Graph) : Type 0 where
      grows : Grows trait P (start plugins) g₂
      sound : IsCacheSound trait P g₂
      rules : MeetsRules trait P unicase_eq early (start plugins) (Reach (next_of trait P g₂))
