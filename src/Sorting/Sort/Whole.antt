-- ===== src/Sorting/Sort/Whole.antt =====
-- src/sorting/plugins.rs: `sort_plugins` as a whole.
use libloot.Prelude.{◌≡◌, ◌⊎◌, Bool, String, List, [], ◌++◌, map, range, ℕ}
use libloot.Prelude.Result.{Result, ok, err}
use libloot.External.Petgraph.{Petgraph}
use libloot.Sorting.Error.{SortingError, UndefinedGroupError, PluginGraphValidationError}
use libloot.Sorting.Groups.{get_default_group_node}
use libloot.Sorting.Validate.{validate_plugin_groups, validate_specific_and_hardcoded_edges}
use libloot.Sorting.Plugins.Data.{SortingPlugin, PluginSortingData}
use libloot.Sorting.Sort.Parts.{IsPartition}
use libloot.Sorting.Sort.Rules.{IsLoadOrder}
use libloot.Sorting.Sort.Partition.{start, SortOutcome}

module _ {E T : Type 0} (trait : SortingPlugin E T) (P : Petgraph (PluginSortingData T))
    (Q : Petgraph String) (unicase_eq : String → String → Bool)
    (toposort : P.Graph → Result ℕ (List ℕ)) where
  abbrev Plugins : Type 0
  Plugins = List (PluginSortingData T)

  module _ (plugins : Plugins) (groups_graph : Q.Graph) (early : List String) where
    abbrev IsOrderOf : Plugins → List String → Type 0
    IsOrderOf part names =
        IsLoadOrder trait P unicase_eq early (start trait P Q unicase_eq toposort part) names

    abbrev PartOutcome : Plugins → Result (SortingError E) (List String) → Type 0
    PartOutcome part = SortOutcome trait P Q unicase_eq toposort part groups_graph early

    abbrev check_groups : Result UndefinedGroupError (Unit {0})
    check_groups =
        validate_plugin_groups plugins
          (map (Q.index groups_graph) (range (Q.node_count groups_graph)))

    -- For the masters that are no blueprints, the other plugins and the blueprint masters.
    module _ (ms os bs : Plugins) where
      abbrev check_parts : Result (PluginGraphValidationError E) (Unit {0})
      check_parts = validate_specific_and_hardcoded_edges unicase_eq trait ms bs os early

      -- What the sort comes to: if the checks pass, load orders of the three parts one after the
      -- other, or else an error that a check or the sort of a part gives.
      abbrev pub PartsOutcome : Result (SortingError E) (List String) → Type 0
      PartsOutcome (ok names) =
          ((plugins ≡ []) × (names ≡ []))
          ⊎ ((check_groups ≡ ok tt)
              × (check_parts ≡ ok tt)
              × (masters : List String) × (others : List String) × (blueprints : List String)
              × (names ≡ (masters ++ others) ++ blueprints)
              × IsOrderOf ms masters
              × IsOrderOf os others
              × IsOrderOf bs blueprints)
      PartsOutcome (err (SortingError.validation_error e)) =
          (check_groups ≡ ok tt) × (check_parts ≡ err e)
      PartsOutcome (err (SortingError.undefined_group e)) =
          (check_groups ≡ err e) ⊎ (get_default_group_node Q groups_graph ≡ err e)
      PartsOutcome (err (SortingError.cycle_found e)) =
          (check_groups ≡ ok tt)
          × (check_parts ≡ ok tt)
          × (PartOutcome ms (err (SortingError.cycle_found e))
              ⊎ PartOutcome bs (err (SortingError.cycle_found e))
              ⊎ PartOutcome os (err (SortingError.cycle_found e)))
      PartsOutcome (err (SortingError.cycle_involving e)) = ⊥
      PartsOutcome (err (SortingError.plugin_data e)) =
          (check_groups ≡ ok tt)
          × (check_parts ≡ ok tt)
          × (PartOutcome ms (err (SortingError.plugin_data e))
              ⊎ PartOutcome bs (err (SortingError.plugin_data e))
              ⊎ PartOutcome os (err (SortingError.plugin_data e)))
      PartsOutcome (err (SortingError.pathfinding_error e)) = ⊥

    -- The same for some parts of the plugins.
    abbrev pub WholeOutcome : Result (SortingError E) (List String) → Type 0
    WholeOutcome r =
        (ms : Plugins) × (os : Plugins) × (bs : Plugins) × IsPartition trait P Q unicase_eq toposort
          plugins ms os bs
        × PartsOutcome ms os bs r
