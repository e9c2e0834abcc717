-- ===== src/Sorting/Error.antt =====
-- src/sorting/error.rs and the error of src/plugin/error.rs that sorting passes on. `E` is the
-- error type of the esplugin crate.
use libloot.Prelude.{String, List}
use libloot.Sorting.Vertex.{Vertex}

pub data PluginDataError (E : Type 0) : Type 0 where
  plugin_data_error : E → PluginDataError E

pub record UndefinedGroupError : Type 0 where
  pub group_name : String

pub record CyclicInteractionError : Type 0 where
  pub cycle : List Vertex

pub data BuildGroupsGraphError : Type 0 where
  undefined_group : UndefinedGroupError → BuildGroupsGraphError
  cycle_found : CyclicInteractionError → BuildGroupsGraphError

pub data PathfindingError : Type 0 where
  negative_cycle : PathfindingError
  preceding_node_not_found following_node_not_found : String → PathfindingError
  edge_not_found : (from_group to_group : String) → PathfindingError

pub data PluginGraphValidationError (E : Type 0) : Type 0 where
  cycle_found : CyclicInteractionError → PluginGraphValidationError E
  plugin_data : PluginDataError E → PluginGraphValidationError E

pub data SortingError (E : Type 0) : Type 0 where
  validation_error : PluginGraphValidationError E → SortingError E
  undefined_group : UndefinedGroupError → SortingError E
  cycle_found : CyclicInteractionError → SortingError E
  cycle_involving : String → SortingError E
  plugin_data : PluginDataError E → SortingError E
  pathfinding_error : PathfindingError → SortingError E
