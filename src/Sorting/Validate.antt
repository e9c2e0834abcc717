-- ===== src/Sorting/Validate.antt =====
-- src/sorting/validate.rs: the checks that are made before any edge is added. A hash set of
-- `UniCase` names holds a name if one of the names that it was made from equals it by `unicase_eq`.
pub mod Files
pub mod Exact
use libloot.Prelude.{Bool, true, false, String, List, [], ◌∷◌, map, any, str_eq, if◌then◌else◌}
use libloot.Prelude.Result.{Result, ok, err, ◌>>=◌, ◌>>◌, map_err, try_for_each}
use libloot.Sorting.Vertex.{EdgeType, Vertex, vertex, with_out_edge_type}
use libloot.Sorting.Error.{
  UndefinedGroupError, CyclicInteractionError, PluginDataError, PluginGraphValidationError,
}
use libloot.Sorting.Plugins.Data.{SortingPlugin, PluginSortingData, name, masters}

-- `group_names` are the names of the nodes of the groups graph.
unfoldable pub validate_plugin_groups :
    {T : Type 0} → List (PluginSortingData T) → List String → Result UndefinedGroupError (Unit {0})
validate_plugin_groups [] group_names = ok tt
validate_plugin_groups (plugin ∷ plugins) group_names =
    let rest = validate_plugin_groups plugins group_names in
    if any (str_eq plugin.group) group_names
    then rest
    else err (record { group_name = plugin.group })

-- An error that names two vertices.
abbrev pub two_vertex_cycle : String → EdgeType → String → EdgeType → CyclicInteractionError
two_vertex_cycle a t b u = record {
  cycle = with_out_edge_type (vertex a) t ∷ with_out_edge_type (vertex b) u ∷ [];
}

module _ (unicase_eq : String → String → Bool) where
  abbrev pub contains : List String → String → Bool
  contains names key = any (λ n. unicase_eq n key) names

  unfoldable pub validate_files :
      List String
      → String
      → List String
      → List String
      → EdgeType
      → Result CyclicInteractionError (Unit {0})
  validate_files [] plugin_name non_masters blueprint_masters edge_type = ok tt
  validate_files (file ∷ files) plugin_name non_masters blueprint_masters edge_type =
      let rest = validate_files files plugin_name non_masters blueprint_masters edge_type in
      if contains non_masters file
      then err (two_vertex_cycle file edge_type plugin_name EdgeType.master_flag)
      else if contains blueprint_masters file
      then err (two_vertex_cycle file edge_type plugin_name EdgeType.blueprint_master)
      else rest

  -- The loop over a plugin's masters. A blueprint master among them is only logged.
  unfoldable pub validate_master_names :
      List String → String → List String → Result CyclicInteractionError (Unit {0})
  validate_master_names [] plugin_name non_masters = ok tt
  validate_master_names (master ∷ rest) plugin_name non_masters =
      let later = validate_master_names rest plugin_name non_masters in
      if contains non_masters master
      then err (two_vertex_cycle master EdgeType.master plugin_name EdgeType.master_flag)
      else later

  module _ {E T : Type 0} (trait : SortingPlugin E T) where
    abbrev Checked : Type 0
    Checked = Result (PluginGraphValidationError E) (Unit {0})

    abbrev pub cyclic : Result CyclicInteractionError (Unit {0}) → Checked
    cyclic = map_err PluginGraphValidationError.cycle_found

    unfoldable pub validate_plugin : List String → List String → PluginSortingData T → Checked
    unfolding validate_files validate_master_names
    validate_plugin non_masters blueprint_masters plugin = do
      names ← map_err PluginGraphValidationError.plugin_data (masters trait plugin)
      cyclic (validate_master_names names (name trait plugin) non_masters)
      cyclic (
          validate_files plugin.masterlist_req (name trait plugin) non_masters blueprint_masters
            EdgeType.masterlist_requirement)
      cyclic (
          validate_files plugin.user_req (name trait plugin) non_masters blueprint_masters
            EdgeType.user_requirement)
      cyclic (
          validate_files plugin.masterlist_load_after (name trait plugin) non_masters
            blueprint_masters EdgeType.masterlist_load_after)
      cyclic (
          validate_files plugin.user_load_after (name trait plugin) non_masters blueprint_masters
            EdgeType.user_load_after)

    unfoldable pub validate_masters :
        List (PluginSortingData T) → List String → List String → Checked
    unfolding validate_plugin
    validate_masters plugins non_masters blueprint_masters =
        try_for_each (validate_plugin non_masters blueprint_masters) plugins

    -- The empty set keeps the plugins from being checked against themselves.
    unfoldable pub validate_non_masters : List (PluginSortingData T) → List String → Checked
    unfolding validate_plugin
    validate_non_masters plugins blueprint_masters =
        try_for_each (validate_plugin [] blueprint_masters) plugins

    -- The loop over the early loaders, which reports the first master.
    unfoldable pub validate_early_loaders :
        List String → String → List String → Result CyclicInteractionError (Unit {0})
    validate_early_loaders [] master non_masters = ok tt
    validate_early_loaders (plugin ∷ plugins) master non_masters =
        let rest = validate_early_loaders plugins master non_masters in
        if contains non_masters plugin
        then err (two_vertex_cycle plugin EdgeType.hardcoded master EdgeType.master_flag)
        else rest

    unfoldable pub validate_early_loading_plugins :
        List String
        → List (PluginSortingData T)
        → List String
        → Result CyclicInteractionError (Unit {0})
    unfolding validate_early_loaders
    validate_early_loading_plugins early [] non_masters = ok tt
    validate_early_loading_plugins early (master ∷ rest) non_masters =
        validate_early_loaders early (name trait master) non_masters

    unfoldable pub validate_specific_and_hardcoded_edges :
        (plain blueprint others : List (PluginSortingData T)) → List String → Checked
    unfolding validate_masters validate_non_masters validate_early_loading_plugins
    validate_specific_and_hardcoded_edges plain blueprint others early = do
      let non_masters_set = map (name trait) others
      let blueprint_masters_set = map (name trait) blueprint
      validate_masters plain non_masters_set blueprint_masters_set
      validate_non_masters others blueprint_masters_set
      cyclic (validate_early_loading_plugins early plain non_masters_set)
