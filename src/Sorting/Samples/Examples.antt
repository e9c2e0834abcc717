-- ===== src/Sorting/Samples/Examples.antt =====
-- The theorems on sorting at examples.
use libloot.Prelude.{ℕ, ◌≡◌, true, [], ◌∷◌, ◌↔◌, arith, str_eq, Memᴰ, ◌⊎◌}
use libloot.Sorting.Graph.{Reach}
use libloot.Sorting.Vertex.{EdgeType}
use libloot.Prelude.{empty_map}
use libloot.Sorting.Groups.{path_length_visitor}
use libloot.Sorting.Search.Dfs.{dfs_loop, depth_first_search}
use libloot.Sorting.Search.Dfs.Ends.{first_state, depth_first_search_ends}
use libloot.Sorting.Search.Bfs.{bidirectional_bfs}
use libloot.Sorting.Search.Bfs.Decides.{bidirectional_bfs_iff}
use libloot.Sorting.Plugins.Graph.{path_exists, find_path, add_edge}
use libloot.Sorting.Plugins.Graph.Paths.{PathAnswer, path_exists-PathAnswer}
use libloot.Sorting.Plugins.Graph.Found.{PathFound, find_path-PathFound}
use libloot.Sorting.Plugins.Graph.Growth.{Progress, add_edge-Progress}
use libloot.Sorting.Plugins.Grouping.{add_group_edges}
use libloot.Sorting.Plugins.Grouping.Safe.{GroupsOutcome, add_group_edges-GroupsOutcome}
use libloot.Prelude.{none}
use libloot.Sorting.Graph.{Acyclic}
use libloot.Sorting.Search.Cycle.{find_cycle}
use libloot.Sorting.Search.Cycle.Decides.{find_cycle_iff}
use libloot.Sorting.Plugins.Data.{name}
use libloot.Sorting.Plugins.Specific.Early.{LoadsEarly, add_early_loading_plugin_edges-LoadsEarly}
use libloot.Sorting.Plugins.Specific.{add_specific_edges, add_early_loading_plugin_edges}
use libloot.Sorting.Plugins.Specific.Heeded.{SpecificOutcome, add_specific_edges-SpecificOutcome}
use libloot.Sorting.Plugins.Overlap.{add_overlap_edges}
use libloot.Sorting.Plugins.Overlap.Ordered.{IsSettled}
use libloot.Sorting.Plugins.Overlap.Settled.{add_overlap_edges-IsSettled}
use libloot.Sorting.Samples.Plugins.{overlapped, add_overlap_edges_three, large_small-MustSettle}
use libloot.Sorting.Plugins.Overlap.Safe.{Proceeds}
use libloot.Sorting.Plugins.Overlap.Edges.{EdgesOutcome, add_overlap_edges-OverlapEdges}
use libloot.Sorting.Plugins.TieBreak.{TieState, add_tie_break_edges}
use libloot.Sorting.Plugins.TieBreak.Total.{IsDecided, add_tie_break_edges-IsDecided}
use libloot.Sorting.Plugins.Data.{PluginSortingData}
use libloot.Sorting.Sort.Unique.{HasOneOrder, topological_sort-HasOneOrder}
use libloot.Sorting.Validate.{validate_plugin_groups, validate_specific_and_hardcoded_edges}
use libloot.Sorting.Validate.Exact.{
  GroupsChecked, validate_plugin_groups-GroupsChecked, IsAllowed,
  validate_specific_and_hardcoded_edges-ok_iff,
}
use libloot.Sorting.Validate.Files.{AreAbsent}
use libloot.Prelude.Result.{ok}
use libloot.Sorting.Samples.Toposort.{no_visitor, toposort, toposort-IsToposort}
use libloot.Sorting.Samples.Plugins.{
  sample_trait, plugin_graphs, three_nodes, three_nodes-IsSafe, three_nodes-apart, count_three,
  linked, linked-Progress, large, small, patch, groups, group_graphs, SamplePlugin,
}

-- Three plugins of which a patch comes after the small plugin have one order.
topological_sort-HasOneOrder_example :
    HasOneOrder sample_trait plugin_graphs group_graphs str_eq (toposort plugin_graphs) linked
topological_sort-HasOneOrder_example =
    topological_sort-HasOneOrder sample_trait plugin_graphs group_graphs str_eq
      (toposort plugin_graphs) (toposort-IsToposort plugin_graphs) linked linked-Progress.safe

add_tie_break_edges-IsDecided_example :
    (s : TieState sample_trait plugin_graphs) × (add_tie_break_edges sample_trait plugin_graphs
        linked
      ≡ ok s)
    × IsDecided sample_trait plugin_graphs linked s.graph
add_tie_break_edges-IsDecided_example =
    add_tie_break_edges-IsDecided sample_trait plugin_graphs linked linked-Progress.safe

add_overlap_edges-OverlapEdges_example :
    Proceeds sample_trait plugin_graphs linked (add_overlap_edges sample_trait plugin_graphs linked)
    × EdgesOutcome sample_trait plugin_graphs linked
        (add_overlap_edges sample_trait plugin_graphs linked)
add_overlap_edges-OverlapEdges_example =
    add_overlap_edges-OverlapEdges sample_trait plugin_graphs linked linked-Progress.safe

add_group_edges-GroupsOutcome_example :
    GroupsOutcome sample_trait plugin_graphs group_graphs groups linked
      (add_group_edges sample_trait plugin_graphs group_graphs groups linked)
add_group_edges-GroupsOutcome_example =
    add_group_edges-GroupsOutcome sample_trait plugin_graphs group_graphs groups linked
      linked-Progress.safe

path_exists-PathAnswer_example :
    PathAnswer sample_trait plugin_graphs linked 0 2
      (path_exists sample_trait plugin_graphs 0 2 linked)
path_exists-PathAnswer_example =
    path_exists-PathAnswer sample_trait plugin_graphs linked 0 2 linked-Progress.safe.sound

find_path-PathFound_example :
    PathFound sample_trait plugin_graphs linked 1 2
      (find_path sample_trait plugin_graphs 1 2 linked)
find_path-PathFound_example =
    find_path-PathFound sample_trait plugin_graphs linked 1 2 linked-Progress.safe.sound
      (omega (arith, count_three, linked-Progress.grows.count))
      (omega (arith, count_three, linked-Progress.grows.count))

add_edge-Progress_example :
    Progress sample_trait plugin_graphs three_nodes
      (add_edge sample_trait plugin_graphs 0 1 EdgeType.record_overlap three_nodes)
add_edge-Progress_example =
    add_edge-Progress sample_trait plugin_graphs three_nodes 0 1 EdgeType.record_overlap
      (omega (arith, count_three)) (omega (arith, count_three)) three_nodes-IsSafe
      (λ r. absurd (omega (arith, three_nodes-apart r)))

bidirectional_bfs_iff_example :
    ((bidirectional_bfs plugin_graphs linked.inner 1 2 no_visitor tt).0 ≡ true)
    ↔ Reach (plugin_graphs.neighbors linked.inner) 1 2
bidirectional_bfs_iff_example = bidirectional_bfs_iff plugin_graphs linked.inner 1 2 no_visitor tt

validate_plugin_groups-GroupsChecked_example :
    GroupsChecked
      (large ∷ patch ∷ [])
      ("other" ∷ "default" ∷ [])
      (validate_plugin_groups (large ∷ patch ∷ []) ("other" ∷ "default" ∷ []))
validate_plugin_groups-GroupsChecked_example =
    validate_plugin_groups-GroupsChecked (large ∷ patch ∷ []) ("other" ∷ "default" ∷ [])

validate_specific_and_hardcoded_edges-ok_iff_example :
    (validate_specific_and_hardcoded_edges str_eq sample_trait
        (small ∷ [])
        []
        (patch ∷ [])
        ("Early.esm" ∷ [])
      ≡ ok tt)
    ↔ (((p : PluginSortingData SamplePlugin)
          → Memᴰ p (small ∷ [])
          → IsAllowed str_eq sample_trait ("Patch.esp" ∷ []) [] p)
        × ((p : PluginSortingData SamplePlugin)
            → Memᴰ p (patch ∷ [])
            → IsAllowed str_eq sample_trait [] [] p)
        × (((small ∷ []) ≡ []) ⊎ AreAbsent str_eq ("Patch.esp" ∷ []) ("Early.esm" ∷ [])))
validate_specific_and_hardcoded_edges-ok_iff_example =
    validate_specific_and_hardcoded_edges-ok_iff str_eq sample_trait (small ∷ []) [] (patch ∷ [])
      ("Early.esm" ∷ [])

add_specific_edges-SpecificOutcome_example :
    SpecificOutcome sample_trait plugin_graphs str_eq three_nodes
      (add_specific_edges sample_trait plugin_graphs str_eq three_nodes)
add_specific_edges-SpecificOutcome_example =
    add_specific_edges-SpecificOutcome sample_trait plugin_graphs str_eq three_nodes
      three_nodes-IsSafe.sound

add_overlap_edges-IsSettled_example : IsSettled sample_trait plugin_graphs overlapped 0 1
add_overlap_edges-IsSettled_example =
    add_overlap_edges-IsSettled sample_trait plugin_graphs three_nodes overlapped 0 1
      three_nodes-IsSafe add_overlap_edges_three (omega arith) (omega (arith, count_three))
      large_small-MustSettle

depth_first_search_ends_example :
    (fuel : ℕ) × ((dfs_loop group_graphs groups path_length_visitor fuel (
        first_state group_graphs groups path_length_visitor 0 empty_map
          (record { max_path_length = 0; current_path_length = 0 }))).stack
      ≡ [])
    × (depth_first_search group_graphs groups path_length_visitor 0 empty_map
          (record { max_path_length = 0; current_path_length = 0 })
        ≡ (
          (dfs_loop group_graphs groups path_length_visitor fuel (
              first_state group_graphs groups path_length_visitor 0 empty_map
                (record { max_path_length = 0; current_path_length = 0 }))).colours,
          (dfs_loop group_graphs groups path_length_visitor fuel (
              first_state group_graphs groups path_length_visitor 0 empty_map
                (record { max_path_length = 0; current_path_length = 0 }))).visitor,
        ))
depth_first_search_ends_example =
    depth_first_search_ends group_graphs groups path_length_visitor 0 empty_map
      (record { max_path_length = 0; current_path_length = 0 })

-- A linked graph has no cycle.
find_cycle_iff_example :
    (find_cycle plugin_graphs linked.inner (name sample_trait) ≡ none)
    ↔ Acyclic (plugin_graphs.neighbors linked.inner)
find_cycle_iff_example = find_cycle_iff plugin_graphs linked.inner (name sample_trait)

-- The small plugin is an early loader.
add_early_loading_plugin_edges-LoadsEarly_example :
    LoadsEarly sample_trait plugin_graphs str_eq ("Small.esp" ∷ []) three_nodes (
      add_early_loading_plugin_edges sample_trait plugin_graphs str_eq
        ("Small.esp" ∷ [])
        three_nodes)
add_early_loading_plugin_edges-LoadsEarly_example =
    add_early_loading_plugin_edges-LoadsEarly sample_trait plugin_graphs str_eq ("Small.esp" ∷ [])
      three_nodes three_nodes-IsSafe.sound
