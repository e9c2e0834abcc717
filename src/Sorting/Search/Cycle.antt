-- ===== src/Sorting/Search/Cycle.antt =====
-- src/sorting/search.rs: the search for a cycle.
pub mod Trail
pub mod Colours
pub mod Step
pub mod Decides
use libloot.Prelude.{
  ℕ, Bool, true, false, String, Option, none, some, List, [], ◌∷◌, ◌++◌, NodeMap, empty_map, range,
  init, drop, position, str_eq, if◌then◌else◌,
}
use libloot.External.Petgraph.{Petgraph, EdgeRef}
use libloot.Sorting.Vertex.{Vertex, vertex, with_out_edge_type}
use libloot.Sorting.Search.Dfs.{DfsVisitor, Colour, depth_first_search}

pub record CycleDetector : Type 0 where
  pub trail : List Vertex
  pub found_cycle : Bool

unfoldable pub new_detector : CycleDetector
new_detector = record { trail = []; found_cycle = false }

unfoldable pub into_cycle_path : CycleDetector → Option (List Vertex)
into_cycle_path d = if d.found_cycle then some d.trail else none

module _ {N : Type 0} (P : Petgraph N) (g : Petgraph.Graph P) (node_mapper : N → String) where
  abbrev pub node_name : ℕ → String
  node_name i = node_mapper (P.index g i)

  unfoldable pub on_tree_edge : EdgeRef → CycleDetector → CycleDetector
  on_tree_edge edge d = if d.found_cycle then d else record d {
    trail = d.trail ++ with_out_edge_type (vertex (node_name edge.source)) edge.weight ∷ [];
  }

  -- The vertices before the target leave the trail; if the target is not in it, that is logged.
  unfoldable pub on_back_edge : EdgeRef → CycleDetector → CycleDetector
  unfolding on_tree_edge
  on_back_edge edge d =
      if d.found_cycle
      then d
      else let d' = on_tree_edge edge d in
        elim (position (λ (v : Vertex). str_eq v.name (node_name edge.target)) d'.trail) [
          | some pos ↦ record { trail = drop pos d'.trail; found_cycle = true }
          | none ↦ d'
        ]

  unfoldable pub on_finish : ℕ → CycleDetector → CycleDetector
  on_finish node d = if d.found_cycle then d else record d { trail = init d.trail }

  unfoldable pub cycle_visitor : DfsVisitor CycleDetector
  unfolding on_tree_edge on_back_edge on_finish
  cycle_visitor = record {
    visit_tree_edge = on_tree_edge;
    visit_forward_or_cross_edge = λ edge d. d;
    visit_back_edge = on_back_edge;
    discover_node = λ node d. d;
    finish_node = on_finish;
  }

  -- The loop over the nodes, which shares one map of colours.
  unfoldable pub find_cycle_from : List ℕ → NodeMap Colour → CycleDetector → Option (List Vertex)
  unfolding depth_first_search cycle_visitor into_cycle_path
  find_cycle_from [] colours d = none
  find_cycle_from (node ∷ nodes) colours d =
      let (colours', d') = depth_first_search P g cycle_visitor node colours d in
      elim d'.found_cycle [ true ↦ into_cycle_path d' | false ↦ find_cycle_from nodes colours' d' ]

  unfoldable pub find_cycle : Option (List Vertex)
  unfolding find_cycle_from new_detector
  find_cycle = find_cycle_from (range (P.node_count g)) empty_map new_detector
