-- ===== src/Sorting/Plugins/TieBreak.antt =====
-- src/sorting/plugins.rs: the edges that leave only one order to sort the plugins in.
pub mod Chain
pub mod Scan
pub mod Tied
pub mod Put
pub mod Pin
pub mod Push
pub mod Keep
pub mod Change
pub mod Step
pub mod Total
use libloot.Prelude.{
  ℕ, suc, ◌+◌, Bool, true, false, List, [], ◌∷◌, ◌++◌, Option, none, some, NodeSet, empty_set,
  insert, get_elem?, drop, insert_index, windows, last?, init, length, range, leb, ◌==◌,
  if◌then◌else◌,
}
use mathlib.Core.List.{reverse}
use libloot.Prelude.Sort.{stable_sort}
use libloot.Prelude.Result.{Result, ok, err, ◌>>=◌}
use libloot.External.Petgraph.{Petgraph}
use libloot.Sorting.Vertex.{EdgeType}
use libloot.Sorting.Error.{PathfindingError}
use libloot.Sorting.Plugins.Data.{SortingPlugin, PluginSortingData}
use libloot.Sorting.Plugins.Graph.{PluginsGraph, add_edge, path_exists, find_path}

-- Whether the node that `first` or `last` gives is this one.
abbrev pub is_node : Option ℕ → ℕ → Bool
is_node none n = false
is_node (some m) n = m == n

module _ {E T : Type 0} (trait : SortingPlugin E T) (P : Petgraph (PluginSortingData T)) where
  abbrev Graph : Type 0
  Graph = PluginsGraph trait P

  -- The graph and the two local variables that the loop changes.
  pub record TieState : Type 0 where
    pub graph : Graph
    pub new_load_order : List ℕ
    pub processed_nodes : NodeSet

  -- `rposition` from the right end, on the nodes in reverse: the position of the last node that
  -- `node_index` has no path to.
  unfoldable pub last_unreached : ℕ → List ℕ → Graph → Option ℕ × Graph
  unfolding path_exists
  last_unreached node_index [] graph = (none, graph)
  last_unreached node_index (ni ∷ before) graph =
      let (found, graph') = path_exists trait P node_index ni graph in
      elim found [
        | true ↦ last_unreached node_index before graph'
        | false ↦ (some (length before), graph')
      ]

  abbrev pub add_edge_from : Option ℕ → ℕ → Graph → Graph
  add_edge_from none to graph = graph
  add_edge_from (some from) to graph = add_edge trait P from to EdgeType.tie_break graph

  abbrev pub add_edge_to : ℕ → Option ℕ → Graph → Graph
  add_edge_to from none graph = graph
  add_edge_to from (some to) graph = add_edge trait P from to EdgeType.tie_break graph

  -- The node at the position that was found, and the position behind it.
  abbrev pub preceding : ℕ → Option ℕ → List ℕ → Option ℕ
  preceding range_start none order = none
  preceding range_start (some p) order = get_elem? order (range_start + p)

  abbrev pub insert_position : ℕ → Option ℕ → ℕ
  insert_position range_start none = range_start
  insert_position range_start (some p) = suc (range_start + p)

  unfoldable pub pin_node_position : ℕ → ℕ → TieState → ℕ × TieState
  unfolding last_unreached add_edge
  pin_node_position node_index range_start s =
      if s.processed_nodes node_index
      then (range_start, s)
      else let order = s.new_load_order in
        let (previous, g₀) = last_unreached node_index (reverse (drop range_start order)) s.graph in
        let g₁ = add_edge_from (preceding range_start previous order) node_index g₀ in
        let position = insert_position range_start previous in
        let g₂ = add_edge_to node_index (get_elem? order position) g₁ in
        (
          suc position,
          record {
            graph = g₂;
            new_load_order = insert_index position node_index order;
            processed_nodes = insert node_index s.processed_nodes;
          },
        )

  -- The loop that pins the nodes of a path one behind the other.
  unfoldable pub pin_nodes : List ℕ → ℕ → TieState → TieState
  unfolding pin_node_position
  pin_nodes [] range_start s = s
  pin_nodes (node ∷ nodes) range_start s =
      let (range_start', s') = pin_node_position node range_start s in
      pin_nodes nodes range_start' s'

  -- A node that has not been processed goes to the end of the new load order.
  unfoldable pub push_unprocessed : ℕ → TieState → TieState
  push_unprocessed current s = if s.processed_nodes current then s else record s {
    new_load_order = s.new_load_order ++ current ∷ [];
    processed_nodes = insert current s.processed_nodes;
  }

  -- The loop that takes a path as the start of the load order.
  unfoldable pub push_path : List ℕ → TieState → TieState
  push_path [] s = s
  push_path (node ∷ nodes) s = push_path nodes (record s {
    new_load_order = s.new_load_order ++ node ∷ [];
    processed_nodes = insert node s.processed_nodes;
  })

  -- The branch for a pair of nodes with no path from the second to the first.
  unfoldable pub keep_order : ℕ → ℕ → TieState → TieState
  keep_order current next s =
      let s' = record s { graph = add_edge trait P current next EdgeType.tie_break s.graph } in
      if s.processed_nodes current
      then if is_node (last? s.new_load_order) current then s' else (pin_node_position next 0 s').1
      else push_unprocessed current s'

  -- The branch for a pair with a path from the second to the first.
  unfoldable pub change_order : Option ℕ → ℕ → List ℕ → TieState → TieState
  change_order first current path s =
      if is_node first current
      then push_path path s
      else push_unprocessed current (pin_nodes (init path) 0 s)

  -- The body of the loop, where `first` is the first node of the load order.
  unfoldable pub break_tie : Option ℕ → ℕ → ℕ → TieState → Result PathfindingError TieState
  break_tie first current next s =
      let (found, graph') = find_path trait P next current s.graph in
      let s' = record s { graph = graph' } in
      found >>= λ answer. elim answer [
        | none ↦ ok (keep_order current next s')
        | some path ↦ ok (change_order first current path s')
      ]

  unfoldable pub break_ties : Option ℕ → List (ℕ × ℕ) → TieState → Result PathfindingError TieState
  unfolding break_tie
  break_ties first [] s = ok s
  break_ties first ((current, next) ∷ rest) s =
      break_tie first current next s >>= break_ties first rest

  -- The nodes in their present load order.
  unfoldable pub nodes_by_load_order : Graph → List ℕ
  unfolding stable_sort
  nodes_by_load_order graph =
      stable_sort
        (λ a b.
          leb (P.index graph.inner a).load_order_index (P.index graph.inner b).load_order_index)
        (range (P.node_count graph.inner))

  -- The graph with the edges, and the new load order that the function keeps until it returns.
  unfoldable pub add_tie_break_edges : Graph → Result PathfindingError TieState
  unfolding nodes_by_load_order break_ties
  add_tie_break_edges graph =
      let nodes = nodes_by_load_order graph in
      break_ties (get_elem? nodes 0) (windows nodes)
        (record { graph = graph; new_load_order = []; processed_nodes = empty_set })
