-- ===== src/Sorting/Groups.antt =====
-- src/sorting/groups.rs, with the groups of src/metadata/group.rs: the graph of groups.
use libloot.Prelude.{
  ℕ, suc, ◌-◌, Bool, true, false, String, List, [], ◌∷◌, map, Option, none, some, empty_map, find,
  range, str_eq, str_le, leb, ltb, if◌then◌else◌,
}
use libloot.Prelude.Sort.{stable_sort}
use libloot.Prelude.Result.{Result, ok, err, ◌>>=◌, map_err}
use libloot.External.Petgraph.{Petgraph}
use libloot.Sorting.Vertex.{EdgeType}
use libloot.Sorting.Error.{UndefinedGroupError, BuildGroupsGraphError}
use libloot.Sorting.Search.Dfs.{DfsVisitor, depth_first_search}
use libloot.Sorting.Search.Cycle.{find_cycle}

pub record Group : Type 0 where
  pub name : String
  pub description : Option String
  pub after_groups : List String

-- `Group::DEFAULT_NAME`
abbrev pub default_name : String
default_name = "default"

unfoldable pub sorted_by_name : List Group → List Group
unfolding stable_sort
sorted_by_name groups = stable_sort (λ (a b : Group). str_le a.name b.name) groups

unfoldable pub sorted_clone : List String → List String
unfolding stable_sort
sorted_clone strings = stable_sort str_le strings

-- The hash map from group names to nodes.
abbrev pub GroupNodes : Type 0
GroupNodes = List (String × ℕ)

unfoldable pub node_of : GroupNodes → String → Option ℕ
node_of [] key = none
node_of ((n, i) ∷ rest) key = if str_eq n key then some i else node_of rest key

abbrev pub undefined : {A : Type 0} → String → Result UndefinedGroupError A
undefined n = err (record { group_name = n })

module _ (P : Petgraph String) where
  abbrev pub GroupsGraph : Type 0
  GroupsGraph = P.Graph

  -- The first loop of `add_groups`: a node for each name that has none.
  unfoldable pub add_group_nodes : List Group → GroupsGraph × GroupNodes → GroupsGraph × GroupNodes
  unfolding node_of
  add_group_nodes [] s = s
  add_group_nodes (group ∷ groups) (graph, nodes) =
      add_group_nodes groups (elim (node_of nodes group.name) [
        | some i ↦ (graph, nodes)
        | none ↦ (P.add_node graph group.name, (group.name, P.node_count graph) ∷ nodes)
      ])

  -- The loop over the groups that a group loads after.
  unfoldable pub add_after_edges :
      List String → ℕ → GroupNodes → EdgeType → GroupsGraph → Result UndefinedGroupError GroupsGraph
  unfolding node_of
  add_after_edges [] node_index nodes edge_type graph = ok graph
  add_after_edges (other ∷ others) node_index nodes edge_type graph = elim (node_of nodes other) [
    | some other_index ↦
        add_after_edges others node_index nodes edge_type
          (P.update_edge graph other_index node_index edge_type)
    | none ↦ undefined other
  ]

  -- The second loop of `add_groups`.
  unfoldable pub add_group_edges :
      List Group → GroupNodes → EdgeType → GroupsGraph → Result UndefinedGroupError GroupsGraph
  unfolding add_after_edges sorted_clone
  add_group_edges [] nodes edge_type graph = ok graph
  add_group_edges (group ∷ groups) nodes edge_type graph = elim (node_of nodes group.name) [
    | some node_index ↦
        add_after_edges (sorted_clone group.after_groups) node_index nodes edge_type graph
        >>= add_group_edges groups nodes edge_type
    | none ↦ undefined group.name
  ]

  unfoldable pub add_groups :
      List Group
      → EdgeType
      → GroupsGraph × GroupNodes
      → Result UndefinedGroupError (GroupsGraph × GroupNodes)
  unfolding add_group_nodes add_group_edges
  add_groups groups edge_type s = do
    let (graph, nodes) = add_group_nodes groups s
    graph' ← add_group_edges groups nodes edge_type graph
    ok (graph', nodes)

  unfoldable pub build_groups_graph :
      List Group → List Group → Result BuildGroupsGraphError GroupsGraph
  unfolding sorted_by_name add_groups find_cycle
  build_groups_graph masterlist_groups userlist_groups = do
    s ←
        map_err BuildGroupsGraphError.undefined_group
          (add_groups (sorted_by_name masterlist_groups) EdgeType.masterlist_load_after (P.new, []))
    (graph, nodes) ←
        map_err BuildGroupsGraphError.undefined_group
          (add_groups (sorted_by_name userlist_groups) EdgeType.user_load_after s)
    elim (find_cycle P graph (λ n. n)) [
      | some cycle ↦ err (BuildGroupsGraphError.cycle_found (record { cycle = cycle }))
      | none ↦ ok graph
    ]

  unfoldable pub find_node_by_weight : GroupsGraph → String → Result UndefinedGroupError ℕ
  find_node_by_weight graph weight =
      elim (find (λ i. str_eq (P.index graph i) weight) (range (P.node_count graph))) [
        | some n ↦ ok n
        | none ↦ undefined weight
      ]

  unfoldable pub get_default_group_node : GroupsGraph → Result UndefinedGroupError ℕ
  get_default_group_node graph =
      elim (find (λ i. str_eq (P.index graph i) default_name) (range (P.node_count graph))) [
        | some n ↦ ok n
        | none ↦ undefined default_name
      ]

  unfoldable pub is_root_node : GroupsGraph → ℕ → Bool
  is_root_node graph node_index = elim (P.incoming graph node_index) [ [] ↦ true | _ ∷ _ ↦ false ]

-- `GroupsPathLengthVisitor`
pub record PathLength : Type 0 where
  pub max_path_length : ℕ
  pub current_path_length : ℕ

unfoldable pub path_length_visitor : DfsVisitor PathLength
path_length_visitor = record {
  visit_tree_edge = λ edge p. p;
  visit_forward_or_cross_edge = λ edge p. p;
  visit_back_edge = λ edge p. p;
  discover_node = λ node p. record {
    max_path_length =
        if ltb p.max_path_length (suc p.current_path_length)
        then suc p.current_path_length
        else p.max_path_length;
    current_path_length = suc p.current_path_length;
  };
  finish_node = λ node p. record p { current_path_length = p.current_path_length - 1 };
}

module _ (P : Petgraph String) where
  -- A node, whether it is a root, and the length of the longest path that was walked from it.
  abbrev pub Ranked : Type 0
  Ranked = ℕ × Bool × ℕ

  unfoldable pub rank_node : P.Graph → ℕ → Ranked
  unfolding is_root_node depth_first_search path_length_visitor
  rank_node graph n =
      if is_root_node P graph n
      then (
        n,
        true,
        (depth_first_search P graph path_length_visitor n empty_map
            (record { max_path_length = 0; current_path_length = 0 })).1.max_path_length,
      )
      else (n, false, 0)

  -- The order of `Reverse((a.1, a.2))`: roots first, then by decreasing length.
  abbrev pub ranked_le : Ranked → Ranked → Bool
  ranked_le a b =
      if a.1 then if b.1 then leb b.2 a.2 else true else if b.1 then false else leb b.2 a.2

  unfoldable pub sorted_group_nodes : P.Graph → List ℕ
  unfolding rank_node stable_sort
  sorted_group_nodes graph =
      map (λ (a : Ranked). a.0)
        (stable_sort ranked_le (map (rank_node graph) (range (P.node_count graph))))
