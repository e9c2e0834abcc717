-- ===== src/Sorting/Plugins/Grouping.antt =====
-- src/sorting/plugins.rs: the edges from the groups that the plugins are in. The visitor walks the
-- groups graph, with the plugins graph as part of its state.
pub mod Safe
use libloot.Prelude.{
  ℕ, Bool, true, false, not, ◌&&◌, ◌||◌, String, List, [], ◌∷◌, ◌++◌, map, keep, any, init, range,
  Option, none, some, NodeSet, empty_set, insert, empty_map, str_eq, ◌==◌, if◌then◌else◌,
}
use libloot.Prelude.Result.{Result, ok, ◌>>=◌}
use libloot.External.Petgraph.{Petgraph, EdgeRef}
use libloot.Sorting.Vertex.{EdgeType}
use libloot.Sorting.Error.{UndefinedGroupError}
use libloot.Sorting.Search.Dfs.{DfsVisitor, depth_first_search}
use libloot.Sorting.Groups.{get_default_group_node, sorted_group_nodes}
use libloot.Sorting.Plugins.Data.{SortingPlugin, PluginSortingData}
use libloot.Sorting.Plugins.Cache.{is_path_cached}
use libloot.Sorting.Plugins.Graph.{PluginsGraph, add_edge, path_exists}

-- Whether an edge comes from user metadata.
abbrev pub is_user_load_after : EdgeType → Bool
is_user_load_after EdgeType.user_load_after = true
is_user_load_after _ = false

module _ {E T : Type 0} (trait : SortingPlugin E T) (P : Petgraph (PluginSortingData T))
    (Q : Petgraph String) where
  abbrev Graph : Type 0
  Graph = PluginsGraph trait P

  -- The plugins' nodes in a group, in their order: the entry of the map that
  -- `get_plugins_in_groups` makes.
  unfoldable pub plugins_in_group : P.Graph → String → List ℕ
  plugins_in_group graph group_name =
      keep (λ i. str_eq (P.index graph i).group group_name) (range (P.node_count graph))

  unfoldable pub group_edge_type : Bool → ℕ → ℕ → Graph → EdgeType
  group_edge_type path_involves_user_metadata from to graph =
      if path_involves_user_metadata
        || ((P.index graph.inner from).group_is_user_metadata
            || (P.index graph.inner to).group_is_user_metadata)
      then EdgeType.user_group
      else EdgeType.masterlist_group

  -- The body of the loop of `add_edges_from_plugin`.
  unfoldable pub add_group_edge : ℕ → ℕ → Bool → Graph → Graph
  add_group_edge from to path_involves_user_metadata graph =
      if is_path_cached from to graph.paths_cache
      then graph
      else let (cyclic, graph') = path_exists trait P to from graph in
        if cyclic
        then graph'
        else add_edge trait P from to (group_edge_type path_involves_user_metadata from to graph)
            graph'

  unfoldable pub add_edges_from_plugin : ℕ → List ℕ → Bool → Graph → Graph
  add_edges_from_plugin from [] user graph = graph
  add_edges_from_plugin from (to ∷ rest) user graph =
      add_edges_from_plugin from rest user (add_group_edge from to user graph)

  unfoldable pub add_edges_from_plugins : List ℕ → List ℕ → Bool → Graph → Graph
  add_edges_from_plugins [] to_plugins user graph = graph
  add_edges_from_plugins (from ∷ rest) to_plugins user graph =
      add_edges_from_plugins rest to_plugins user (add_edges_from_plugin from to_plugins user graph)

  -- The edges on the way to the present group, the first one first, each with the plugins of its
  -- source that edges may start from.
  abbrev pub EdgeStack : Type 0
  EdgeStack = List (EdgeRef × List ℕ)

  unfoldable pub add_plugin_graph_edges : EdgeStack → List ℕ → Graph → Graph
  add_plugin_graph_edges [] target_plugins graph = graph
  add_plugin_graph_edges ((edge, from_plugins) ∷ remainder) target_plugins graph =
      add_plugin_graph_edges remainder target_plugins (
        add_edges_from_plugins from_plugins target_plugins
          (any (λ (p : EdgeRef × List ℕ). is_user_load_after p.0.weight)
            ((edge, from_plugins) ∷ remainder))
          graph)

  -- The parts of `GroupsPathVisitor` that change.
  pub record GroupsPath : Type 0 where
    pub plugins_graph : Graph
    pub finished_group_vertices : NodeSet
    pub edge_stack : EdgeStack
    pub unfinishable_nodes : NodeSet

  unfoldable pub insert_all : List ℕ → NodeSet → NodeSet
  insert_all [] s = s
  insert_all (x ∷ xs) s = insert_all xs (insert x s)

  abbrev pub is_ignored : Option ℕ → ℕ → Bool
  is_ignored none n = false
  is_ignored (some m) n = m == n

  module _ (groups_graph : Q.Graph) (plugins_of : String → List ℕ) (to_ignore : Option ℕ) where
    unfoldable pub find_plugins_in_group : ℕ → List ℕ
    find_plugins_in_group node_index = plugins_of (Q.index groups_graph node_index)

    unfoldable pub should_ignore_source_node : ℕ → GroupsPath → Bool
    should_ignore_source_node node_index s =
        is_ignored to_ignore node_index || s.finished_group_vertices node_index

    unfoldable pub on_group_tree_edge : EdgeRef → GroupsPath → GroupsPath
    on_group_tree_edge edge s =
        let edge_plugins =
          if should_ignore_source_node edge.source s
          then []
          else find_plugins_in_group edge.source in
        let stack = s.edge_stack ++ (edge, edge_plugins) ∷ [] in
        record s {
          edge_stack = stack;
          plugins_graph =
              add_plugin_graph_edges stack (find_plugins_in_group edge.target) s.plugins_graph;
        }

    unfoldable pub on_group_cross_edge : EdgeRef → GroupsPath → GroupsPath
    on_group_cross_edge edge s = record s {
      unfinishable_nodes =
          insert_all (map (λ (p : EdgeRef × List ℕ). p.0.source) s.edge_stack ++ edge.source ∷ [])
            s.unfinishable_nodes;
    }

    unfoldable pub on_group_finish : ℕ → GroupsPath → GroupsPath
    on_group_finish node_index s = record s {
      finished_group_vertices =
          if not (is_ignored to_ignore node_index) && not (s.unfinishable_nodes node_index)
          then insert node_index s.finished_group_vertices
          else s.finished_group_vertices;
      edge_stack = init s.edge_stack;
    }

    unfoldable pub groups_path_visitor : DfsVisitor GroupsPath
    groups_path_visitor = record {
      visit_tree_edge = on_group_tree_edge;
      visit_forward_or_cross_edge = on_group_cross_edge;
      visit_back_edge = λ edge s. s;
      discover_node = λ node s. s;
      finish_node = on_group_finish;
    }

    -- One search with a new visitor: the plugins graph and the finished vertices that it leaves.
    unfoldable pub walk_groups : ℕ → Graph × NodeSet → Graph × NodeSet
    walk_groups start (graph, finished) =
        let s =
          (depth_first_search Q groups_graph groups_path_visitor start empty_map (record {
            plugins_graph = graph;
            finished_group_vertices = finished;
            edge_stack = [];
            unfinishable_nodes = empty_set;
          })).1 in
        (s.plugins_graph, s.finished_group_vertices)

    unfoldable pub walk_groups_from : List ℕ → Graph × NodeSet → Graph × NodeSet
    walk_groups_from [] s = s
    walk_groups_from (start ∷ rest) s = walk_groups_from rest (walk_groups start s)

  -- A search from every group that leaves out the default group's plugins, and then one from the
  -- default group that does not.
  unfoldable pub add_group_edges : Q.Graph → Graph → Result UndefinedGroupError Graph
  add_group_edges groups_graph graph = do
    let plugins_of = plugins_in_group graph.inner
    default_group_node ← get_default_group_node Q groups_graph
    let s =
        walk_groups_from groups_graph plugins_of (some default_group_node)
          (sorted_group_nodes Q groups_graph) (graph, empty_set)
    ok (walk_groups groups_graph plugins_of none default_group_node s).0
