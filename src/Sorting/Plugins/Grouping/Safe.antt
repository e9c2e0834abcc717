-- ===== src/Sorting/Plugins/Grouping/Safe.antt =====
-- src/sorting/plugins.rs: what adding the edges from groups keeps.
use libloot.Prelude.{
  ◌≡◌, refl, ℕ, ◌<◌, refl, Bool, true, false, String, List, [], ◌∷◌, ◌++◌, keep, init, range,
  Option, none, some, NodeSet, Memᴰ, arith, Bool-cases, mem_cons, not_mem_nil, mem-count_from_lt,
  if◌then◌else◌, inl, inr, any,
}
use libloot.Prelude.Result.{Result, ok, err, ◌>>=◌}
use libloot.External.Petgraph.{Petgraph, EdgeRef}
use libloot.Sorting.Error.{UndefinedGroupError}
use libloot.Sorting.Search.Dfs.Rule.{KeptBy, depth_first_search_rule}
use libloot.Sorting.Groups.{get_default_group_node, sorted_group_nodes}
use libloot.Sorting.Plugins.Data.{SortingPlugin, PluginSortingData}
use libloot.Sorting.Plugins.Graph.{PluginsGraph}
use libloot.Sorting.Plugins.Graph.Growth.{IsSafe, Progress, Progress-refl, Progress-trans}
use libloot.Sorting.Plugins.Overlap.{add_edge_unless_cyclic}
use libloot.Sorting.Plugins.Overlap.Safe.{Proceeds, add_edge_unless_cyclic-Progress}
use libloot.Sorting.Plugins.Grouping.{
  plugins_in_group, group_edge_type, add_group_edge, add_edges_from_plugin, add_edges_from_plugins,
  EdgeStack, add_plugin_graph_edges, GroupsPath, find_plugins_in_group, should_ignore_source_node,
  on_group_tree_edge, on_group_cross_edge, on_group_finish, groups_path_visitor, walk_groups,
  walk_groups_from, add_group_edges, is_user_load_after,
}

module _ {E T : Type 0} (trait : SortingPlugin E T) (P : Petgraph (PluginSortingData T))
    (Q : Petgraph String) where
  abbrev Graph : Type 0
  Graph = PluginsGraph trait P

  -- Nodes of a graph with `n` nodes.
  abbrev Below : ℕ → List ℕ → Type 0
  Below n l = (x : ℕ) → Memᴰ x l → x < n

  -- The graph has grown out of `g₀`, and is safe.
  abbrev From : Graph → Graph → Type 0
  From g₀ g = Progress trait P g₀ g

  module _ (g₀ : Graph) where
    abbrev n₀ : ℕ
    n₀ = P.node_count g₀.inner

    add_group_edge-From :
        (from to : ℕ) (user : Bool) (g : Graph)
        → from < n₀
        → to < n₀
        → From g₀ g
        → From g₀ (add_group_edge trait P Q from to user g)
    unfolding add_group_edge add_edge_unless_cyclic
    add_group_edge-From from to user g hf ht p = Progress-trans trait P p (
        add_edge_unless_cyclic-Progress trait P from to (group_edge_type trait P Q user from to g) g
          (omega (arith, p.grows.count)) (omega (arith, p.grows.count)) p.safe)

    add_edges_from_plugin-From :
        (from : ℕ) (to : List ℕ) (user : Bool) (g : Graph)
        → from < n₀
        → Below n₀ to
        → From g₀ g
        → From g₀ (add_edges_from_plugin trait P Q from to user g)
    unfolding add_edges_from_plugin
    add_edges_from_plugin-From from [] user g hf ht p = p
    add_edges_from_plugin-From from (x ∷ to) user g hf ht p =
        add_edges_from_plugin-From from to user (add_group_edge trait P Q from x user g) hf
          (λ y m. ht y (Memᴰ.tail m))
          (add_group_edge-From from x user g hf (ht x (Memᴰ.head refl)) p)

    add_edges_from_plugins-From :
        (from to : List ℕ) (user : Bool) (g : Graph)
        → Below n₀ from
        → Below n₀ to
        → From g₀ g
        → From g₀ (add_edges_from_plugins trait P Q from to user g)
    unfolding add_edges_from_plugins
    add_edges_from_plugins-From [] to user g hf ht p = p
    add_edges_from_plugins-From (x ∷ from) to user g hf ht p =
        add_edges_from_plugins-From from to user (add_edges_from_plugin trait P Q x to user g)
          (λ y m. hf y (Memᴰ.tail m)) ht
          (add_edges_from_plugin-From x to user g (hf x (Memᴰ.head refl)) ht p)

    abbrev StackBelow : EdgeStack trait P Q → Type 0
    StackBelow [] = Unit
    StackBelow ((e, l) ∷ rest) = Below n₀ l × StackBelow rest

    StackBelow-concat :
        (stack : EdgeStack trait P Q) (e : EdgeRef) (l : List ℕ)
        → StackBelow stack
        → Below n₀ l
        → StackBelow (stack ++ (e, l) ∷ [])
    StackBelow-concat [] e l h k = (k, tt)
    StackBelow-concat ((e', l') ∷ rest) e l h k = (h.0, StackBelow-concat rest e l h.1 k)

    StackBelow-init : (stack : EdgeStack trait P Q) → StackBelow stack → StackBelow (init stack)
    StackBelow-init [] h = tt
    StackBelow-init ((e, l) ∷ []) h = tt
    StackBelow-init ((e, l) ∷ (e', l') ∷ rest) h = (h.0, StackBelow-init ((e', l') ∷ rest) h.1)

    add_plugin_graph_edges-From :
        (stack : EdgeStack trait P Q) (to : List ℕ) (g : Graph)
        → StackBelow stack
        → Below n₀ to
        → From g₀ g
        → From g₀ (add_plugin_graph_edges trait P Q stack to g)
    unfolding add_plugin_graph_edges
    add_plugin_graph_edges-From [] to g h ht p = p
    add_plugin_graph_edges-From ((e, from) ∷ rest) to g h ht p =
        add_plugin_graph_edges-From rest to _ h.1 ht (
          add_edges_from_plugins-From from to
            (any (λ (q : EdgeRef × List ℕ). is_user_load_after q.0.weight) ((e, from) ∷ rest)) g h.0
            ht p)

    record WalkInv (s : GroupsPath trait P Q) : Type 0 where
      from : From g₀ s.plugins_graph
      stack : StackBelow s.edge_stack

    module _ (groups_graph : Q.Graph) (plugins_of : String → List ℕ)
        (below : (name : String) → Below n₀ (plugins_of name)) (to_ignore : Option ℕ) where
      Below-if : (b : Bool) (l : List ℕ) → Below n₀ l → Below n₀ (if b then [] else l)
      Below-if true l h x m = absurd (not_mem_nil m)
      Below-if false l h x m = h x m

      groups_path_visitor-KeptBy :
          KeptBy (groups_path_visitor trait P Q groups_graph plugins_of to_ignore) WalkInv
      unfolding groups_path_visitor on_group_tree_edge on_group_cross_edge on_group_finish
          find_plugins_in_group
      groups_path_visitor-KeptBy = record {
        tree = λ e s i.
            let ignored =
              should_ignore_source_node trait P Q groups_graph plugins_of to_ignore e.source s in
            let stack =
              StackBelow-concat s.edge_stack e
                (if ignored then [] else plugins_of (Q.index groups_graph e.source)) i.stack
                (Below-if ignored _ (below (Q.index groups_graph e.source))) in
            record {
              from =
                  add_plugin_graph_edges-From _ (plugins_of (Q.index groups_graph e.target))
                    s.plugins_graph stack (below (Q.index groups_graph e.target)) i.from;
              stack = stack;
            };
        cross = λ e s i. record { from = i.from; stack = i.stack };
        back = λ e s i. i;
        discover = λ n s i. i;
        finish = λ n s i. record { from = i.from; stack = StackBelow-init s.edge_stack i.stack };
      }

      walk_groups-From :
          (start : ℕ) (g : Graph) (finished : NodeSet)
          → From g₀ g
          → From g₀ (walk_groups trait P Q groups_graph plugins_of to_ignore start (g, finished)).0
      unfolding walk_groups
      walk_groups-From start g finished p =
          (depth_first_search_rule Q groups_graph
            (groups_path_visitor trait P Q groups_graph plugins_of to_ignore) WalkInv
            groups_path_visitor-KeptBy start _ _ (record { from = p; stack = tt })).from

      walk_groups_from-From :
          (starts : List ℕ) (g : Graph) (finished : NodeSet)
          → From g₀ g
          → From g₀
              (walk_groups_from trait P Q groups_graph plugins_of to_ignore starts (g, finished)).0
      unfolding walk_groups_from
      walk_groups_from-From [] g finished p = p
      walk_groups_from-From (start ∷ rest) g finished p =
          walk_groups_from-From rest _
            (walk_groups trait P Q groups_graph plugins_of to_ignore start (g, finished)).1
            (walk_groups-From start g finished p)

  mem-keep : (p : ℕ → Bool) (l : List ℕ) (x : ℕ) → Memᴰ x (keep p l) → Memᴰ x l
  mem-keep p [] x m = m
  mem-keep p (y ∷ l) x m = elim (Bool-cases (p y)) [
    | inl kept ↦ ground (arith, mem_cons x y (keep p l), mem_cons x y l, mem-keep p l x)
    | inr gone ↦ ground (arith, mem_cons x y l, mem-keep p l x)
  ]

  -- In a graph without cycles and with a sound cache, the walks add edges that make no cycle.
  pub add_group_edges-Proceeds :
      (groups_graph : Q.Graph) (graph : Graph)
      → IsSafe trait P graph
      → Proceeds trait P graph (add_group_edges trait P Q groups_graph graph)
  unfolding add_group_edges plugins_in_group
  add_group_edges-Proceeds groups_graph graph safe = go (get_default_group_node Q groups_graph)
    where
      below :
          (name : String)
          → Below (P.node_count graph.inner) (plugins_in_group trait P Q graph.inner name)
      below name x m = omega (
        arith,
        mem-count_from_lt 0 (P.node_count graph.inner) x
            (mem-keep _ (range (P.node_count graph.inner)) x m),
      )

      go :
          (r : Result UndefinedGroupError ℕ)
          → Proceeds trait P graph (
              r >>= λ default_group_node.
              ok
                (walk_groups trait P Q groups_graph
                  (plugins_in_group trait P Q graph.inner)
                  none
                  default_group_node
                  (walk_groups_from trait P Q groups_graph
                    (plugins_in_group trait P Q graph.inner)
                    (some default_group_node)
                    (sorted_group_nodes Q groups_graph)
                    (graph, λ x. false))).0)
      go (err e) = tt
      go (ok d) =
          walk_groups-From graph groups_graph (plugins_in_group trait P Q graph.inner) below none d
            _ _
            (walk_groups_from-From graph groups_graph (plugins_in_group trait P Q graph.inner) below
              (some d) (sorted_group_nodes Q groups_graph) graph (λ x. false)
              (Progress-refl trait P graph safe))

  -- An error is the one of looking for the default group; else there is a default group, and the
  -- new graph has grown out of the old one.
  abbrev pub GroupsOutcome : Q.Graph → Graph → Result UndefinedGroupError Graph → Type 0
  GroupsOutcome groups_graph graph (err e) = get_default_group_node Q groups_graph ≡ err e
  GroupsOutcome groups_graph graph (ok new) =
      Progress trait P graph new × (node : ℕ) × (get_default_group_node Q groups_graph ≡ ok node)

  -- From a graph without cycles and with a sound cache, adding the edges from groups ends with the
  -- error that looking for the default group gives; or there is a default group, and it ends with a
  -- graph that has the same nodes and the old edges, still no cycle, and a sound cache.
  pub add_group_edges-GroupsOutcome :
      (groups_graph : Q.Graph) (graph : Graph)
      → IsSafe trait P graph
      → GroupsOutcome groups_graph graph (add_group_edges trait P Q groups_graph graph)
  unfolding add_group_edges
  add_group_edges-GroupsOutcome groups_graph graph safe =
      go (get_default_group_node Q groups_graph) _ refl
        (add_group_edges-Proceeds groups_graph graph safe)
    where
      go :
          (r : Result UndefinedGroupError ℕ) (f : ℕ → Graph)
          → get_default_group_node Q groups_graph ≡ r
          → Proceeds trait P graph (r >>= λ node. ok (f node))
          → GroupsOutcome groups_graph graph (r >>= λ node. ok (f node))
      go (err e) f er p = er
      go (ok node) f er p = (p, node, er)
