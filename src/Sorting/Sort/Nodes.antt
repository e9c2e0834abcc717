-- ===== src/Sorting/Sort/Nodes.antt =====
-- src/sorting/plugins.rs: the graph that the plugins' nodes make.
use libloot.Prelude.{
  ℕ, zero, suc, ◌+◌, ◌<◌, ◌≡◌, refl, ap, ◌∙◌, Bool, String, List, [], ◌∷◌, some, length, get_elem?,
  arith,
}
use libloot.Prelude.Result.{Result}
use libloot.External.Petgraph.{Petgraph}
use libloot.Sorting.Plugins.Data.{SortingPlugin, PluginSortingData}
use libloot.Sorting.Plugins.Graph.{PluginsGraph, add_node}
use libloot.Sorting.Plugins.Graph.Growth.{IsSafe, add_node-IsSafe}
use libloot.Sorting.Sort.{add_nodes}

module _ {E T : Type 0} (trait : SortingPlugin E T) (P : Petgraph (PluginSortingData T))
    (Q : Petgraph String) (unicase_eq : String → String → Bool)
    (toposort : P.Graph → Result ℕ (List ℕ)) where
  abbrev Graph : Type 0
  Graph = PluginsGraph trait P

  abbrev added : List (PluginSortingData T) → Graph → Graph
  added = add_nodes trait P Q unicase_eq toposort

  pub add_nodes-IsSafe :
      (plugins : List (PluginSortingData T)) (graph : Graph)
      → IsSafe trait P graph
      → IsSafe trait P (added plugins graph)
  unfolding add_nodes
  add_nodes-IsSafe [] graph safe = safe
  add_nodes-IsSafe (p ∷ ps) graph safe =
      add_nodes-IsSafe ps (add_node trait P p graph) (add_node-IsSafe trait P p graph safe)

  pub node_count-add_nodes :
      (plugins : List (PluginSortingData T)) (graph : Graph)
      → P.node_count (added plugins graph).inner ≡ length plugins + P.node_count graph.inner
  unfolding add_nodes add_node
  node_count-add_nodes [] graph = omega arith
  node_count-add_nodes (p ∷ ps) graph = omega (
    arith,
    node_count-add_nodes ps (add_node trait P p graph),
    P.node_count-add_node graph.inner p,
  )

  index-add_nodes_old :
      (plugins : List (PluginSortingData T)) (graph : Graph) (i : ℕ)
      → i < P.node_count graph.inner
      → P.index (added plugins graph).inner i ≡ P.index graph.inner i
  unfolding add_nodes add_node
  index-add_nodes_old [] graph i h = refl
  index-add_nodes_old (p ∷ ps) graph i h =
      index-add_nodes_old ps (add_node trait P p graph) i
        (omega (arith, P.node_count-add_node graph.inner p))
      ∙ P.index-add_node_old graph.inner p i h

  -- The node of each plugin is at the plugin's position, after the nodes that were there.
  pub index-add_nodes :
      (plugins : List (PluginSortingData T)) (graph : Graph) (i : ℕ) (p : PluginSortingData T)
      → get_elem? plugins i ≡ some p
      → P.index (added plugins graph).inner (i + P.node_count graph.inner) ≡ p
  unfolding add_nodes add_node
  index-add_nodes [] graph i p h = absurd (cc)
  index-add_nodes (q ∷ ps) graph zero p h =
      let start : 0 + P.node_count graph.inner ≡ P.node_count graph.inner = omega arith in
      ap (P.index (added ps (add_node trait P q graph)).inner) start
      ∙ index-add_nodes_old ps (add_node trait P q graph) (P.node_count graph.inner)
          (omega (arith, P.node_count-add_node graph.inner q))
      ∙ P.index-add_node graph.inner q
      ∙ some_eq q p h
    where
      some_eq : (a b : PluginSortingData T) → some a ≡ some b → a ≡ b
      some_eq a b h = cc
  index-add_nodes (q ∷ ps) graph (suc i) p h =
      let next = add_node trait P q graph in
      let same : suc i + P.node_count graph.inner ≡ i + P.node_count next.inner =
        omega (arith, P.node_count-add_node graph.inner q) in
      ap (P.index (added ps next).inner) same ∙ index-add_nodes ps next i p h
