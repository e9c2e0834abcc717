-- ===== src/Sorting/Plugins/Graph/Growth.antt =====
-- src/sorting/plugins.rs: what an added edge keeps.
use libloot.Prelude.{ℕ, ◌<◌, ◌≡◌, refl, sym, subst, not_mem_nil, ◌∙◌, inl, inr, Memᴰ, Bool-cases}
use libloot.External.Petgraph.{Petgraph}
use libloot.Sorting.Vertex.{EdgeType}
use libloot.Sorting.Graph.{Reach, here, step, Reach-AddsEdge, Reach-mono, Acyclic, Acyclic-AddsEdge}
use libloot.Sorting.Plugins.Data.{SortingPlugin, PluginSortingData}
use libloot.Sorting.Plugins.Cache.{is_path_cached}
use libloot.Sorting.Plugins.Cache.Sound.{cache_path-IsSound}
use libloot.Sorting.Plugins.Graph.{PluginsGraph, new, add_node, add_edge}
use libloot.Sorting.Plugins.Graph.Paths.{next_of, IsCacheSound, add_edge-AddsEdge}

module _ {E T : Type 0} (trait : SortingPlugin E T) (P : Petgraph (PluginSortingData T)) where
  -- The second graph has the first one's nodes and at least its edges.
  pub record Grows (old new : PluginsGraph trait P) : Type 0 where
    pub count : P.node_count new.inner ≡ P.node_count old.inner
    pub nodes : (i : ℕ) → P.index new.inner i ≡ P.index old.inner i
    pub kept : (a b : ℕ) → Memᴰ b (next_of trait P old a) → Memᴰ b (next_of trait P new a)

  pub Grows-refl : (graph : PluginsGraph trait P) → Grows graph graph
  Grows-refl graph = record { count = refl; nodes = λ i. refl; kept = λ a b m. m }

  pub Grows-trans : {a b c : PluginsGraph trait P} → Grows a b → Grows b c → Grows a c
  Grows-trans h k = record {
    count = k.count ∙ h.count;
    nodes = λ i. k.nodes i ∙ h.nodes i;
    kept = λ x y m. k.kept x y (h.kept x y m);
  }

  pub Grows-of_same : (old new : PluginsGraph trait P) → new.inner ≡ old.inner → Grows old new
  Grows-of_same old new e = record { count = rw e; nodes = λ i. rw e; kept = λ a b m. rw e m }

  -- A graph without cycles, whose cache holds only pairs that a walk joins.
  pub record IsSafe (graph : PluginsGraph trait P) : Type 0 where
    pub sound : IsCacheSound trait P graph
    pub acyclic : Acyclic (next_of trait P graph)

  pub IsSafe-of_same :
      (old new : PluginsGraph trait P)
      → new.inner ≡ old.inner
      → IsCacheSound trait P new
      → IsSafe old
      → IsSafe new
  IsSafe-of_same old new e sound safe = record { sound = sound; acyclic = rw e safe.acyclic }

  module _ (graph : PluginsGraph trait P) (from to : ℕ) (t : EdgeType)
      (hf : from < P.node_count graph.inner) (ht : to < P.node_count graph.inner) where
    pub add_edge-Grows : Grows graph (add_edge trait P from to t graph)
    unfolding add_edge
    add_edge-Grows = elim (Bool-cases (is_path_cached from to graph.paths_cache)) [
      | inl cached ↦ rw (cached, add_edge) (Grows-refl graph)
      | inr added ↦
          rw (added, add_edge)
            (record {
              count = P.node_count-add_edge graph.inner from to t;
              nodes = P.index-add_edge graph.inner from to t;
              kept = λ a b m.
                  ((add_edge-AddsEdge trait P graph.inner from to t hf ht).edge_iff a b).1 (inr m);
            })
    ]

    pub add_edge_sound :
        IsCacheSound trait P graph → IsCacheSound trait P (add_edge trait P from to t graph)
    unfolding add_edge
    add_edge_sound sound = elim (Bool-cases (is_path_cached from to graph.paths_cache)) [
      | inl cached ↦ rw (cached, add_edge) sound
      | inr added ↦
          let more = add_edge-AddsEdge trait P graph.inner from to t hf ht in
          rw (added, add_edge)
            (cache_path-IsSound (P.neighbors (P.add_edge graph.inner from to t)) from to
              graph.paths_cache (step here ((more.edge_iff from to).1 (inl (refl, refl))))
              (λ a b h. Reach-AddsEdge more (sound a b h)))
    ]

    -- The new graph has a walk along the edge, also if the edge was left out as known.
    pub Reach-add_edge :
        IsCacheSound trait P graph
        → Reach (next_of trait P (add_edge trait P from to t graph)) from to
    unfolding add_edge
    Reach-add_edge sound = elim (Bool-cases (is_path_cached from to graph.paths_cache)) [
      | inl cached ↦ rw (cached, add_edge) (sound from to cached)
      | inr added ↦
          let more = add_edge-AddsEdge trait P graph.inner from to t hf ht in
          rw (added, add_edge) (step here ((more.edge_iff from to).1 (inl (refl, refl))))
    ]

    -- An edge against which there is no walk keeps the graph free of cycles.
    pub add_edge-IsSafe :
        IsSafe graph
        → ¬ (Reach (next_of trait P graph) to from)
        → IsSafe (add_edge trait P from to t graph)
    unfolding add_edge
    add_edge-IsSafe safe no_walk = elim (Bool-cases (is_path_cached from to graph.paths_cache)) [
      | inl cached ↦ rw (cached, add_edge) safe
      | inr added ↦ record {
        sound = add_edge_sound safe.sound;
        acyclic =
            rw (added, add_edge)
              (Acyclic-AddsEdge (add_edge-AddsEdge trait P graph.inner from to t hf ht) safe.acyclic
                no_walk);
      }
    ]

  -- The second graph has grown out of the first one, and is safe.
  pub record Progress (old new : PluginsGraph trait P) : Type 0 where
    pub grows : Grows old new
    pub safe : IsSafe new

  pub Progress-refl : (graph : PluginsGraph trait P) → IsSafe graph → Progress graph graph
  Progress-refl graph safe = record { grows = Grows-refl graph; safe = safe }

  pub Progress-trans : {a b c : PluginsGraph trait P} → Progress a b → Progress b c → Progress a c
  Progress-trans h k = record { grows = Grows-trans h.grows k.grows; safe = k.safe }

  pub Progress-of_same :
      (old new : PluginsGraph trait P)
      → new.inner ≡ old.inner
      → IsCacheSound trait P new
      → IsSafe old
      → Progress old new
  Progress-of_same old new e sound safe = record {
    grows = Grows-of_same old new e;
    safe = IsSafe-of_same old new e sound safe;
  }

  -- In a graph without cycles whose cache holds only pairs that a walk joins, adding an edge between
  -- two of its nodes, where no walk leads from the target to the source, keeps the nodes and the
  -- edges, makes no cycle, and keeps the cache so.
  pub add_edge-Progress :
      (graph : PluginsGraph trait P) (from to : ℕ) (t : EdgeType)
      → from < P.node_count graph.inner
      → to < P.node_count graph.inner
      → IsSafe graph
      → ¬ (Reach (next_of trait P graph) to from)
      → Progress graph (add_edge trait P from to t graph)
  add_edge-Progress graph from to t hf ht safe no_walk = record {
    grows = add_edge-Grows graph from to t hf ht;
    safe = add_edge-IsSafe graph from to t hf ht safe no_walk;
  }

  pub new-IsSafe : IsSafe (new trait P)
  unfolding is_path_cached
  new-IsSafe = record {
    sound = λ a b h. absurd (cc);
    acyclic = λ a b m. absurd (not_mem_nil (subst (Memᴰ b) (P.neighbors-new a) m));
  }

  pub add_node-IsSafe :
      (plugin : PluginSortingData T) (graph : PluginsGraph trait P)
      → IsSafe graph
      → IsSafe (add_node trait P plugin graph)
  unfolding add_node
  add_node-IsSafe plugin graph safe = record {
    sound = λ a b h. Reach-mono (λ x y m. older x y m) (safe.sound a b h);
    acyclic = λ a b m r. safe.acyclic a b (newer a b m) (Reach-mono newer r);
  }
    where
      older :
          (x y : ℕ)
          → Memᴰ y (P.neighbors graph.inner x)
          → Memᴰ y (P.neighbors (P.add_node graph.inner plugin) x)
      older x y m = subst (Memᴰ y) (sym (P.neighbors-add_node graph.inner plugin x)) m

      newer :
          (x y : ℕ)
          → Memᴰ y (P.neighbors (P.add_node graph.inner plugin) x)
          → Memᴰ y (P.neighbors graph.inner x)
      newer x y m = subst (Memᴰ y) (P.neighbors-add_node graph.inner plugin x) m
