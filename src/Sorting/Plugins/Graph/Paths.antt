-- ===== src/Sorting/Plugins/Graph/Paths.antt =====
-- src/sorting/plugins.rs: the invariant of the cache, and the answer of `path_exists`.
use libloot.Prelude.{ℕ, ◌<◌, ◌≡◌, refl, inl, inr, Bool, true, false, List, subst, sym, Bool-cases}
use libloot.External.Petgraph.{Petgraph}
use libloot.Sorting.Vertex.{EdgeType}
use libloot.Sorting.Graph.{Reach, AddsEdge}
use libloot.Sorting.Search.Bfs.{bidirectional_bfs}
use libloot.Sorting.Search.Bfs.Rule.{bidirectional_bfs-Outcome, Outcome}
use libloot.Sorting.Search.Bfs.Walks.{AreJoined-start, Reach-of_both}
use libloot.Sorting.Plugins.Data.{SortingPlugin, PluginSortingData}
use libloot.Sorting.Plugins.Cache.{PathsCache, is_path_cached, path_cacher}
use libloot.Sorting.Plugins.Cache.Sound.{IsSound, CacherInv, path_cacher-IsKept}
use libloot.Sorting.Plugins.Graph.{PluginsGraph, path_exists}

module _ {E T : Type 0} (trait : SortingPlugin E T) (P : Petgraph (PluginSortingData T)) where
  -- The successors of a node.
  abbrev pub next_of : PluginsGraph trait P → ℕ → List ℕ
  next_of graph = P.neighbors graph.inner

  -- The cache holds only pairs that a walk joins.
  abbrev pub IsCacheSound : PluginsGraph trait P → Type 0
  IsCacheSound graph = IsSound (next_of graph) graph.paths_cache

  pub add_edge-AddsEdge :
      (g : P.Graph) (a b : ℕ) (t : EdgeType)
      → a < P.node_count g
      → b < P.node_count g
      → AddsEdge (P.neighbors g) (P.neighbors (P.add_edge g a b t)) a b
  add_edge-AddsEdge g a b t ha hb = record {
    edge_iff = λ x y. P.mem-neighbors-add_edge g a b t x y ha hb;
  }

  -- The outcome of looking for a path in a graph: its answer, and the graph with a fuller cache.
  pub record PathAnswer (graph : PluginsGraph trait P) (from to : ℕ)
      (result : Bool × PluginsGraph trait P) : Type 0 where
    pub same : result.1.inner ≡ graph.inner
    pub sound : IsCacheSound result.1
    pub found : result.0 ≡ true → Reach (next_of graph) from to
    pub not_found : result.0 ≡ false → ¬ (Reach (next_of graph) from to)

  module _ (graph : PluginsGraph trait P) (from to : ℕ) (sound : IsCacheSound graph) where
    search_answer :
        (r : Bool × PathsCache)
        → Outcome P graph.inner from to (path_cacher from to) (CacherInv (next_of graph) from to) r
        → PathAnswer graph from to (r.0, record graph { paths_cache = r.1 })
    unfolding path_cacher
    search_answer (true, cache) met = record {
      same = refl;
      sound = subst (IsSound (next_of graph)) (sym met.visited) met.kept.sound;
      found = λ e.
          Reach-of_both (next_of graph) from to met.kept.joined met.node met.in_forward
            met.in_reverse;
      not_found = λ e. absurd (cc);
    }
    search_answer (false, cache) missed = record {
      same = refl;
      sound = missed.kept.sound;
      found = λ e. absurd (cc);
      not_found = λ e. missed.no_walk;
    }

    -- If the cache holds only pairs that a walk joins, `path_exists` answers whether a walk leads
    -- from the first node to the second one, keeps the graph, and leaves a cache that again holds
    -- only pairs that a walk joins.
    pub path_exists-PathAnswer : PathAnswer graph from to (path_exists trait P from to graph)
    unfolding path_exists
    path_exists-PathAnswer = elim (Bool-cases (is_path_cached from to graph.paths_cache)) [
      | inl cached ↦
          rw (cached, path_exists)
            (record {
              same = refl;
              sound = sound;
              found = λ e. sound from to cached;
              not_found = λ e. absurd (cc);
            })
      | inr searched ↦
          rw (searched, path_exists)
            (search_answer
              (bidirectional_bfs P graph.inner from to (path_cacher from to) graph.paths_cache)
              (bidirectional_bfs-Outcome P graph.inner from to (path_cacher from to)
                (CacherInv (next_of graph) from to) (path_cacher-IsKept P graph.inner from to)
                graph.paths_cache
                (record { joined = AreJoined-start (next_of graph) from to; sound = sound })))
    ]
