-- ===== src/Sorting/Plugins/Overlap/Safe.antt =====
-- src/sorting/plugins.rs: what adding the edges between overlapping plugins keeps.
use libloot.Prelude.{
  ℕ, ◌<◌, refl, inl, inr, Bool, true, false, ◌||◌, ◌&&◌, List, [], ◌∷◌, Option, none, some, Memᴰ,
  range, arith, Bool-cases, mem-count_from_lt, ◌==◌, if◌then◌else◌,
}
use libloot.Prelude.Result.{Result, ok, err, ◌>>=◌, map_err}
use libloot.External.Petgraph.{Petgraph}
use libloot.Sorting.Vertex.{EdgeType}
use libloot.Sorting.Error.{SortingError, PluginDataError, plugin_data}
use libloot.Sorting.Plugins.Data.{SortingPlugin, PluginSortingData, asset_count}
use libloot.Sorting.Plugins.Cache.{is_path_cached}
use libloot.Sorting.Plugins.Graph.{PluginsGraph, add_edge, path_exists}
use libloot.Sorting.Plugins.Graph.Paths.{PathAnswer, path_exists-PathAnswer}
use libloot.Sorting.Plugins.Graph.Growth.{
  IsSafe, Progress, Progress-refl, Progress-trans, Progress-of_same, add_edge-Progress,
}
use libloot.Sorting.Plugins.Overlap.{
  overlap_order, add_edge_unless_cyclic, add_overlap_edge, add_overlap_edges_to,
  add_overlap_edges_at, add_overlap_edges_from, add_overlap_edges,
}

module _ {E T : Type 0} (trait : SortingPlugin E T) (P : Petgraph (PluginSortingData T)) where
  abbrev Graph : Type 0
  Graph = PluginsGraph trait P

  abbrev pub In : Graph → ℕ → Type 0
  In graph i = i < P.node_count graph.inner

  after_search :
      (graph : Graph) (from to : ℕ) (t : EdgeType) (r : Bool × Graph)
      → In graph from
      → In graph to
      → IsSafe trait P graph
      → PathAnswer trait P graph to from r
      → Progress trait P graph (if r.0 then r.1 else add_edge trait P from to t r.1)
  after_search graph from to t (true, graph') hf ht safe a =
      Progress-of_same trait P graph graph' a.same a.sound safe
  after_search graph from to t (false, graph') hf ht safe a =
      let same = Progress-of_same trait P graph graph' a.same a.sound safe in
      Progress-trans trait P same (
        add_edge-Progress trait P graph' from to t (omega (arith, same.grows.count))
          (omega (arith, same.grows.count)) same.safe (rw a.same (a.not_found refl)))

  pub add_edge_unless_cyclic-Progress :
      (from to : ℕ) (t : EdgeType) (graph : Graph)
      → In graph from
      → In graph to
      → IsSafe trait P graph
      → Progress trait P graph (add_edge_unless_cyclic trait P from to t graph)
  unfolding add_edge_unless_cyclic
  add_edge_unless_cyclic-Progress from to t graph hf ht safe =
      elim (Bool-cases (is_path_cached from to graph.paths_cache)) [
        | inl cached ↦ rw (cached, add_edge_unless_cyclic) (Progress-refl trait P graph safe)
        | inr fresh ↦
            rw (fresh, add_edge_unless_cyclic)
              (after_search graph from to t (path_exists trait P to from graph) hf ht safe
                (path_exists-PathAnswer trait P graph to from safe.sound))
      ]

  -- A result that is either an error or a graph that made progress.
  abbrev pub Proceeds : {X : Type 0} → Graph → Result X Graph → Type 0
  Proceeds graph (ok graph') = Progress trait P graph graph'
  Proceeds graph (err e) = Unit

  pub Proceeds-bind :
      {X : Type 0} (graph : Graph) (m : Result X Graph) (f : Graph → Result X Graph)
      → Proceeds graph m
      → ((graph' : Graph) → Progress trait P graph graph' → Proceeds graph' (f graph'))
      → Proceeds graph (m >>= f)
  Proceeds-bind {X} graph (err e) f h k = tt
  Proceeds-bind {X} graph (ok graph') f h k = trans (f graph') (k graph' h)
    where
      trans : (r : Result X Graph) → Proceeds graph' r → Proceeds graph r
      trans (ok graph'') p = Progress-trans trait P h p
      trans (err e) p = tt

  pub add_overlap_edge-Proceeds :
      (plugin : PluginSortingData T) (node other : ℕ) (graph : Graph)
      → In graph node
      → In graph other
      → IsSafe trait P graph
      → Proceeds graph (add_overlap_edge trait P plugin node other graph)
  unfolding add_overlap_edge
  add_overlap_edge-Proceeds plugin node other graph hn ho safe =
      elim (Bool-cases
        (P.contains_edge graph.inner node other || P.contains_edge graph.inner other node)) [
          | inl joined ↦ rw (joined, add_overlap_edge) (Progress-refl trait P graph safe)
          | inr apart ↦
              rw (apart, add_overlap_edge)
                (decided (overlap_order trait P plugin (P.index graph.inner other)))
        ]
    where
      chosen :
          (b : Bool) (t : EdgeType)
          → Progress trait P graph (
              if b
              then add_edge_unless_cyclic trait P node other t graph
              else add_edge_unless_cyclic trait P other node t graph)
      chosen true t = add_edge_unless_cyclic-Progress node other t graph hn ho safe
      chosen false t = add_edge_unless_cyclic-Progress other node t graph ho hn safe

      decided :
          (r : Result (PluginDataError E) (Option (Bool × EdgeType)))
          → Proceeds {X = SortingError E} graph (
              map_err plugin_data r >>= λ order. elim order [
                | none ↦ ok graph
                | some (first, edge_type) ↦ ok (
                    if first
                    then add_edge_unless_cyclic trait P node other edge_type graph
                    else add_edge_unless_cyclic trait P other node edge_type graph)
              ])
      decided (err e) = tt
      decided (ok none) = Progress-refl trait P graph safe
      decided (ok (some (b, t))) = chosen b t

  -- All of some nodes are in the graph.
  abbrev pub AllIn : Graph → List ℕ → Type 0
  AllIn graph l = (x : ℕ) → Memᴰ x l → In graph x

  pub AllIn-grown :
      (old new : Graph) (l : List ℕ) → Progress trait P old new → AllIn old l → AllIn new l
  AllIn-grown old new l p h x m = omega (arith, h x m, p.grows.count)

  pub add_overlap_edges_to-Proceeds :
      (plugin : PluginSortingData T) (node : ℕ) (others : List ℕ) (graph : Graph)
      → In graph node
      → AllIn graph others
      → IsSafe trait P graph
      → Proceeds graph (add_overlap_edges_to trait P plugin node others graph)
  unfolding add_overlap_edges_to
  add_overlap_edges_to-Proceeds plugin node [] graph hn ho safe = Progress-refl trait P graph safe
  add_overlap_edges_to-Proceeds plugin node (other ∷ others) graph hn ho safe =
      Proceeds-bind graph (add_overlap_edge trait P plugin node other graph)
        (add_overlap_edges_to trait P plugin node others)
        (add_overlap_edge-Proceeds plugin node other graph hn (ho other (Memᴰ.head refl)) safe)
        (λ graph' p.
          add_overlap_edges_to-Proceeds plugin node others graph' (omega (arith, p.grows.count))
            (AllIn-grown graph graph' others p (λ x m. ho x (Memᴰ.tail m))) p.safe)

  pub add_overlap_edges_at-Proceeds :
      (node : ℕ) (later : List ℕ) (graph : Graph)
      → In graph node
      → AllIn graph later
      → IsSafe trait P graph
      → Proceeds graph (add_overlap_edges_at trait P node later graph)
  unfolding add_overlap_edges_at
  add_overlap_edges_at-Proceeds node later graph hn hl safe =
      let plugin = P.index graph.inner node in
      elim (Bool-cases (plugin.override_record_count == 0 && asset_count trait plugin == 0)) [
        | inl skipped ↦ rw (skipped, add_overlap_edges_at) (Progress-refl trait P graph safe)
        | inr other ↦
            rw (other, add_overlap_edges_at)
              (add_overlap_edges_to-Proceeds plugin node later graph hn hl safe)
      ]

  pub add_overlap_edges_from-Proceeds :
      (nodes : List ℕ) (graph : Graph)
      → AllIn graph nodes
      → IsSafe trait P graph
      → Proceeds graph (add_overlap_edges_from trait P nodes graph)
  unfolding add_overlap_edges_from
  add_overlap_edges_from-Proceeds [] graph h safe = Progress-refl trait P graph safe
  add_overlap_edges_from-Proceeds (node ∷ later) graph h safe =
      Proceeds-bind graph (add_overlap_edges_at trait P node later graph)
        (add_overlap_edges_from trait P later)
        (add_overlap_edges_at-Proceeds node later graph (h node (Memᴰ.head refl))
          (λ x m. h x (Memᴰ.tail m)) safe)
        (λ graph' p.
          add_overlap_edges_from-Proceeds later graph'
            (AllIn-grown graph graph' later p (λ x m. h x (Memᴰ.tail m))) p.safe)

  pub AllIn-range : (graph : Graph) → AllIn graph (range (P.node_count graph.inner))
  AllIn-range graph x m = omega (arith, mem-count_from_lt 0 (P.node_count graph.inner) x m)

  -- From a graph without cycles and with a sound cache, adding the edges between overlapping
  -- plugins ends with an error of the plugins' data, or with a graph that has the same nodes and
  -- the old edges, still no cycle, and a sound cache.
  pub add_overlap_edges-Proceeds :
      (graph : Graph) → IsSafe trait P graph → Proceeds graph (add_overlap_edges trait P graph)
  unfolding add_overlap_edges
  add_overlap_edges-Proceeds graph safe =
      add_overlap_edges_from-Proceeds (range (P.node_count graph.inner)) graph (AllIn-range graph)
        safe
