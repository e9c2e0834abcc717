-- ===== src/Sorting/Plugins/Overlap/Edges.antt =====
-- src/sorting/plugins.rs: the edges that overlapping plugins get, and the error.
use libloot.Prelude.{
  ℕ, ◌<◌, ◌≡◌, refl, sym, ◌∙◌, subst, ◌⊎◌, inl, inr, Bool, true, false, ◌||◌, ◌&&◌, ◌==◌, List, [],
  ◌∷◌, Option, none, some, Memᴰ, range, Bool-cases, if◌then◌else◌, arith,
}
use libloot.Prelude.Result.{Result, ok, err, ◌>>=◌, map_err}
use libloot.External.Petgraph.{Petgraph}
use libloot.Sorting.Vertex.{EdgeType}
use libloot.Sorting.Error.{SortingError, PluginDataError, plugin_data}
use libloot.Sorting.Plugins.Data.{SortingPlugin, PluginSortingData, asset_count}
use libloot.Sorting.Plugins.Cache.{is_path_cached}
use libloot.Sorting.Plugins.Graph.{PluginsGraph, add_edge, path_exists}
use libloot.Sorting.Plugins.Graph.Paths.{
  next_of, PathAnswer, path_exists-PathAnswer, add_edge-AddsEdge,
}
use libloot.Sorting.Plugins.Graph.Growth.{IsSafe, Progress}
use libloot.Sorting.Plugins.Overlap.{
  overlap_order, add_edge_unless_cyclic, add_overlap_edge, add_overlap_edges_to,
  add_overlap_edges_at, add_overlap_edges_from, add_overlap_edges,
}
use libloot.Sorting.Plugins.Overlap.Leads.{
  LoadsFirst, LoadsLast, CannotCompare, OrderOutcome, overlap_order-OrderOutcome,
}
use libloot.Sorting.Plugins.Overlap.Safe.{
  In, AllIn, AllIn-grown, AllIn-range, Proceeds, add_overlap_edge-Proceeds,
  add_overlap_edges_at-Proceeds, add_overlap_edges-Proceeds,
}

module _ {E T : Type 0} (trait : SortingPlugin E T) (P : Petgraph (PluginSortingData T)) where
  abbrev Graph : Type 0
  Graph = PluginsGraph trait P

  -- The first of two nodes has the plugin that loads first.
  abbrev pub Leads : Graph → ℕ → ℕ → Type 0
  Leads graph x y =
      LoadsFirst trait P (P.index graph.inner x) (P.index graph.inner y)
      ⊎ LoadsLast trait P (P.index graph.inner y) (P.index graph.inner x)

  -- An error is that of two of the plugins whose records cannot be compared; else each edge of the
  -- new graph is an old one, or leads from a plugin that loads first to the one it overlaps with.
  abbrev pub EdgesOutcome : Graph → Result (SortingError E) Graph → Type 0
  EdgesOutcome old (err e) =
      (x : ℕ) × (y : ℕ) × (d : PluginDataError E) × In trait P old x
      × In trait P old y
      × CannotCompare trait P (P.index old.inner x) (P.index old.inner y) d
      × (e ≡ plugin_data d)
  EdgesOutcome old (ok new) =
      (x y : ℕ) → Memᴰ y (next_of trait P new x) → Memᴰ y (next_of trait P old x) ⊎ Leads old x y

  EdgesOutcome-bind :
      (graph : Graph) (m : Result (SortingError E) Graph)
      (f : Graph → Result (SortingError E) Graph)
      → EdgesOutcome graph m
      → Proceeds trait P graph m
      → ((g : Graph) → Progress trait P graph g → EdgesOutcome g (f g))
      → EdgesOutcome graph (m >>= f)
  EdgesOutcome-bind graph (err e) f h p k = h
  EdgesOutcome-bind graph (ok g) f h p k = join (f g) (k g p)
    where
      join : (r : Result (SortingError E) Graph) → EdgesOutcome g r → EdgesOutcome graph r
      join (err e) (x, y, d, hx, hy, no_order, same) = (
        x,
        y,
        d,
        omega (arith, p.grows.count, hx),
        omega (arith, p.grows.count, hy),
        subst (λ w. CannotCompare trait P w (P.index graph.inner y) d) (p.grows.nodes x)
            (subst (λ w. CannotCompare trait P (P.index g.inner x) w d) (p.grows.nodes y) no_order),
        same,
      )
      join (ok new) later = λ x y m. elim (later x y m) [
        | inl old ↦ h x y old
        | inr leads ↦ inr (
            subst
              (λ w.
                LoadsFirst trait P w (P.index graph.inner y)
                ⊎ LoadsLast trait P (P.index graph.inner y) w)
              (p.grows.nodes x)
              (subst
                (λ w.
                  LoadsFirst trait P (P.index g.inner x) w
                  ⊎ LoadsLast trait P w (P.index g.inner x))
                (p.grows.nodes y) leads))
      ]

  -- The edges of a graph with at most one edge more.
  abbrev HasAtMost : Graph → Graph → ℕ → ℕ → Type 0
  HasAtMost old new from to =
      (x y : ℕ)
      → Memᴰ y (next_of trait P new x)
      → Memᴰ y (next_of trait P old x) ⊎ ((x ≡ from) × (y ≡ to))

  add_edge-HasAtMost :
      (graph : Graph) (from to : ℕ) (t : EdgeType)
      → In trait P graph from
      → In trait P graph to
      → HasAtMost graph (add_edge trait P from to t graph) from to
  unfolding add_edge
  add_edge-HasAtMost graph from to t hf ht =
      elim (Bool-cases (is_path_cached from to graph.paths_cache)) [
        | inl cached ↦ rw (cached, add_edge) (λ x y m. inl m)
        | inr added ↦
            rw (added, add_edge)
              (λ x y m.
                elim (((add_edge-AddsEdge trait P graph.inner from to t hf ht).edge_iff x y).0 m) [
                  | inl here ↦ inr here
                  | inr old ↦ inl old
                ])
      ]

  HasAtMost-after :
      (graph : Graph) (from to : ℕ) (t : EdgeType) (r : Bool × Graph)
      → In trait P graph from
      → In trait P graph to
      → PathAnswer trait P graph to from r
      → HasAtMost graph (if r.0 then r.1 else add_edge trait P from to t r.1) from to
  HasAtMost-after graph from to t (true, g) hf ht a =
      λ x y m. inl (subst (λ i. Memᴰ y (P.neighbors i x)) a.same m)
  HasAtMost-after graph from to t (false, g) hf ht a =
      subst
        (λ i.
          (x y : ℕ)
          → Memᴰ y (next_of trait P (add_edge trait P from to t g) x)
          → Memᴰ y (P.neighbors i x) ⊎ ((x ≡ from) × (y ≡ to)))
        a.same
        (add_edge-HasAtMost g from to t (subst (λ i. from < P.node_count i) (sym a.same) hf)
          (subst (λ i. to < P.node_count i) (sym a.same) ht))

  add_edge_unless_cyclic-HasAtMost :
      (from to : ℕ) (t : EdgeType) (graph : Graph)
      → In trait P graph from
      → In trait P graph to
      → IsSafe trait P graph
      → HasAtMost graph (add_edge_unless_cyclic trait P from to t graph) from to
  unfolding add_edge_unless_cyclic
  add_edge_unless_cyclic-HasAtMost from to t graph hf ht safe =
      elim (Bool-cases (is_path_cached from to graph.paths_cache)) [
        | inl cached ↦ rw (cached, add_edge_unless_cyclic) (λ x y m. inl m)
        | inr fresh ↦
            rw (fresh, add_edge_unless_cyclic)
              (HasAtMost-after graph from to t (path_exists trait P to from graph) hf ht
                (path_exists-PathAnswer trait P graph to from safe.sound))
      ]

  -- An edge between two nodes in the order of their plugins.
  EdgesOutcome-of_edge :
      (old new : Graph) (from to : ℕ)
      → HasAtMost old new from to
      → Leads old from to
      → EdgesOutcome old (ok new)
  EdgesOutcome-of_edge old new from to h leads =
      λ x y m. elim (h x y m) [ inl kept ↦ inl kept | inr (ex, ey) ↦ inr (rw (ex, ey) leads) ]

  add_overlap_edge-EdgesOutcome :
      (node other : ℕ) (graph : Graph)
      → In trait P graph node
      → In trait P graph other
      → IsSafe trait P graph
      → EdgesOutcome graph (add_overlap_edge trait P (P.index graph.inner node) node other graph)
  unfolding add_overlap_edge
  add_overlap_edge-EdgesOutcome node other graph hn ho safe =
      elim (Bool-cases
        (P.contains_edge graph.inner node other || P.contains_edge graph.inner other node)) [
          | inl linked ↦ rw (linked, add_overlap_edge) (λ x y m. inl m)
          | inr free ↦
              rw (free, add_overlap_edge)
                (go (overlap_order trait P (P.index graph.inner node) (P.index graph.inner other)) (
                  overlap_order-OrderOutcome trait P (P.index graph.inner node)
                    (P.index graph.inner other)))
        ]
    where
      go :
          (r : Result (PluginDataError E) (Option (Bool × EdgeType)))
          → OrderOutcome trait P (P.index graph.inner node) (P.index graph.inner other) r
          → EdgesOutcome graph (
              map_err plugin_data r >>= λ order.
              elim order as (λ x. Result (SortingError E) Graph) [
                | none ↦ ok graph
                | some (first, t) ↦ ok (
                    if first
                    then add_edge_unless_cyclic trait P node other t graph
                    else add_edge_unless_cyclic trait P other node t graph)
              ])
      go (err e) h = (node, other, e, hn, ho, h, refl)
      go (ok none) h = λ x y m. inl m
      go (ok (some (true, t))) h =
          EdgesOutcome-of_edge graph (add_edge_unless_cyclic trait P node other t graph) node other
            (add_edge_unless_cyclic-HasAtMost node other t graph hn ho safe) (inl h)
      go (ok (some (false, t))) h =
          EdgesOutcome-of_edge graph (add_edge_unless_cyclic trait P other node t graph) other node
            (add_edge_unless_cyclic-HasAtMost other node t graph ho hn safe) (inr h)

  add_overlap_edges_to-EdgesOutcome :
      (plugin : PluginSortingData T) (node : ℕ) (others : List ℕ) (graph : Graph)
      → P.index graph.inner node ≡ plugin
      → In trait P graph node
      → AllIn trait P graph others
      → IsSafe trait P graph
      → EdgesOutcome graph (add_overlap_edges_to trait P plugin node others graph)
  unfolding add_overlap_edges_to
  add_overlap_edges_to-EdgesOutcome plugin node [] graph e hn ho safe = λ x y m. inl m
  add_overlap_edges_to-EdgesOutcome plugin node (other ∷ others) graph e hn ho safe =
      let here = ho other (Memᴰ.head refl) in
      EdgesOutcome-bind graph (add_overlap_edge trait P plugin node other graph)
        (add_overlap_edges_to trait P plugin node others)
        (subst (λ w. EdgesOutcome graph (add_overlap_edge trait P w node other graph)) e
          (add_overlap_edge-EdgesOutcome node other graph hn here safe))
        (add_overlap_edge-Proceeds trait P plugin node other graph hn here safe)
        (λ g p.
          add_overlap_edges_to-EdgesOutcome plugin node others g (p.grows.nodes node ∙ e)
            (omega (arith, p.grows.count, hn))
            (AllIn-grown trait P graph g others p (λ x m. ho x (Memᴰ.tail m))) p.safe)

  add_overlap_edges_at-EdgesOutcome :
      (node : ℕ) (later : List ℕ) (graph : Graph)
      → In trait P graph node
      → AllIn trait P graph later
      → IsSafe trait P graph
      → EdgesOutcome graph (add_overlap_edges_at trait P node later graph)
  unfolding add_overlap_edges_at
  add_overlap_edges_at-EdgesOutcome node later graph hn hl safe =
      let plugin = P.index graph.inner node in
      elim (Bool-cases (plugin.override_record_count == 0 && asset_count trait plugin == 0)) [
        | inl skipped ↦ rw (skipped, add_overlap_edges_at) (λ x y m. inl m)
        | inr other ↦
            rw (other, add_overlap_edges_at)
              (add_overlap_edges_to-EdgesOutcome plugin node later graph refl hn hl safe)
      ]

  add_overlap_edges_from-EdgesOutcome :
      (nodes : List ℕ) (graph : Graph)
      → AllIn trait P graph nodes
      → IsSafe trait P graph
      → EdgesOutcome graph (add_overlap_edges_from trait P nodes graph)
  unfolding add_overlap_edges_from
  add_overlap_edges_from-EdgesOutcome [] graph h safe = λ x y m. inl m
  add_overlap_edges_from-EdgesOutcome (node ∷ later) graph h safe =
      let here = h node (Memᴰ.head refl) in
      let rest = λ (x : ℕ) (m : Memᴰ x later). h x (Memᴰ.tail m) in
      EdgesOutcome-bind graph (add_overlap_edges_at trait P node later graph)
        (add_overlap_edges_from trait P later)
        (add_overlap_edges_at-EdgesOutcome node later graph here rest safe)
        (add_overlap_edges_at-Proceeds trait P node later graph here rest safe)
        (λ g p.
          add_overlap_edges_from-EdgesOutcome later g (AllIn-grown trait P graph g later p rest)
            p.safe)

  -- From a graph without cycles and with a sound cache, adding the edges between overlapping
  -- plugins ends with the error that the records of two of the plugins, of which one overrides more
  -- than the other, cannot be compared; or with a graph that has the same nodes and the old edges,
  -- still no cycle, and a sound cache, and in which each new edge leads from a plugin to one that
  -- overrides fewer records and has records in common with it; or, if their records do not decide,
  -- to one that has fewer assets and has assets in common with it.
  pub add_overlap_edges-OverlapEdges :
      (graph : Graph)
      → IsSafe trait P graph
      → Proceeds trait P graph (add_overlap_edges trait P graph)
        × EdgesOutcome graph (add_overlap_edges trait P graph)
  unfolding add_overlap_edges
  add_overlap_edges-OverlapEdges graph safe = (
    add_overlap_edges-Proceeds trait P graph safe,
    add_overlap_edges_from-EdgesOutcome (range (P.node_count graph.inner)) graph
        (AllIn-range trait P graph) safe,
  )
