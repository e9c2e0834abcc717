-- ===== src/Sorting/Plugins/Overlap/Ordered.antt =====
-- src/sorting/plugins.rs: a pair of plugins that overlap, and the inner loop.
use libloot.Prelude.{
  ℕ, ◌<◌, ◌≡◌, refl, sym, subst, ◌⊎◌, inl, inr, Bool, true, false, ◌||◌, ◌&&◌, ◌==◌, List, [], ◌∷◌,
  Option, none, some, Memᴰ, mem_cons, not_mem_nil, Bool-cases, or-eq-true, if◌then◌else◌, arith,
}
use libloot.Prelude.Result.{Result, ok, err, ◌>>=◌, map_err}
use libloot.External.Petgraph.{Petgraph}
use libloot.Sorting.Graph.{Reach, here, step, Reach-mono}
use libloot.Sorting.Vertex.{EdgeType}
use libloot.Sorting.Error.{SortingError, PluginDataError, plugin_data}
use libloot.Sorting.Plugins.Data.{SortingPlugin, PluginSortingData, asset_count}
use libloot.Sorting.Plugins.Cache.{is_path_cached}
use libloot.Sorting.Plugins.Graph.{PluginsGraph, add_edge, path_exists}
use libloot.Sorting.Plugins.Graph.Paths.{next_of, PathAnswer, path_exists-PathAnswer}
use libloot.Sorting.Plugins.Graph.Growth.{Grows, Grows-of_same, IsSafe, Progress, Reach-add_edge}
use libloot.Sorting.Plugins.Overlap.{
  overlap_order, add_edge_unless_cyclic, add_overlap_edge, add_overlap_edges_to,
  add_overlap_edges_at,
}
use libloot.Sorting.Plugins.Overlap.Safe.{
  In, AllIn, AllIn-grown, Proceeds, add_overlap_edge-Proceeds, add_overlap_edges_to-Proceeds,
}

module _ {E T : Type 0} (trait : SortingPlugin E T) (P : Petgraph (PluginSortingData T)) where
  abbrev Graph : Type 0
  Graph = PluginsGraph trait P

  -- One of the two nodes leads to the other.
  abbrev pub IsSettled : Graph → ℕ → ℕ → Type 0
  IsSettled graph i j = Reach (next_of trait P graph) i j ⊎ Reach (next_of trait P graph) j i

  pub IsSettled-Grows :
      {old new : Graph} (i j : ℕ) → Grows trait P old new → IsSettled old i j → IsSettled new i j
  IsSettled-Grows i j h (inl r) = inl (Reach-mono h.kept r)
  IsSettled-Grows i j h (inr r) = inr (Reach-mono h.kept r)

  IsSettled-sym : (graph : Graph) (i j : ℕ) → IsSettled graph i j → IsSettled graph j i
  IsSettled-sym graph i j (inl r) = inr r
  IsSettled-sym graph i j (inr r) = inl r

  IsSettled-after :
      (graph : Graph) (from to : ℕ) (t : EdgeType) (r : Bool × Graph)
      → In trait P graph from
      → In trait P graph to
      → PathAnswer trait P graph to from r
      → IsSettled (if r.0 then r.1 else add_edge trait P from to t r.1) from to
  IsSettled-after graph from to t (true, graph') hf ht a = inr (rw a.same (a.found refl))
  IsSettled-after graph from to t (false, graph') hf ht a =
      let h = Grows-of_same trait P graph graph' a.same in
      inl (
        Reach-add_edge trait P graph' from to t (omega (arith, h.count)) (omega (arith, h.count))
          a.sound)

  add_edge_unless_cyclic-IsSettled :
      (from to : ℕ) (t : EdgeType) (graph : Graph)
      → In trait P graph from
      → In trait P graph to
      → IsSafe trait P graph
      → IsSettled (add_edge_unless_cyclic trait P from to t graph) from to
  unfolding add_edge_unless_cyclic
  add_edge_unless_cyclic-IsSettled from to t graph hf ht safe =
      elim (Bool-cases (is_path_cached from to graph.paths_cache)) [
        | inl cached ↦ rw (cached, add_edge_unless_cyclic) (inl (safe.sound from to cached))
        | inr fresh ↦
            rw (fresh, add_edge_unless_cyclic)
              (IsSettled-after graph from to t (path_exists trait P to from graph) hf ht
                (path_exists-PathAnswer trait P graph to from safe.sound))
      ]

  -- The plugins overlap: their records or assets say which of them loads first.
  abbrev pub Overlap : PluginSortingData T → PluginSortingData T → Type 0
  Overlap plugin other = (o : Bool × EdgeType) × (overlap_order trait P plugin other ≡ ok (some o))

  abbrev SettledIf :
      PluginSortingData T → PluginSortingData T → ℕ → ℕ → Result (SortingError E) Graph → Type 0
  SettledIf plugin p node other (err e) = Unit
  SettledIf plugin p node other (ok new) = Overlap plugin p → IsSettled new node other

  add_overlap_edge-SettledIf :
      (plugin : PluginSortingData T) (node other : ℕ) (graph : Graph)
      → In trait P graph node
      → In trait P graph other
      → IsSafe trait P graph
      → SettledIf plugin
          (P.index graph.inner other)
          node
          other
          (add_overlap_edge trait P plugin node other graph)
  unfolding add_overlap_edge
  add_overlap_edge-SettledIf plugin node other graph hn ho safe =
      elim (Bool-cases
        (P.contains_edge graph.inner node other || P.contains_edge graph.inner other node)) [
          | inl linked ↦
              rw (linked, add_overlap_edge)
                (λ o. elim (or-eq-true _ _ linked) [
                  | inl e ↦ inl (step here ((P.contains_edge_iff graph.inner node other).0 e))
                  | inr e ↦ inr (step here ((P.contains_edge_iff graph.inner other node).0 e))
                ])
          | inr free ↦
              rw (free, add_overlap_edge)
                (go (overlap_order trait P plugin (P.index graph.inner other)) refl)
        ]
    where
      decided :
          (first : Bool) (t : EdgeType)
          → IsSettled
              (if first
                then add_edge_unless_cyclic trait P node other t graph
                else add_edge_unless_cyclic trait P other node t graph)
              node
              other
      decided true t = add_edge_unless_cyclic-IsSettled node other t graph hn ho safe
      decided false t =
          IsSettled-sym (add_edge_unless_cyclic trait P other node t graph) other node
            (add_edge_unless_cyclic-IsSettled other node t graph ho hn safe)

      go :
          (r : Result (PluginDataError E) (Option (Bool × EdgeType)))
          → overlap_order trait P plugin (P.index graph.inner other) ≡ r
          → SettledIf plugin (P.index graph.inner other) node other (
              map_err plugin_data r >>= λ order.
              elim order as (λ x. Result (SortingError E) Graph) [
                | none ↦ ok graph
                | some (first, t) ↦ ok (
                    if first
                    then add_edge_unless_cyclic trait P node other t graph
                    else add_edge_unless_cyclic trait P other node t graph)
              ])
      go (err x) e = tt
      go (ok none) e = λ o. cc (o.1)
      go (ok (some (first, t))) e = λ o. decided first t

  -- After the inner loop, each of the nodes whose plugin overlaps is settled.
  abbrev SettledWith : PluginSortingData T → ℕ → List ℕ → Graph → Graph → Type 0
  SettledWith plugin node others old new =
      (x : ℕ) → Memᴰ x others → Overlap plugin (P.index old.inner x) → IsSettled new node x

  abbrev ToSettled :
      PluginSortingData T → ℕ → List ℕ → Graph → Result (SortingError E) Graph → Type 0
  ToSettled plugin node others old (err e) = Unit
  ToSettled plugin node others old (ok new) = SettledWith plugin node others old new

  add_overlap_edges_to-ToSettled :
      (plugin : PluginSortingData T) (node : ℕ) (others : List ℕ) (graph : Graph)
      → In trait P graph node
      → AllIn trait P graph others
      → IsSafe trait P graph
      → ToSettled plugin node others graph (add_overlap_edges_to trait P plugin node others graph)
  unfolding add_overlap_edges_to
  add_overlap_edges_to-ToSettled plugin node [] graph hn ho safe = λ x m. absurd (not_mem_nil m)
  add_overlap_edges_to-ToSettled plugin node (other ∷ others) graph hn ho safe =
      go (add_overlap_edge trait P plugin node other graph)
        (add_overlap_edge-Proceeds trait P plugin node other graph hn (ho other (Memᴰ.head refl))
          safe)
        (add_overlap_edge-SettledIf plugin node other graph hn (ho other (Memᴰ.head refl)) safe)
        (add_overlap_edges_to-ToSettled plugin node others)
    where
      join :
          (new : Graph)
          → Progress trait P graph new
          → (Overlap plugin (P.index graph.inner other) → IsSettled new node other)
          → (r : Result (SortingError E) Graph) → Proceeds trait P new r
          → ToSettled plugin node others new r
          → ToSettled plugin node (other ∷ others) graph r
      join new p one (err e) q later = tt
      join new p one (ok last) q later = λ x m o. elim ((mem_cons x other others).0 m) [
        | inl same ↦ IsSettled-Grows node x q.grows (
            subst (IsSettled new node) (sym same)
              (one (subst (λ w. Overlap plugin (P.index graph.inner w)) same o)))
        | inr m' ↦ later x m' (subst (Overlap plugin) (sym (p.grows.nodes x)) o)
      ]

      go :
          (r : Result (SortingError E) Graph)
          → Proceeds trait P graph r
          → SettledIf plugin (P.index graph.inner other) node other r
          → ((g : Graph)
              → In trait P g node
              → AllIn trait P g others
              → IsSafe trait P g
              → ToSettled plugin node others g (add_overlap_edges_to trait P plugin node others g))
          → ToSettled plugin node
              (other ∷ others)
              graph
              (r >>= add_overlap_edges_to trait P plugin node others)
      go (err e) p one rec = tt
      go (ok new) p one rec =
          let new_in = AllIn-grown trait P graph new others p (λ x m. ho x (Memᴰ.tail m)) in
          let node_in : node < P.node_count new.inner = omega (arith, p.grows.count) in
          join new p one (add_overlap_edges_to trait P plugin node others new)
            (add_overlap_edges_to-Proceeds trait P plugin node others new node_in new_in p.safe)
            (rec new node_in new_in p.safe)

  -- Two nodes whose plugins overlap, the first of which overrides records or has assets.
  abbrev pub Overlaps : Graph → ℕ → ℕ → Type 0
  Overlaps graph i j =
      (((P.index graph.inner i).override_record_count == 0
          && asset_count trait (P.index graph.inner i) == 0)
        ≡ false)
      × Overlap (P.index graph.inner i) (P.index graph.inner j)

  abbrev pub AtSettled : ℕ → List ℕ → Graph → Result (SortingError E) Graph → Type 0
  AtSettled node later old (err e) = Unit
  AtSettled node later old (ok new) =
      (x : ℕ) → Memᴰ x later → Overlaps old node x → IsSettled new node x

  pub add_overlap_edges_at-AtSettled :
      (node : ℕ) (later : List ℕ) (graph : Graph)
      → In trait P graph node
      → AllIn trait P graph later
      → IsSafe trait P graph
      → AtSettled node later graph (add_overlap_edges_at trait P node later graph)
  unfolding add_overlap_edges_at
  add_overlap_edges_at-AtSettled node later graph hn hl safe =
      let plugin = P.index graph.inner node in
      elim (Bool-cases (plugin.override_record_count == 0 && asset_count trait plugin == 0)) [
        | inl skipped ↦ rw (skipped, add_overlap_edges_at) (λ x m o. cc (o.0, skipped))
        | inr other ↦
            rw (other, add_overlap_edges_at)
              (weaken (add_overlap_edges_to trait P plugin node later graph)
                (add_overlap_edges_to-ToSettled plugin node later graph hn hl safe))
      ]
    where
      weaken :
          (r : Result (SortingError E) Graph)
          → ToSettled (P.index graph.inner node) node later graph r
          → AtSettled node later graph r
      weaken (err e) h = tt
      weaken (ok new) h = λ x m o. h x m o.1
