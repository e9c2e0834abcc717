-- ===== src/Sorting/Plugins/Overlap/Settled.antt =====
-- src/sorting/plugins.rs: the outer loop over the plugins that overlap.
use libloot.Prelude.{
  ℕ, zero, suc, ◌+◌, ◌≤◌, mem-count_from, ◌<◌, ◌≡◌, refl, sym, subst, ◌⊎◌, inl, inr, false, ◌&&◌,
  ◌==◌, List, [], ◌∷◌, Memᴰ, Bool-cases, arith, count_from, range,
}
use libloot.Prelude.Result.{Result, ok, err, ◌>>=◌}
use libloot.External.Petgraph.{Petgraph}
use libloot.Sorting.Error.{SortingError}
use libloot.Sorting.Plugins.Data.{SortingPlugin, PluginSortingData, asset_count}
use libloot.Sorting.Plugins.Graph.{PluginsGraph}
use libloot.Sorting.Plugins.Graph.Growth.{Grows, IsSafe, Progress}
use libloot.Sorting.Plugins.Overlap.{
  add_overlap_edges_at, add_overlap_edges_from, add_overlap_edges,
}
use libloot.Sorting.Plugins.Overlap.Leads.{LoadsFirst, LoadsLast, overlap_order-decides}
use libloot.Sorting.Plugins.Overlap.Safe.{
  AllIn, AllIn-grown, AllIn-range, Proceeds, add_overlap_edges_at-Proceeds,
  add_overlap_edges_from-Proceeds,
}
use libloot.Sorting.Plugins.Overlap.Ordered.{
  IsSettled, IsSettled-Grows, Overlaps, AtSettled, add_overlap_edges_at-AtSettled,
}

module _ {E T : Type 0} (trait : SortingPlugin E T) (P : Petgraph (PluginSortingData T)) where
  abbrev Graph : Type 0
  Graph = PluginsGraph trait P

  -- Of two of the nodes that overlap, the first before the second in the list, one leads to the
  -- other in the new graph.
  abbrev AllSettled : Graph → Graph → List ℕ → Type 0
  AllSettled old new [] = Unit
  AllSettled old new (x ∷ xs) =
      ((y : ℕ) → Memᴰ y xs → Overlaps trait P old x y → IsSettled trait P new x y)
      × AllSettled old new xs

  Overlaps-Grows :
      {old new : Graph} (x y : ℕ)
      → Grows trait P old new
      → Overlaps trait P old x y
      → Overlaps trait P new x y
  Overlaps-Grows x y h o = rw (h.nodes x, h.nodes y) o

  AllSettled-first :
      (first old new : Graph) (nodes : List ℕ)
      → Grows trait P first old
      → AllSettled old new nodes
      → AllSettled first new nodes
  AllSettled-first first old new [] h k = tt
  AllSettled-first first old new (x ∷ xs) h k =
      (λ y m o. k.0 y m (Overlaps-Grows x y h o), AllSettled-first first old new xs h k.1)

  abbrev FromSettled : List ℕ → Graph → Result (SortingError E) Graph → Type 0
  FromSettled nodes old (err e) = Unit
  FromSettled nodes old (ok new) = AllSettled old new nodes

  add_overlap_edges_from-FromSettled :
      (nodes : List ℕ) (graph : Graph)
      → AllIn trait P graph nodes
      → IsSafe trait P graph
      → FromSettled nodes graph (add_overlap_edges_from trait P nodes graph)
  unfolding add_overlap_edges_from
  add_overlap_edges_from-FromSettled [] graph h safe = tt
  add_overlap_edges_from-FromSettled (node ∷ later) graph h safe =
      go (add_overlap_edges_at trait P node later graph)
        (add_overlap_edges_at-Proceeds trait P node later graph (h node (Memᴰ.head refl))
          (λ x m. h x (Memᴰ.tail m)) safe)
        (add_overlap_edges_at-AtSettled trait P node later graph (h node (Memᴰ.head refl))
          (λ x m. h x (Memᴰ.tail m)) safe)
        (add_overlap_edges_from-FromSettled later)
    where
      join :
          (new : Graph)
          → Progress trait P graph new
          → AtSettled trait P node later graph (ok new)
          → (r : Result (SortingError E) Graph) → Proceeds trait P new r
          → FromSettled later new r
          → FromSettled (node ∷ later) graph r
      join new p one (err e) q rest = tt
      join new p one (ok last) q rest = (
        λ y m o. IsSettled-Grows trait P node y q.grows (one y m o),
        AllSettled-first graph new last later p.grows rest,
      )

      go :
          (r : Result (SortingError E) Graph)
          → Proceeds trait P graph r
          → AtSettled trait P node later graph r
          → ((g : Graph)
              → AllIn trait P g later
              → IsSafe trait P g
              → FromSettled later g (add_overlap_edges_from trait P later g))
          → FromSettled (node ∷ later) graph (r >>= add_overlap_edges_from trait P later)
      go (err e) p one rec = tt
      go (ok new) p one rec =
          let later_in = AllIn-grown trait P graph new later p (λ x m. h x (Memᴰ.tail m)) in
          join new p one (add_overlap_edges_from trait P later new)
            (add_overlap_edges_from-Proceeds trait P later new later_in p.safe)
            (rec new later_in p.safe)

  AllSettled-pair :
      (k n : ℕ) (old new : Graph) (i j : ℕ)
      → AllSettled old new (count_from k n)
      → k ≤ i
      → i < j
      → j < k + n
      → Overlaps trait P old i j
      → IsSettled trait P new i j
  AllSettled-pair k zero old new i j h ki ij jn o = absurd (omega arith)
  AllSettled-pair k (suc n) old new i j h ki ij jn o = elim (Bool-cases (k == i)) [
    | inl e ↦
        let same : k ≡ i = ground arith in
        subst (λ w. IsSettled trait P new w j) same
          (h.0 j (mem-count_from (suc k) n j (omega arith) (omega arith))
            (subst (λ w. Overlaps trait P old w j) (sym same) o))
    | inr e ↦ AllSettled-pair (suc k) n old new i j h.1 (ground arith) ij (omega arith) o
  ]

  -- The first node's plugin overrides records or has assets, and one of the two loads first.
  abbrev pub MustSettle : Graph → ℕ → ℕ → Type 0
  MustSettle graph i j =
      let p = P.index graph.inner i in
      let q = P.index graph.inner j in
      ((0 < p.override_record_count) ⊎ (0 < asset_count trait p))
      × (LoadsFirst trait P p q ⊎ LoadsLast trait P p q)

  -- In a graph without cycles and with a sound cache, if adding the overlap edges ends with no
  -- error, then of any two plugins, the first of which overrides records or has assets, a walk
  -- leads from one to the other if they override different numbers of records and have records in
  -- common, or if the records do not decide and they have different numbers of assets and assets in
  -- common.
  pub add_overlap_edges-IsSettled :
      (graph new : Graph) (i j : ℕ)
      → IsSafe trait P graph
      → add_overlap_edges trait P graph ≡ ok new
      → i < j
      → j < P.node_count graph.inner
      → MustSettle graph i j
      → IsSettled trait P new i j
  unfolding add_overlap_edges
  add_overlap_edges-IsSettled graph new i j safe done ij jn (changes, order) =
      AllSettled-pair 0 (P.node_count graph.inner) graph new i j
        (subst (FromSettled (range (P.node_count graph.inner)) graph) done (
          add_overlap_edges_from-FromSettled (range (P.node_count graph.inner)) graph
            (AllIn-range trait P graph) safe))
        (omega arith) ij (omega arith)
        (
          not_skipped (P.index graph.inner i) changes,
          overlap_order-decides trait P (P.index graph.inner i) (P.index graph.inner j) order,
        )
    where
      not_skipped :
          (p : PluginSortingData T)
          → (0 < p.override_record_count) ⊎ (0 < asset_count trait p)
          → (p.override_record_count == 0 && asset_count trait p == 0) ≡ false
      not_skipped p h = ground arith
