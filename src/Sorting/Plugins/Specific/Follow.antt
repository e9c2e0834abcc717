-- ===== src/Sorting/Plugins/Specific/Follow.antt =====
-- src/sorting/plugins.rs: the plugins and those that they name.
use libloot.Prelude.{
  ℕ, ◌<◌, ◌≡◌, refl, ◌∙◌, subst, inl, inr, Bool, true, false, String, List, [], ◌∷◌, Memᴰ, mem_cons,
  not_mem_nil, range, mem-count_from_lt, if◌then◌else◌, arith,
}
use mathlib.Core.List.Memᴰ
use libloot.Prelude.Result.{Result, ok, err, ok-inj, ◌>>=◌, map_err}
use libloot.External.Petgraph.{Petgraph}
use libloot.Sorting.Vertex.{EdgeType}
use libloot.Sorting.Error.{PluginDataError, SortingError, plugin_data}
use libloot.Sorting.Plugins.Data.{SortingPlugin, PluginSortingData, masters}
use libloot.Sorting.Plugins.Graph.{PluginsGraph, add_edge}
use libloot.Sorting.Plugins.Graph.Paths.{IsCacheSound}
use libloot.Sorting.Plugins.Specific.{
  at, add_edges_from_names, add_master_flag_edges, add_specific_edges_at, add_specific_edges_from,
  add_specific_edges,
}
use libloot.Sorting.Plugins.Specific.Names.{
  Extends, Extends-refl, Extends-trans, add_edge-Extends, Reach-Extends, node_index_by_name-Grows,
  ComesAfter, add_edges_from_names-Extends,
}

module _ {E T : Type 0} (trait : SortingPlugin E T) (P : Petgraph (PluginSortingData T))
    (unicase_eq : String → String → Bool) where
  abbrev Graph : Type 0
  Graph = PluginsGraph trait P

  add_master_flag_edges-Extends :
      (plugin : PluginSortingData T) (i : ℕ) (later : List ℕ) (graph : Graph)
      → i < P.node_count graph.inner
      → ((x : ℕ) → Memᴰ x later → x < P.node_count graph.inner)
      → IsCacheSound trait P graph
      → Extends trait P graph (add_master_flag_edges trait P unicase_eq plugin i later graph)
  unfolding add_master_flag_edges
  add_master_flag_edges-Extends plugin i [] graph hi hl sound = Extends-refl trait P graph sound
  add_master_flag_edges-Extends plugin i (x ∷ later) graph hi hl sound =
      let one = choice plugin.is_master (at trait P unicase_eq graph x).is_master in
      Extends-trans trait P one (
        add_master_flag_edges-Extends plugin i later _ (omega (arith, one.grows.count, hi))
          (λ y m. omega (arith, one.grows.count, hl y (Memᴰ.tail m))) one.sound)
    where
      choice :
          (a b : Bool)
          → Extends trait P graph (
              if a
              then if b then graph else add_edge trait P i x EdgeType.master_flag graph
              else if b
              then add_edge trait P x i EdgeType.master_flag graph
              else graph)
      choice true true = Extends-refl trait P graph sound
      choice true false =
          add_edge-Extends trait P graph i x EdgeType.master_flag hi (hl x (Memᴰ.head refl)) sound
      choice false true =
          add_edge-Extends trait P graph x i EdgeType.master_flag (hl x (Memᴰ.head refl)) hi sound
      choice false false = Extends-refl trait P graph sound

  ComesAfter-between :
      {first old new last : Graph} (i : ℕ) (names : List String)
      → Extends trait P first old
      → ComesAfter trait P unicase_eq old new i names
      → Extends trait P new last
      → ComesAfter trait P unicase_eq first last i names
  ComesAfter-between i names h c k n j m e =
      Reach-Extends trait P k (c n j m (node_index_by_name-Grows trait P unicase_eq n h.grows ∙ e))

  -- In the second graph, the node comes after the plugin's masters and after the files that its
  -- metadata names, as far as the first graph has nodes for them.
  pub record Heeds (plugin : PluginSortingData T) (old new : Graph) (i : ℕ) : Type 0 where
    pub after_masters :
        (names : List String)
        → masters trait plugin ≡ ok names
        → ComesAfter trait P unicase_eq old new i names
    pub masterlist_req : ComesAfter trait P unicase_eq old new i plugin.masterlist_req
    pub user_req : ComesAfter trait P unicase_eq old new i plugin.user_req
    pub masterlist_load_after : ComesAfter trait P unicase_eq old new i plugin.masterlist_load_after
    pub user_load_after : ComesAfter trait P unicase_eq old new i plugin.user_load_after

  Heeds-between :
      {first old new last : Graph} (plugin : PluginSortingData T) (i : ℕ)
      → Extends trait P first old
      → Heeds plugin old new i
      → Extends trait P new last
      → Heeds plugin first last i
  Heeds-between plugin i h c k = record {
    after_masters = λ names e. ComesAfter-between i names h (c.after_masters names e) k;
    masterlist_req = ComesAfter-between i plugin.masterlist_req h c.masterlist_req k;
    user_req = ComesAfter-between i plugin.user_req h c.user_req k;
    masterlist_load_after =
        ComesAfter-between i plugin.masterlist_load_after h c.masterlist_load_after k;
    user_load_after = ComesAfter-between i plugin.user_load_after h c.user_load_after k;
  }

  -- A result that is an error, or a graph in which each of some nodes comes after what it names.
  abbrev pub AreHeeded : List ℕ → Graph → Result (SortingError E) Graph → Type 0
  AreHeeded nodes graph (err e) = Unit
  AreHeeded nodes graph (ok new) =
      Extends trait P graph new
      × ((i : ℕ) → Memᴰ i nodes → Heeds (at trait P unicase_eq graph i) graph new i)

  -- The edges of a plugin whose masters have been read.
  abbrev pub named_edges : ℕ → PluginSortingData T → List String → Graph → Graph
  named_edges i plugin names flagged =
      let g₁ = add_edges_from_names trait P unicase_eq EdgeType.master names i flagged in
      let g₂ =
        add_edges_from_names trait P unicase_eq EdgeType.masterlist_requirement
          plugin.masterlist_req i g₁ in
      let g₃ =
        add_edges_from_names trait P unicase_eq EdgeType.user_requirement plugin.user_req i g₂ in
      let g₄ =
        add_edges_from_names trait P unicase_eq EdgeType.masterlist_load_after
          plugin.masterlist_load_after i g₃ in
      add_edges_from_names trait P unicase_eq EdgeType.user_load_after plugin.user_load_after i g₄

  pub named_edges-Heeds :
      (i : ℕ) (names : List String) (plugin : PluginSortingData T) (graph flagged : Graph)
      → i < P.node_count graph.inner
      → masters trait plugin ≡ ok names
      → Extends trait P graph flagged
      → Extends trait P graph (named_edges i plugin names flagged)
        × Heeds plugin graph (named_edges i plugin names flagged) i
  named_edges-Heeds i names plugin graph flagged hi read h =
      let add = λ (t : EdgeType) (files : List String) (g : Graph) (k : Extends trait P graph g).
        add_edges_from_names-Extends trait P unicase_eq t files i g
          (omega (arith, k.grows.count, hi)) k.sound in
      let a = add EdgeType.master names flagged h in
      let ha = Extends-trans trait P h a.0 in
      let b = add EdgeType.masterlist_requirement plugin.masterlist_req _ ha in
      let hb = Extends-trans trait P ha b.0 in
      let c = add EdgeType.user_requirement plugin.user_req _ hb in
      let hc = Extends-trans trait P hb c.0 in
      let d = add EdgeType.masterlist_load_after plugin.masterlist_load_after _ hc in
      let hd = Extends-trans trait P hc d.0 in
      let e = add EdgeType.user_load_after plugin.user_load_after _ hd in
      let he = Extends-trans trait P hd e.0 in
      let last = Extends-refl trait P _ he.sound in
      let from_d = e.0 in
      let from_c = Extends-trans trait P d.0 from_d in
      let from_b = Extends-trans trait P c.0 from_c in
      let from_a = Extends-trans trait P b.0 from_b in
      (
        he,
        record {
          after_masters = λ ns r.
              ComesAfter-between i ns h
                (subst
                  (λ w.
                    ComesAfter trait P unicase_eq flagged
                      (add_edges_from_names trait P unicase_eq EdgeType.master names i flagged) i w)
                  (ok-inj names ns (masters trait plugin) read r) a.1)
                from_a;
          masterlist_req = ComesAfter-between i plugin.masterlist_req ha b.1 from_b;
          user_req = ComesAfter-between i plugin.user_req hb c.1 from_c;
          masterlist_load_after = ComesAfter-between i plugin.masterlist_load_after hc d.1 from_d;
          user_load_after = ComesAfter-between i plugin.user_load_after hd e.1 last;
        },
      )

  pub add_specific_edges_at-AreHeeded :
      (i : ℕ) (later : List ℕ) (graph : Graph)
      → i < P.node_count graph.inner
      → ((x : ℕ) → Memᴰ x later → x < P.node_count graph.inner)
      → IsCacheSound trait P graph
      → AreHeeded (i ∷ []) graph (add_specific_edges_at trait P unicase_eq i later graph)
  unfolding add_specific_edges_at
  add_specific_edges_at-AreHeeded i later graph hi hl sound =
      let plugin = at trait P unicase_eq graph i in
      go (masters trait plugin) refl
        (add_master_flag_edges-Extends plugin i later graph hi hl sound)
    where
      go :
          (r : Result (PluginDataError E) (List String))
          → masters trait (at trait P unicase_eq graph i) ≡ r
          → Extends trait P graph (
              add_master_flag_edges trait P unicase_eq
                (at trait P unicase_eq graph i)
                i
                later
                graph)
          → AreHeeded (i ∷ []) graph (
              map_err plugin_data r >>= λ names. ok (
                named_edges i (at trait P unicase_eq graph i) names (
                  add_master_flag_edges trait P unicase_eq
                    (at trait P unicase_eq graph i)
                    i
                    later
                    graph)))
      go (err x) e h = tt
      go (ok names) e h =
          let all = named_edges-Heeds i names (at trait P unicase_eq graph i) graph _ hi e h in
          (all.0, λ x m. rw (Memᴰ.eq_of_singleton m) all.1)

  pub add_specific_edges_from-AreHeeded :
      (nodes : List ℕ) (graph : Graph)
      → ((x : ℕ) → Memᴰ x nodes → x < P.node_count graph.inner)
      → IsCacheSound trait P graph
      → AreHeeded nodes graph (add_specific_edges_from trait P unicase_eq nodes graph)
  unfolding add_specific_edges_from
  add_specific_edges_from-AreHeeded [] graph hl sound =
      (Extends-refl trait P graph sound, λ i m. absurd (not_mem_nil m))
  add_specific_edges_from-AreHeeded (i ∷ later) graph hl sound =
      go (add_specific_edges_at trait P unicase_eq i later graph)
        (add_specific_edges_at-AreHeeded i later graph (hl i (Memᴰ.head refl))
          (λ x m. hl x (Memᴰ.tail m)) sound)
        (add_specific_edges_from-AreHeeded later)
    where
      join :
          (new : Graph)
          → AreHeeded (i ∷ []) graph (ok new)
          → (r : Result (SortingError E) Graph) → AreHeeded later new r
          → AreHeeded (i ∷ later) graph r
      join new h (err x) k = tt
      join new h (ok last) k = (
        Extends-trans trait P h.0 k.0,
        λ x m. elim ((mem_cons x i later).0 m) [
          | inl same ↦
              Heeds-between (at trait P unicase_eq graph x) x (Extends-refl trait P graph sound)
                (h.1 x (Memᴰ.head same)) k.0
          | inr m' ↦
              Heeds-between (at trait P unicase_eq graph x) x h.0
                (subst (λ p. Heeds p new last x) (h.0.grows.nodes x) (k.1 x m'))
                (Extends-refl trait P last k.0.sound)
        ],
      )

      go :
          (r : Result (SortingError E) Graph)
          → AreHeeded (i ∷ []) graph r
          → ((g : Graph)
              → ((x : ℕ) → Memᴰ x later → x < P.node_count g.inner)
              → IsCacheSound trait P g
              → AreHeeded later g (add_specific_edges_from trait P unicase_eq later g))
          → AreHeeded (i ∷ later) graph (r >>= add_specific_edges_from trait P unicase_eq later)
      go (err x) h rec = tt
      go (ok new) h rec =
          join new h (add_specific_edges_from trait P unicase_eq later new)
            (rec new (λ x m. omega (arith, h.0.grows.count, hl x (Memᴰ.tail m))) h.0.sound)

  -- If the cache holds only pairs that a walk joins, adding the specific edges ends with an error,
  -- or with a graph that has the same nodes and the old edges, whose cache again holds only pairs
  -- that a walk joins, and in which a walk leads to each plugin from each of its masters and from
  -- each file that its requirements or load-after metadata name, as far as those are in the graph.
  pub add_specific_edges-AreHeeded :
      (graph : Graph)
      → IsCacheSound trait P graph
      → AreHeeded
          (range (P.node_count graph.inner))
          graph
          (add_specific_edges trait P unicase_eq graph)
  unfolding add_specific_edges
  add_specific_edges-AreHeeded graph sound =
      add_specific_edges_from-AreHeeded (range (P.node_count graph.inner)) graph
        (λ x m. omega (arith, mem-count_from_lt 0 (P.node_count graph.inner) x m)) sound
