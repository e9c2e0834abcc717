-- ===== src/Sorting/Plugins/Specific/Heeded.antt =====
-- src/sorting/plugins.rs: what the specific edges come to.
use libloot.Prelude.{
  ℕ, zero, suc, ◌+◌, ◌≤◌, ◌<◌, ◌≡◌, sym, ap, ◌∙◌, subst, ◌⊎◌, inl, inr, Bool, true, false, String,
  List, Memᴰ, some, find, true-false, count_from, range, mem-count_from, mem-count_from_lt,
  Bool-cases, ltb, ◌==◌, arith,
}
use libloot.Prelude.Result.{Result, ok, err}
use libloot.External.Petgraph.{Petgraph}
use libloot.Sorting.Graph.{Reach}
use libloot.Sorting.Error.{SortingError, PluginDataError, plugin_data}
use libloot.Sorting.Plugins.Data.{SortingPlugin, PluginSortingData, name, masters}
use libloot.Sorting.Plugins.Graph.{PluginsGraph}
use libloot.Sorting.Plugins.Graph.Paths.{next_of, IsCacheSound}
use libloot.Sorting.Plugins.Specific.{
  node_index_by_name, add_specific_edges_from, add_specific_edges,
}
use libloot.Sorting.Plugins.Specific.Names.{Extends}
use libloot.Sorting.Plugins.Specific.Follow.{AreHeeded, Heeds, add_specific_edges_from-AreHeeded}
use libloot.Sorting.Plugins.Specific.Flags.{
  FromOutcome, AllLinked-pair, add_specific_edges_from-FromOutcome,
}

find-first :
    (p : ℕ → Bool) (k n j : ℕ)
    → k ≤ j
    → j < k + n
    → p j ≡ true
    → ((i : ℕ) → i < j → p i ≡ false)
    → find p (count_from k n) ≡ some j
find-first p k zero j kj jn h first = absurd (omega arith)
find-first p k (suc n) j kj jn h first = elim (Bool-cases (k == j)) [
  | inl e ↦
      let same : k ≡ j = ground arith in
      let here : p k ≡ true = subst (λ w. p w ≡ true) (sym same) h in rw here (ap some same)
  | inr e ↦
      let earlier : p k ≡ false = first k (ground arith) in
      rw earlier (find-first p (suc k) n j (ground arith) (omega arith) h first)
]

module _ {E T : Type 0} (trait : SortingPlugin E T) (P : Petgraph (PluginSortingData T))
    (unicase_eq : String → String → Bool) where
  abbrev Graph : Type 0
  Graph = PluginsGraph trait P

  abbrev has_name : Graph → String → ℕ → Bool
  has_name graph n i = unicase_eq (name trait (P.index graph.inner i)) n

  -- A node is the first whose plugin has a name, up to case.
  abbrev pub IsNamed : Graph → String → ℕ → Type 0
  IsNamed graph n j =
      (j < P.node_count graph.inner)
      × (unicase_eq (name trait (P.index graph.inner j)) n ≡ true)
      × ((i : ℕ) → i < j → unicase_eq (name trait (P.index graph.inner i)) n ≡ false)

  -- The name is one of the plugin's masters, requirements or files to load after.
  abbrev pub LoadsAfter : PluginSortingData T → String → Type 0
  LoadsAfter plugin n =
      ((names : List String) × (masters trait plugin ≡ ok names) × Memᴰ n names)
      ⊎ Memᴰ n plugin.masterlist_req
      ⊎ Memᴰ n plugin.user_req
      ⊎ Memᴰ n plugin.masterlist_load_after
      ⊎ Memᴰ n plugin.user_load_after

  -- The new graph extends the old one, and in it a walk leads from each master to each plugin that
  -- is none, and to each plugin from those that it loads after.
  pub record IsSpecific (graph new : Graph) : Type 0 where
    pub extends : Extends trait P graph new
    pub masters_first :
        (i j : ℕ)
        → i < P.node_count graph.inner
        → j < P.node_count graph.inner
        → (P.index graph.inner i).is_master ≡ true
        → (P.index graph.inner j).is_master ≡ false
        → Reach (next_of trait P new) i j
    pub named_first :
        (i j : ℕ) (n : String)
        → i < P.node_count graph.inner
        → LoadsAfter (P.index graph.inner i) n
        → IsNamed graph n j
        → Reach (next_of trait P new) j i

  -- Such a graph, or the error of reading the masters of one of the plugins.
  abbrev pub SpecificOutcome : Graph → Result (SortingError E) Graph → Type 0
  SpecificOutcome graph (ok new) = IsSpecific graph new
  SpecificOutcome graph (err e) =
      (i : ℕ) × (d : PluginDataError E) × (i < P.node_count graph.inner)
      × (masters trait (P.index graph.inner i) ≡ err d)
      × (e ≡ plugin_data d)

  node_index_by_name-IsNamed :
      (graph : Graph) (n : String) (j : ℕ)
      → IsNamed graph n j
      → node_index_by_name trait P unicase_eq n graph ≡ some j
  unfolding node_index_by_name
  node_index_by_name-IsNamed graph n j (below, here, first) =
      find-first (has_name graph n) 0 (P.node_count graph.inner) j (omega arith) (omega arith) here
        first

  named_first-of_heeds :
      (graph new : Graph) (i j : ℕ) (n : String)
      → Heeds trait P unicase_eq (P.index graph.inner i) graph new i
      → LoadsAfter (P.index graph.inner i) n
      → IsNamed graph n j
      → Reach (next_of trait P new) j i
  named_first-of_heeds graph new i j n h after named =
      go after (node_index_by_name-IsNamed graph n j named)
    where
      go :
          LoadsAfter (P.index graph.inner i) n
          → node_index_by_name trait P unicase_eq n graph ≡ some j
          → Reach (next_of trait P new) j i
      go (inl (names, read, m)) e = h.after_masters names read n j m e
      go (inr (inl m)) e = h.masterlist_req n j m e
      go (inr (inr (inl m))) e = h.user_req n j m e
      go (inr (inr (inr (inl m)))) e = h.masterlist_load_after n j m e
      go (inr (inr (inr (inr m)))) e = h.user_load_after n j m e

  -- If the cache holds only pairs that a walk joins, adding the specific edges ends with the error
  -- of reading the masters of one of the plugins; or with a graph that has the same nodes and the
  -- old edges, whose cache again holds only pairs that a walk joins, and in which a walk leads from
  -- each master to each plugin that is no master, and to each plugin from the first plugin, if any,
  -- that has a name, up to case, which is one of its masters, of its requirements or of the files
  -- that its metadata says it loads after.
  pub add_specific_edges-SpecificOutcome :
      (graph : Graph)
      → IsCacheSound trait P graph
      → SpecificOutcome graph (add_specific_edges trait P unicase_eq graph)
  unfolding add_specific_edges
  add_specific_edges-SpecificOutcome graph sound =
      go (add_specific_edges_from trait P unicase_eq all graph)
        (add_specific_edges_from-AreHeeded trait P unicase_eq all graph below sound)
        (add_specific_edges_from-FromOutcome trait P unicase_eq all graph below sound)
    where
      all : List ℕ
      all = range (P.node_count graph.inner)

      below : (x : ℕ) → Memᴰ x all → x < P.node_count graph.inner
      below x m = omega (arith, mem-count_from_lt 0 (P.node_count graph.inner) x m)

      go :
          (r : Result (SortingError E) Graph)
          → AreHeeded trait P unicase_eq (range (P.node_count graph.inner)) graph r
          → FromOutcome trait P unicase_eq (range (P.node_count graph.inner)) graph r
          → SpecificOutcome graph r
      go (err e) h (i, d, m, unread, same) = (i, d, below i m, unread, same)
      go (ok new) h links = record {
        extends = h.0;
        masters_first = λ i j hi hj ei ej. elim (Bool-cases (ltb i j)) [
          | inl before ↦
              (AllLinked-pair trait P unicase_eq 0 (P.node_count graph.inner) graph new i j links
                  (omega arith) (ground arith) (omega arith)).0
                ei ej
          | inr not_before ↦ elim (Bool-cases (i == j)) [
            | inl same ↦
                let eq : i ≡ j = ground arith in
                absurd (true-false (sym ei ∙ ap (λ w. (P.index graph.inner w).is_master) eq ∙ ej))
            | inr apart ↦
                (AllLinked-pair trait P unicase_eq 0 (P.node_count graph.inner) graph new j i links
                    (omega arith) (ground arith) (omega arith)).1
                  ej ei
          ]
        ];
        named_first = λ i j n hi after named.
            named_first-of_heeds graph new i j n
              (h.1 i (mem-count_from 0 (P.node_count graph.inner) i (omega arith) (omega arith)))
              after named;
      }
