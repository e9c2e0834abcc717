-- ===== src/Sorting/Plugins/Specific/Loaders.antt =====
-- src/sorting/plugins.rs: the edges between early loaders, and from them.
use libloot.Prelude.{
  ℕ, ◌<◌, ◌≡◌, refl, sym, ap, ◌∙◌, subst, inl, inr, Bool, String, List, [], ◌∷◌, map, Memᴰ,
  mem_cons, not_mem_nil, Option, none, some, position, windows, arith,
}
use libloot.External.Petgraph.{Petgraph}
use libloot.Sorting.Graph.{Reach}
use libloot.Sorting.Vertex.{EdgeType}
use libloot.Sorting.Plugins.Data.{SortingPlugin, PluginSortingData, name}
use libloot.Sorting.Plugins.Graph.{PluginsGraph, add_edge}
use libloot.Sorting.Plugins.Graph.Paths.{next_of, IsCacheSound}
use libloot.Sorting.Plugins.Graph.Growth.{Reach-add_edge}
use libloot.Sorting.Plugins.Specific.{
  at, split_early_loaders, add_hardcoded_edges, add_hardcoded_edges_from,
}
use libloot.Sorting.Plugins.Specific.Names.{
  Extends, Extends-refl, Extends-trans, add_edge-Extends, Reach-Extends,
}
use libloot.Sorting.Plugins.TieBreak.Chain.{IsChain}
use libloot.Sorting.Plugins.Specific.Positions.{node}

module _ {E T : Type 0} (trait : SortingPlugin E T) (P : Petgraph (PluginSortingData T))
    (unicase_eq : String → String → Bool) where
  abbrev Graph : Type 0
  Graph = PluginsGraph trait P

  abbrev AreIn : Graph → List ℕ → Type 0
  AreIn graph l = (x : ℕ) → Memᴰ x l → x < P.node_count graph.inner

  pub add_hardcoded_edges-IsChain :
      (l : List (ℕ × ℕ)) (graph : Graph)
      → AreIn graph (map node l)
      → IsCacheSound trait P graph
      → Extends trait P graph (add_hardcoded_edges trait P unicase_eq (windows l) graph)
        × IsChain
            (next_of trait P (add_hardcoded_edges trait P unicase_eq (windows l) graph))
            (map node l)
  unfolding add_hardcoded_edges
  add_hardcoded_edges-IsChain [] graph h sound = (Extends-refl trait P graph sound, tt)
  add_hardcoded_edges-IsChain (p ∷ []) graph h sound = (Extends-refl trait P graph sound, tt)
  add_hardcoded_edges-IsChain (p ∷ q ∷ l) graph h sound =
      let hp = h (node p) (Memᴰ.head refl) in
      let hq = h (node q) (Memᴰ.tail (Memᴰ.head refl)) in
      let one = add_edge-Extends trait P graph (node p) (node q) EdgeType.hardcoded hp hq sound in
      let later =
        add_hardcoded_edges-IsChain (q ∷ l)
          (add_edge trait P (node p) (node q) EdgeType.hardcoded graph)
          (λ x m. omega (arith, h x (Memᴰ.tail m), one.grows.count)) one.sound in
      (
        Extends-trans trait P one later.0,
        (
          Reach-Extends trait P later.0
              (Reach-add_edge trait P graph (node p) (node q) EdgeType.hardcoded hp hq sound),
          later.1,
        ),
      )

  pub add_hardcoded_edges_from-Reach :
      (from : ℕ) (l : List ℕ) (graph : Graph)
      → from < P.node_count graph.inner
      → AreIn graph l
      → IsCacheSound trait P graph
      → Extends trait P graph (add_hardcoded_edges_from trait P unicase_eq from l graph)
        × ((x : ℕ)
            → Memᴰ x l
            → Reach
                (next_of trait P (add_hardcoded_edges_from trait P unicase_eq from l graph))
                from
                x)
  unfolding add_hardcoded_edges_from
  add_hardcoded_edges_from-Reach from [] graph hf h sound =
      (Extends-refl trait P graph sound, λ x m. absurd (not_mem_nil m))
  add_hardcoded_edges_from-Reach from (to ∷ l) graph hf h sound =
      let ht = h to (Memᴰ.head refl) in
      let one = add_edge-Extends trait P graph from to EdgeType.hardcoded hf ht sound in
      let graph' = add_edge trait P from to EdgeType.hardcoded graph in
      let later =
        add_hardcoded_edges_from-Reach from l graph' (omega (arith, hf, one.grows.count))
          (λ x m. omega (arith, h x (Memᴰ.tail m), one.grows.count)) one.sound in
      (
        Extends-trans trait P one later.0,
        λ x m. elim ((mem_cons x to l).0 m) [
          | inl same ↦
              subst
                (Reach (next_of trait P (add_hardcoded_edges_from trait P unicase_eq from l graph'))
                  from)
                (sym same)
                (Reach-Extends trait P later.0
                  (Reach-add_edge trait P graph from to EdgeType.hardcoded hf ht sound))
          | inr m' ↦ later.1 x m'
        ],
      )

  -- The position of a node's plugin among the early loaders.
  abbrev pub early_position : List String → Graph → ℕ → Option ℕ
  early_position early graph n =
      position (λ e. unicase_eq e (name trait (at trait P unicase_eq graph n))) early

  -- The two lists hold the early loaders with their positions, and the other nodes.
  pub record IsSplit (early : List String) (graph : Graph) (nodes : List ℕ)
      (r : List (ℕ × ℕ) × List ℕ) : Type 0 where
    pub loaders_in : (p : ℕ × ℕ) → Memᴰ p r.0 → Memᴰ (node p) nodes
    pub others_in : (x : ℕ) → Memᴰ x r.1 → Memᴰ x nodes
    pub loader : (x i : ℕ) → Memᴰ x nodes → early_position early graph x ≡ some i → Memᴰ (i, x) r.0
    pub other : (x : ℕ) → Memᴰ x nodes → early_position early graph x ≡ none → Memᴰ x r.1

  pub split_early_loaders-IsSplit :
      (early : List String) (nodes : List ℕ) (graph : Graph)
      → IsSplit early graph nodes (split_early_loaders trait P unicase_eq early nodes graph)
  unfolding split_early_loaders
  split_early_loaders-IsSplit early [] graph = record {
    loaders_in = λ p m. absurd (not_mem_nil m);
    others_in = λ x m. absurd (not_mem_nil m);
    loader = λ x i m e. absurd (not_mem_nil m);
    other = λ x m e. absurd (not_mem_nil m);
  }
  split_early_loaders-IsSplit early (n ∷ nodes) graph =
      go (early_position early graph n) refl
        (split_early_loaders trait P unicase_eq early nodes graph)
        (split_early_loaders-IsSplit early nodes graph)
    where
      same_position : (a b : ℕ) → some a ≡ some b → a ≡ b
      same_position a b h = cc

      go :
          (o : Option ℕ)
          → early_position early graph n ≡ o
          → (r : List (ℕ × ℕ) × List ℕ) → IsSplit early graph nodes r
          → IsSplit early graph (n ∷ nodes) (elim o as (λ x. List (ℕ × ℕ) × List ℕ) [
            | some i ↦ ((i, n) ∷ r.0, r.1)
            | none ↦ (r.0, n ∷ r.1)
          ])
      go none e r h = record {
        loaders_in = λ p m. Memᴰ.tail (h.loaders_in p m);
        others_in = λ x m. elim ((mem_cons x n r.1).0 m) [
          | inl same ↦ Memᴰ.head same
          | inr m' ↦ Memᴰ.tail (h.others_in x m')
        ];
        loader = λ x i m f. elim ((mem_cons x n nodes).0 m) [
          | inl same ↦ absurd (cc)
          | inr m' ↦ h.loader x i m' f
        ];
        other = λ x m f. elim ((mem_cons x n nodes).0 m) [
          | inl same ↦ Memᴰ.head same
          | inr m' ↦ Memᴰ.tail (h.other x m' f)
        ];
      }
      go (some k) e r h = record {
        loaders_in = λ p m. elim ((mem_cons p (k, n) r.0).0 m) [
          | inl same ↦ Memᴰ.head (ap node same)
          | inr m' ↦ Memᴰ.tail (h.loaders_in p m')
        ];
        others_in = λ x m. Memᴰ.tail (h.others_in x m);
        loader = λ x i m f. elim ((mem_cons x n nodes).0 m) [
          | inl same ↦
              Memᴰ.head
                (cc (same_position i k (sym f ∙ ap (λ w. early_position early graph w) same ∙ e)))
          | inr m' ↦ Memᴰ.tail (h.loader x i m' f)
        ];
        other = λ x m f. elim ((mem_cons x n nodes).0 m) [
          | inl same ↦ absurd (cc (sym f ∙ ap (λ w. early_position early graph w) same ∙ e))
          | inr m' ↦ h.other x m' f
        ];
      }
