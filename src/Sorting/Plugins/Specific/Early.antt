-- ===== src/Sorting/Plugins/Specific/Early.antt =====
-- src/sorting/plugins.rs: the order of the early loaders.
use libloot.Prelude.{
  ℕ, ◌<◌, ◌≡◌, refl, sym, subst, inl, inr, Bool, String, List, [], ◌∷◌, map, Memᴰ, mem_cons,
  not_mem_nil, Option, none, some, windows, last?, leb, arith, mem-count_from, mem-count_from_lt,
}
use libloot.Prelude.Sort.{stable_sort, mem-stable_sort, IsSorted, stable_sort-IsSorted}
use libloot.External.Petgraph.{Petgraph}
use libloot.Sorting.Graph.{Reach, Reach-trans}
use libloot.Sorting.Plugins.Data.{SortingPlugin, PluginSortingData}
use libloot.Sorting.Plugins.Graph.{PluginsGraph}
use libloot.Sorting.Plugins.Graph.Paths.{next_of, IsCacheSound}
use libloot.Sorting.Plugins.Specific.{
  node_indices, split_early_loaders, add_hardcoded_edges, add_hardcoded_edges_from,
  add_early_loading_plugin_edges,
}
use libloot.Sorting.Plugins.Specific.Names.{Extends, Extends-refl, Extends-trans, Reach-Extends}
use libloot.Sorting.Plugins.TieBreak.Chain.{IsChain}
use libloot.Sorting.Plugins.Specific.Positions.{node, mem-node, Reach-positions, Reach-last}
use libloot.Sorting.Plugins.Specific.Loaders.{
  add_hardcoded_edges-IsChain, add_hardcoded_edges_from-Reach, early_position, IsSplit,
  split_early_loaders-IsSplit,
}

module _ {E T : Type 0} (trait : SortingPlugin E T) (P : Petgraph (PluginSortingData T))
    (unicase_eq : String → String → Bool) where
  abbrev Graph : Type 0
  Graph = PluginsGraph trait P

  abbrev AreIn : Graph → List ℕ → Type 0
  AreIn graph l = (x : ℕ) → Memᴰ x l → x < P.node_count graph.inner

  -- The new graph has the old one's nodes and edges and a sound cache, early loaders lead to those
  -- that are later in the list, and to every plugin that is not in it.
  pub record LoadsEarly (early : List String) (old new : Graph) : Type 0 where
    pub extends : Extends trait P old new
    pub in_order :
        (x y i j : ℕ)
        → x < P.node_count old.inner
        → y < P.node_count old.inner
        → early_position trait P unicase_eq early old x ≡ some i
        → early_position trait P unicase_eq early old y ≡ some j
        → i < j
        → Reach (next_of trait P new) x y
    pub before_others :
        (x y i : ℕ)
        → x < P.node_count old.inner
        → y < P.node_count old.inner
        → early_position trait P unicase_eq early old x ≡ some i
        → early_position trait P unicase_eq early old y ≡ none
        → Reach (next_of trait P new) x y

  abbrev early_le : ℕ × ℕ → ℕ × ℕ → Bool
  early_le a b = leb a.0 b.0

  module _ (early : List String) (graph : Graph) (r : List (ℕ × ℕ) × List ℕ)
      (sound : IsCacheSound trait P graph)
      (split : IsSplit trait P unicase_eq early graph
        (node_indices trait P unicase_eq graph)
        r) where
    abbrev loaders : List (ℕ × ℕ)
    loaders = stable_sort early_le r.0

    abbrev chained : Graph
    chained = add_hardcoded_edges trait P unicase_eq (windows loaders) graph

    loaders-IsSorted : IsSorted early_le loaders
    loaders-IsSorted =
        stable_sort-IsSorted early_le (λ a b c h k. ground arith) (λ a b h. ground arith) r.0

    mem-loaders :
        (x i : ℕ)
        → x < P.node_count graph.inner
        → early_position trait P unicase_eq early graph x ≡ some i
        → Memᴰ (i, x) loaders
    mem-loaders x i h e = (mem-stable_sort early_le (i, x) r.0).1 (
        split.loader x i (mem-count_from 0 (P.node_count graph.inner) x (omega arith) (omega arith))
          e)

    node_lt :
        (x : ℕ) → Memᴰ x (node_indices trait P unicase_eq graph) → x < P.node_count graph.inner
    node_lt x m = omega (arith, mem-count_from_lt 0 (P.node_count graph.inner) x m)

    loaders-AreIn : AreIn graph (map node loaders)
    loaders-AreIn x m =
        go loaders (λ p mp. split.loaders_in p ((mem-stable_sort early_le p r.0).0 mp)) m
      where
        go :
            (l : List (ℕ × ℕ))
            → ((p : ℕ × ℕ) → Memᴰ p l → Memᴰ (node p) (node_indices trait P unicase_eq graph))
            → Memᴰ x (map node l)
            → x < P.node_count graph.inner
        go [] h m = absurd (not_mem_nil m)
        go (p ∷ l) h m = elim ((mem_cons x (node p) (map node l)).0 m) [
          | inl same ↦ node_lt x (
              subst (λ w. Memᴰ w (node_indices trait P unicase_eq graph)) (sym same)
                (h p (Memᴰ.head refl)))
          | inr m' ↦ go l (λ q mq. h q (Memᴰ.tail mq)) m'
        ]

    loaders-LoadsEarly : LoadsEarly early graph (elim (last? loaders) as (λ x. Graph) [
      | none ↦ chained
      | some (i, from_index) ↦ add_hardcoded_edges_from trait P unicase_eq from_index r.1 chained
    ])
    loaders-LoadsEarly =
        go (last? loaders) refl
          (add_hardcoded_edges-IsChain trait P unicase_eq loaders graph loaders-AreIn sound)
      where
        no_last : (l : List (ℕ × ℕ)) (p : ℕ × ℕ) → last? l ≡ none → Memᴰ p l → ⊥
        no_last [] p e m = not_mem_nil m
        no_last (x ∷ []) p e m = cc
        no_last (x ∷ y ∷ l) p e m = no_last (y ∷ l) y e (Memᴰ.head refl)

        mem-last : (l : List (ℕ × ℕ)) (p : ℕ × ℕ) → last? l ≡ some p → Memᴰ p l
        mem-last [] p e = absurd (cc)
        mem-last (x ∷ []) p e = Memᴰ.head (cc)
        mem-last (x ∷ y ∷ l) p e = Memᴰ.tail (mem-last (y ∷ l) p e)

        go :
            (o : Option (ℕ × ℕ))
            → last? loaders ≡ o
            → Extends trait P graph chained × IsChain (next_of trait P chained) (map node loaders)
            → LoadsEarly early graph (elim o as (λ x. Graph) [
              | none ↦ chained
              | some (i, from_index) ↦
                  add_hardcoded_edges_from trait P unicase_eq from_index r.1 chained
            ])
        go none e h = record {
          extends = h.0;
          in_order =
              λ x y i j hx hy ei ej lt. absurd (no_last loaders (i, x) e (mem-loaders x i hx ei));
          before_others =
              λ x y i hx hy ei ej. absurd (no_last loaders (i, x) e (mem-loaders x i hx ei));
        }
        go (some last) e (ext, chain) =
            let last_in =
              loaders-AreIn (node last) (mem-node loaders last (mem-last loaders last e)) in
            let more =
              add_hardcoded_edges_from-Reach trait P unicase_eq (node last) r.1 chained
                (omega (arith, last_in, ext.grows.count))
                (λ x m. omega (arith, node_lt x (split.others_in x m), ext.grows.count))
                ext.sound in
            record {
              extends = Extends-trans trait P ext more.0;
              in_order = λ x y i j hx hy ei ej lt. Reach-Extends trait P more.0 (
                  Reach-positions (next_of trait P chained) loaders (i, x) (j, y) loaders-IsSorted
                    chain (mem-loaders x i hx ei) (mem-loaders y j hy ej) lt);
              before_others = λ x y i hx hy ei ej.
                  Reach-trans
                    (Reach-Extends trait P more.0 (
                      Reach-last (next_of trait P chained) loaders (i, x) last chain
                        (mem-loaders x i hx ei) e))
                    (more.1 y (
                      split.other y
                        (mem-count_from 0 (P.node_count graph.inner) y (omega arith) (omega arith))
                        ej));
            }

  -- If the cache holds only pairs that a walk joins, adding the edges of the early loaders keeps the
  -- nodes, the edges and that property of the cache, and afterwards a walk leads from an early
  -- loader to each one that has a higher position in the list, and to each plugin that is not in
  -- the list.
  pub add_early_loading_plugin_edges-LoadsEarly :
      (early : List String) (graph : Graph)
      → IsCacheSound trait P graph
      → LoadsEarly early graph (add_early_loading_plugin_edges trait P unicase_eq early graph)
  unfolding add_early_loading_plugin_edges
  add_early_loading_plugin_edges-LoadsEarly [] graph sound = record {
    extends = Extends-refl trait P graph sound;
    in_order = λ x y i j hx hy ei ej lt. absurd (cc);
    before_others = λ x y i hx hy ei ej. absurd (cc);
  }
  add_early_loading_plugin_edges-LoadsEarly (e ∷ es) graph sound =
      loaders-LoadsEarly (e ∷ es) graph
        (split_early_loaders trait P unicase_eq (e ∷ es) (node_indices trait P unicase_eq graph)
          graph)
        sound
        (split_early_loaders-IsSplit trait P unicase_eq (e ∷ es)
          (node_indices trait P unicase_eq graph) graph)
