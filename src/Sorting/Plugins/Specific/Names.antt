-- ===== src/Sorting/Plugins/Specific/Names.antt =====
-- src/sorting/plugins.rs: the edges from the nodes that names stand for.
use libloot.Prelude.{
  ℕ, ◌<◌, ◌≡◌, refl, sym, ap, ◌∙◌, subst, inl, inr, Bool, String, List, [], ◌∷◌, Option, none, some,
  some_inj, Memᴰ, mem_cons, not_mem_nil, find, range, mem-count_from_lt, Bool-cases, if◌then◌else◌,
  arith,
}
use libloot.External.Petgraph.{Petgraph}
use libloot.Sorting.Graph.{Reach, Reach-mono}
use libloot.Sorting.Vertex.{EdgeType}
use libloot.Sorting.Plugins.Data.{SortingPlugin, PluginSortingData, name}
use libloot.Sorting.Plugins.Graph.{PluginsGraph, add_edge}
use libloot.Sorting.Plugins.Graph.Paths.{next_of, IsCacheSound}
use libloot.Sorting.Plugins.Graph.Growth.{
  Grows, Grows-refl, Grows-trans, add_edge-Grows, add_edge_sound, Reach-add_edge,
}
use libloot.Sorting.Plugins.Specific.{node_index_by_name, add_edges_from_names}

find_ext : {A : Type 0} (p q : A → Bool) (l : List A) → ((x : A) → p x ≡ q x) → find p l ≡ find q l
find_ext p q [] h = refl
find_ext p q (x ∷ l) h = rw (h x, find_ext p q l h)

mem-find : {A : Type 0} (p : A → Bool) (l : List A) (a : A) → find p l ≡ some a → Memᴰ a l
mem-find p [] a h = absurd (cc)
mem-find p (x ∷ l) a h = elim (Bool-cases (p x)) [
  | inl e ↦
      Memᴰ.head (sym (some_inj x a (subst (λ b. (if b then some x else find p l) ≡ some a) e h)))
  | inr e ↦ Memᴰ.tail (mem-find p l a (subst (λ b. (if b then some x else find p l) ≡ some a) e h))
]

module _ {E T : Type 0} (trait : SortingPlugin E T) (P : Petgraph (PluginSortingData T)) where
  abbrev Graph : Type 0
  Graph = PluginsGraph trait P

  -- The second graph has the first one's nodes and at least its edges, and a sound cache.
  pub record Extends (old new : Graph) : Type 0 where
    pub grows : Grows trait P old new
    pub sound : IsCacheSound trait P new

  pub Extends-refl : (graph : Graph) → IsCacheSound trait P graph → Extends graph graph
  Extends-refl graph sound = record { grows = Grows-refl trait P graph; sound = sound }

  pub Extends-trans : {a b c : Graph} → Extends a b → Extends b c → Extends a c
  Extends-trans h k = record { grows = Grows-trans trait P h.grows k.grows; sound = k.sound }

  pub add_edge-Extends :
      (graph : Graph) (from to : ℕ) (t : EdgeType)
      → from < P.node_count graph.inner
      → to < P.node_count graph.inner
      → IsCacheSound trait P graph
      → Extends graph (add_edge trait P from to t graph)
  add_edge-Extends graph from to t hf ht sound = record {
    grows = add_edge-Grows trait P graph from to t hf ht;
    sound = add_edge_sound trait P graph from to t hf ht sound;
  }

  pub Reach-Extends :
      {old new : Graph} {a b : ℕ}
      → Extends old new
      → Reach (next_of trait P old) a b
      → Reach (next_of trait P new) a b
  Reach-Extends h r = Reach-mono h.grows.kept r

  module _ (unicase_eq : String → String → Bool) where
    abbrev pub found : String → Graph → Option ℕ
    found = node_index_by_name trait P unicase_eq

    pub node_index_by_name-Grows :
        (n : String) {old new : Graph} → Grows trait P old new → found n new ≡ found n old
    unfolding node_index_by_name
    node_index_by_name-Grows n {old} {new} h = rw (h.count) (
        find_ext _ _ (range (P.node_count old.inner))
          (λ i. ap (λ (p : PluginSortingData T). unicase_eq (name trait p) n) (h.nodes i)))

    pub node_index_by_name_lt :
        (n : String) (graph : Graph) (j : ℕ) → found n graph ≡ some j → j < P.node_count graph.inner
    unfolding node_index_by_name
    node_index_by_name_lt n graph j h = omega (
      arith,
      mem-count_from_lt 0 (P.node_count graph.inner) j
          (mem-find _ (range (P.node_count graph.inner)) j h),
    )

    -- The node comes after each node that one of the names stands for.
    abbrev pub ComesAfter : Graph → Graph → ℕ → List String → Type 0
    ComesAfter old new i names =
        (n : String) (j : ℕ) → Memᴰ n names → found n old ≡ some j → Reach (next_of trait P new) j i

    pub add_edges_from_names-Extends :
        (t : EdgeType) (names : List String) (i : ℕ) (graph : Graph)
        → i < P.node_count graph.inner
        → IsCacheSound trait P graph
        → Extends graph (add_edges_from_names trait P unicase_eq t names i graph)
          × ComesAfter graph (add_edges_from_names trait P unicase_eq t names i graph) i names
    unfolding add_edges_from_names
    add_edges_from_names-Extends t [] i graph hi sound =
        (Extends-refl graph sound, λ n j m h. absurd (not_mem_nil m))
    add_edges_from_names-Extends t (n ∷ ns) i graph hi sound =
        go (found n graph) refl (add_edges_from_names-Extends t ns i)
      where
        go :
            (o : Option ℕ)
            → found n graph ≡ o
            → ((g : Graph)
                → i < P.node_count g.inner
                → IsCacheSound trait P g
                → Extends g (add_edges_from_names trait P unicase_eq t ns i g)
                  × ComesAfter g (add_edges_from_names trait P unicase_eq t ns i g) i ns)
            → Extends graph (
                add_edges_from_names trait P unicase_eq t ns i
                  (elim o as (λ x. Graph) [ none ↦ graph | some j ↦ add_edge trait P j i t graph ]))
              × ComesAfter graph
                  (add_edges_from_names trait P unicase_eq t ns i (elim o as (λ x. Graph) [
                    | none ↦ graph
                    | some j ↦ add_edge trait P j i t graph
                  ]))
                  i
                  (n ∷ ns)
        go none e rec =
            let later = rec graph hi sound in
            (
              later.0,
              λ n' j m h. elim ((mem_cons n' n ns).0 m) [
                | inl same ↦ absurd (cc)
                | inr m' ↦ later.1 n' j m' h
              ],
            )
        go (some k) e rec =
            let hk = node_index_by_name_lt n graph k e in
            let one = add_edge-Extends graph k i t hk hi sound in
            let later =
              rec (add_edge trait P k i t graph) (omega (arith, one.grows.count, hi)) one.sound in
            (
              Extends-trans one later.0,
              λ n' j m h. elim ((mem_cons n' n ns).0 m) [
                | inl same ↦
                    subst
                      (λ w.
                        Reach
                          (next_of trait P (
                            add_edges_from_names trait P unicase_eq t ns i
                              (add_edge trait P k i t graph)))
                          w i)
                      (some_inj k j (sym e ∙ subst (λ w. found w graph ≡ some j) same h))
                      (Reach-Extends later.0 (Reach-add_edge trait P graph k i t hk hi sound))
                | inr m' ↦ later.1 n' j m' (node_index_by_name-Grows n' one.grows ∙ h)
              ],
            )
