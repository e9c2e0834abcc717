-- ===== src/Sorting/Plugins/TieBreak/Total.antt =====
-- src/sorting/plugins.rs: the loop of the tie-breaks over all pairs.
use libloot.Prelude.{
  ℕ, ◌<◌, ◌≡◌, refl, ◌⊎◌, inl, inr, true, false, List, [], ◌∷◌, ◌++◌, Option, some, Memᴰ, empty_set,
  windows, get_elem?, range, IsDistinct, count_from-IsDistinct, mem-count_from, mem-count_from_lt,
  mem_cons, not_mem_nil, arith, Bool-cases, ◌==◌, ◌↔◌,
}
use libloot.Prelude.Sort.{mem-stable_sort, stable_sort-IsDistinct}
use mathlib.Core.List.Memᴰ
use libloot.Prelude.Result.{ok}
use libloot.External.Petgraph.{Petgraph}
use libloot.Sorting.Graph.{Reach}
use libloot.Sorting.Plugins.Data.{SortingPlugin, PluginSortingData}
use libloot.Sorting.Plugins.Graph.{PluginsGraph}
use libloot.Sorting.Plugins.Graph.Paths.{next_of}
use libloot.Sorting.Plugins.Graph.Growth.{Grows, Grows-refl, IsSafe}
use libloot.Sorting.Plugins.TieBreak.{
  TieState, is_node, break_ties, nodes_by_load_order, add_tie_break_edges,
}
use libloot.Sorting.Plugins.TieBreak.Chain.{IsChain, IsChain-total}
use libloot.Sorting.Plugins.TieBreak.Push.{In, Ready}
use libloot.Sorting.Plugins.TieBreak.Step.{break_tie-Stepped}
use libloot.Sorting.Plugins.TieBreak.Tied.{IsTied, Advance, Advance-refl, Advance-trans}

module _ {E T : Type 0} (trait : SortingPlugin E T) (P : Petgraph (PluginSortingData T)) where
  abbrev State : Type 0
  State = TieState trait P

  -- All of some nodes stand on one chain.
  record Ordered (s : State) (nodes : List ℕ) (s' : State) : Type 0 where
    advance : Advance trait P s s'
    safe : IsSafe trait P s'.graph
    order : List ℕ
    chain : IsChain (next_of trait P s'.graph) order
    all : (x : ℕ) → Memᴰ x nodes → Memᴰ x order
    processed : (x : ℕ) → s'.processed_nodes x ≡ true → Memᴰ x order

  last-Ordered : (s : State) (x : ℕ) → IsTied trait P s → Ready trait P s x → Ordered s (x ∷ []) s
  last-Ordered s x tied (inl done) = record {
    advance = Advance-refl trait P s;
    safe = tied.safe;
    order = s.new_load_order;
    chain = tied.chain;
    all = λ y m. rw (Memᴰ.eq_of_singleton m) (tied.listed x done);
    processed = tied.listed;
  }
  last-Ordered s x tied (inr lead) = record {
    advance = Advance-refl trait P s;
    safe = tied.safe;
    order = s.new_load_order ++ x ∷ [];
    chain = lead;
    all = λ y m. Memᴰ.append_right s.new_load_order m;
    processed = λ y h. Memᴰ.append_left (x ∷ []) (tied.listed y h);
  }

  break_ties-Ordered :
      (first : Option ℕ) (x : ℕ) (ys : List ℕ) (s : State)
      → IsTied trait P s
      → Ready trait P s x
      → ((y : ℕ) → Memᴰ y (x ∷ ys) → In trait P s y)
      → (is_node first x ≡ true → s.new_load_order ≡ [])
      → ((y : ℕ) → Memᴰ y ys → is_node first y ≡ false)
      → (s' : State) × (break_ties trait P first (windows (x ∷ ys)) s ≡ ok s')
        × Ordered s (x ∷ ys) s'
  unfolding break_ties
  break_ties-Ordered first x [] s tied ready inside empty later =
      (s, refl, last-Ordered s x tied ready)
  break_ties-Ordered first x (y ∷ ys) s tied ready inside empty later =
      let y_in = Memᴰ.head {xs = ys} refl in
      let (s₁, e₁, st) =
        break_tie-Stepped trait P first x y s tied (inside x (Memᴰ.head refl))
          (inside y (Memᴰ.tail y_in)) ready empty in
      let (s₂, e₂, o) =
        break_ties-Ordered first y ys s₁ st.tied st.ready
          (λ z m. omega (arith, inside z (Memᴰ.tail m), st.advance.grows.count))
          (λ e. absurd (cc (later y y_in))) (λ z m. later z (Memᴰ.tail m)) in
      (
        s₂,
        rw e₁ e₂,
        record {
          advance = Advance-trans trait P st.advance o.advance;
          safe = o.safe;
          order = o.order;
          chain = o.chain;
          all = λ z m. elim ((mem_cons z x (y ∷ ys)).0 m) [
            | inl e ↦ rw e (o.processed x (o.advance.more x st.done))
            | inr m' ↦ o.all z m'
          ];
          processed = o.processed;
        },
      )

  -- The second graph has grown out of the first one without cycles, and of any two of its nodes one
  -- leads to the other.
  pub record IsDecided (old new : PluginsGraph trait P) : Type 0 where
    pub grows : Grows trait P old new
    pub safe : IsSafe trait P new
    pub total :
        (x y : ℕ)
        → x < P.node_count old.inner
        → y < P.node_count old.inner
        → Reach (next_of trait P new) x y ⊎ Reach (next_of trait P new) y x

  break_all-IsDecided :
      (graph : PluginsGraph trait P) (nodes : List ℕ)
      → IsSafe trait P graph
      → IsDistinct nodes
      → ((x : ℕ) → Memᴰ x nodes ↔ (x < P.node_count graph.inner))
      → (s : State) × (break_ties trait P
            (get_elem? nodes 0)
            (windows nodes)
            (record { graph = graph; new_load_order = []; processed_nodes = empty_set })
          ≡ ok s)
        × IsDecided graph s.graph
  unfolding break_ties
  break_all-IsDecided graph [] safe distinct all = (
    record { graph = graph; new_load_order = []; processed_nodes = empty_set },
    refl,
    record {
      grows = Grows-refl trait P graph;
      safe = safe;
      total = λ x y hx hy. absurd (not_mem_nil ((all x).1 hx));
    },
  )
  break_all-IsDecided graph (x ∷ ys) safe distinct all =
      let start : State = record {
        graph = graph;
        new_load_order = [];
        processed_nodes = empty_set;
      } in
      let (s, e, o) =
        break_ties-Ordered (some x) x ys start
          (record {
            safe = safe;
            listed = λ y h. absurd (cc);
            processed = λ y m. absurd (not_mem_nil m);
            inside = λ y m. absurd (not_mem_nil m);
            chain = tt;
          })
          (inr tt) (λ y m. (all y).0 m) (λ h. refl)
          (λ y m. elim (Bool-cases (x == y)) [
            | inl same ↦ absurd (distinct.0 (Memᴰ.cast (ground arith) m))
            | inr other ↦ other
          ]) in
      (
        s,
        e,
        record {
          grows = o.advance.grows;
          safe = o.safe;
          total = λ a b ha hb.
              IsChain-total (next_of trait P s.graph) o.order a b o.chain (o.all a ((all a).1 ha))
                (o.all b ((all b).1 hb));
        },
      )

  -- From a graph without cycles and with a sound cache, the tie-breaks return with no error, keep
  -- the nodes and the edges, make no cycle, and leave of any two plugins one that a walk leads from
  -- to the other.
  pub add_tie_break_edges-IsDecided :
      (graph : PluginsGraph trait P)
      → IsSafe trait P graph
      → (s : State) × (add_tie_break_edges trait P graph ≡ ok s) × IsDecided graph s.graph
  unfolding add_tie_break_edges nodes_by_load_order
  add_tie_break_edges-IsDecided graph safe =
      let n = P.node_count graph.inner in
      break_all-IsDecided graph (nodes_by_load_order trait P graph) safe
        (stable_sort-IsDistinct _ (range n) (count_from-IsDistinct 0 n))
        (λ x. (
          λ m. omega (arith, mem-count_from_lt 0 n x ((mem-stable_sort _ x (range n)).0 m)),
          λ h. (mem-stable_sort _ x (range n)).1 (mem-count_from 0 n x (omega arith) (omega arith)),
        ))
