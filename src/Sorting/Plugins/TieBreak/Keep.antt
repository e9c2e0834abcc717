-- ===== src/Sorting/Plugins/TieBreak/Keep.antt =====
-- src/sorting/plugins.rs: the round of the tie-breaks for a pair that keeps its present order.
use libloot.Prelude.{
  ℕ, ◌≡◌, refl, sym, ap, subst, inl, inr, ⊎_elim, true, List, [], ◌∷◌, ◌++◌, last?, arith,
  Bool-cases,
}
use libloot.External.Petgraph.{Petgraph}
use libloot.Sorting.Vertex.{EdgeType}
use libloot.Sorting.Graph.{Reach}
use libloot.Sorting.Plugins.Data.{SortingPlugin, PluginSortingData}
use libloot.Sorting.Plugins.Graph.{PluginsGraph, add_edge}
use libloot.Sorting.Plugins.Graph.Paths.{next_of}
use libloot.Sorting.Plugins.Graph.Growth.{Progress, add_edge-Progress, Reach-add_edge}
use libloot.Sorting.Plugins.TieBreak.{TieState, is_node, keep_order}
use libloot.Sorting.Plugins.TieBreak.Chain.{IsChain, IsChain-concat}
use libloot.Sorting.Plugins.TieBreak.Pin.{pin_node_position-Pinned}
use libloot.Sorting.Plugins.TieBreak.Push.{In, Ready, push_fresh-Pushed, push_fresh-Leads}
use libloot.Sorting.Plugins.TieBreak.Tied.{IsTied, Leads, Advance, Advance-trans, IsChain-Grows}

-- A list whose last item is `a`.
last-eq_some :
    (l : List ℕ) (a : ℕ) → is_node (last? l) a ≡ true → (ws : List ℕ) × (l ≡ ws ++ a ∷ [])
last-eq_some [] a h = cc
last-eq_some (x ∷ []) a h = ([], ground arith)
last-eq_some (x ∷ y ∷ ys) a h =
    let (ws, e) = last-eq_some (y ∷ ys) a h in (x ∷ ws, ap (λ (l : List ℕ). x ∷ l) e)

module _ {E T : Type 0} (trait : SortingPlugin E T) (P : Petgraph (PluginSortingData T)) where
  abbrev State : Type 0
  State = TieState trait P

  -- What a round comes to.
  pub record Stepped (s : State) (current next : ℕ) (s' : State) : Type 0 where
    pub tied : IsTied trait P s'
    pub advance : Advance trait P s s'
    pub done : s'.processed_nodes current ≡ true
    pub ready : Ready trait P s' next

  pub IsTied-grown :
      (s : State) (g : PluginsGraph trait P)
      → IsTied trait P s
      → Progress trait P s.graph g
      → IsTied trait P (record s { graph = g })
  IsTied-grown s g tied p = record {
    safe = p.safe;
    listed = tied.listed;
    processed = tied.processed;
    inside = λ x m. omega (arith, tied.inside x m, p.grows.count);
    chain = IsChain-Grows trait P p.grows s.new_load_order tied.chain;
  }

  -- No path leads from the second node to the first one, so the edge between them makes no cycle.
  pub keep_order-Stepped :
      (current next : ℕ) (s : State)
      → IsTied trait P s
      → In trait P s current
      → In trait P s next
      → Ready trait P s current
      → ¬ (Reach (next_of trait P s.graph) next current)
      → Stepped s current next (keep_order trait P current next s)
  unfolding keep_order
  keep_order-Stepped current next s tied hc hn ready no_walk =
      elim (Bool-cases (s.processed_nodes current)) [
        | inl old ↦ elim (Bool-cases (is_node (last? s.new_load_order) current)) [
          | inl last ↦
              let (ws, e) = last-eq_some s.new_load_order current last in
              rw (old, keep_order)
                (rw last (record {
                  tied = tied';
                  advance = advance';
                  done = old;
                  ready = inr (
                      subst (λ (l : List ℕ). IsChain (next_of trait P g) (l ++ next ∷ [])) (sym e)
                        (IsChain-concat (next_of trait P g) ws current next
                          (subst (IsChain (next_of trait P g)) e tied'.chain) edge));
                }))
          | inr earlier ↦
              let p =
                pin_node_position-Pinned trait P next 0 s' [] s.new_load_order tied'
                  (omega (arith, hn, progress.grows.count)) refl refl tt in
              rw (old, keep_order)
                (rw earlier (record {
                  tied = p.tied;
                  advance = Advance-trans trait P advance' p.advance;
                  done = p.advance.more current old;
                  ready = inl p.done;
                }))
        ]
        | inr fresh ↦
            let lead = λ (l : Leads trait P s current).
              IsChain-Grows trait P progress.grows (s.new_load_order ++ current ∷ []) l in
            let at_end : Leads trait P s' current = ⊎_elim (λ h. absurd (cc)) lead ready in
            let p =
              push_fresh-Pushed trait P current s' tied' (omega (arith, hc, progress.grows.count))
                at_end fresh in
            rw (fresh, keep_order)
              (record {
                tied = p.tied;
                advance = Advance-trans trait P advance' p.advance;
                done = p.done;
                ready = inr (push_fresh-Leads trait P current next s' at_end edge fresh);
              })
      ]
    where
      g : PluginsGraph trait P
      g = add_edge trait P current next EdgeType.tie_break s.graph

      s' : State
      s' = record s { graph = g }

      progress : Progress trait P s.graph g
      progress =
          add_edge-Progress trait P s.graph current next EdgeType.tie_break hc hn tied.safe no_walk

      tied' : IsTied trait P s'
      tied' = IsTied-grown s g tied progress

      advance' : Advance trait P s s'
      advance' = record { grows = progress.grows; more = λ x h. h }

      edge : Reach (next_of trait P g) current next
      edge = Reach-add_edge trait P s.graph current next EdgeType.tie_break hc hn tied.safe.sound
