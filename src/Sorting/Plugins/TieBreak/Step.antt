-- ===== src/Sorting/Plugins/TieBreak/Step.antt =====
-- src/sorting/plugins.rs: one round of the tie-breaks, for a pair of nodes that are consecutive in
-- the present load order.
use libloot.Prelude.{ℕ, ◌≡◌, inl, inr, ⊎_elim, true, List, [], ◌∷◌, ◌++◌, Option, none, some}
use libloot.Prelude.Result.{Result, ok, ◌>>=◌}
use libloot.External.Petgraph.{Petgraph}
use libloot.Sorting.Error.{PathfindingError}
use libloot.Sorting.Plugins.Data.{SortingPlugin, PluginSortingData}
use libloot.Sorting.Plugins.Graph.{PluginsGraph, find_path}
use libloot.Sorting.Plugins.Graph.Found.{PathFound, find_path-PathFound}
use libloot.Sorting.Plugins.Graph.Growth.{Progress, Progress-of_same}
use libloot.Sorting.Plugins.TieBreak.{TieState, is_node, keep_order, change_order, break_tie}
use libloot.Sorting.Plugins.TieBreak.Push.{In, Ready}
use libloot.Sorting.Plugins.TieBreak.Tied.{IsTied, Advance-trans, IsChain-Grows}
use libloot.Sorting.Plugins.TieBreak.Keep.{Stepped, IsTied-grown, keep_order-Stepped}
use libloot.Sorting.Plugins.TieBreak.Change.{change_order-Stepped}

module _ {E T : Type 0} (trait : SortingPlugin E T) (P : Petgraph (PluginSortingData T)) where
  abbrev State : Type 0
  State = TieState trait P

  -- What the loop's body returns: a state, never an error.
  pub break_tie-Stepped :
      (first : Option ℕ) (current next : ℕ) (s : State)
      → IsTied trait P s
      → In trait P s current
      → In trait P s next
      → Ready trait P s current
      → (is_node first current ≡ true → s.new_load_order ≡ [])
      → (s' : State) × (break_tie trait P first current next s ≡ ok s')
        × Stepped trait P s current next s'
  unfolding break_tie
  break_tie-Stepped first current next s tied hc hn ready empty =
      go (find_path trait P next current s.graph)
        (find_path-PathFound trait P s.graph next current tied.safe.sound hn hc)
    where
      go :
          (r : Result PathfindingError (Option (List ℕ)) × PluginsGraph trait P)
          → PathFound trait P s.graph next current r
          → (s' : State) × ((r.0 >>= λ answer. elim answer [
            | none ↦ ok (keep_order trait P current next (record s { graph = r.1 }))
            | some path ↦ ok (change_order trait P first current path (record s { graph = r.1 }))
          ])
              ≡ ok s')
            × Stepped trait P s current next s'
      go (found, g) p = elim p.answer [
        | inl (l, e, walk) ↦
            let stepped =
              change_order-Stepped trait P first current next l s₁ tied₁ (rw p.same hc)
                (rw p.same hn) ready₁ empty (rw p.same walk) in
            (change_order trait P first current (next ∷ l) s₁, rw e, from_s₁ _ stepped)
        | inr (e, no_walk) ↦
            let stepped =
              keep_order-Stepped trait P current next s₁ tied₁ (rw p.same hc) (rw p.same hn) ready₁
                (rw p.same no_walk) in
            (keep_order trait P current next s₁, rw e, from_s₁ _ stepped)
      ]
        where
          s₁ : State
          s₁ = record s { graph = g }

          progress : Progress trait P s.graph g
          progress = Progress-of_same trait P s.graph g p.same p.sound tied.safe

          tied₁ : IsTied trait P s₁
          tied₁ = IsTied-grown trait P s g tied progress

          ready₁ : Ready trait P s₁ current
          ready₁ =
              ⊎_elim inl
                (λ h.
                  inr (IsChain-Grows trait P progress.grows (s.new_load_order ++ current ∷ []) h))
                ready

          from_s₁ :
              (s' : State) → Stepped trait P s₁ current next s' → Stepped trait P s current next s'
          from_s₁ s' st = record {
            tied = st.tied;
            advance =
                Advance-trans trait P (record { grows = progress.grows; more = λ x h. h })
                  st.advance;
            done = st.done;
            ready = st.ready;
          }
