-- ===== src/Sorting/Plugins/TieBreak/Tied.antt =====
-- src/sorting/plugins.rs: the invariant of the tie-breaks. The new load order holds the processed
-- nodes, each of which leads to the next one in a graph without cycles.
use libloot.Prelude.{ℕ, ◌<◌, ◌≡◌, refl, true, List, [], ◌∷◌, ◌++◌, Memᴰ}
use libloot.External.Petgraph.{Petgraph}
use libloot.Sorting.Graph.{Reach, here, step, Reach-mono, Reach-trans, Acyclic}
use libloot.Sorting.Plugins.Data.{SortingPlugin, PluginSortingData}
use libloot.Sorting.Plugins.Graph.{PluginsGraph}
use libloot.Sorting.Plugins.Graph.Paths.{next_of}
use libloot.Sorting.Plugins.Graph.Growth.{Grows, Grows-refl, Grows-trans, IsSafe}
use libloot.Sorting.Plugins.TieBreak.{TieState}
use libloot.Sorting.Plugins.TieBreak.Chain.{IsChain, IsChain-mono}

module _ {E T : Type 0} (trait : SortingPlugin E T) (P : Petgraph (PluginSortingData T)) where
  abbrev pub Follows : TieState trait P → ℕ → ℕ → Type 0
  Follows s = Reach (next_of trait P s.graph)

  pub record IsTied (s : TieState trait P) : Type 0 where
    pub safe : IsSafe trait P s.graph
    pub listed : (x : ℕ) → s.processed_nodes x ≡ true → Memᴰ x s.new_load_order
    pub processed : (x : ℕ) → Memᴰ x s.new_load_order → s.processed_nodes x ≡ true
    pub inside : (x : ℕ) → Memᴰ x s.new_load_order → x < P.node_count s.graph.inner
    pub chain : IsChain (next_of trait P s.graph) s.new_load_order

  -- The end of the new load order leads to `x`.
  abbrev pub Leads : TieState trait P → ℕ → Type 0
  Leads s x = IsChain (next_of trait P s.graph) (s.new_load_order ++ x ∷ [])

  pub record Advance (s s' : TieState trait P) : Type 0 where
    pub grows : Grows trait P s.graph s'.graph
    pub more : (x : ℕ) → s.processed_nodes x ≡ true → s'.processed_nodes x ≡ true

  pub Advance-refl : (s : TieState trait P) → Advance s s
  Advance-refl s = record { grows = Grows-refl trait P s.graph; more = λ x h. h }

  pub Advance-trans : {a b c : TieState trait P} → Advance a b → Advance b c → Advance a c
  Advance-trans h k = record {
    grows = Grows-trans trait P h.grows k.grows;
    more = λ x p. k.more x (h.more x p);
  }

  pub Reach-Grows :
      {old new : PluginsGraph trait P}
      → Grows trait P old new
      → (x y : ℕ) → Reach (next_of trait P old) x y
      → Reach (next_of trait P new) x y
  Reach-Grows h x y p = Reach-mono h.kept p

  pub IsChain-Grows :
      {old new : PluginsGraph trait P}
      → Grows trait P old new
      → (l : List ℕ) → IsChain (next_of trait P old) l
      → IsChain (next_of trait P new) l
  IsChain-Grows h l c = IsChain-mono (Reach-Grows h) l c

-- Without cycles, of two different nodes only one can reach the other.
pub not-Reach_back :
    {next : ℕ → List ℕ} {a b : ℕ} → Acyclic next → ¬ (a ≡ b) → Reach next a b → ¬ (Reach next b a)
not-Reach_back acyclic ne here q = ne refl
not-Reach_back acyclic ne (step {b = c} {c = b} p m) q = acyclic c b m (Reach-trans q p)
