-- ===== src/Sorting/Search/Bfs.antt =====
-- src/sorting/search.rs: the bidirectional breadth-first search and its visitor. A frontier is one
-- direction's queue and visited set, and `explore` is the loop over the neighbours of a node, which
-- both directions run, each with its own neighbours and its own callback.
pub mod Explore
pub mod Frontiers
pub mod Rule
pub mod Walks
pub mod Decides
use libloot.Prelude.{
  ℕ, zero, suc, Bool, true, false, ◌||◌, List, [], ◌∷◌, ◌++◌, NodeSet, empty_set, insert, ◌==◌,
  if◌then◌else◌,
}
use libloot.External.Petgraph.{Petgraph}

pub record BidirBfsVisitor (V : Type 0) : Type 0 where
  pub visit_forward_bfs_edge : ℕ → ℕ → V → V
  pub visit_reverse_bfs_edge : ℕ → ℕ → V → V
  pub visit_intersection_node : ℕ → V → V

pub record Frontier : Type 0 where
  pub queue : List ℕ
  pub visited : NodeSet

unfoldable pub start : ℕ → Frontier
start n = record { queue = n ∷ []; visited = insert n empty_set }

module _ {V : Type 0} where
  -- the body of the loops over neighbours
  unfoldable pub offer : (ℕ → V → V) → ℕ → Frontier × V → Frontier × V
  offer visit adjacent (fr, v) = if fr.visited adjacent then (fr, v) else (
    record { queue = fr.queue ++ adjacent ∷ []; visited = insert adjacent fr.visited },
    visit adjacent v,
  )

  unfoldable pub explore : (ℕ → V → V) → List ℕ → Frontier × V → Frontier × V
  unfolding offer
  explore visit [] s = s
  explore visit (adjacent ∷ rest) s = explore visit rest (offer visit adjacent s)

-- What one round of the `while` loop comes to: `return`, or another round.
pub data Round (V : Type 0) : Type 0 where
  finished : Bool → V → Round V
  again : Frontier → Frontier → V → Round V

module _ {N : Type 0} (P : Petgraph N) (g : Petgraph.Graph P) (from_index to_index : ℕ) {V : Type 0}
    (visitor : BidirBfsVisitor V) where
  open P use {neighbors, incoming, node_count}
  open visitor use {visit_forward_bfs_edge, visit_reverse_bfs_edge, visit_intersection_node}

  -- the second half of a round, on the node from the reverse queue
  unfoldable pub reverse_half : ℕ → Frontier → Frontier → V → Round V
  unfolding explore
  reverse_half current fwd rev v =
      if current == from_index || fwd.visited current
      then finished true (visit_intersection_node current v)
      else let (rev', v') =
          explore (λ adjacent. visit_reverse_bfs_edge adjacent current) (incoming g current)
            (rev, v) in
        again fwd rev' v'

  -- the first half, on the node from the forward queue
  unfoldable pub forward_half : ℕ → ℕ → Frontier → Frontier → V → Round V
  unfolding reverse_half
  forward_half current reverse_current fwd rev v =
      if current == to_index || rev.visited current
      then finished true (visit_intersection_node current v)
      else let (fwd', v') =
          explore (λ adjacent. visit_forward_bfs_edge current adjacent) (neighbors g current)
            (fwd, v) in
        reverse_half reverse_current fwd' rev v'

  unfoldable pub round : List ℕ → List ℕ → NodeSet → NodeSet → V → Round V
  unfolding forward_half
  round (f ∷ fs) (r ∷ rs) fwd rev v =
      forward_half f r (record { queue = fs; visited = fwd }) (record { queue = rs; visited = rev })
        v
  round _ _ _ _ v = finished false v

  -- the `while` loop, on fuel
  unfoldable pub loop : ℕ → Frontier → Frontier → V → Bool × V
  unfolding round
  loop zero fwd rev v = (false, v)
  loop (suc fuel) fwd rev v = elim (round fwd.queue rev.queue fwd.visited rev.visited v) [
    | finished found v' ↦ (found, v')
    | again fwd' rev' v' ↦ loop fuel fwd' rev' v'
  ]

  -- Every node enters the forward queue at most once, so the rounds are at most the nodes.
  unfoldable pub bidirectional_bfs : V → Bool × V
  unfolding loop start
  bidirectional_bfs v = loop (suc (node_count g)) (start from_index) (start to_index) v
