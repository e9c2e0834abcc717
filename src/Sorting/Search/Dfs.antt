-- ===== src/Sorting/Search/Dfs.antt =====
-- src/sorting/search.rs: the depth-first search and its visitor.
pub mod Rule
pub mod Ends
pub mod States
use libloot.Prelude.{
  ℕ, zero, suc, ◌+◌, ◌≡◌, Option, none, some, List, [], ◌∷◌, NodeMap, insert_at, length,
}
use mathlib.Core.List.{reverse}
use libloot.External.Petgraph.{Petgraph, EdgeRef}

pub record DfsVisitor (V : Type 0) : Type 0 where
  pub visit_tree_edge : EdgeRef → V → V
  pub visit_forward_or_cross_edge : EdgeRef → V → V
  pub visit_back_edge : EdgeRef → V → V
  pub discover_node : ℕ → V → V
  pub finish_node : ℕ → V → V

pub data Colour : Type 0 where
  white grey black : Colour

-- `colour_map.get(&target).unwrap_or(&Colour::White)`
abbrev pub colour_of : NodeMap Colour → ℕ → Colour
colour_of colours n = elim (colours n) [ none ↦ white | some c ↦ c ]

-- The local variables of the search. The top of the stack comes first.
pub record DfsState (V : Type 0) : Type 0 where
  pub stack : List (ℕ × List EdgeRef)
  pub colours : NodeMap Colour
  pub visitor : V

module _ {N : Type 0} (P : Petgraph N) (g : Petgraph.Graph P) where
  -- The edges in the order in which they were added.
  unfoldable pub edges : ℕ → List EdgeRef
  edges n = reverse (P.edges g n)

  -- The rounds that the nodes below `n` can take: one for each node, one for each of its edges.
  unfoldable pub rounds : ℕ → ℕ
  unfolding edges
  rounds zero = 0
  rounds (suc n) = suc (length (edges n)) + rounds n

  module _ {V : Type 0} (dfs : DfsVisitor V) where
    open dfs use {
      visit_tree_edge, visit_forward_or_cross_edge, visit_back_edge, discover_node, finish_node,
    }

    -- The match on the colour of an edge's target; `below` is the stack with the edge taken off.
    unfoldable pub on_edge :
        Colour → EdgeRef → List (ℕ × List EdgeRef) → NodeMap Colour → V → DfsState V
    unfolding edges
    on_edge white edge below colours v = record {
      stack = (edge.target, edges edge.target) ∷ below;
      colours = insert_at edge.target grey colours;
      visitor = discover_node edge.target (visit_tree_edge edge v);
    }
    on_edge grey edge below colours v = record {
      stack = below;
      colours = colours;
      visitor = visit_back_edge edge v;
    }
    on_edge black edge below colours v = record {
      stack = below;
      colours = colours;
      visitor = visit_forward_or_cross_edge edge v;
    }

    -- The body of the `while` loop, for a stack with something on it.
    unfoldable pub dfs_step :
        ℕ → List EdgeRef → List (ℕ × List EdgeRef) → NodeMap Colour → V → DfsState V
    unfolding on_edge
    dfs_step current (edge ∷ rest) below colours v =
        on_edge (colour_of colours edge.target) edge ((current, rest) ∷ below) colours v
    dfs_step current [] below colours v = record {
      stack = below;
      colours = insert_at current black colours;
      visitor = finish_node current v;
    }

    -- The `while` loop, on fuel.
    unfoldable pub dfs_loop : ℕ → DfsState V → DfsState V
    unfolding dfs_step
    dfs_loop zero s = s
    dfs_loop (suc fuel) s = elim s.stack [
      | [] ↦ s
      | (current, unprocessed) ∷ below ↦
          dfs_loop fuel (dfs_step current unprocessed below s.colours s.visitor)
    ]

    -- The start node may have been searched before, so its rounds come on top.
    unfoldable pub depth_first_search : ℕ → NodeMap Colour → V → NodeMap Colour × V
    unfolding dfs_loop rounds
    depth_first_search start colours v =
        let s = dfs_loop (suc (length (edges start)) + rounds (P.node_count g)) (record {
          stack = (start, edges start) ∷ [];
          colours = insert_at start grey colours;
          visitor = discover_node start v;
        }) in
        (s.colours, s.visitor)
