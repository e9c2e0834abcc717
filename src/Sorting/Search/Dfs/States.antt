-- ===== src/Sorting/Search/Dfs/States.antt =====
-- src/sorting/search.rs: invariants of the states of the depth-first search.
use libloot.Prelude.{ℕ, zero, suc, sym, subst, List, [], ◌∷◌, NodeMap}
use libloot.External.Petgraph.{Petgraph, EdgeRef}
use libloot.Sorting.Search.Dfs.{
  DfsVisitor, Colour, DfsState, dfs_step, dfs_loop, depth_first_search,
}
use libloot.Sorting.Search.Dfs.Ends.{first_state, depth_first_search_ends}

module _ {κ} {N : Type 0} (P : Petgraph N) (g : Petgraph.Graph P) {V : Type 0} (dfs : DfsVisitor V)
    (I : List (ℕ × List EdgeRef) → NodeMap Colour → V → Type κ) where
  abbrev Holds : DfsState V → Type κ
  Holds s = I s.stack s.colours s.visitor

  -- A round of the loop keeps the invariant.
  abbrev pub IsKeptByStep : Type κ
  IsKeptByStep =
      (n : ℕ) (es : List EdgeRef) (below : List (ℕ × List EdgeRef)) (colours : NodeMap Colour)
      (v : V)
      → I ((n, es) ∷ below) colours v
      → Holds (dfs_step P g dfs n es below colours v)

  dfs_loop-keeps :
      IsKeptByStep → (fuel : ℕ) (s : DfsState V) → Holds s → Holds (dfs_loop P g dfs fuel s)
  unfolding dfs_loop
  dfs_loop-keeps kept zero s h = h
  dfs_loop-keeps kept (suc fuel) s h = go s.stack h (dfs_loop-keeps kept fuel)
    where
      go :
          (stack : List (ℕ × List EdgeRef))
          → I stack s.colours s.visitor
          → ((s' : DfsState V) → Holds s' → Holds (dfs_loop P g dfs fuel s'))
          → Holds (elim stack as (λ x. DfsState V) [
            | [] ↦ s
            | (current, unprocessed) ∷ below ↦
                dfs_loop P g dfs fuel
                  (dfs_step P g dfs current unprocessed below s.colours s.visitor)
          ])
      go [] here rec = h
      go ((n, es) ∷ below) h rec =
          rec (dfs_step P g dfs n es below s.colours s.visitor)
            (kept n es below s.colours s.visitor h)

  -- What holds of the first state and is kept by each round holds when the search returns, with
  -- nothing on the stack.
  pub depth_first_search_invariant :
      IsKeptByStep
      → (start : ℕ) (colours : NodeMap Colour) (v : V) → Holds (first_state P g dfs start colours v)
      → I []
          (depth_first_search P g dfs start colours v).0
          (depth_first_search P g dfs start colours v).1
  depth_first_search_invariant kept start colours v h =
      let (fuel, empty, result) = depth_first_search_ends P g dfs start colours v in
      let s = dfs_loop P g dfs fuel (first_state P g dfs start colours v) in
      let last = dfs_loop-keeps kept fuel (first_state P g dfs start colours v) h in
      subst (λ (r : NodeMap Colour × V). I [] r.0 r.1) (sym result)
        (subst (λ st. I st s.colours s.visitor) empty last)
