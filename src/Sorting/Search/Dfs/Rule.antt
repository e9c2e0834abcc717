-- ===== src/Sorting/Search/Dfs/Rule.antt =====
-- src/sorting/search.rs: invariants of the visitors of the depth-first search.
use libloot.Prelude.{ℕ, zero, suc, List, [], ◌∷◌, NodeMap, insert_at, ◌+◌, length}
use libloot.External.Petgraph.{Petgraph, EdgeRef}
use libloot.Sorting.Search.Dfs.{
  DfsVisitor, Colour, white, grey, black, colour_of, DfsState, on_edge, dfs_step, dfs_loop,
  depth_first_search, edges, rounds,
}

pub record KeptBy {κ} {V : Type 0} (dfs : DfsVisitor V) (I : V → Type κ) : Type κ where
  pub tree : (e : EdgeRef) (v : V) → I v → I (dfs.visit_tree_edge e v)
  pub cross : (e : EdgeRef) (v : V) → I v → I (dfs.visit_forward_or_cross_edge e v)
  pub back : (e : EdgeRef) (v : V) → I v → I (dfs.visit_back_edge e v)
  pub discover : (n : ℕ) (v : V) → I v → I (dfs.discover_node n v)
  pub finish : (n : ℕ) (v : V) → I v → I (dfs.finish_node n v)

module _ {κ} {N : Type 0} (P : Petgraph N) (g : Petgraph.Graph P) {V : Type 0} (dfs : DfsVisitor V)
    (I : V → Type κ) (kept : KeptBy dfs I) where
  on_edge_rule :
      (c : Colour) (e : EdgeRef) (below : List (ℕ × List EdgeRef)) (colours : NodeMap Colour)
      (v : V)
      → I v
      → I (on_edge P g dfs c e below colours v).visitor
  unfolding on_edge
  on_edge_rule white e below colours v i =
      kept.discover e.target (dfs.visit_tree_edge e v) (kept.tree e v i)
  on_edge_rule grey e below colours v i = kept.back e v i
  on_edge_rule black e below colours v i = kept.cross e v i

  dfs_step_rule :
      (current : ℕ) (es : List EdgeRef) (below : List (ℕ × List EdgeRef)) (colours : NodeMap Colour)
      (v : V)
      → I v
      → I (dfs_step P g dfs current es below colours v).visitor
  unfolding dfs_step
  dfs_step_rule current [] below colours v i = kept.finish current v i
  dfs_step_rule current (e ∷ es) below colours v i =
      on_edge_rule (colour_of colours e.target) e ((current, es) ∷ below) colours v i

  dfs_loop_rule : (fuel : ℕ) (s : DfsState V) → I s.visitor → I (dfs_loop P g dfs fuel s).visitor
  unfolding dfs_loop
  dfs_loop_rule zero s i = i
  dfs_loop_rule (suc fuel) s i = go s.stack (dfs_loop_rule fuel)
    where
      go :
          (stack : List (ℕ × List EdgeRef))
          → ((s' : DfsState V) → I s'.visitor → I (dfs_loop P g dfs fuel s').visitor)
          → I
              (elim stack as (λ _. DfsState V) [
                | [] ↦ s
                | (current, unprocessed) ∷ below ↦
                    dfs_loop P g dfs fuel
                      (dfs_step P g dfs current unprocessed below s.colours s.visitor)
              ]).visitor
      go [] rec = i
      go ((current, es) ∷ below) rec =
          rec (dfs_step P g dfs current es below s.colours s.visitor)
            (dfs_step_rule current es below s.colours s.visitor i)

  pub depth_first_search_rule :
      (start : ℕ) (colours : NodeMap Colour) (v : V)
      → I v
      → I (depth_first_search P g dfs start colours v).1
  unfolding depth_first_search
  depth_first_search_rule start colours v i =
      dfs_loop_rule (suc (length (edges P g start)) + rounds P g (P.node_count g))
        (record {
          stack = (start, edges P g start) ∷ [];
          colours = insert_at start grey colours;
          visitor = dfs.discover_node start v;
        })
        (kept.discover start v i)
