-- ===== src/Sorting/Plugins/Finder.antt =====
-- src/sorting/plugins.rs: the search visitor that finds a path, and how the path is read from it.
pub mod Links
use libloot.Prelude.{
  ℕ, zero, suc, true, false, String, List, [], ◌∷◌, ◌++◌, Option, none, some, NodeMap, empty_map,
  insert_at, ◌==◌, if◌then◌else◌,
}
use mathlib.Core.List.{reverse}
use libloot.Prelude.Result.{Result, ok, err, ◌>>=◌}
use libloot.Sorting.Error.{PathfindingError, preceding_node_not_found, following_node_not_found}
use libloot.Sorting.Search.Bfs.{BidirBfsVisitor}
use libloot.Sorting.Plugins.Cache.{PathsCache, cache_path}

pub record PathFinder : Type 0 where
  pub cache : PathsCache
  pub forward_parents : NodeMap ℕ
  pub reverse_children : NodeMap ℕ
  pub intersection_node : Option ℕ

unfoldable pub path_finder : PathsCache → PathFinder
path_finder cache = record {
  cache = cache;
  forward_parents = empty_map;
  reverse_children = empty_map;
  intersection_node = none;
}

module _ (from_node_index to_node_index : ℕ) where
  unfoldable pub finder_visitor : BidirBfsVisitor PathFinder
  unfolding cache_path
  finder_visitor = record {
    visit_forward_bfs_edge = λ source target f. record f {
      cache = cache_path from_node_index target f.cache;
      forward_parents = insert_at target source f.forward_parents;
    };
    visit_reverse_bfs_edge = λ source target f. record f {
      cache = cache_path source to_node_index f.cache;
      reverse_children = insert_at source target f.reverse_children;
    };
    visit_intersection_node = λ node f. record f { intersection_node = some node };
  }

-- The `while` loops of `path`: the nodes that they push, following `links` from `current` until
-- `stop`. Each has its own error; it is also what a loop out of fuel returns.
unfoldable pub follow :
    NodeMap ℕ → (ℕ → PathfindingError) → ℕ → ℕ → ℕ → Result PathfindingError (List ℕ)
follow links missing stop zero current = if current == stop then ok [] else err (missing current)
follow links missing stop (suc fuel) current = elim (current == stop) [
  | true ↦ ok []
  | false ↦ elim (links current) [
    | some next ↦ follow links missing stop fuel next >>= λ rest. ok (next ∷ rest)
    | none ↦ err (missing current)
  ]
]

-- `name_of` gives the names for the error messages, and `fuel` is the number of nodes.
unfoldable pub path :
    (ℕ → String) → ℕ → ℕ → ℕ → PathFinder → Result PathfindingError (Option (List ℕ))
unfolding follow
path name_of fuel from_node_index to_node_index f = elim f.intersection_node [
  | none ↦ ok none
  | some node ↦ do
    before ←
        follow f.forward_parents (λ i. preceding_node_not_found (name_of i)) from_node_index fuel
          node
    after ←
        follow f.reverse_children (λ i. following_node_not_found (name_of i)) to_node_index fuel
          node
    ok (some (reverse (node ∷ before) ++ after))
]
