-- ===== src/Sorting/Plugins/Cache.antt =====
-- src/sorting/plugins.rs: the cache of pairs that are known to be joined by a path, and the search
-- visitor that fills it.
pub mod Sound
use libloot.Prelude.{
  ℕ, Bool, false, Option, none, some, NodeSet, empty_set, insert, NodeMap, insert_at,
}
use libloot.Sorting.Search.Bfs.{BidirBfsVisitor}

abbrev pub PathsCache : Type 0
PathsCache = NodeMap NodeSet

abbrev pub entry_or_default : Option NodeSet → NodeSet
entry_or_default none = empty_set
entry_or_default (some s) = s

abbrev pub is_some_and : Option NodeSet → ℕ → Bool
is_some_and none to = false
is_some_and (some s) to = s to

unfoldable pub cache_path : ℕ → ℕ → PathsCache → PathsCache
cache_path from to cache = insert_at from (insert to (entry_or_default (cache from))) cache

unfoldable pub is_path_cached : ℕ → ℕ → PathsCache → Bool
is_path_cached from to cache = is_some_and (cache from) to

-- `PathCacher`: its state is the cache.
unfoldable pub path_cacher : ℕ → ℕ → BidirBfsVisitor PathsCache
unfolding cache_path
path_cacher from_node_index to_node_index = record {
  visit_forward_bfs_edge = λ source target cache. cache_path from_node_index target cache;
  visit_reverse_bfs_edge = λ source target cache. cache_path source to_node_index cache;
  visit_intersection_node = λ node cache. cache;
}
