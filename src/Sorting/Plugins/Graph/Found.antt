-- ===== src/Sorting/Plugins/Graph/Found.antt =====
-- src/sorting/plugins.rs: the answer of `find_path`.
use libloot.Prelude.{
  ℕ, ◌<◌, ◌≡◌, refl, sym, ap, subst, ◌⊎◌, inl, inr, Bool, true, false, String, List, ◌∷◌, ◌++◌,
  Option, none, some, Memᴰ, NodeSet, if◌then◌else◌, arith,
}
use libloot.Prelude.Result.{Result, ok}
use libloot.External.Petgraph.{Petgraph}
use libloot.Sorting.Error.{PathfindingError, preceding_node_not_found, following_node_not_found}
use libloot.Sorting.Graph.{Reach, IsWalk, IsWalk-append}
use libloot.Sorting.Search.Bfs.{bidirectional_bfs}
use libloot.Sorting.Search.Bfs.Rule.{IsKept, Met, bidirectional_bfs-Outcome, Outcome}
use libloot.Sorting.Search.Bfs.Walks.{
  AreJoined, AreJoined-start, AreJoined-forward, AreJoined-reverse,
}
use libloot.Sorting.Plugins.Data.{SortingPlugin, PluginSortingData, name}
use libloot.Sorting.Plugins.Cache.Sound.{IsSound, cache_path-IsSound}
use libloot.Sorting.Plugins.Finder.{PathFinder, path_finder, finder_visitor, path}
use libloot.Sorting.Plugins.Finder.Links.{
  IsLinked, IsLinked-start, IsLinked-insert, follow-IsTrail, IsWalk-of_trail,
  IsWalk-of_forward_trail,
}
use libloot.Sorting.Plugins.Graph.{PluginsGraph, find_path}
use libloot.Sorting.Plugins.Graph.Paths.{next_of, IsCacheSound}

-- What the path finder keeps, in a graph with `n` nodes.
pub record FinderInv (next : ℕ → List ℕ) (n from to : ℕ) (fv rv : NodeSet) (f : PathFinder)
    : Type 0 where
  pub joined : AreJoined next from to fv rv
  pub sound : IsSound next f.cache
  pub parents : IsLinked (λ p x. Memᴰ x (next p)) from n fv f.forward_parents
  pub children : IsLinked (λ c x. Memᴰ c (next x)) to n rv f.reverse_children

module _ {N : Type 0} (P : Petgraph N) (g : P.Graph) (from to : ℕ) where
  abbrev next : ℕ → List ℕ
  next = P.neighbors g

  finder_visitor-IsKept :
      IsKept P g from to (finder_visitor from to) (FinderInv next (P.node_count g) from to)
  unfolding finder_visitor
  finder_visitor-IsKept = record {
    forward = λ fv rv f s t i h m fresh.
        let joined = AreJoined-forward next from to i.joined s t h m in
        record {
          joined = joined;
          sound = cache_path-IsSound next from t f.cache (joined.forward t (ground arith)) i.sound;
          parents =
              IsLinked-insert (λ p x. Memᴰ x (next p)) from (P.node_count g) i.parents s t h fresh
                (P.mem-neighbors-lt g s t m).1 m;
          children = i.children;
        };
    reverse = λ fv rv f s t i h m fresh.
        let joined = AreJoined-reverse next from to i.joined s t h m in
        record {
          joined = joined;
          sound = cache_path-IsSound next s to f.cache (joined.reverse s (ground arith)) i.sound;
          parents = i.parents;
          children =
              IsLinked-insert (λ c x. Memᴰ c (next x)) to (P.node_count g) i.children t s h fresh
                (P.mem-neighbors-lt g s t m).0 m;
        };
  }

  -- What `path` has to return: a walk.
  abbrev Reads : (ℕ → String) → PathFinder → Type 0
  Reads name_of u =
      (l : List ℕ) × (path name_of (P.node_count g) from to u ≡ ok (some (from ∷ l)))
      × IsWalk next from l to

  -- From a node that both directions visited, the path is read without an error.
  path-Reads :
      (name_of : ℕ → String) (fv rv : NodeSet) (f : PathFinder) (node : ℕ)
      → FinderInv next (P.node_count g) from to fv rv f
      → fv node ≡ true
      → rv node ≡ true
      → Reads name_of (record f { intersection_node = some node })
  unfolding path
  path-Reads name_of fv rv f node kept hf hr =
      let n = P.node_count g in
      let (back, e₁, t₁) =
        follow-IsTrail (λ p x. Memᴰ x (next p)) from n (λ i. preceding_node_not_found (name_of i)) n
          node hf kept.parents (omega (arith, kept.parents.bounded node hf)) in
      let (on, e₂, t₂) =
        follow-IsTrail (λ c x. Memᴰ c (next x)) to n (λ i. following_node_not_found (name_of i)) n
          node hr kept.children (omega (arith, kept.children.bounded node hr)) in
      let (l, e₃, w₁) = IsWalk-of_trail next from node back t₁ in
      (
        l ++ on,
        rw (e₁, e₂) (ap (λ (r : List ℕ). ok (some (r ++ on))) e₃),
        IsWalk-append next from l on node to w₁ (IsWalk-of_forward_trail next to node on t₂),
      )

  path_of_Met :
      (name_of : ℕ → String) (u : PathFinder)
      → Met P g from to (finder_visitor from to) (FinderInv next (P.node_count g) from to) u
      → Reads name_of u
  unfolding finder_visitor
  path_of_Met name_of u met = subst (Reads name_of) (sym met.visited) (
      path-Reads name_of met.forward_visited met.reverse_visited met.before met.node met.kept
        met.in_forward met.in_reverse)

module _ {E T : Type 0} (trait : SortingPlugin E T) (P : Petgraph (PluginSortingData T)) where
  -- The outcome of `find_path`: a walk, or none and there is none; the graph has a fuller cache.
  pub record PathFound (graph : PluginsGraph trait P) (from to : ℕ)
      (result : Result PathfindingError (Option (List ℕ)) × PluginsGraph trait P) : Type 0 where
    pub same : result.1.inner ≡ graph.inner
    pub sound : IsCacheSound trait P result.1
    pub answer :
        ((l : List ℕ) × (result.0 ≡ ok (some (from ∷ l)))
          × IsWalk (next_of trait P graph) from l to)
        ⊎ (result.0 ≡ ok none) × ¬ (Reach (next_of trait P graph) from to)

  -- If the cache holds only pairs that a walk joins and both nodes are in the graph, `find_path`
  -- returns no error: it returns the nodes of a walk from the first node to the second one, or that
  -- there is no path and there is no walk. It keeps the graph, and leaves a cache that again holds
  -- only pairs that a walk joins.
  pub find_path-PathFound :
      (graph : PluginsGraph trait P) (from to : ℕ)
      → IsCacheSound trait P graph
      → from < P.node_count graph.inner
      → to < P.node_count graph.inner
      → PathFound graph from to (find_path trait P from to graph)
  unfolding find_path path_finder
  find_path-PathFound graph from to sound hf ht =
      go
        (bidirectional_bfs P graph.inner from to (finder_visitor from to)
          (path_finder graph.paths_cache))
        (bidirectional_bfs-Outcome P graph.inner from to (finder_visitor from to)
          (FinderInv (next_of trait P graph) (P.node_count graph.inner) from to)
          (finder_visitor-IsKept P graph.inner from to) (path_finder graph.paths_cache)
          (record {
            joined = AreJoined-start (next_of trait P graph) from to;
            sound = sound;
            parents = IsLinked-start _ from (P.node_count graph.inner) hf;
            children = IsLinked-start _ to (P.node_count graph.inner) ht;
          }))
    where
      go :
          (r : Bool × PathFinder)
          → Outcome P graph.inner from to
              (finder_visitor from to)
              (FinderInv (next_of trait P graph) (P.node_count graph.inner) from to)
              r
          → PathFound graph from to (
            if r.0
                then path
                    (λ i. name trait (P.index graph.inner i))
                    (P.node_count graph.inner)
                    from
                    to
                    r.1
                else ok none,
            record graph { paths_cache = r.1.cache },
          )
      go (true, u) met = record {
        same = refl;
        sound =
            subst (λ (f : PathFinder). IsSound (next_of trait P graph) f.cache) (sym met.visited)
              met.kept.sound;
        answer = inl (path_of_Met P graph.inner from to _ u met);
      }
      go (false, u) missed = record {
        same = refl;
        sound = missed.kept.sound;
        answer = inr (refl, missed.no_walk);
      }
