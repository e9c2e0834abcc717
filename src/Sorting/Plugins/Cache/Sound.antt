-- ===== src/Sorting/Plugins/Cache/Sound.antt =====
-- src/sorting/plugins.rs: what the cache of paths holds.
use libloot.Prelude.{
  ℕ, ◌≡◌, ◌↔◌, ◌⊎◌, inl, inr, true, List, NodeSet, arith, refl, Bool, Option, none, some,
  if◌then◌else◌, ◌==◌, Bool-cases,
}
use libloot.External.Petgraph.{Petgraph}
use libloot.Sorting.Graph.{Reach}
use libloot.Sorting.Search.Bfs.Rule.{IsKept}
use libloot.Sorting.Search.Bfs.Walks.{AreJoined, AreJoined-forward, AreJoined-reverse}
use libloot.Sorting.Plugins.Cache.{
  PathsCache, is_some_and, entry_or_default, cache_path, is_path_cached, path_cacher,
}

is_some_and_lem : (o : Option NodeSet) (b : ℕ) → is_some_and o b ≡ entry_or_default o b
is_some_and_lem none b = refl
is_some_and_lem (some s) b = refl

either_iff :
    (old : Bool) (x b y : ℕ)
    → ((if b == y then true else old) ≡ true) ↔ (((x ≡ x) × (b ≡ y)) ⊎ (old ≡ true))
either_iff old x b y = ground arith

==_refl : (x : ℕ) → (x == x) ≡ true
==_refl x = ground arith

pub is_path_cached-cache_path :
    (a b x y : ℕ) (cache : PathsCache)
    → (is_path_cached a b (cache_path x y cache) ≡ true)
      ↔ (((a ≡ x) × (b ≡ y)) ⊎ (is_path_cached a b cache ≡ true))
unfolding is_path_cached cache_path
is_path_cached-cache_path a b x y cache = elim (Bool-cases (a == x)) [
  | inl same ↦
      let e : a ≡ x = ground arith in
      rw e (
        rw (is_some_and_lem (cache x) b, is_path_cached)
          (rw (==_refl x, is_path_cached, cache_path)
            (either_iff (entry_or_default (cache x) b) x b y)))
  | inr other ↦ rw (other, is_path_cached, cache_path) (ground arith)
]

-- Every cached pair is joined by a walk.
abbrev pub IsSound : (ℕ → List ℕ) → PathsCache → Type 0
IsSound next cache = (a b : ℕ) → is_path_cached a b cache ≡ true → Reach next a b

pub cache_path-IsSound :
    (next : ℕ → List ℕ) (x y : ℕ) (cache : PathsCache)
    → Reach next x y
    → IsSound next cache
    → IsSound next (cache_path x y cache)
cache_path-IsSound next x y cache p sound a b h =
    elim ((is_path_cached-cache_path a b x y cache).0 h) [
      | inl (ea, eb) ↦ rw (ea, eb) p
      | inr old ↦ sound a b old
    ]

-- What the visitor that fills the cache keeps.
pub record CacherInv (next : ℕ → List ℕ) (from to : ℕ) (fv rv : NodeSet) (cache : PathsCache)
    : Type 0 where
  pub joined : AreJoined next from to fv rv
  pub sound : IsSound next cache

pub path_cacher-IsKept :
    {N : Type 0} (P : Petgraph N) (g : Petgraph.Graph P) (from to : ℕ)
    → IsKept P g from to (path_cacher from to) (CacherInv (P.neighbors g) from to)
unfolding path_cacher
path_cacher-IsKept P g from to = record {
  forward = λ fv rv cache s t i h m fresh.
      let joined = AreJoined-forward (P.neighbors g) from to i.joined s t h m in
      record {
        joined = joined;
        sound =
            cache_path-IsSound (P.neighbors g) from t cache (joined.forward t (ground arith))
              i.sound;
      };
  reverse = λ fv rv cache s t i h m fresh.
      let joined = AreJoined-reverse (P.neighbors g) from to i.joined s t h m in
      record {
        joined = joined;
        sound =
            cache_path-IsSound (P.neighbors g) s to cache (joined.reverse s (ground arith)) i.sound;
      };
}
