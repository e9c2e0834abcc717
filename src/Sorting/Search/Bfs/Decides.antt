-- ===== src/Sorting/Search/Bfs/Decides.antt =====
-- src/sorting/search.rs: the answer of the bidirectional search, whatever the visitor.
use libloot.Prelude.{ℕ, ◌≡◌, refl, ◌↔◌, Bool, true, false}
use libloot.External.Petgraph.{Petgraph}
use libloot.Sorting.Graph.{Reach}
use libloot.Sorting.Search.Bfs.{BidirBfsVisitor, bidirectional_bfs}
use libloot.Sorting.Search.Bfs.Rule.{bidirectional_bfs-Outcome, Outcome}
use libloot.Sorting.Search.Bfs.Walks.{
  AreJoined, AreJoined-start, AreJoined-forward, AreJoined-reverse, Reach-of_both,
}

-- In any graph and for any visitor, the search answers `true` exactly if a walk leads from the
-- first node to the second one.
pub bidirectional_bfs_iff :
    {N : Type 0} (P : Petgraph N) (g : Petgraph.Graph P) (from to : ℕ) {V : Type 0}
    (visitor : BidirBfsVisitor V) (v : V)
    → ((bidirectional_bfs P g from to visitor v).0 ≡ true) ↔ Reach (P.neighbors g) from to
bidirectional_bfs_iff P g from to {V = V} visitor v = go (bidirectional_bfs P g from to visitor v) (
    bidirectional_bfs-Outcome P g from to visitor
      (λ fv rv u. AreJoined (P.neighbors g) from to fv rv)
      (record {
        forward = λ fv rv u s t i h m e. AreJoined-forward (P.neighbors g) from to i s t h m;
        reverse = λ fv rv u s t i h m e. AreJoined-reverse (P.neighbors g) from to i s t h m;
      })
      v (AreJoined-start (P.neighbors g) from to))
  where
    go :
        (r : Bool × V)
        → Outcome P g from to visitor (λ fv rv u. AreJoined (P.neighbors g) from to fv rv) r
        → (r.0 ≡ true) ↔ Reach (P.neighbors g) from to
    go (true, u) met = (
      λ e. Reach-of_both (P.neighbors g) from to met.kept met.node met.in_forward met.in_reverse,
      λ r. refl,
    )
    go (false, u) missed = (λ e. absurd (cc), λ r. absurd (missed.no_walk r))
