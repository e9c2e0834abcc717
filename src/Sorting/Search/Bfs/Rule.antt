-- ===== src/Sorting/Search/Bfs/Rule.antt =====
-- src/sorting/search.rs: the invariant of the bidirectional search, and its outcome.
use libloot.Prelude.{
  ℕ, zero, suc, ◌+◌, ◌≤◌, ◌<◌, ◌≡◌, refl, inl, inr, Bool, true, false, ◌||◌, List, [], ◌∷◌, Memᴰ,
  NodeSet, insert, missing, missing-le, empty_set, eq-nil_of_length, length, ◌==◌, arith,
  Bool-cases,
}
use libloot.External.Petgraph.{Petgraph}
use libloot.Sorting.Graph.{Reach, Reach-reverse}
use libloot.Sorting.Search.Bfs.{
  BidirBfsVisitor, Frontier, start, explore, Round, finished, again, reverse_half, forward_half,
  round, loop, bidirectional_bfs,
}
use libloot.Sorting.Search.Bfs.Explore.{explore_rule, work-explore}
use libloot.Sorting.Search.Bfs.Frontiers.{
  IsFrontier, start-IsFrontier, explore-IsFrontier, not-Reach_of_empty,
}

module _ {N : Type 0} (P : Petgraph N) (g : Petgraph.Graph P) (from to : ℕ) {V : Type 0}
    (visitor : BidirBfsVisitor V) where
  open P use {neighbors, incoming, node_count, mem-incoming_iff, mem-neighbors-lt}
  open visitor use {visit_forward_bfs_edge, visit_reverse_bfs_edge, visit_intersection_node}

  abbrev pub neighbors_of : ℕ → List ℕ
  neighbors_of a = neighbors g a

  abbrev pub incoming_of : ℕ → List ℕ
  incoming_of a = incoming g a

  -- An invariant of the two visited sets and the visitor that the callbacks keep.
  pub record IsKept {κ} (I : NodeSet → NodeSet → V → Type κ) : Type κ where
    pub forward :
        (fv rv : NodeSet) (v : V) (s t : ℕ)
        → I fv rv v
        → fv s ≡ true
        → Memᴰ t (neighbors g s)
        → fv t ≡ false
        → I (insert t fv) rv (visit_forward_bfs_edge s t v)
    pub reverse :
        (fv rv : NodeSet) (v : V) (s t : ℕ)
        → I fv rv v
        → rv t ≡ true
        → Memᴰ t (neighbors g s)
        → rv s ≡ false
        → I fv (insert s rv) (visit_reverse_bfs_edge s t v)

  -- What holds when the search reports a common node, and when it reports none.
  pub record Met {κ} (I : NodeSet → NodeSet → V → Type κ) (u : V) : Type κ where
    pub forward_visited : NodeSet
    pub reverse_visited : NodeSet
    pub before : V
    pub node : ℕ
    pub kept : I forward_visited reverse_visited before
    pub in_forward : forward_visited node ≡ true
    pub in_reverse : reverse_visited node ≡ true
    pub visited : u ≡ visit_intersection_node node before

  pub record Missed {κ} (I : NodeSet → NodeSet → V → Type κ) (u : V) : Type κ where
    pub forward_visited : NodeSet
    pub reverse_visited : NodeSet
    pub kept : I forward_visited reverse_visited u
    pub no_walk : ¬ (Reach neighbors_of from to)

  abbrev explored : ℕ → Frontier → V → Frontier × V
  explored f fwd v =
      explore (λ adjacent. visit_forward_bfs_edge f adjacent) (neighbors g f) (fwd, v)

  module _ {κ} (I : NodeSet → NodeSet → V → Type κ) where
    -- What a result of the search means.
    abbrev pub Outcome : Bool × V → Type κ
    Outcome (true, u) = Met I u
    Outcome (false, u) = Missed I u

    record Going (fwd rev : Frontier) (v : V) : Type κ where
      fwd_ok : IsFrontier neighbors_of from to fwd
      rev_ok : IsFrontier incoming_of to from rev
      kept : I fwd.visited rev.visited v

    abbrev work : Frontier → ℕ
    work fwd = missing (node_count g) fwd.visited + length fwd.queue

    abbrev RoundOk : ℕ → Round V → Type κ
    RoundOk n (finished true u) = Met I u
    RoundOk n (finished false u) = Missed I u
    RoundOk n (again fwd rev v) = Going fwd rev v × (work fwd < n)

    module _ (keep : IsKept I) where
      reverse_half-Ok :
          (n r : ℕ) (fwd rev : Frontier) (v : V)
          → IsFrontier neighbors_of from to fwd
          → IsFrontier incoming_of to from (record { queue = r ∷ rev.queue; visited = rev.visited })
          → I fwd.visited rev.visited v
          → work fwd < n
          → RoundOk n (reverse_half P g from to visitor r fwd rev v)
      unfolding reverse_half
      reverse_half-Ok n r fwd rev v hf hr i lt = elim (Bool-cases (r == from || fwd.visited r)) [
        | inl met ↦
            rw (met, reverse_half)
              (record {
                forward_visited = fwd.visited;
                reverse_visited = rev.visited;
                before = v;
                node = r;
                kept = i;
                in_forward = ground (arith, hf.source);
                in_reverse = hr.queued r (Memᴰ.head refl);
                visited = refl;
              })
        | inr other ↦
            rw (other, reverse_half)
              (
                record {
                  fwd_ok = hf;
                  rev_ok =
                      explore-IsFrontier incoming_of to from
                        (λ adjacent. visit_reverse_bfs_edge adjacent r) r rev v (ground arith) hr;
                  kept =
                      explore_rule (λ adjacent. visit_reverse_bfs_edge adjacent r)
                        (λ s u. I fwd.visited s u) (incoming g r) rev v
                        (λ s u t m fresh more j.
                          keep.reverse fwd.visited s u t r j (more r (hr.queued r (Memᴰ.head refl)))
                            ((mem-incoming_iff g t r).0 m) fresh)
                        i;
                },
                lt,
              )
      ]

      forward_half-Ok :
          (n f r : ℕ) (fwd rev : Frontier) (v : V)
          → IsFrontier neighbors_of from to
              (record { queue = f ∷ fwd.queue; visited = fwd.visited })
          → IsFrontier incoming_of to from (record { queue = r ∷ rev.queue; visited = rev.visited })
          → I fwd.visited rev.visited v
          → suc (work fwd) ≡ n
          → RoundOk n (forward_half P g from to visitor f r fwd rev v)
      unfolding forward_half
      forward_half-Ok n f r fwd rev v hf hr i e = elim (Bool-cases (f == to || rev.visited f)) [
        | inl met ↦
            rw (met, forward_half)
              (record {
                forward_visited = fwd.visited;
                reverse_visited = rev.visited;
                before = v;
                node = f;
                kept = i;
                in_forward = hf.queued f (Memᴰ.head refl);
                in_reverse = ground (arith, hr.source);
                visited = refl;
              })
        | inr other ↦
            rw (other, forward_half)
              (reverse_half-Ok n r (explored f fwd v).0 rev (explored f fwd v).1
                (explore-IsFrontier neighbors_of from to
                  (λ adjacent. visit_forward_bfs_edge f adjacent) f fwd v (ground arith) hf)
                hr
                (explore_rule (λ adjacent. visit_forward_bfs_edge f adjacent)
                  (λ s u. I s rev.visited u) (neighbors g f) fwd v
                  (λ s u t m fresh more j.
                    keep.forward s rev.visited u f t j (more f (hf.queued f (Memᴰ.head refl))) m
                      fresh)
                  i)
                (omega (
                  arith,
                  work-explore (λ adjacent. visit_forward_bfs_edge f adjacent) (node_count g)
                      (neighbors g f) fwd v (λ x m. (mem-neighbors-lt g f x m).1),
                )))
      ]

      round-Ok :
          (n : ℕ) (fq rq : List ℕ) (fv rv : NodeSet) (v : V)
          → Going (record { queue = fq; visited = fv }) (record { queue = rq; visited = rv }) v
          → work (record { queue = fq; visited = fv }) ≡ n
          → RoundOk n (round P g from to visitor fq rq fv rv v)
      unfolding round
      round-Ok n (f ∷ fs) (r ∷ rs) fv rv v h e =
          forward_half-Ok n f r (record { queue = fs; visited = fv })
            (record { queue = rs; visited = rv }) v h.fwd_ok h.rev_ok h.kept (omega (arith, e))
      round-Ok n (f ∷ fs) [] fv rv v h e = record {
        forward_visited = fv;
        reverse_visited = rv;
        kept = h.kept;
        no_walk = λ p.
            not-Reach_of_empty incoming_of to from (record { queue = []; visited = rv }) h.rev_ok
              refl (Reach-reverse (λ x y m. (mem-incoming_iff g x y).1 m) p);
      }
      round-Ok n [] rq fv rv v h e = record {
        forward_visited = fv;
        reverse_visited = rv;
        kept = h.kept;
        no_walk =
            not-Reach_of_empty neighbors_of from to (record { queue = []; visited = fv }) h.fwd_ok
              refl;
      }

      loop-Outcome :
          (fuel : ℕ) (fwd rev : Frontier) (v : V)
          → Going fwd rev v
          → work fwd ≤ fuel
          → Outcome (loop P g from to visitor fuel fwd rev v)
      unfolding loop
      loop-Outcome zero fwd rev v h le = record {
        forward_visited = fwd.visited;
        reverse_visited = rev.visited;
        kept = h.kept;
        no_walk =
            not-Reach_of_empty neighbors_of from to fwd h.fwd_ok
              (eq-nil_of_length fwd.queue (omega arith));
      }
      loop-Outcome (suc fuel) fwd rev v h le =
          go (round P g from to visitor fwd.queue rev.queue fwd.visited rev.visited v)
            (round-Ok (work fwd) fwd.queue rev.queue fwd.visited rev.visited v h refl)
            (loop-Outcome fuel)
        where
          go :
              (r : Round V)
              → RoundOk (work fwd) r
              → ((fwd' rev' : Frontier) (v' : V)
                  → Going fwd' rev' v'
                  → work fwd' ≤ fuel
                  → Outcome (loop P g from to visitor fuel fwd' rev' v'))
              → Outcome (elim r [
                | finished found v' ↦ (found, v')
                | again fwd' rev' v' ↦ loop P g from to visitor fuel fwd' rev' v'
              ])
          go (finished true u) ok rec = ok
          go (finished false u) ok rec = ok
          go (again fwd' rev' v') ok rec = rec fwd' rev' v' ok.0 (omega (arith, ok.1))

      -- The search reports a node in both visited sets, or there is no walk, and what the callbacks
      -- keep holds either way.
      pub bidirectional_bfs-Outcome :
          (v : V)
          → I (insert from empty_set) (insert to empty_set) v
          → Outcome (bidirectional_bfs P g from to visitor v)
      unfolding bidirectional_bfs
      bidirectional_bfs-Outcome v i =
          loop-Outcome (suc (node_count g)) (start from) (start to) v
            (record {
              fwd_ok = start-IsFrontier neighbors_of from to;
              rev_ok = start-IsFrontier incoming_of to from;
              kept = i;
            })
            (omega (arith, missing-le (node_count g) (insert from empty_set)))
