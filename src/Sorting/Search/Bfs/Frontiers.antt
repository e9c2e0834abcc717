-- ===== src/Sorting/Search/Bfs/Frontiers.antt =====
-- src/sorting/search.rs: the invariant of one direction of the search.
use libloot.Prelude.{ℕ, ◌≡◌, ◌≢◌, ◌⊎◌, inl, true, List, [], ◌∷◌, Memᴰ, mem_cons, not_mem_nil, arith}
use libloot.Sorting.Graph.{Reach, here, step}
use libloot.Sorting.Search.Bfs.{Frontier, start, explore}
use libloot.Sorting.Search.Bfs.Explore.{visited-explore, mem-queue-explore}

-- A frontier that grows from `src` along `next`, and that has not taken `stop` off its queue.
pub record IsFrontier (next : ℕ → List ℕ) (src stop : ℕ) (fr : Frontier) : Type 0 where
  pub source : fr.visited src ≡ true
  pub queued : (x : ℕ) → Memᴰ x fr.queue → fr.visited x ≡ true
  pub closed :
      (x y : ℕ) → fr.visited x ≡ true → Memᴰ y (next x) → Memᴰ x fr.queue ⊎ (fr.visited y ≡ true)
  pub passed : (x : ℕ) → fr.visited x ≡ true → Memᴰ x fr.queue ⊎ (x ≢ stop)

module _ (next : ℕ → List ℕ) (src stop : ℕ) where
  pub start-IsFrontier : IsFrontier next src stop (start src)
  unfolding start
  start-IsFrontier = record {
    source = ground arith;
    queued = λ x m. ground (arith, mem_cons x src [], not_mem_nil {a = x});
    closed = λ x y v e. ground (arith, mem_cons x src []);
    passed = λ x v. ground (arith, mem_cons x src []);
  }

  -- A round takes the head off the queue and explores its neighbours.
  pub explore-IsFrontier :
      {V : Type 0} (visit : ℕ → V → V) (u : ℕ) (fr : Frontier) (v : V)
      → u ≢ stop
      → IsFrontier next src stop (record { queue = u ∷ fr.queue; visited = fr.visited })
      → IsFrontier next src stop (explore visit (next u) (fr, v)).0
  explore-IsFrontier visit u fr v ne h =
      let seen = λ (w : ℕ). visited-explore visit (next u) fr v w in
      let line = λ (w : ℕ). mem-queue-explore visit (next u) fr v w in
      record {
        source = (seen src).1 (inl h.source);
        queued = λ x m. ground (arith, line x, seen x, h.queued x, mem_cons x u fr.queue);
        closed =
            λ x y m e. ground (arith, line x, seen x, seen y, h.closed x y, mem_cons x u fr.queue);
        passed = λ x m. ground (arith, line x, seen x, h.passed x, mem_cons x u fr.queue);
      }

  -- With an empty queue everything that can be reached is visited, and it is not `stop`.
  pub visited_of_Reach :
      (fr : Frontier)
      → IsFrontier next src stop fr
      → fr.queue ≡ []
      → {x : ℕ} → Reach next src x
      → fr.visited x ≡ true
  visited_of_Reach fr h e here = h.source
  visited_of_Reach fr h e (step {b} {c} p m) =
      ground (arith, h.closed b c (visited_of_Reach fr h e p) m, not_mem_nil {a = b})

  pub not-Reach_of_empty :
      (fr : Frontier) → IsFrontier next src stop fr → fr.queue ≡ [] → ¬ (Reach next src stop)
  not-Reach_of_empty fr h e p =
      ground (arith, h.passed stop (visited_of_Reach fr h e p), not_mem_nil {a = stop})
