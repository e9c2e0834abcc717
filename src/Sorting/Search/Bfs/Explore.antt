-- ===== src/Sorting/Search/Bfs/Explore.antt =====
-- src/sorting/search.rs: what the loop over the neighbours of a node does to a frontier.
use libloot.Prelude.{
  ℕ, ◌+◌, ◌<◌, ◌≡◌, refl, ◌↔◌, ◌⊎◌, inl, inr, ⊎_elim, true, false, List, [], ◌∷◌, ◌++◌, Memᴰ,
  NodeSet, insert, missing, missing-insert, length, length-append, mem_cons, mem_concat,
  not_mem_nil, arith, Bool-cases,
}
use libloot.Sorting.Search.Bfs.{Frontier, offer, explore}

module _ {V : Type 0} (visit : ℕ → V → V) where
  -- Exactly the neighbours become visited.
  pub visited-explore :
      (adj : List ℕ) (fr : Frontier) (v : V) (w : ℕ)
      → ((explore visit adj (fr, v)).0.visited w ≡ true) ↔ ((fr.visited w ≡ true) ⊎ Memᴰ w adj)
  unfolding explore
  visited-explore [] fr v w = (inl, ⊎_elim (λ m. m) (λ new. absurd (not_mem_nil new)))
  visited-explore (x ∷ xs) fr v w = elim (Bool-cases (fr.visited x)) [
    | inl old ↦ ground (arith, visited-explore xs fr v w, mem_cons w x xs)
    | inr new ↦
        ground (arith, visited-explore xs (offer visit x (fr, v)).0 (visit x v) w, mem_cons w x xs)
  ]

  -- Exactly the nodes that become visited are queued.
  pub mem-queue-explore :
      (adj : List ℕ) (fr : Frontier) (v : V) (w : ℕ)
      → Memᴰ w (explore visit adj (fr, v)).0.queue ↔ (
          Memᴰ w fr.queue
          ⊎ ((explore visit adj (fr, v)).0.visited w ≡ true) × (fr.visited w ≡ false))
  unfolding explore
  mem-queue-explore [] fr v w = (inl, ⊎_elim (λ m. m) (λ (now, before). absurd (cc)))
  mem-queue-explore (x ∷ xs) fr v w = elim (Bool-cases (fr.visited x)) [
    | inl old ↦ ground (arith, mem-queue-explore xs fr v w)
    | inr new ↦ ground (
      arith,
      mem-queue-explore xs (offer visit x (fr, v)).0 (visit x v) w,
      visited-explore xs (offer visit x (fr, v)).0 (visit x v) w,
      mem_concat w x fr.queue,
    )
  ]

  -- A node that is queued is no longer missing from the visited set.
  pub work-explore :
      (n : ℕ) (adj : List ℕ) (fr : Frontier) (v : V)
      → ((x : ℕ) → Memᴰ x adj → x < n)
      → missing n (explore visit adj (fr, v)).0.visited + length (explore visit adj (fr, v)).0.queue
        ≡ missing n fr.visited + length fr.queue
  unfolding explore
  work-explore n [] fr v h = refl
  work-explore n (x ∷ xs) fr v h = elim (Bool-cases (fr.visited x)) [
    | inl old ↦ ground (arith, work-explore n xs fr v (λ y m. h y (Memᴰ.tail m)))
    | inr new ↦ ground (
      arith,
      work-explore n xs (offer visit x (fr, v)).0 (visit x v) (λ y m. h y (Memᴰ.tail m)),
      missing-insert n x fr.visited (h x (Memᴰ.head refl)) new,
      length-append fr.queue (x ∷ []),
    )
  ]

  -- An invariant of the visited set and the visitor that each callback keeps.
  pub explore_rule {κ} :
      (I : NodeSet → V → Type κ) (adj : List ℕ) (fr : Frontier) (v : V)
      → ((s : NodeSet) (u : V) (t : ℕ)
          → Memᴰ t adj
          → s t ≡ false
          → ((x : ℕ) → fr.visited x ≡ true → s x ≡ true)
          → I s u
          → I (insert t s) (visit t u))
      → I fr.visited v
      → I (explore visit adj (fr, v)).0.visited (explore visit adj (fr, v)).1
  unfolding explore
  explore_rule I [] fr v keep i = i
  explore_rule I (x ∷ xs) fr v keep i = elim (Bool-cases (fr.visited x)) [
    | inl old ↦ rw (old, explore) (explore_rule I xs fr v (λ s u t m. keep s u t (Memᴰ.tail m)) i)
    | inr new ↦
        rw (new, explore)
          (explore_rule I xs (record { queue = fr.queue ++ x ∷ []; visited = insert x fr.visited })
            (visit x v)
            (λ s u t m fresh more. keep s u t (Memᴰ.tail m) fresh (λ y h. more y (ground arith)))
            (keep fr.visited v x (Memᴰ.head refl) new (λ y h. h) i))
  ]
