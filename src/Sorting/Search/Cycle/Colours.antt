-- ===== src/Sorting/Search/Cycle/Colours.antt =====
-- src/sorting/search.rs: the invariant of the search for a cycle. The nodes that are finished stand
-- in an order in which all successors of a node come after it.
use libloot.Prelude.{
  ℕ, ◌≡◌, sym, subst, ◌⊎◌, inl, inr, List, [], ◌∷◌, ◌++◌, map, Memᴰ, mem_cons, not_mem_nil,
}
use mathlib.Core.List.{reverse, reverse-cons}
use libloot.External.Petgraph.{Petgraph, EdgeRef}
use libloot.Sorting.Graph.{Reach, here, step}
use libloot.Sorting.Search.Dfs.{edges}
use libloot.Sorting.Search.Dfs.Ends.{mem_of_reverse, mem-target}

abbrev pub nodes_of : List (ℕ × List EdgeRef) → List ℕ
nodes_of = map (λ p. p.0)

abbrev pub targets : List EdgeRef → List ℕ
targets = map (λ e. e.target)

module _ (next : ℕ → List ℕ) where
  abbrev pub IsFinishedOrder : List ℕ → Type 0
  IsFinishedOrder [] = Unit
  IsFinishedOrder (x ∷ xs) = ((y : ℕ) → Memᴰ y (next x) → Memᴰ y xs) × IsFinishedOrder xs

  Reach-IsFinishedOrder :
      (l : List ℕ) {x y : ℕ} → IsFinishedOrder l → Memᴰ x l → Reach next x y → Memᴰ y l
  Reach-IsFinishedOrder l h m here = m
  Reach-IsFinishedOrder l h m (step {b = b} {c = c} r e) =
      closed l h (Reach-IsFinishedOrder l h m r) e
    where
      closed : (l : List ℕ) → IsFinishedOrder l → Memᴰ b l → Memᴰ c (next b) → Memᴰ c l
      closed [] h m e = absurd (not_mem_nil m)
      closed (x ∷ xs) h m e = elim ((mem_cons b x xs).0 m) [
        | inl same ↦ Memᴰ.tail (h.0 c (subst (λ w. Memᴰ c (next w)) same e))
        | inr m' ↦ Memᴰ.tail (closed xs h.1 m' e)
      ]

  -- No node of such an order is on a cycle.
  pub no_cycle_in_order :
      (l : List ℕ) (x y : ℕ) → IsFinishedOrder l → Memᴰ x l → Memᴰ y (next x) → ¬ (Reach next y x)
  no_cycle_in_order [] x y h m e r = not_mem_nil m
  no_cycle_in_order (z ∷ zs) x y h m e r = elim ((mem_cons x z zs).0 m) [
    | inl same ↦
        let y_in = h.0 y (subst (λ w. Memᴰ y (next w)) same e) in
        no_cycle_in_order zs x y h.1 (Reach-IsFinishedOrder zs h.1 y_in r) e r
    | inr m' ↦ no_cycle_in_order zs x y h.1 m' e r
  ]

  abbrev pub OwnEdges : ℕ → List EdgeRef → Type 0
  OwnEdges n es = (e : EdgeRef) → Memᴰ e es → (e.source ≡ n) × Memᴰ e.target (next n)

  -- What holds of a stack under a node `child`, with the finished nodes `order`.
  abbrev pub IsBelow : List ℕ → ℕ → List (ℕ × List EdgeRef) → Type 0
  IsBelow order child [] = Unit
  IsBelow order child ((m, es) ∷ below) =
      Memᴰ child (next m)
      × OwnEdges m es
      × ((y : ℕ) → Memᴰ y (next m) → Memᴰ y (targets es) ⊎ (Memᴰ y order ⊎ (y ≡ child)))
      × IsBelow order m below

  abbrev pub IsStack : List ℕ → List (ℕ × List EdgeRef) → Type 0
  IsStack order [] = Unit
  IsStack order ((n, es) ∷ below) =
      OwnEdges n es
      × ((y : ℕ) → Memᴰ y (next n) → Memᴰ y (targets es) ⊎ Memᴰ y order)
      × IsBelow order n below

  IsBelow-more :
      (order : List ℕ) (x child : ℕ) (below : List (ℕ × List EdgeRef))
      → IsBelow order child below
      → IsBelow (x ∷ order) child below
  IsBelow-more order x child [] h = tt
  IsBelow-more order x child ((m, es) ∷ below) (edge, own, cover, rest) = (
    edge,
    own,
    λ y e. elim (cover y e) [
      | inl t ↦ inl t
      | inr (inl o) ↦ inr (inl (Memᴰ.tail o))
      | inr (inr c) ↦ inr (inr c)
    ],
    IsBelow-more order x m below rest,
  )

  -- The top of the stack is finished.
  pub IsStack-pop :
      (order : List ℕ) (n : ℕ) (below : List (ℕ × List EdgeRef))
      → IsBelow order n below
      → IsStack (n ∷ order) below
  IsStack-pop order n [] h = tt
  IsStack-pop order n ((m, es) ∷ below) (edge, own, cover, rest) = (
    own,
    λ y e. elim (cover y e) [
      | inl t ↦ inl t
      | inr (inl o) ↦ inr (Memᴰ.tail o)
      | inr (inr c) ↦ inr (Memᴰ.head c)
    ],
    IsBelow-more order n m below rest,
  )

  -- Each node of the stack leads to its top.
  pub Reach-top :
      (order : List ℕ) (n : ℕ) (below : List (ℕ × List EdgeRef)) (x : ℕ)
      → IsBelow order n below
      → Memᴰ x (n ∷ nodes_of below)
      → Reach next x n
  Reach-top order n [] x h m = elim ((mem_cons x n []).0 m) [
    | inl e ↦ subst (λ w. Reach next w n) (sym e) here
    | inr m' ↦ absurd (not_mem_nil m')
  ]
  Reach-top order n ((m, es) ∷ below) x (edge, own, cover, rest) mem =
      elim ((mem_cons x n (m ∷ nodes_of below)).0 mem) [
        | inl e ↦ subst (λ w. Reach next w n) (sym e) here
        | inr m' ↦ step (Reach-top order m below x rest m') edge
      ]

  -- The edge at hand leaves the list, where its target is finished or goes on top of the stack.
  pub cover-rest :
      (order : List ℕ) (n : ℕ) (e : EdgeRef) (es : List EdgeRef)
      → ((y : ℕ) → Memᴰ y (next n) → Memᴰ y (targets (e ∷ es)) ⊎ Memᴰ y order)
      → (y : ℕ) → Memᴰ y (next n)
      → Memᴰ y (targets es) ⊎ (Memᴰ y order ⊎ (y ≡ e.target))
  cover-rest order n e es cover y m = elim (cover y m) [
    | inl t ↦ elim ((mem_cons y e.target (targets es)).0 t) [
      | inl same ↦ inr (inr same)
      | inr t' ↦ inl t'
    ]
    | inr o ↦ inr (inl o)
  ]

module _ {N : Type 0} (P : Petgraph N) (g : Petgraph.Graph P) where
  mem_to_reverse : (es : List EdgeRef) (y : ℕ) → Memᴰ y (targets es) → Memᴰ y (targets (reverse es))
  mem_to_reverse [] y m = m
  mem_to_reverse (d ∷ es) y m =
      subst (λ l. Memᴰ y (targets l)) (sym (reverse-cons d es))
        (elim ((mem_cons y d.target (targets es)).0 m) [
          | inl same ↦ at_end (reverse es) same
          | inr m' ↦ before (reverse es) (mem_to_reverse es y m')
        ])
    where
      at_end : (l : List EdgeRef) → y ≡ d.target → Memᴰ y (targets (l ++ d ∷ []))
      at_end [] e = Memᴰ.head e
      at_end (x ∷ l) e = Memᴰ.tail (at_end l e)

      before : (l : List EdgeRef) → Memᴰ y (targets l) → Memᴰ y (targets (l ++ d ∷ []))
      before [] m = absurd (not_mem_nil m)
      before (x ∷ l) m = elim ((mem_cons y x.target (targets l)).0 m) [
        | inl e ↦ Memᴰ.head e
        | inr m' ↦ Memᴰ.tail (before l m')
      ]

  -- A node with all its edges ahead.
  pub edges-OwnEdges : (n : ℕ) → OwnEdges (P.neighbors g) n (edges P g n)
  unfolding edges
  edges-OwnEdges n e m =
      let m' = mem_of_reverse P g (P.edges g n) e m in
      (
        P.edges_source g n e m',
        subst (Memᴰ e.target) (P.edges_target g n) (mem-target P g (P.edges g n) e m'),
      )

  pub edges-cover : (n y : ℕ) → Memᴰ y (P.neighbors g n) → Memᴰ y (targets (edges P g n))
  unfolding edges
  edges-cover n y m = mem_to_reverse (P.edges g n) y (subst (Memᴰ y) (sym (P.edges_target g n)) m)
