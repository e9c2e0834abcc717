-- ===== src/Sorting/Search/Dfs/Ends.antt =====
-- src/sorting/search.rs: the rounds that the depth-first search takes.
use libloot.Prelude.{
  ℕ, zero, suc, ◌+◌, ◌<◌, ◌≤◌, ◌≡◌, refl, sym, subst, inl, inr, Bool, true, false, List, [], ◌∷◌,
  map, Memᴰ, mem_cons, mem_concat, not_mem_nil, Option, none, some, ap, NodeMap, insert_at, length,
  ◌==◌, Bool-cases, if◌then◌else◌, arith,
}
use mathlib.Core.List.{reverse, reverse-cons}
use libloot.External.Petgraph.{Petgraph, EdgeRef}
use libloot.Sorting.Search.Dfs.{
  DfsVisitor, Colour, white, grey, black, colour_of, DfsState, edges, rounds, on_edge, dfs_step,
  dfs_loop, depth_first_search,
}

-- The colour of a node after one has been coloured.
colour_if :
    (b : Bool) (c : Colour) (o : Option Colour)
    → (elim (if b then some c else o) as (λ x. Colour) [ none ↦ white | some d ↦ d ])
      ≡ (if b then c else elim o as (λ x. Colour) [ none ↦ white | some d ↦ d ])
colour_if true c o = refl
colour_if false c o = refl

pub colour_of-insert_at :
    (k : ℕ) (c : Colour) (colours : NodeMap Colour) (n : ℕ)
    → colour_of (insert_at k c colours) n ≡ (if n == k then c else colour_of colours n)
colour_of-insert_at k c colours n = colour_if (n == k) c (colours n)

module _ {N : Type 0} (P : Petgraph N) (g : Petgraph.Graph P) where
  -- The rounds that the nodes below a bound may still take.
  abbrev weight : Colour → ℕ → ℕ
  weight white n = suc (length (edges P g n))
  weight grey n = 0
  weight black n = 0

  abbrev unseen : ℕ → NodeMap Colour → ℕ
  unseen zero colours = 0
  unseen (suc n) colours = weight (colour_of colours n) n + unseen n colours

  -- The rounds that a stack may take.
  abbrev pending : List (ℕ × List EdgeRef) → ℕ
  pending [] = 0
  pending ((n, es) ∷ below) = suc (length es) + pending below

  weight_le : (c : Colour) (n : ℕ) → weight c n ≤ suc (length (edges P g n))
  weight_le white n = omega arith
  weight_le grey n = omega arith
  weight_le black n = omega arith

  unseen_le : (n : ℕ) (colours : NodeMap Colour) → unseen n colours ≤ rounds P g n
  unfolding rounds
  unseen_le zero colours = omega arith
  unseen_le (suc n) colours = omega (arith, unseen_le n colours, weight_le (colour_of colours n) n)

  weight-insert_at :
      (k : ℕ) (c : Colour) (colours : NodeMap Colour) (n : ℕ) (b : Bool)
      → (n == k) ≡ b
      → weight (colour_of (insert_at k c colours) n) n
        ≡ weight (if b then c else colour_of colours n) n
  weight-insert_at k c colours n b e =
      ap (λ d. weight d n)
        (subst (λ b'. colour_of (insert_at k c colours) n ≡ (if b' then c else colour_of colours n))
          e (colour_of-insert_at k c colours n))

  -- Colouring a node takes away what it weighed.
  unseen-insert_at :
      (n k : ℕ) (c : Colour) (colours : NodeMap Colour)
      → ((i : ℕ) → weight c i ≡ 0)
      → unseen n (insert_at k c colours) ≤ unseen n colours
  unseen-insert_at zero k c colours h = omega arith
  unseen-insert_at (suc n) k c colours h = elim (Bool-cases (n == k)) [
    | inl e ↦
        omega (arith, h n, weight-insert_at k c colours n true e, unseen-insert_at n k c colours h)
    | inr e ↦
        omega (arith, weight-insert_at k c colours n false e, unseen-insert_at n k c colours h)
  ]

  unseen-insert_white :
      (n k : ℕ) (colours : NodeMap Colour)
      → k < n
      → colour_of colours k ≡ white
      → suc (length (edges P g k)) + unseen n (insert_at k grey colours) ≤ unseen n colours
  unseen-insert_white zero k colours h w = absurd (omega arith)
  unseen-insert_white (suc n) k colours h w = elim (Bool-cases (n == k)) [
    | inl e ↦
        let same : n ≡ k = ground arith in
        omega (
          arith,
          unseen-insert_at n k grey colours (λ i. refl),
          weight-insert_at k grey colours n true e,
          subst (λ x. weight (colour_of colours x) x ≡ suc (length (edges P g k))) (sym same)
              (ap (λ d. weight d k) w),
        )
    | inr e ↦ omega (
      arith,
      weight-insert_at k grey colours n false e,
      unseen-insert_white n k colours (ground arith) w,
    )
  ]

  -- The edges on a stack lead to nodes of the graph.
  abbrev AllInside : List EdgeRef → Type 0
  AllInside es = (e : EdgeRef) → Memᴰ e es → e.target < P.node_count g

  abbrev IsInside : List (ℕ × List EdgeRef) → Type 0
  IsInside [] = Unit
  IsInside ((n, es) ∷ below) = AllInside es × IsInside below

  pub mem-target :
      (es : List EdgeRef) (e : EdgeRef)
      → Memᴰ e es
      → Memᴰ e.target (map (λ (d : EdgeRef). d.target) es)
  mem-target [] e m = absurd (not_mem_nil m)
  mem-target (d ∷ es) e m = elim ((mem_cons e d es).0 m) [
    | inl same ↦ Memᴰ.head (ap (λ (x : EdgeRef). x.target) same)
    | inr m' ↦ Memᴰ.tail (mem-target es e m')
  ]

  pub mem_of_reverse : (es : List EdgeRef) (e : EdgeRef) → Memᴰ e (reverse es) → Memᴰ e es
  mem_of_reverse [] e m = m
  mem_of_reverse (d ∷ es) e m =
      elim ((mem_concat e d (reverse es)).0 (subst (Memᴰ e) (reverse-cons d es) m)) [
        | inl m' ↦ Memᴰ.tail (mem_of_reverse es e m')
        | inr same ↦ Memᴰ.head same
      ]

  edges-AllInside : (n : ℕ) → AllInside (edges P g n)
  unfolding edges
  edges-AllInside n e m =
      (P.mem-neighbors-lt g n e.target (
        subst (Memᴰ e.target) (P.edges_target g n)
          (mem-target (P.edges g n) e (mem_of_reverse (P.edges g n) e m)))).1

  module _ {V : Type 0} (dfs : DfsVisitor V) where
    -- The rounds that a state may take.
    abbrev left : DfsState V → ℕ
    left s = pending s.stack + unseen (P.node_count g) s.colours

    on_edge-left :
        (c : Colour) (e : EdgeRef) (below : List (ℕ × List EdgeRef)) (colours : NodeMap Colour)
        (v : V)
        → colour_of colours e.target ≡ c
        → e.target < P.node_count g
        → IsInside below
        → (left (on_edge P g dfs c e below colours v)
            ≤ pending below + unseen (P.node_count g) colours)
          × IsInside (on_edge P g dfs c e below colours v).stack
    unfolding on_edge
    on_edge-left white e below colours v w h k = (
      omega (arith, unseen-insert_white (P.node_count g) e.target colours h w),
      (edges-AllInside e.target, k),
    )
    on_edge-left grey e below colours v w h k = (omega arith, k)
    on_edge-left black e below colours v w h k = (omega arith, k)

    dfs_step-left :
        (n : ℕ) (es : List EdgeRef) (below : List (ℕ × List EdgeRef)) (colours : NodeMap Colour)
        (v : V)
        → IsInside ((n, es) ∷ below)
        → (left (dfs_step P g dfs n es below colours v)
            < pending ((n, es) ∷ below) + unseen (P.node_count g) colours)
          × IsInside (dfs_step P g dfs n es below colours v).stack
    unfolding dfs_step
    dfs_step-left n [] below colours v k =
        (omega (arith, unseen-insert_at (P.node_count g) n black colours (λ i. refl)), k.1)
    dfs_step-left n (e ∷ es) below colours v k =
        let h =
          on_edge-left (colour_of colours e.target) e ((n, es) ∷ below) colours v refl
            (k.0 e (Memᴰ.head refl)) (λ d m. k.0 d (Memᴰ.tail m), k.1) in
        (omega (arith, h.0), h.1)

    dfs_loop-ends :
        (fuel : ℕ) (s : DfsState V)
        → left s ≤ fuel
        → IsInside s.stack
        → (dfs_loop P g dfs fuel s).stack ≡ []
    unfolding dfs_loop
    dfs_loop-ends zero s h k = no_rounds s.stack (omega arith)
      where
        no_rounds : (stack : List (ℕ × List EdgeRef)) → pending stack ≤ 0 → stack ≡ []
        no_rounds [] h = refl
        no_rounds ((n, es) ∷ below) h = absurd (omega arith)
    dfs_loop-ends (suc fuel) s h k = go s.stack refl h k (dfs_loop-ends fuel)
      where
        go :
            (stack : List (ℕ × List EdgeRef))
            → s.stack ≡ stack
            → pending stack + unseen (P.node_count g) s.colours ≤ suc fuel
            → IsInside stack
            → ((s' : DfsState V)
                → left s' ≤ fuel
                → IsInside s'.stack
                → (dfs_loop P g dfs fuel s').stack ≡ [])
            → (elim stack as (λ x. DfsState V) [
              | [] ↦ s
              | (current, unprocessed) ∷ below ↦
                  dfs_loop P g dfs fuel
                    (dfs_step P g dfs current unprocessed below s.colours s.visitor)
            ]).stack
              ≡ []
        go [] e h k rec = e
        go ((n, es) ∷ below) e h k rec =
            let step = dfs_step-left n es below s.colours s.visitor k in
            rec (dfs_step P g dfs n es below s.colours s.visitor) (omega (arith, step.0)) step.1

    -- The state in which the search starts.
    abbrev pub first_state : ℕ → NodeMap Colour → V → DfsState V
    first_state start colours v = record {
      stack = (start, edges P g start) ∷ [];
      colours = insert_at start grey colours;
      visitor = dfs.discover_node start v;
    }

    -- From any node and any colours, some number of rounds empties the stack of the search, and the
    -- search returns the colours and the visitor that it then has.
    pub depth_first_search_ends :
        (start : ℕ) (colours : NodeMap Colour) (v : V)
        → (fuel : ℕ) × ((dfs_loop P g dfs fuel (first_state start colours v)).stack ≡ [])
          × (depth_first_search P g dfs start colours v ≡ (
            (dfs_loop P g dfs fuel (first_state start colours v)).colours,
            (dfs_loop P g dfs fuel (first_state start colours v)).visitor,
          ))
    unfolding depth_first_search
    depth_first_search_ends start colours v = (
      suc (length (edges P g start)) + rounds P g (P.node_count g),
      dfs_loop-ends (suc (length (edges P g start)) + rounds P g (P.node_count g))
          (first_state start colours v)
          (omega (arith, unseen_le (P.node_count g) (insert_at start grey colours)))
          (edges-AllInside start, tt),
      refl,
    )
