-- ===== src/External/Petgraph/Sample.antt =====
-- Graphs that are built by the operations of the interface: an instance of it for the examples.
use libloot.Prelude.{
  ℕ, suc, ◌<◌, ◌≡◌, refl, ◌↔◌, ◌⊎◌, inl, inr, Bool, true, ◌&&◌, ◌==◌, ==_iff, ltb, if◌then◌else◌,
  Option, none, some, List, [], ◌∷◌, map, any, Memᴰ, mem_cons, not_mem_nil, arith, Bool-cases,
}
use libloot.Sorting.Vertex.{EdgeType}
use libloot.External.Petgraph.{Petgraph, EdgeRef}

pub data Built (N : Type 0) : Type 0 where
  empty : Built N
  node : N → Built N → Built N
  arc : ℕ → ℕ → EdgeType → Built N → Built N

pub any_iff : (l : List ℕ) (b : ℕ) → (any (λ n. n == b) l ≡ true) ↔ Memᴰ b l
any_iff [] b = (λ h. absurd (cc), λ m. absurd (not_mem_nil m))
any_iff (x ∷ l) b = elim (Bool-cases (x == b)) [
  | inl e ↦ rw e (λ h. (mem_cons b x l).1 (inl (ground arith)), λ m. refl)
  | inr e ↦ rw e (
    λ h. (mem_cons b x l).1 (inr ((any_iff l b).0 h)),
    λ m. elim ((mem_cons b x l).0 m) [
      | inl same ↦ absurd (ground arith)
      | inr m' ↦ (any_iff l b).1 m'
    ],
  )
]

module _ {N : Type 0} where
  abbrev pub node_count : Built N → ℕ
  node_count empty = 0
  node_count (node n g) = suc (node_count g)
  node_count (arc a b t g) = node_count g

  -- An edge counts if both its ends are nodes of the graph that it was added to.
  abbrev pub fits : ℕ → ℕ → Built N → Bool
  fits a b g = ltb a (node_count g) && ltb b (node_count g)

  abbrev pub edges : Built N → ℕ → List EdgeRef
  edges empty x = []
  edges (node n g) x = edges g x
  edges (arc a b t g) x =
      if (a == x) && fits a b g
      then record { source = x; target = b; weight = t } ∷ edges g x
      else edges g x

  abbrev pub neighbors : Built N → ℕ → List ℕ
  neighbors empty x = []
  neighbors (node n g) x = neighbors g x
  neighbors (arc a b t g) x = if (a == x) && fits a b g then b ∷ neighbors g x else neighbors g x

  abbrev pub incoming : Built N → ℕ → List ℕ
  incoming empty y = []
  incoming (node n g) y = incoming g y
  incoming (arc a b t g) y = if (b == y) && fits a b g then a ∷ incoming g y else incoming g y

  abbrev pub find_edge : Built N → ℕ → ℕ → Option EdgeType
  find_edge empty x y = none
  find_edge (node n g) x y = find_edge g x y
  find_edge (arc a b t g) x y =
      let older = find_edge g x y in if ((a == x) && (b == y)) && fits a b g then some t else older

  -- Every edge between the two nodes gets the weight.
  abbrev pub set_weight : ℕ → ℕ → EdgeType → Built N → Built N
  set_weight x y t empty = empty
  set_weight x y t (node n g) = node n (set_weight x y t g)
  set_weight x y t (arc a b u g) =
      arc a b (if (a == x) && (b == y) then t else u) (set_weight x y t g)

  abbrev pub contains_edge : Built N → ℕ → ℕ → Bool
  contains_edge g a b = any (λ n. n == b) (neighbors g a)

  node_count-set_weight :
      (x y : ℕ) (t : EdgeType) (g : Built N) → node_count (set_weight x y t g) ≡ node_count g
  node_count-set_weight x y t empty = refl
  node_count-set_weight x y t (node n g) = rw (node_count-set_weight x y t g)
  node_count-set_weight x y t (arc a b u g) = node_count-set_weight x y t g

  neighbors-set_weight :
      (x y : ℕ) (t : EdgeType) (g : Built N) (z : ℕ)
      → neighbors (set_weight x y t g) z ≡ neighbors g z
  neighbors-set_weight x y t empty z = refl
  neighbors-set_weight x y t (node n g) z = neighbors-set_weight x y t g z
  neighbors-set_weight x y t (arc a b u g) z =
      rw (node_count-set_weight x y t g, neighbors-set_weight x y t g z)

  pub mem-neighbors-arc :
      (g : Built N) (a b : ℕ) (t : EdgeType) (x y : ℕ)
      → a < node_count g
      → b < node_count g
      → Memᴰ y (neighbors (arc a b t g) x) ↔ (((x ≡ a) × (y ≡ b)) ⊎ Memᴰ y (neighbors g x))
  mem-neighbors-arc g a b t x y ha hb = elim (Bool-cases ((a == x) && fits a b g)) [
    | inl e ↦ rw e (
      λ m. elim ((mem_cons y b (neighbors g x)).0 m) [
        | inl same ↦ inl (ground arith, same)
        | inr m' ↦ inr m'
      ],
      λ h. elim h [
        | inl p ↦ (mem_cons y b (neighbors g x)).1 (inl p.1)
        | inr m' ↦ (mem_cons y b (neighbors g x)).1 (inr m')
      ],
    )
    | inr e ↦ rw e (inr, λ h. elim h [ inl p ↦ absurd (ground arith) | inr m' ↦ m' ])
  ]

  pub mem-neighbors_lt :
      (g : Built N) (a b : ℕ) → Memᴰ b (neighbors g a) → (a < node_count g) × (b < node_count g)
  mem-neighbors_lt empty a b m = absurd (not_mem_nil m)
  mem-neighbors_lt (node n g) a b m =
      let h = mem-neighbors_lt g a b m in (omega (arith, h.0), omega (arith, h.1))
  mem-neighbors_lt (arc c d t g) a b m = elim (Bool-cases ((c == a) && fits c d g)) [
    | inl e ↦ elim ((mem_cons b d (neighbors g a)).0 (rw e at m)) [
      | inl same ↦ (ground arith, ground arith)
      | inr m' ↦ mem-neighbors_lt g a b m'
    ]
    | inr e ↦ mem-neighbors_lt g a b (rw e at m)
  ]

  pub mem-incoming_iff : (g : Built N) (a b : ℕ) → Memᴰ a (incoming g b) ↔ Memᴰ b (neighbors g a)
  mem-incoming_iff empty a b = (λ m. absurd (not_mem_nil m), λ m. absurd (not_mem_nil m))
  mem-incoming_iff (node n g) a b = mem-incoming_iff g a b
  mem-incoming_iff (arc c d t g) a b =
      ground
        (arith, mem-incoming_iff g a b, mem_cons a c (incoming g b), mem_cons b d (neighbors g a))

  pub edges_source : (g : Built N) (a : ℕ) (e : EdgeRef) → Memᴰ e (edges g a) → e.source ≡ a
  edges_source empty a e m = absurd (not_mem_nil m)
  edges_source (node n g) a e m = edges_source g a e m
  edges_source (arc c d t g) a e m = elim (Bool-cases ((c == a) && fits c d g)) [
    | inl h ↦ elim ((mem_cons e _ (edges g a)).0 (rw h at m)) [
      | inl same ↦ rw same
      | inr m' ↦ edges_source g a e m'
    ]
    | inr h ↦ edges_source g a e (rw h at m)
  ]

  pub edges_target :
      (g : Built N) (a : ℕ) → map (λ (e : EdgeRef). e.target) (edges g a) ≡ neighbors g a
  edges_target empty a = refl
  edges_target (node n g) a = edges_target g a
  edges_target (arc c d t g) a = elim (Bool-cases ((c == a) && fits c d g)) [
    | inl h ↦ rw (h, edges_target g a)
    | inr h ↦ rw (h, edges_target g a)
  ]

  -- `default` is what an index out of range gets, where the crate panics.
  module _ (default : N) where
    abbrev pub index : Built N → ℕ → N
    index empty i = default
    index (node n g) i = if i == node_count g then n else index g i
    index (arc a b t g) i = index g i

    index-set_weight :
        (x y : ℕ) (t : EdgeType) (g : Built N) (i : ℕ) → index (set_weight x y t g) i ≡ index g i
    index-set_weight x y t empty i = refl
    index-set_weight x y t (node n g) i =
        rw (node_count-set_weight x y t g, index-set_weight x y t g i)
    index-set_weight x y t (arc a b u g) i = index-set_weight x y t g i

    pub index-node : (g : Built N) (n : N) → index (node n g) (node_count g) ≡ n
    index-node g n = rw ((==_iff (node_count g) (node_count g)).1 refl)

    pub index-node_old :
        (g : Built N) (n : N) (i : ℕ) → i < node_count g → index (node n g) i ≡ index g i
    index-node_old g n i h = elim (Bool-cases (i == node_count g)) [
      | inl e ↦ absurd (ground arith)
      | inr e ↦ rw e
    ]

    unfoldable pub update_edge : Built N → ℕ → ℕ → EdgeType → Built N
    update_edge g a b t = if contains_edge g a b then set_weight a b t g else arc a b t g

    pub node_count-update_edge :
        (g : Built N) (a b : ℕ) (t : EdgeType) → node_count (update_edge g a b t) ≡ node_count g
    unfolding update_edge
    node_count-update_edge g a b t = elim (Bool-cases (contains_edge g a b)) [
      | inl e ↦ rw e (node_count-set_weight a b t g)
      | inr e ↦ rw e
    ]

    pub index-update_edge :
        (g : Built N) (a b : ℕ) (t : EdgeType) (i : ℕ) → index (update_edge g a b t) i ≡ index g i
    unfolding update_edge
    index-update_edge g a b t i = elim (Bool-cases (contains_edge g a b)) [
      | inl e ↦ rw e (index-set_weight a b t g i)
      | inr e ↦ rw e
    ]

    pub mem-neighbors-update_edge :
        (g : Built N) (a b : ℕ) (t : EdgeType) (x y : ℕ)
        → a < node_count g
        → b < node_count g
        → Memᴰ y (neighbors (update_edge g a b t) x)
          ↔ (((x ≡ a) × (y ≡ b)) ⊎ Memᴰ y (neighbors g x))
    unfolding update_edge
    mem-neighbors-update_edge g a b t x y ha hb = elim (Bool-cases (contains_edge g a b)) [
      | inl e ↦
          rw (e, neighbors-set_weight a b t g x)
            (
              inr,
              λ h. elim h [ inl p ↦ rw (p.0, p.1) ((any_iff (neighbors g a) b).0 e) | inr m ↦ m ],
            )
      | inr e ↦ rw e (mem-neighbors-arc g a b t x y ha hb)
    ]

    abbrev pub built : Petgraph N
    built = record {
      Graph = Built N;
      new = empty;
      add_node = λ g n. node n g;
      add_edge = λ g a b t. arc a b t g;
      update_edge = update_edge;
      node_count = node_count;
      index = index;
      edges = edges;
      neighbors = neighbors;
      incoming = incoming;
      find_edge = find_edge;
      contains_edge = contains_edge;
      node_count-new = refl;
      node_count-add_node = λ g n. refl;
      node_count-add_edge = λ g a b t. refl;
      index-add_node = index-node;
      index-add_node_old = index-node_old;
      index-add_edge = λ g a b t i. refl;
      neighbors-new = λ a. refl;
      neighbors-add_node = λ g n a. refl;
      mem-neighbors-add_edge = mem-neighbors-arc;
      node_count-update_edge = node_count-update_edge;
      index-update_edge = index-update_edge;
      mem-neighbors-update_edge = mem-neighbors-update_edge;
      mem-neighbors-lt = mem-neighbors_lt;
      mem-incoming_iff = mem-incoming_iff;
      edges_source = edges_source;
      edges_target = edges_target;
      contains_edge_iff = λ g a b. any_iff (neighbors g a) b;
    }
