-- ===== src/Sorting/Sort/Order.antt =====
-- src/sorting/plugins.rs: topological orders, and the pairs of neighbours in them.
use libloot.Prelude.{
  ℕ, ◌<◌, ◌≡◌, refl, sym, ap, ◌∙◌, ◌↔◌, ◌⊎◌, inl, inr, true, List, [], ◌∷◌, ◌++◌, Memᴰ, mem_cons,
  not_mem_nil, IsDistinct, none, windows, find, not, subst,
}
use mathlib.Core.List.Memᴰ
use libloot.External.Petgraph.{Petgraph}
use libloot.Sorting.Graph.{Reach, here, step, Acyclic}
use libloot.Sorting.Plugins.Data.{SortingPlugin, PluginSortingData}
use libloot.Sorting.Plugins.Graph.{PluginsGraph}
use libloot.Sorting.Plugins.Graph.Paths.{next_of}

module _ (next : ℕ → List ℕ) where
  -- No edge leads from a node of the list to one that is earlier in it.
  abbrev pub IsForward : List ℕ → Type 0
  IsForward [] = Unit
  IsForward (x ∷ xs) = ((y : ℕ) → Memᴰ y xs → ¬ (Memᴰ x (next y))) × IsForward xs

  abbrev pub IsClosed : List ℕ → Type 0
  IsClosed path = (x y : ℕ) → Memᴰ x path → Memᴰ y (next x) → Memᴰ y path

  pub record IsSortedPath (path : List ℕ) : Type 0 where
    pub distinct : IsDistinct path
    pub forward : IsForward path
    pub closed : IsClosed path

  IsSortedPath-tail : (x : ℕ) (xs : List ℕ) → IsSortedPath (x ∷ xs) → IsSortedPath xs
  IsSortedPath-tail x xs h = record {
    distinct = h.distinct.1;
    forward = h.forward.1;
    closed = λ u v m e. elim ((mem_cons v x xs).0 (h.closed u v (Memᴰ.tail m) e)) [
      | inl same ↦ absurd (h.forward.0 u m (subst (λ w. Memᴰ w (next u)) same e))
      | inr m' ↦ m'
    ];
  }

  mem-Reach : (path : List ℕ) {x y : ℕ} → IsClosed path → Memᴰ x path → Reach next x y → Memᴰ y path
  mem-Reach path closed m here = m
  mem-Reach path closed m (step {b = u} {c = v} p e) = closed u v (mem-Reach path closed m p) e

  -- A walk from a node of the list to its head ends there at once.
  eq_of_Reach-head :
      (y : ℕ) (ys : List ℕ) {x : ℕ}
      → Acyclic next
      → IsSortedPath (y ∷ ys)
      → Memᴰ x (y ∷ ys)
      → Reach next x y
      → x ≡ y
  eq_of_Reach-head y ys acyclic h m here = refl
  eq_of_Reach-head y ys acyclic h m (step {b = c} p e) =
      elim ((mem_cons c y ys).0 (mem-Reach (y ∷ ys) h.closed m p)) [
        | inl same ↦ absurd (acyclic c y e (subst (λ w. Reach next w c) same here))
        | inr later ↦ absurd (h.forward.0 c later e)
      ]

  -- A walk from the first node of the list to the second one is an edge.
  edge_of_Reach :
      (a b : ℕ) (post : List ℕ)
      → Acyclic next
      → IsSortedPath (a ∷ b ∷ post)
      → Reach next a b
      → Memᴰ b (next a)
  edge_of_Reach a b post acyclic h r = go b r refl
    where
      go : (t : ℕ) → Reach next a t → t ≡ b → Memᴰ t (next a)
      go t here e = absurd (h.distinct.0 (Memᴰ.head e))
      go t (step {b = c} p m) e =
          elim ((mem_cons c a (b ∷ post)).0
            (mem-Reach (a ∷ b ∷ post) h.closed (Memᴰ.head refl) p)) [
              | inl same ↦ subst (λ w. Memᴰ t (next w)) same m
              | inr later ↦
                  let h' = IsSortedPath-tail a (b ∷ post) h in
                  let eq =
                    eq_of_Reach-head b post acyclic h' later
                      (subst (Reach next c) e (step here m)) in
                  absurd (acyclic c t m (subst (λ w. Reach next w c) (eq ∙ sym e) here))
            ]

  -- Two lists of the same nodes are the same.
  pub IsSortedPath-unique :
      (xs ys : List ℕ)
      → Acyclic next
      → ((x y : ℕ) → Memᴰ x xs → Memᴰ y xs → Reach next x y ⊎ Reach next y x)
      → ((x : ℕ) → Memᴰ x xs ↔ Memᴰ x ys)
      → IsSortedPath xs
      → IsSortedPath ys
      → xs ≡ ys
  IsSortedPath-unique [] [] acyclic total same hx hy = refl
  IsSortedPath-unique [] (y ∷ ys) acyclic total same hx hy =
      absurd (not_mem_nil ((same y).1 (Memᴰ.head refl)))
  IsSortedPath-unique (x ∷ xs) [] acyclic total same hx hy =
      absurd (not_mem_nil ((same x).0 (Memᴰ.head refl)))
  IsSortedPath-unique (x ∷ xs) (y ∷ ys) acyclic total same hx hy =
      let y_in = (same y).1 (Memᴰ.head refl) in
      let heads = heads_eq (total x y (Memᴰ.head refl) y_in) y_in in
      rw (
        heads,
        IsSortedPath-unique xs ys acyclic (λ a b ma mb. total a b (Memᴰ.tail ma) (Memᴰ.tail mb))
            (tails_eq heads) (IsSortedPath-tail x xs hx) (IsSortedPath-tail y ys hy),
      )
    where
      heads_eq : Reach next x y ⊎ Reach next y x → Memᴰ y (x ∷ xs) → x ≡ y
      heads_eq (inl r) m = eq_of_Reach-head y ys acyclic hy ((same x).0 (Memᴰ.head refl)) r
      heads_eq (inr r) m = sym (eq_of_Reach-head x xs acyclic hx m r)

      tails_eq : x ≡ y → (z : ℕ) → Memᴰ z xs ↔ Memᴰ z ys
      tails_eq e z = (
        λ m. elim ((mem_cons z y ys).0 ((same z).0 (Memᴰ.tail m))) [
          | inl h ↦ absurd (hx.distinct.0 (Memᴰ.cast (e ∙ sym h) m))
          | inr m' ↦ m'
        ],
        λ m. elim ((mem_cons z x xs).0 ((same z).1 (Memᴰ.tail m))) [
          | inl h ↦ absurd (hy.distinct.0 (Memᴰ.cast (sym (h ∙ e)) m))
          | inr m' ↦ m'
        ],
      )

-- One node stands at another one or before it.
abbrev pub NotBehind : List ℕ → ℕ → ℕ → Type 0
NotBehind path x y =
    (before : List ℕ) × (after : List ℕ) × (path ≡ before ++ x ∷ after) × Memᴰ y (x ∷ after)

-- A node of a sorted path does not stand behind those that it leads to.
pub Reach-NotBehind :
    (next : ℕ → List ℕ) (path : List ℕ) (x y : ℕ)
    → IsSortedPath next path
    → Memᴰ x path
    → Reach next x y
    → NotBehind path x y
Reach-NotBehind next [] x y h m r = absurd (not_mem_nil m)
Reach-NotBehind next (z ∷ zs) x y h m r = elim ((mem_cons x z zs).0 m) [
  | inl same ↦ (
    [],
    zs,
    ap (λ w. w ∷ zs) (sym same),
    subst (λ w. Memᴰ y (w ∷ zs)) (sym same) (mem-Reach next (z ∷ zs) h.closed m r),
  )
  | inr m' ↦
      let (before, after, split, y_in) =
        Reach-NotBehind next zs x y (IsSortedPath-tail next z zs h) m' r in
      (z ∷ before, after, ap (λ l. z ∷ l) split, y_in)
]

module _ {N : Type 0} (P : Petgraph N) where
  -- An order of all the graph's nodes, in which each node is before those that its edges lead to.
  pub record IsTopologicalOrder (g : P.Graph) (path : List ℕ) : Type 0 where
    pub distinct : IsDistinct path
    pub all : (x : ℕ) → Memᴰ x path ↔ (x < P.node_count g)
    pub forward : IsForward (P.neighbors g) path

  pub IsSortedPath-of_order :
      (g : P.Graph) (path : List ℕ) → IsTopologicalOrder g path → IsSortedPath (P.neighbors g) path
  IsSortedPath-of_order g path h = record {
    distinct = h.distinct;
    forward = h.forward;
    closed = λ x y m e. (h.all y).1 (P.mem-neighbors-lt g x y e).1;
  }

module _ {E T : Type 0} (trait : SortingPlugin E T) (P : Petgraph (PluginSortingData T)) where
  pub no_gap :
      (graph : PluginsGraph trait P) (path : List ℕ)
      → Acyclic (next_of trait P graph)
      → ((x y : ℕ)
          → Memᴰ x path
          → Memᴰ y path
          → Reach (next_of trait P graph) x y ⊎ Reach (next_of trait P graph) y x)
      → IsSortedPath (next_of trait P graph) path
      → find (λ (pair : ℕ × ℕ). not (P.contains_edge graph.inner pair.0 pair.1)) (windows path)
        ≡ none
  no_gap graph [] acyclic total h = refl
  no_gap graph (a ∷ []) acyclic total h = refl
  no_gap graph (a ∷ b ∷ post) acyclic total h =
      rw (edge (total a b (Memᴰ.head refl) (Memᴰ.tail (Memᴰ.head refl)))) (
        no_gap graph (b ∷ post) acyclic (λ x y mx my. total x y (Memᴰ.tail mx) (Memᴰ.tail my))
          (IsSortedPath-tail (next_of trait P graph) a (b ∷ post) h))
    where
      edge :
          Reach (next_of trait P graph) a b ⊎ Reach (next_of trait P graph) b a
          → P.contains_edge graph.inner a b ≡ true
      edge (inl r) =
          (P.contains_edge_iff graph.inner a b).1
            (edge_of_Reach (next_of trait P graph) a b post acyclic h r)
      edge (inr r) = absurd (
          h.distinct.0 (
            mem-Reach (next_of trait P graph) (b ∷ post)
              (IsSortedPath-tail (next_of trait P graph) a (b ∷ post) h).closed (Memᴰ.head refl) r))
