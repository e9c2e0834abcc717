-- ===== src/Sorting/Samples/Toposort.antt =====
-- A topological sort that inserts each node before the first one that it leads to: an instance of
-- what is assumed of petgraph.
use libloot.Prelude.{
  ℕ, ◌≡◌, refl, sym, ◌↔◌, ◌⊎◌, inl, inr, Bool, true, List, [], ◌∷◌, Memᴰ, mem_cons, not_mem_nil,
  IsDistinct, range, mem-count_from, mem-count_from_lt, count_from-IsDistinct, Bool-cases,
  if◌then◌else◌, arith, subst,
}
use libloot.Prelude.Result.{Result, ok}
use libloot.External.Petgraph.{Petgraph}
use libloot.Sorting.Graph.{Reach, here, step, Reach-trans, Acyclic}
use libloot.Sorting.Search.Bfs.{BidirBfsVisitor, bidirectional_bfs}
use libloot.Sorting.Search.Bfs.Decides.{bidirectional_bfs_iff}
use libloot.Sorting.Sort.Order.{IsForward}
use libloot.Sorting.Sort.Unique.{IsToposort}

-- No node of the list leads to one that is earlier in it.
abbrev Ordered : (ℕ → List ℕ) → List ℕ → Type 0
Ordered next [] = Unit
Ordered next (x ∷ xs) = ((y : ℕ) → Memᴰ y xs → ¬ (Reach next y x)) × Ordered next xs

module _ (leads : ℕ → ℕ → Bool) where
  unfoldable pub place_node : ℕ → List ℕ → List ℕ
  place_node n [] = n ∷ []
  place_node n (x ∷ xs) = let rest = place_node n xs in if leads n x then n ∷ x ∷ xs else x ∷ rest

  mem-place_node : (n : ℕ) (xs : List ℕ) (y : ℕ) → Memᴰ y (place_node n xs) ↔ ((y ≡ n) ⊎ Memᴰ y xs)
  unfolding place_node
  mem-place_node n [] y = mem_cons y n []
  mem-place_node n (x ∷ xs) y = elim (Bool-cases (leads n x)) [
    | inl e ↦ rw (e, place_node) (mem_cons y n (x ∷ xs))
    | inr e ↦
        rw (e, place_node)
          (ground (arith, mem_cons y x (place_node n xs), mem_cons y x xs, mem-place_node n xs y))
  ]

  unfoldable pub place_nodes : List ℕ → List ℕ
  place_nodes [] = []
  place_nodes (n ∷ ns) = place_node n (place_nodes ns)

  mem-place_nodes : (ns : List ℕ) (y : ℕ) → Memᴰ y (place_nodes ns) ↔ Memᴰ y ns
  unfolding place_nodes
  mem-place_nodes [] y = (λ m. m, λ m. m)
  mem-place_nodes (n ∷ ns) y =
      ground (arith, mem-place_node n (place_nodes ns) y, mem-place_nodes ns y, mem_cons y n ns)

module _ (next : ℕ → List ℕ) (leads : ℕ → ℕ → Bool)
    (leads_iff : (a b : ℕ) → (leads a b ≡ true) ↔ Reach next a b) where
  place_node-Ordered :
      (acyclic : (a b : ℕ) → Reach next a b → Reach next b a → a ≡ b) (n : ℕ) (xs : List ℕ)
      → ¬ (Memᴰ n xs)
      → IsDistinct xs
      → Ordered next xs
      → Ordered next (place_node leads n xs) × IsDistinct (place_node leads n xs)
  unfolding place_node
  place_node-Ordered acyclic n [] fresh distinct h =
      ((λ y m. absurd (not_mem_nil m), tt), (λ m. absurd (not_mem_nil m), tt))
  place_node-Ordered acyclic n (x ∷ xs) fresh distinct h = elim (Bool-cases (leads n x)) [
    | inl e ↦ rw (e, place_node) ((λ y m r. first e y m r, h), (fresh, distinct))
    | inr e ↦
        let later = place_node-Ordered acyclic n xs (λ m. fresh (Memᴰ.tail m)) distinct.1 h.1 in
        rw (e, place_node)
          (
            (
              λ y m r. elim ((mem-place_node leads n xs y).0 m) [
                | inl same ↦ cc ((leads_iff n x).1 (subst (λ w. Reach next w x) same r))
                | inr m' ↦ h.0 y m' r
              ],
              later.0,
            ),
            (
              λ m. elim ((mem-place_node leads n xs x).0 m) [
                | inl same ↦ fresh (Memᴰ.head (sym same))
                | inr m' ↦ distinct.0 m'
              ],
              later.1,
            ),
          )
  ]
    where
      first : leads n x ≡ true → (y : ℕ) → Memᴰ y (x ∷ xs) → Reach next y n → ⊥
      first e y m r = elim ((mem_cons y x xs).0 m) [
        | inl same ↦
            fresh
              (Memᴰ.head (acyclic n x ((leads_iff n x).0 e) (subst (λ w. Reach next w n) same r)))
        | inr m' ↦ h.0 y m' (Reach-trans r ((leads_iff n x).0 e))
      ]

  place_nodes-Ordered :
      (acyclic : (a b : ℕ) → Reach next a b → Reach next b a → a ≡ b) (ns : List ℕ)
      → IsDistinct ns
      → Ordered next (place_nodes leads ns) × IsDistinct (place_nodes leads ns)
  unfolding place_nodes
  place_nodes-Ordered acyclic [] distinct = (tt, tt)
  place_nodes-Ordered acyclic (n ∷ ns) distinct =
      let later = place_nodes-Ordered acyclic ns distinct.1 in
      place_node-Ordered acyclic n (place_nodes leads ns)
        (λ m. distinct.0 ((mem-place_nodes leads ns n).0 m)) later.1 later.0

Ordered-IsForward : (next : ℕ → List ℕ) (xs : List ℕ) → Ordered next xs → IsForward next xs
Ordered-IsForward next [] h = tt
Ordered-IsForward next (x ∷ xs) h = (λ y m e. h.0 y m (step here e), Ordered-IsForward next xs h.1)

antisym : (next : ℕ → List ℕ) → Acyclic next → (a b : ℕ) → Reach next a b → Reach next b a → a ≡ b
antisym next acyclic a b here q = refl
antisym next acyclic a b (step {b = c} p e) q = absurd (acyclic c b e (Reach-trans q p))

-- Of a visitor that does nothing, the search's answer is all that counts.
abbrev pub no_visitor : BidirBfsVisitor (Unit {0})
no_visitor = record {
  visit_forward_bfs_edge = λ s t v. v;
  visit_reverse_bfs_edge = λ s t v. v;
  visit_intersection_node = λ n v. v;
}

module _ {N : Type 0} (P : Petgraph N) where
  abbrev pub leads_to : P.Graph → ℕ → ℕ → Bool
  leads_to g a b = (bidirectional_bfs P g a b no_visitor tt).0

  leads_to_iff : (g : P.Graph) (a b : ℕ) → (leads_to g a b ≡ true) ↔ Reach (P.neighbors g) a b
  leads_to_iff g a b = bidirectional_bfs_iff P g a b no_visitor tt

  unfoldable pub toposort : P.Graph → Result ℕ (List ℕ)
  unfolding place_nodes
  toposort g = ok (place_nodes (leads_to g) (range (P.node_count g)))

  pub toposort-IsToposort : IsToposort P toposort
  unfolding toposort
  toposort-IsToposort g acyclic =
      let next = P.neighbors g in
      let n = P.node_count g in
      let sorted =
        place_nodes-Ordered next (leads_to g) (leads_to_iff g) (antisym next acyclic) (range n)
          (count_from-IsDistinct 0 n) in
      (
        place_nodes (leads_to g) (range n),
        refl,
        record {
          distinct = sorted.1;
          all = λ x. (
            λ m.
                omega
                  (arith, mem-count_from_lt 0 n x ((mem-place_nodes (leads_to g) (range n) x).0 m)),
            λ h.
                (mem-place_nodes (leads_to g) (range n) x).1
                  (mem-count_from 0 n x (omega arith) (omega arith)),
          );
          forward = Ordered-IsForward next _ sorted.0;
        },
      )
