-- ===== src/Sorting/Plugins/Finder/Links.antt =====
-- src/sorting/plugins.rs: the parent and child links that a search leaves behind, and the loops
-- that read a path from them.
use libloot.Prelude.{
  ℕ, zero, suc, ◌+◌, ◌≤◌, ◌<◌, ◌≡◌, refl, ◌⊎◌, inl, inr, true, false, List, [], ◌∷◌, ◌++◌, some,
  Memᴰ, NodeSet, NodeMap, empty_map, insert_at, insert, empty_set, missing, missing-insert,
  missing-le, ◌==◌, if◌then◌else◌, arith, Bool-cases, sym, ap, ◌∙◌,
}
use mathlib.Core.List.{reverse, reverse-append}
use libloot.Prelude.Result.{ok}
use libloot.Sorting.Error.{PathfindingError}
use libloot.Sorting.Graph.{IsWalk, IsWalk-concat}
use libloot.Sorting.Search.Bfs.Walks.{insert_cases}
use libloot.Sorting.Plugins.Finder.{follow}

-- The link of every visited node but `stop` leads along an edge to a node of lower rank.
pub record IsLinked (Edge : ℕ → ℕ → Type 0) (stop n : ℕ) (visited : NodeSet) (links : NodeMap ℕ)
    : Type 0 where
  pub rank : ℕ → ℕ
  pub linked :
      (x : ℕ)
      → visited x ≡ true
      → (x ≡ stop)
        ⊎ ((p : ℕ) × (links x ≡ some p) × (visited p ≡ true) × Edge p x × (rank p < rank x))
  pub bounded : (x : ℕ) → visited x ≡ true → rank x + missing n visited < n

module _ (Edge : ℕ → ℕ → Type 0) (stop n : ℕ) where
  pub IsLinked-start : stop < n → IsLinked Edge stop n (insert stop empty_set) empty_map
  IsLinked-start h = record {
    rank = λ x. 0;
    linked = λ x m. inl (ground arith);
    bounded = λ x m. omega (arith, missing-insert n stop empty_set h refl, missing-le n empty_set);
  }

  module _ {visited : NodeSet} {links : NodeMap ℕ} (h : IsLinked Edge stop n visited links)
      (s t : ℕ) (s_in : visited s ≡ true) (fresh : visited t ≡ false) (lt : t < n)
      (edge : Edge s t) where
    abbrev rank_with : ℕ → ℕ
    rank_with x = if x == t then suc (h.rank s) else h.rank x

    rank_with_old : (x : ℕ) → visited x ≡ true → rank_with x ≡ h.rank x
    rank_with_old x m = elim (Bool-cases (x == t)) [
      | inl same ↦ let e : x ≡ t = ground arith in absurd (cc)
      | inr other ↦ rw other
    ]

    rank_with_new : rank_with t ≡ suc (h.rank s)
    rank_with_new = ground arith

    ne_of_fresh : (x : ℕ) → visited x ≡ true → (x == t) ≡ false
    ne_of_fresh x m = elim (Bool-cases (x == t)) [
      | inl same ↦ let e : x ≡ t = ground arith in absurd (cc)
      | inr other ↦ other
    ]

    pub IsLinked-insert : IsLinked Edge stop n (insert t visited) (insert_at t s links)
    IsLinked-insert = record {
      rank = rank_with;
      linked =
          insert_cases
            (λ x.
              (x ≡ stop)
              ⊎ ((p : ℕ) × (insert_at t s links x ≡ some p)
                  × (insert t visited p ≡ true)
                  × Edge p x
                  × (rank_with p < rank_with x)))
            t visited
            (inr (
              s,
              ground arith,
              ground arith,
              edge,
              omega (arith, rank_with_old s s_in, rank_with_new),
            ))
            (λ x m. elim (h.linked x m) [
              | inl e ↦ inl e
              | inr (p, link, p_in, e, less) ↦ inr (
                p,
                rw (ne_of_fresh x m) link,
                ground arith,
                e,
                omega (arith, rank_with_old p p_in, rank_with_old x m),
              )
            ]);
      bounded =
          insert_cases (λ x. rank_with x + missing n (insert t visited) < n) t visited
            (omega (arith, rank_with_new, h.bounded s s_in, missing-insert n t visited lt fresh))
            (λ x m.
              omega (arith, rank_with_old x m, h.bounded x m, missing-insert n t visited lt fresh));
    }

  -- The nodes that the loop pushes: each is one edge before the one that it was read from.
  abbrev pub IsTrail : ℕ → List ℕ → Type 0
  IsTrail x [] = x ≡ stop
  IsTrail x (p ∷ ps) = Edge p x × IsTrail p ps

  -- The loop ends at `stop`, with no error.
  pub follow-IsTrail :
      {visited : NodeSet} {links : NodeMap ℕ} (missing_error : ℕ → PathfindingError)
      → (fuel x : ℕ) → visited x ≡ true
      → (h : IsLinked Edge stop n visited links) → h.rank x ≤ fuel
      → (ps : List ℕ) × (follow links missing_error stop fuel x ≡ ok ps) × IsTrail x ps
  unfolding follow
  follow-IsTrail {links} missing_error zero x m h le = elim (h.linked x m) [
    | inl e ↦ ([], ground arith, e)
    | inr (p, link, p_in, edge, less) ↦ absurd (omega arith)
  ]
  follow-IsTrail {links} missing_error (suc fuel) x m h le = elim (Bool-cases (x == stop)) [
    | inl done ↦ ([], rw (done, follow), ground arith)
    | inr more ↦ elim (h.linked x m) [
      | inl e ↦ absurd (ground arith)
      | inr (p, link, p_in, edge, less) ↦
          let (ps, e, trail) =
            follow-IsTrail {links = links} missing_error fuel p p_in h (omega arith) in
          (p ∷ ps, rw (more, link, e, follow) refl, (edge, trail))
    ]
  ]

-- Read back to front, the nodes that lead to the start make a walk from it.
pub IsWalk-of_trail :
    (next : ℕ → List ℕ) (from x : ℕ) (ps : List ℕ)
    → IsTrail (λ p y. Memᴰ y (next p)) from 0 x ps
    → (l : List ℕ) × (reverse (x ∷ ps) ≡ from ∷ l) × IsWalk next from l x
IsWalk-of_trail next from x [] e = ([], rw e refl, sym e)
IsWalk-of_trail next from x (p ∷ ps) (m, trail) =
    let (l, e, w) = IsWalk-of_trail next from p ps trail in
    (
      l ++ x ∷ [],
      reverse-append (x ∷ []) (p ∷ ps) ∙ ap (λ (r : List ℕ). r ++ x ∷ []) e,
      IsWalk-concat next from l p x w m,
    )

-- The nodes that lead to the end make a walk to it as they stand.
pub IsWalk-of_forward_trail :
    (next : ℕ → List ℕ) (to x : ℕ) (ps : List ℕ)
    → IsTrail (λ c y. Memᴰ c (next y)) to 0 x ps
    → IsWalk next x ps to
IsWalk-of_forward_trail next to x [] e = e
IsWalk-of_forward_trail next to x (c ∷ cs) (m, trail) =
    (m, IsWalk-of_forward_trail next to c cs trail)
