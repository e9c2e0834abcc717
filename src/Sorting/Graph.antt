-- ===== src/Sorting/Graph.antt =====
-- Walks in a graph that is given by its successor lists.
use libloot.Prelude.{ℕ, List, [], ◌∷◌, ◌++◌, Memᴰ, ◌≡◌, refl, ◌↔◌, ◌⊎◌, inl, inr}

-- The nodes that walks of any length lead to.
pub data Reach (next : ℕ → List ℕ) (a : ℕ) : ℕ → Type 0 where
  here : Reach next a a
  step : {b c : ℕ} → Reach next a b → Memᴰ c (next b) → Reach next a c

-- No walk of one step or more ends where it began.
abbrev pub Acyclic : (ℕ → List ℕ) → Type 0
Acyclic next = (a b : ℕ) → Memᴰ b (next a) → ¬ (Reach next b a)

module _ {next : ℕ → List ℕ} where
  pub Reach-trans : {a b c : ℕ} → Reach next a b → Reach next b c → Reach next a c
  Reach-trans p here = p
  Reach-trans p (step q e) = step (Reach-trans p q) e

  pub Reach-first : {a b c : ℕ} → Memᴰ b (next a) → Reach next b c → Reach next a c
  Reach-first e q = Reach-trans (step here e) q

-- Walks survive when successors are added.
pub Reach-mono :
    {next more : ℕ → List ℕ} {a b : ℕ}
    → ((x y : ℕ) → Memᴰ y (next x) → Memᴰ y (more x))
    → Reach next a b
    → Reach more a b
Reach-mono h here = here
Reach-mono h (step {b = x} {c = y} p e) = step (Reach-mono h p) (h x y e)

-- A walk, read backwards.
pub Reach-reverse :
    {next prev : ℕ → List ℕ} {a b : ℕ}
    → ((x y : ℕ) → Memᴰ y (next x) → Memᴰ x (prev y))
    → Reach next a b
    → Reach prev b a
Reach-reverse h here = here
Reach-reverse h (step {b = x} {c = y} p e) = Reach-first (h x y e) (Reach-reverse h p)

-- The nodes after `a` on a walk that ends at `b`.
abbrev pub IsWalk : (ℕ → List ℕ) → ℕ → List ℕ → ℕ → Type 0
IsWalk next a [] b = a ≡ b
IsWalk next a (x ∷ xs) b = Memᴰ x (next a) × IsWalk next x xs b

pub IsWalk-concat :
    (next : ℕ → List ℕ) (a : ℕ) (xs : List ℕ) (b c : ℕ)
    → IsWalk next a xs b
    → Memᴰ c (next b)
    → IsWalk next a (xs ++ c ∷ []) c
IsWalk-concat next a [] b c e m = (rw e m, refl)
IsWalk-concat next a (x ∷ xs) b c (m', w) m = (m', IsWalk-concat next x xs b c w m)

pub IsWalk-append :
    (next : ℕ → List ℕ) (a : ℕ) (xs ys : List ℕ) (b c : ℕ)
    → IsWalk next a xs b
    → IsWalk next b ys c
    → IsWalk next a (xs ++ ys) c
IsWalk-append next a [] ys b c e w = rw e w
IsWalk-append next a (x ∷ xs) ys b c (m, v) w = (m, IsWalk-append next x xs ys b c v w)

pub Reach-of_IsWalk :
    (next : ℕ → List ℕ) (a : ℕ) (xs : List ℕ) (b : ℕ) → IsWalk next a xs b → Reach next a b
Reach-of_IsWalk next a [] b e = rw e here
Reach-of_IsWalk next a (x ∷ xs) b (m, w) = Reach-first m (Reach-of_IsWalk next x xs b w)

-- A graph with one more edge, from `a` to `b`.
pub record AddsEdge (next more : ℕ → List ℕ) (a b : ℕ) : Type 0 where
  pub edge_iff : (x y : ℕ) → Memᴰ y (more x) ↔ (((x ≡ a) × (y ≡ b)) ⊎ Memᴰ y (next x))

module _ {next more : ℕ → List ℕ} {a b : ℕ} (added : AddsEdge next more a b) where
  pub Reach-AddsEdge : {x y : ℕ} → Reach next x y → Reach more x y
  Reach-AddsEdge p = Reach-mono (λ u v m. (added.edge_iff u v).1 (inr m)) p

  -- A walk that uses the new edge leads to its source and from its target.
  pub Reach-AddsEdge_cases :
      {x y : ℕ} → Reach more x y → Reach next x y ⊎ (Reach next x a × Reach next b y)
  Reach-AddsEdge_cases here = inl here
  Reach-AddsEdge_cases (step {b = u} {c = v} p m) = elim ((added.edge_iff u v).0 m) [
    | inl (eu, ev) ↦ elim (Reach-AddsEdge_cases p) [
      | inl old ↦ inr (rw eu at old, rw ev here)
      | inr (q, r) ↦ inr (q, rw ev here)
    ]
    | inr old_edge ↦ elim (Reach-AddsEdge_cases p) [
      | inl old ↦ inl (step old old_edge)
      | inr (q, r) ↦ inr (q, step r old_edge)
    ]
  ]

  -- An edge whose target does not lead to its source makes no cycle.
  pub Acyclic-AddsEdge : Acyclic next → ¬ (Reach next b a) → Acyclic more
  Acyclic-AddsEdge acyclic no_walk x y m p = elim ((added.edge_iff x y).0 m) [
    | inl (ex, ey) ↦ elim (Reach-AddsEdge_cases (rw (ex, ey) at p)) [
      | inl old ↦ no_walk old
      | inr (q, r) ↦ no_walk q
    ]
    | inr old_edge ↦ elim (Reach-AddsEdge_cases p) [
      | inl old ↦ acyclic x y old_edge old
      | inr (q, r) ↦ no_walk (Reach-trans r (Reach-first old_edge q))
    ]
  ]
