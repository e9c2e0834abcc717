-- ===== src/Prelude/Sort.antt =====
-- The stable sort of the standard library (`sort_by`, `sort_by_key`), as an insertion sort: items
-- that compare as equal keep their order.
use mathlib.Core.Path.{◌≡◌, sym}
use mathlib.Core.Logic.{◌↔◌, ◌⊎◌, inl, inr}
use mathlib.Core.Bool.{Bool, true, false}
use mathlib.Core.List.{List, [], ◌∷◌, Memᴰ}
use mathlib.Core.List.Memᴰ
use mathlib.Core.List.{Perm}
use mathlib.Core.List.Perm
use native.Mathlib.Omega.{arith}
use libloot.Prelude.Tests.{if◌then◌else◌, Bool-cases}
use libloot.Prelude.Lists.{mem_cons, IsDistinct}

module _ {ℓ} {A : Type ℓ} (le : A → A → Bool) where
  pub place : A → List A → List A
  place x [] = x ∷ []
  place x (y ∷ ys) = if le x y then x ∷ y ∷ ys else y ∷ place x ys

  unfoldable pub stable_sort : List A → List A
  unfolding place
  stable_sort [] = []
  stable_sort (x ∷ xs) = place x (stable_sort xs)

  mem-place : (a x : A) (xs : List A) → Memᴰ a (place x xs) ↔ ((a ≡ x) ⊎ Memᴰ a xs)
  unfolding place
  mem-place a x [] = mem_cons a x []
  mem-place a x (y ∷ ys) = elim (Bool-cases (le x y)) [
    | inl first ↦ rw (first, place) (mem_cons a x (y ∷ ys))
    | inr later ↦
        rw (later, place)
          (ground (arith, mem_cons a y (place x ys), mem_cons a y ys, mem-place a x ys))
  ]

  pub mem-stable_sort : (a : A) (xs : List A) → Memᴰ a (stable_sort xs) ↔ Memᴰ a xs
  unfolding stable_sort
  mem-stable_sort a [] = (λ m. m, λ m. m)
  mem-stable_sort a (x ∷ xs) =
      ground (arith, mem-place a x (stable_sort xs), mem_cons a x xs, mem-stable_sort a xs)

  place-Perm : (x : A) (xs : List A) → Perm (place x xs) (x ∷ xs)
  unfolding place
  place-Perm x [] = Perm.refl (x ∷ [])
  place-Perm x (y ∷ ys) = elim (Bool-cases (le x y)) [
    | inl first ↦ rw (first, place) (Perm.refl (x ∷ y ∷ ys))
    | inr later ↦ rw (later, place) (Perm.trans (Perm.cons y (place-Perm x ys)) (Perm.swap x y ys))
  ]

  pub stable_sort-Perm : (xs : List A) → Perm (stable_sort xs) xs
  unfolding stable_sort
  stable_sort-Perm [] = Perm.refl []
  stable_sort-Perm (x ∷ xs) =
      Perm.trans (place-Perm x (stable_sort xs)) (Perm.cons x (stable_sort-Perm xs))

  place-IsDistinct : (x : A) (xs : List A) → ¬ (Memᴰ x xs) → IsDistinct xs → IsDistinct (place x xs)
  unfolding place
  place-IsDistinct x [] new d = (new, d)
  place-IsDistinct x (y ∷ ys) new d = elim (Bool-cases (le x y)) [
    | inl first ↦ rw (first, place) (new, d)
    | inr later ↦
        rw (later, place)
          (
            λ m. elim ((mem-place y x ys).0 m) [
              | inl e ↦ new (Memᴰ.head (sym e))
              | inr old ↦ d.0 old
            ],
            place-IsDistinct x ys (λ m. new (Memᴰ.tail m)) d.1,
          )
  ]

  pub stable_sort-IsDistinct : (xs : List A) → IsDistinct xs → IsDistinct (stable_sort xs)
  unfolding stable_sort
  stable_sort-IsDistinct [] d = d
  stable_sort-IsDistinct (x ∷ xs) d =
      place-IsDistinct x (stable_sort xs) (λ m. d.0 ((mem-stable_sort x xs).0 m))
        (stable_sort-IsDistinct xs d.1)

  -- Each item compares before all that follow it.
  abbrev pub IsSorted : List A → Type ℓ
  IsSorted [] = Unit
  IsSorted (x ∷ xs) = ((y : A) → Memᴰ y xs → le x y ≡ true) × IsSorted xs

  place-IsSorted :
      ((a b c : A) → le a b ≡ true → le b c ≡ true → le a c ≡ true)
      → ((a b : A) → le a b ≡ false → le b a ≡ true)
      → (x : A) (xs : List A) → IsSorted xs
      → IsSorted (place x xs)
  unfolding place
  place-IsSorted trans total x [] h = (λ y m. absurd (Memᴰ.not-nil m), tt)
  place-IsSorted trans total x (y ∷ ys) h = elim (Bool-cases (le x y)) [
    | inl first ↦
        rw (first, place)
          (
            λ z m. elim ((mem_cons z y ys).0 m) [
              | inl e ↦ rw e first
              | inr m' ↦ trans x y z first (h.0 z m')
            ],
            h,
          )
    | inr later ↦
        rw (later, place)
          (
            λ z m. elim ((mem-place z x ys).0 m) [
              | inl e ↦ rw e (total x y later)
              | inr m' ↦ h.0 z m'
            ],
            place-IsSorted trans total x ys h.1,
          )
  ]

  pub stable_sort-IsSorted :
      ((a b c : A) → le a b ≡ true → le b c ≡ true → le a c ≡ true)
      → ((a b : A) → le a b ≡ false → le b a ≡ true)
      → (xs : List A) → IsSorted (stable_sort xs)
  unfolding stable_sort
  stable_sort-IsSorted trans total [] = tt
  stable_sort-IsSorted trans total (x ∷ xs) =
      place-IsSorted trans total x (stable_sort xs) (stable_sort-IsSorted trans total xs)
