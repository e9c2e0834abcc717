-- ===== src/Prelude/Lists.antt =====
-- Lists measured and indexed by native numbers, under the library's names, and membership.
use Prim.Native.Nat.{ℕ, zero, suc, ◌+◌, ◌<◌, ◌≤◌}
use mathlib.Core.Path.{◌≡◌, refl, sym, ap, ◌∙◌}
use mathlib.Core.Logic.{◌⊎◌, inl, inr, ◌↔◌, ⊎_elim}
use mathlib.Core.Bool.{Bool, true, false}
use mathlib.Core.Option.{Option, none, some}
use mathlib.Core.List.{List, [], ◌∷◌, ◌++◌, Memᴰ}
use mathlib.Core.List.Memᴰ
use native.Mathlib.Omega.{arith}
use libloot.Prelude.Tests.{if◌then◌else◌}

module _ {ℓ} {A : Type ℓ} where
  abbrev pub length : List A → ℕ
  length [] = 0
  length (x ∷ xs) = suc (length xs)

  abbrev pub get_elem? : List A → ℕ → Option A
  get_elem? [] i = none
  get_elem? (x ∷ xs) zero = some x
  get_elem? (x ∷ xs) (suc i) = get_elem? xs i

  -- The items that pass a test, in their order.
  abbrev pub keep : (A → Bool) → List A → List A
  keep p [] = []
  keep p (x ∷ xs) = if p x then x ∷ keep p xs else keep p xs

  -- Whether some item passes a test.
  abbrev pub any : (A → Bool) → List A → Bool
  any p [] = false
  any p (x ∷ xs) = if p x then true else any p xs

  -- The first item that passes a test.
  abbrev pub find : (A → Bool) → List A → Option A
  find p [] = none
  find p (x ∷ xs) = if p x then some x else find p xs

  abbrev pub take : ℕ → List A → List A
  take zero xs = []
  take (suc n) [] = []
  take (suc n) (x ∷ xs) = x ∷ take n xs

  abbrev pub drop : ℕ → List A → List A
  drop zero xs = xs
  drop (suc n) [] = []
  drop (suc n) (x ∷ xs) = drop n xs

  -- `Vec::insert`, which panics behind the end; there, it is not called.
  abbrev pub insert_index : ℕ → A → List A → List A
  insert_index zero a xs = a ∷ xs
  insert_index (suc n) a [] = a ∷ []
  insert_index (suc n) a (x ∷ xs) = x ∷ insert_index n a xs

  -- `windows(2)`: the pairs of consecutive items.
  abbrev pub windows : List A → List (A × A)
  windows [] = []
  windows (x ∷ []) = []
  windows (x ∷ y ∷ ys) = (x, y) ∷ windows (y ∷ ys)

  -- The position of the first item that passes a test.
  abbrev pub position : (A → Bool) → List A → Option ℕ
  position p [] = none
  position p (x ∷ xs) =
      let rest = position p xs in
      if p x then some 0 else elim rest [ none ↦ none | some i ↦ some (suc i) ]

  abbrev pub last? : List A → Option A
  last? [] = none
  last? (x ∷ []) = some x
  last? (x ∷ y ∷ ys) = last? (y ∷ ys)

  -- All items but the last.
  abbrev pub init : List A → List A
  init [] = []
  init (x ∷ []) = []
  init (x ∷ y ∷ ys) = x ∷ init (y ∷ ys)

  pub length-append : (xs ys : List A) → length (xs ++ ys) ≡ length xs + length ys
  length-append [] ys = omega arith
  length-append (x ∷ xs) ys = omega (arith, length-append xs ys)

  pub List-cases : (xs : List A) → (xs ≡ []) ⊎ ((x : A) × (rest : List A) × (xs ≡ x ∷ rest))
  List-cases [] = inl refl
  List-cases (x ∷ xs) = inr (x, xs, refl)

  pub eq-nil_of_length : (xs : List A) → length xs ≤ 0 → xs ≡ []
  eq-nil_of_length [] h = refl
  eq-nil_of_length (x ∷ xs) h = absurd (omega arith)

  pub mem_cons : (a x : A) (xs : List A) → Memᴰ a (x ∷ xs) ↔ ((a ≡ x) ⊎ Memᴰ a xs)
  mem_cons a x xs = (Memᴰ.cases_cons, ⊎_elim Memᴰ.head Memᴰ.tail)

  pub mem_concat : (a x : A) (xs : List A) → Memᴰ a (xs ++ x ∷ []) ↔ (Memᴰ a xs ⊎ (a ≡ x))
  mem_concat a x xs = (
    λ m. ⊎_elim inl (λ last. inr (Memᴰ.eq_of_singleton last)) (Memᴰ.append_cases xs m),
    ⊎_elim (Memᴰ.append_left _) (λ e. Memᴰ.append_right xs (Memᴰ.head e)),
  )

  pub not_mem_nil : {a : A} → ¬ (Memᴰ a [])
  not_mem_nil = Memᴰ.not-nil

-- The numbers from `k` on, `n` of them.
abbrev pub count_from : ℕ → ℕ → List ℕ
count_from k zero = []
count_from k (suc n) = k ∷ count_from (suc k) n

-- The node indices of a graph with `n` nodes.
abbrev pub range : ℕ → List ℕ
range n = count_from 0 n

pub mem-count_from_lt : (k n x : ℕ) → Memᴰ x (count_from k n) → x < k + n
mem-count_from_lt k zero x m = absurd (not_mem_nil m)
mem-count_from_lt k (suc n) x m = elim ((mem_cons x k (count_from (suc k) n)).0 m) [
  | inl e ↦ omega arith
  | inr later ↦ omega (arith, mem-count_from_lt (suc k) n x later)
]

pub mem-count_from : (k n x : ℕ) → k ≤ x → x < k + n → Memᴰ x (count_from k n)
mem-count_from k zero x h lt = absurd (omega arith)
mem-count_from k (suc n) x h lt =
    ground (arith, mem_cons x k (count_from (suc k) n), mem-count_from (suc k) n x)

-- No item stands in the list twice.
abbrev pub IsDistinct {ℓ} : {A : Type ℓ} → List A → Type ℓ
IsDistinct [] = Unit
IsDistinct (x ∷ xs) = ¬ (Memᴰ x xs) × IsDistinct xs

pub mem-count_from_ge : (k n x : ℕ) → Memᴰ x (count_from k n) → k ≤ x
mem-count_from_ge k zero x m = absurd (not_mem_nil m)
mem-count_from_ge k (suc n) x m = elim ((mem_cons x k (count_from (suc k) n)).0 m) [
  | inl e ↦ omega arith
  | inr later ↦ omega (arith, mem-count_from_ge (suc k) n x later)
]

pub count_from-IsDistinct : (k n : ℕ) → IsDistinct (count_from k n)
count_from-IsDistinct k zero = tt
count_from-IsDistinct k (suc n) =
    (λ m. absurd (omega (arith, mem-count_from_ge (suc k) n k m)), count_from-IsDistinct (suc k) n)

-- The first of two values that is set.
abbrev pub or_else : {A : Type 0} → Option A → Option A → Option A
or_else (some a) o = some a
or_else none o = o

pub true-false : true ≡ false → ⊥
true-false h = cc

pub some_inj {ℓ} : {A : Type ℓ} (a b : A) → some a ≡ some b → a ≡ b
some_inj a b h = cc

-- The items of a list that pass a test.
pub mem_keep :
    {A : Type 0} (p : A → Bool) (a : A) (l : List A) → Memᴰ a (keep p l) ↔ (Memᴰ a l × (p a ≡ true))
mem_keep p a [] = (λ m. absurd (not_mem_nil m), λ m. absurd (not_mem_nil m.0))
mem_keep p a (x ∷ l) = go (p x) refl (mem_keep p a l)
  where
    go :
        (b : Bool)
        → p x ≡ b
        → Memᴰ a (keep p l) ↔ (Memᴰ a l × (p a ≡ true))
        → Memᴰ a (if b then x ∷ keep p l else keep p l) ↔ (Memᴰ a (x ∷ l) × (p a ≡ true))
    go true e rest = (
      λ m. elim ((mem_cons a x (keep p l)).0 m) [
        | inl same ↦ (Memᴰ.head same, ap p same ∙ e)
        | inr m' ↦ (Memᴰ.tail (rest.0 m').0, (rest.0 m').1)
      ],
      λ m. elim ((mem_cons a x l).0 m.0) [
        | inl same ↦ Memᴰ.head same
        | inr m' ↦ Memᴰ.tail (rest.1 (m', m.1))
      ],
    )
    go false e rest = (
      λ m. (Memᴰ.tail (rest.0 m).0, (rest.0 m).1),
      λ m. elim ((mem_cons a x l).0 m.0) [
        | inl same ↦ absurd (true-false (sym m.1 ∙ ap p same ∙ e))
        | inr m' ↦ rest.1 (m', m.1)
      ],
    )

pub any-false :
    {A : Type 0} (p : A → Bool) (a : A) (l : List A) → any p l ≡ false → Memᴰ a l → p a ≡ false
any-false p a [] h m = absurd (not_mem_nil m)
any-false p a (x ∷ l) h m = go (p x) refl h (any-false p a l)
  where
    go :
        (b : Bool)
        → p x ≡ b
        → (if b then true else any p l) ≡ false
        → (any p l ≡ false → Memᴰ a l → p a ≡ false)
        → p a ≡ false
    go true e h rec = absurd (cc)
    go false e h rec = elim ((mem_cons a x l).0 m) [ inl same ↦ ap p same ∙ e | inr m' ↦ rec h m' ]
