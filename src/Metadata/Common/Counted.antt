-- ===== src/Metadata/Common/Counted.antt =====
-- src/metadata/metadata_document.rs: what counting comes to.
use libloot.Prelude.{
  ℕ, suc, ◌+◌, ◌%◌, ◌<◌, ◌≡◌, refl, sym, ap, ◌∙◌, subst, Bool, true, false, not, List, [], ◌∷◌,
  ◌++◌, Option, none, some, any, keep, length, ltb, true-false, if◌then◌else◌, arith,
}
use mathlib.Core.List.{append_assoc, append-nil}
use libloot.Text.{is_none}
use libloot.Prelude.Dict.{IsEquivalence, lookup, insert, lookup-insert, lookup_same}
use libloot.Metadata.Common.{OrderedCounts, new_counts, increment_for, into_common_values}

module _ {A : Type 0} (eq : A → A → Bool) where
  -- How many of the values are equal to one.
  abbrev pub occurrences : A → List A → ℕ
  occurrences a [] = 0
  occurrences a (x ∷ xs) = if eq x a then suc (occurrences a xs) else occurrences a xs

  -- The values to which no earlier one is equal.
  abbrev pub firsts_after : List A → List A → List A
  firsts_after seen [] = []
  firsts_after seen (x ∷ xs) =
      let rest = firsts_after (x ∷ seen) xs in if any (λ s. eq s x) seen then rest else x ∷ rest

  -- Counting one value after the other.
  abbrev pub increments : List A → OrderedCounts A → OrderedCounts A
  increments [] c = c
  increments (x ∷ xs) c = increments xs (increment_for eq x c).1

  abbrev count_of : Option ℕ → ℕ
  count_of none = 0
  count_of (some n) = n

  mod_same : (n : ℕ) → n < 4294967296 → n % 4294967296 ≡ n
  mod_same n h = omega arith

  module _ (law : IsEquivalence eq) where
    count_of-increment_for :
        (x a : A) (c : OrderedCounts A)
        → count_of (lookup eq x c.counts) + 1 < 4294967296
        → count_of (lookup eq a (increment_for eq x c).1.counts) ≡ (
            if eq x a
            then suc (count_of (lookup eq a c.counts))
            else count_of (lookup eq a c.counts))
    unfolding increment_for
    count_of-increment_for x a c fits = go (lookup eq x c.counts) refl
      where
        choose :
            (n : ℕ)
            → (eq x a ≡ true → n ≡ suc (count_of (lookup eq a c.counts)))
            → (b : Bool) → eq x a ≡ b
            → count_of (if b then some n else lookup eq a c.counts) ≡ (
                if b
                then suc (count_of (lookup eq a c.counts))
                else count_of (lookup eq a c.counts))
        choose n h true e = h e
        choose n h false e = refl

        same : eq x a ≡ true → count_of (lookup eq x c.counts) ≡ count_of (lookup eq a c.counts)
        same h = ap count_of (lookup_same eq law x a c.counts h)

        go :
            (o : Option ℕ)
            → lookup eq x c.counts ≡ o
            → count_of (lookup eq a (increment_for eq x c).1.counts) ≡ (
                if eq x a
                then suc (count_of (lookup eq a c.counts))
                else count_of (lookup eq a c.counts))
        go (some n) e =
            rw (e, increment_for)
              (ap count_of (lookup-insert eq law x a ((n + 1) % 4294967296) c.counts)
                ∙ choose ((n + 1) % 4294967296)
                    (λ h.
                      mod_same (n + 1) (omega (arith, fits, ap count_of e))
                      ∙ omega (arith, same h, ap count_of e))
                    (eq x a) refl)
        go none e =
            rw (e, increment_for)
              (ap count_of (lookup-insert eq law x a 1 c.counts)
                ∙ choose 1 (λ h. omega (arith, same h, ap count_of e)) (eq x a) refl)

    count_of-increments :
        (xs : List A) (a : A) (c : OrderedCounts A)
        → ((b : A) → count_of (lookup eq b c.counts) + length xs < 4294967296)
        → count_of (lookup eq a (increments xs c).counts)
          ≡ count_of (lookup eq a c.counts) + occurrences a xs
    count_of-increments [] a c fits = omega arith
    count_of-increments (x ∷ xs) a c fits =
        go (eq x a) (count_of-increment_for x a c (omega (arith, fits x))) (
          count_of-increments xs a (increment_for eq x c).1 (λ b.
            below _ _ (eq x b) (count_of-increment_for x b c (omega (arith, fits x))) (fits b)))
      where
        below :
            (n m : ℕ) (t : Bool)
            → n ≡ (if t then suc m else m)
            → m + suc (length xs) < 4294967296
            → n + length xs < 4294967296
        below n m true e h = omega (arith, e, h)
        below n m false e h = omega (arith, e, h)

        go :
            (b : Bool)
            → count_of (lookup eq a (increment_for eq x c).1.counts) ≡ (
                if b
                then suc (count_of (lookup eq a c.counts))
                else count_of (lookup eq a c.counts))
            → count_of (lookup eq a (increments xs (increment_for eq x c).1).counts)
              ≡ count_of (lookup eq a (increment_for eq x c).1.counts) + occurrences a xs
            → count_of (lookup eq a (increments xs (increment_for eq x c).1).counts)
              ≡ count_of (lookup eq a c.counts)
                + (if b then suc (occurrences a xs) else occurrences a xs)
        go true h k = omega (arith, h, k)
        go false h k = omega (arith, h, k)

    -- The values that were counted are those that have a count.
    abbrev IsSeen : List A → OrderedCounts A → Type 0
    IsSeen seen c = (a : A) → is_none (lookup eq a c.counts) ≡ not (any (λ s. eq s a) seen)

    increment_for-step :
        (x : A) (seen : List A) (c : OrderedCounts A)
        → IsSeen seen c
        → IsSeen (x ∷ seen) (increment_for eq x c).1
          × ((increment_for eq x c).1.order
              ≡ (if any (λ s. eq s x) seen then c.order else c.order ++ x ∷ []))
    unfolding increment_for
    increment_for-step x seen c h = go (lookup eq x c.counts) refl
      where
        choose :
            (n : ℕ) (a : A) (b : Bool)
            → is_none (if b then some n else lookup eq a c.counts)
              ≡ not (if b then true else any (λ s. eq s a) seen)
        choose n a true = refl
        choose n a false = h a

        put :
            (n : ℕ) (a : A)
            → is_none (lookup eq a (insert eq x n c.counts).1)
              ≡ not (if eq x a then true else any (λ s. eq s a) seen)
        put n a = ap is_none (lookup-insert eq law x a n c.counts) ∙ choose n a (eq x a)

        is_seen :
            (o : Option ℕ) → lookup eq x c.counts ≡ o → is_none o ≡ not (any (λ s. eq s x) seen)
        is_seen o e = subst (λ w. is_none w ≡ not (any (λ s. eq s x) seen)) e (h x)

        order_true :
            (b : Bool) → false ≡ not b → c.order ≡ (if b then c.order else c.order ++ x ∷ [])
        order_true true e = refl
        order_true false e = absurd (true-false (sym e))

        order_false :
            (b : Bool)
            → true ≡ not b
            → c.order ++ x ∷ [] ≡ (if b then c.order else c.order ++ x ∷ [])
        order_false true e = absurd (true-false e)
        order_false false e = refl

        go :
            (o : Option ℕ)
            → lookup eq x c.counts ≡ o
            → IsSeen (x ∷ seen) (increment_for eq x c).1
              × ((increment_for eq x c).1.order
                  ≡ (if any (λ s. eq s x) seen then c.order else c.order ++ x ∷ []))
        go (some n) e =
            rw (e, increment_for) (put ((n + 1) % 4294967296), order_true _ (is_seen (some n) e))
        go none e = rw (e, increment_for) (put 1, order_false _ (is_seen none e))

    order-increments :
        (xs seen : List A) (c : OrderedCounts A)
        → IsSeen seen c
        → (increments xs c).order ≡ c.order ++ firsts_after seen xs
    order-increments [] seen c h = sym (append-nil c.order)
    order-increments (x ∷ xs) seen c h =
        let step = increment_for-step x seen c h in
        go (any (λ s. eq s x) seen) step.1
          (order-increments xs (x ∷ seen) (increment_for eq x c).1 step.0)
      where
        go :
            (b : Bool)
            → (increment_for eq x c).1.order ≡ (if b then c.order else c.order ++ x ∷ [])
            → (increments xs (increment_for eq x c).1).order
              ≡ (increment_for eq x c).1.order ++ firsts_after (x ∷ seen) xs
            → (increments xs (increment_for eq x c).1).order
              ≡ c.order
                ++ (if b then firsts_after (x ∷ seen) xs else x ∷ firsts_after (x ∷ seen) xs)
        go true e k = k ∙ ap (λ l. l ++ firsts_after (x ∷ seen) xs) e
        go false e k =
            k
            ∙ ap (λ l. l ++ firsts_after (x ∷ seen) xs) e
            ∙ append_assoc c.order (x ∷ []) (firsts_after (x ∷ seen) xs)

    keep_ext : (p q : A → Bool) (l : List A) → ((a : A) → p a ≡ q a) → keep p l ≡ keep q l
    keep_ext p q [] h = refl
    keep_ext p q (x ∷ l) h = rw (h x, keep_ext p q l h) refl

    -- The common values are, of the values counted, the first ones of those that occur more than
    -- once.
    pub into_common_values-increments :
        (xs : List A)
        → length xs < 4294967296
        → into_common_values eq (increments xs new_counts)
          ≡ keep (λ a. ltb 1 (occurrences a xs)) (firsts_after [] xs)
    unfolding into_common_values
    into_common_values-increments xs fits =
        ap (keep _) (order-increments xs [] new_counts (λ a. refl))
        ∙ keep_ext _ _ (firsts_after [] xs) (λ a.
          counted (lookup eq a (increments xs new_counts).counts)
          ∙ ap (ltb 1) (
              start _ (occurrences a xs)
                (count_of-increments xs a new_counts (λ b. omega (arith, fits)))))
      where
        start : (m n : ℕ) → m ≡ 0 + n → m ≡ n
        start m n e = omega arith

        counted :
            (o : Option ℕ)
            → (elim o as (λ x. Bool) [ some n ↦ ltb 1 n | none ↦ false ]) ≡ ltb 1 (count_of o)
        counted none = refl
        counted (some n) = refl
