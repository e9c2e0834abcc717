-- ===== src/Prelude/Dict.antt =====
-- `HashMap` as an association list. At most one entry of a map has an equal key, so the order of the
-- entries does not matter and removing drops all that are equal.
use mathlib.Core.Path.{◌≡◌, refl, sym, ◌∙◌}
use mathlib.Core.Logic.{inl, inr}
use mathlib.Core.Bool.{Bool, true, false, not}
use mathlib.Core.Option.{Option, none, some}
use mathlib.Core.List.{List, [], ◌∷◌}
use libloot.Prelude.Tests.{if◌then◌else◌, Bool-cases}
use libloot.Prelude.Lists.{keep, true-false}

pub record IsEquivalence {K : Type 0} (eq : K → K → Bool) : Type 0 where
  pub reflexive : (a : K) → eq a a ≡ true
  pub symmetric : (a b : K) → eq a b ≡ true → eq b a ≡ true
  pub transitive : (a b c : K) → eq a b ≡ true → eq b c ≡ true → eq a c ≡ true

module _ {K V : Type 0} (eq : K → K → Bool) where
  -- `HashMap::get`
  abbrev pub lookup : K → List (K × V) → Option V
  lookup k [] = none
  lookup k ((key, value) ∷ entries) =
      let later = lookup k entries in if eq key k then some value else later

  -- `HashMap::insert`, which returns the old value and keeps an equal key that is there.
  abbrev pub insert : K → V → List (K × V) → Option V × List (K × V)
  insert k v [] = (none, (k, v) ∷ [])
  insert k v ((key, value) ∷ entries) =
      let later = insert k v entries in
      if eq key k then (some value, (key, v) ∷ entries) else (later.0, (key, value) ∷ later.1)

  -- `HashMap::remove`
  abbrev pub remove : K → List (K × V) → List (K × V)
  remove k entries = keep (λ (entry : K × V). not (eq entry.0 k)) entries

module _ {K : Type 0} (eq : K → K → Bool) (law : IsEquivalence eq) where
  pub eq_left : (a b c : K) → eq a b ≡ true → eq a c ≡ eq b c
  eq_left a b c h = elim (Bool-cases (eq b c)) [
    | inl e ↦ law.transitive a b c h e ∙ sym e
    | inr e ↦ elim (Bool-cases (eq a c)) [
      | inl k ↦ absurd (true-false (sym (law.transitive b a c (law.symmetric a b h) k) ∙ e))
      | inr k ↦ k ∙ sym e
    ]
  ]

  eq_right : (a b c : K) → eq a b ≡ false → eq a c ≡ true → eq b c ≡ false
  eq_right a b c h k = elim (Bool-cases (eq b c)) [
    | inl e ↦ absurd (true-false (sym (law.transitive a c b k (law.symmetric b c e)) ∙ h))
    | inr e ↦ e
  ]

  -- Equal keys are equal to the same keys.
  eq_same : (a b c : K) → eq a b ≡ true → eq c a ≡ eq c b
  eq_same a b c h = elim (Bool-cases (eq c b)) [
    | inl e ↦ law.transitive c b a e (law.symmetric a b h) ∙ sym e
    | inr e ↦ elim (Bool-cases (eq c a)) [
      | inl k ↦ absurd (true-false (sym (law.transitive c a b k h) ∙ e))
      | inr k ↦ k ∙ sym e
    ]
  ]

  module _ {V : Type 0} where
    pub lookup_same :
        (a b : K) (entries : List (K × V))
        → eq a b ≡ true
        → lookup eq a entries ≡ lookup eq b entries
    lookup_same a b [] h = refl
    lookup_same a b ((key, value) ∷ entries) h =
        rw (eq_same a b key h, lookup_same a b entries h) refl

    pub lookup-insert :
        (k f : K) (v : V) (entries : List (K × V))
        → lookup eq f (insert eq k v entries).1 ≡ (if eq k f then some v else lookup eq f entries)
    lookup-insert k f v [] = refl
    lookup-insert k f v ((key, value) ∷ entries) = elim (Bool-cases (eq key k)) [
      | inl e ↦ rw (e, eq_left key k f e) (both (eq k f))
      | inr e ↦
          rw (e, lookup-insert k f v entries)
            (elim (Bool-cases (eq key f)) [
              | inl h ↦ rw (h, eq_right key k f e h) refl
              | inr h ↦ rw h refl
            ])
    ]
      where
        both :
            (b : Bool)
            → (if b then some v else lookup eq f entries)
              ≡ (if b then some v else if b then some value else lookup eq f entries)
        both true = refl
        both false = refl

    pub old-insert :
        (k : K) (v : V) (entries : List (K × V)) → (insert eq k v entries).0 ≡ lookup eq k entries
    old-insert k v [] = refl
    old-insert k v ((key, value) ∷ entries) = elim (Bool-cases (eq key k)) [
      | inl e ↦ rw e refl
      | inr e ↦ rw e (old-insert k v entries)
    ]

    pub lookup-remove :
        (k f : K) (entries : List (K × V))
        → lookup eq f (remove eq k entries) ≡ (if eq k f then none else lookup eq f entries)
    lookup-remove k f [] = nothing (eq k f)
      where
        nothing : (b : Bool) → ◌≡◌ {A = Option V} none (if b then none else none)
        nothing true = refl
        nothing false = refl
    lookup-remove k f ((key, value) ∷ entries) = elim (Bool-cases (eq key k)) [
      | inl e ↦ rw (e, eq_left key k f e, lookup-remove k f entries) (both (eq k f))
      | inr e ↦ elim (Bool-cases (eq key f)) [
        | inl h ↦ rw (e, h, eq_right key k f e h) refl
        | inr h ↦ rw (e, h) (lookup-remove k f entries)
      ]
    ]
      where
        both :
            (b : Bool)
            → (if b then none else lookup eq f entries)
              ≡ (if b then none else if b then some value else lookup eq f entries)
        both true = refl
        both false = refl
