-- ===== src/Metadata/Masterlist/Matches.antt =====
-- src/metadata/metadata_document.rs: what the searches in a text find.
use libloot.Prelude.{
  ℕ, suc, ◌≡◌, refl, sym, ap, ◌∙◌, subst, inl, inr, Bool, true, false, ◌&&◌, [], ◌∷◌, ◌++◌, Option,
  none, some, some_inj, length, Bool-cases, ◌==◌, if◌then◌else◌, arith,
}
use libloot.Text.{Text, strip_prefix, starts_with, find_text, is_char_boundary, split_at_checked}

starts_with-append : (p s : Text) → starts_with p s ≡ true → (rest : Text) × (s ≡ p ++ rest)
starts_with-append [] s h = (s, refl)
starts_with-append (b ∷ p) [] h = absurd (cc)
starts_with-append (b ∷ p) (c ∷ s) h = elim (Bool-cases (b == c)) [
  | inl e ↦
      let same : b ≡ c = ground arith in
      let (rest, eq) = starts_with-append p s (subst (λ t. (t && starts_with p s) ≡ true) e h) in
      (rest, rw (same, eq) refl)
  | inr e ↦ absurd (ground arith)
]

pub strip_prefix-append : (p s : Text) (rest : Text) → strip_prefix p s ≡ some rest → s ≡ p ++ rest
strip_prefix-append [] s rest h = some_inj s rest h
strip_prefix-append (b ∷ p) [] rest h = absurd (cc)
strip_prefix-append (b ∷ p) (c ∷ s) rest h = elim (Bool-cases (b == c)) [
  | inl e ↦
      let same : b ≡ c = ground arith in
      let eq =
        strip_prefix-append p s rest
          (subst (λ t. (if t then strip_prefix p s else none) ≡ some rest) e h) in
      rw (same, eq) refl
  | inr e ↦
      absurd (ground (arith, subst (λ t. (if t then strip_prefix p s else none) ≡ some rest) e h))
]

abbrev pub MatchAt : Text → Text → ℕ → Type 0
MatchAt p s i = (lead : Text) × (rest : Text) × (s ≡ lead ++ (p ++ rest)) × (length lead ≡ i)

pub find_text-MatchAt : (p s : Text) (i : ℕ) → find_text p s ≡ some i → MatchAt p s i
find_text-MatchAt [] [] i h = ([], [], refl, some_inj 0 i h)
find_text-MatchAt (b ∷ p) [] i h = absurd (cc)
find_text-MatchAt p (c ∷ cs) i h =
    go (starts_with p (c ∷ cs)) refl (find_text p cs) (find_text-MatchAt p cs) h
  where
    go :
        (t : Bool)
        → starts_with p (c ∷ cs) ≡ t
        → (o : Option ℕ) → ((k : ℕ) → o ≡ some k → MatchAt p cs k)
        → (if t then some 0 else elim o [ none ↦ none | some k ↦ some (suc k) ]) ≡ some i
        → MatchAt p (c ∷ cs) i
    go true e o rec h =
        let (rest, eq) = starts_with-append p (c ∷ cs) e in ([], rest, eq, some_inj 0 i h)
    go false e none rec h = absurd (cc)
    go false e (some k) rec h =
        let (lead, rest, eq, count) = rec k refl in
        (c ∷ lead, rest, ap (λ l. c ∷ l) eq, ap suc count ∙ some_inj (suc k) i h)

pub split_at_checked-append :
    (first last a b : Text)
    → split_at_checked (length first) (first ++ last) ≡ some (a, b)
    → (a ≡ first) × (b ≡ last)
split_at_checked-append [] last a b h = go (is_char_boundary last) h
  where
    go :
        (t : Bool)
        → ◌≡◌ {A = Option (Text × Text)} (if t then some ([], last) else none) (some (a, b))
        → (a ≡ []) × (b ≡ last)
    go false h = absurd (cc)
    go true h =
        let same = some_inj ([], last) (a, b) h in
        (sym (ap (λ (w : Text × Text). w.0) same), sym (ap (λ (w : Text × Text). w.1) same))
split_at_checked-append (c ∷ first) last a b h =
    go (split_at_checked (length first) (first ++ last)) (split_at_checked-append first last) h
  where
    go :
        (o : Option (Text × Text))
        → ((x y : Text) → o ≡ some (x, y) → (x ≡ first) × (y ≡ last))
        → (elim o as (λ w. Option (Text × Text)) [ none ↦ none | some (x, y) ↦ some (c ∷ x, y) ])
          ≡ some (a, b)
        → (a ≡ c ∷ first) × (b ≡ last)
    go none rec h = absurd (cc)
    go (some (x, y)) rec h =
        let (ex, ey) = rec x y refl in
        let same = some_inj (c ∷ x, y) (a, b) h in
        (
          sym (ap (λ (w : Text × Text). w.0) same) ∙ ap (λ l. c ∷ l) ex,
          sym (ap (λ (w : Text × Text). w.1) same) ∙ ey,
        )
