-- ===== src/Metadata/Masterlist/Lines.antt =====
-- src/metadata/metadata_document.rs: the numbers of line breaks and of lines.
use libloot.Prelude.{
  ℕ, zero, suc, ◌+◌, ◌-◌, ◌≤◌, ◌≡◌, refl, ap, ◌∙◌, subst, inl, inr, Bool, true, false, ◌&&◌, List,
  [], ◌∷◌, ◌++◌, length, Bool-cases, ◌==◌, if◌then◌else◌, arith,
}
use libloot.Text.{
  Text, eq_text, is_empty, starts_with, ends_with, lines, replace_from, replace, trim_end_matches,
}
use libloot.Metadata.Masterlist.{count_lines, indent_prelude}

abbrev pub one_if : Bool → ℕ
one_if true = 1
one_if false = 0

-- The number of line breaks in a text.
abbrev pub newlines : Text → ℕ
newlines [] = 0
newlines (c ∷ cs) = one_if (c == b'\n') + newlines cs

pub newlines-append : (s t : Text) → newlines (s ++ t) ≡ newlines s + newlines t
newlines-append [] t = omega arith
newlines-append (c ∷ cs) t = omega (arith, newlines-append cs t)

-- The line breaks in the first bytes of a text.
abbrev newlines_within : ℕ → Text → ℕ
newlines_within zero s = 0
newlines_within (suc n) [] = 0
newlines_within (suc n) (c ∷ cs) = one_if (c == b'\n') + newlines_within n cs

newlines_within-length :
    (p s : Text) → starts_with p s ≡ true → newlines_within (length p) s ≡ newlines p
newlines_within-length [] s h = refl
newlines_within-length (b ∷ p) [] h = absurd (cc)
newlines_within-length (b ∷ p) (c ∷ s) h = elim (Bool-cases (b == c)) [
  | inl e ↦
      let same : b ≡ c = ground arith in
      let later = newlines_within-length p s (subst (λ t. (t && starts_with p s) ≡ true) e h) in
      omega (arith, later, ap (λ w. one_if (w == b'\n')) same)
  | inr e ↦ absurd (ground arith)
]

newlines-replace_from :
    (skip : ℕ) (b : ℕ) (p w s : Text)
    → newlines (b ∷ p) ≡ newlines w
    → newlines (replace_from skip (b ∷ p) w s) + newlines_within skip s ≡ newlines s
newlines-replace_from zero b p w [] h = refl
newlines-replace_from (suc skip) b p w [] h = refl
newlines-replace_from (suc skip) b p w (c ∷ cs) h =
    omega (arith, newlines-replace_from skip b p w cs h)
newlines-replace_from zero b p w (c ∷ cs) h = elim (Bool-cases (starts_with (b ∷ p) (c ∷ cs))) [
  | inl e ↦
      let skip = suc (length p) - 1 in
      let same : skip ≡ length p = omega arith in
      rw e (
        omega (
          arith,
          h,
          newlines-append w (replace_from skip (b ∷ p) w cs),
          newlines-replace_from skip b p w cs h,
          newlines_within-length (b ∷ p) (c ∷ cs) e,
          ap (λ k. newlines_within k cs) same,
        ))
  | inr e ↦ rw e (omega (arith, newlines-replace_from 0 b p w cs h))
]

newlines-replace :
    (b : ℕ) (p w s : Text)
    → newlines (b ∷ p) ≡ newlines w
    → newlines (replace (b ∷ p) w s) ≡ newlines s
newlines-replace b p w s h = omega (arith, newlines-replace_from 0 b p w s h)

newlines-trim_end_matches :
    (b : ℕ) (s : Text) → ¬ (b ≡ b'\n') → newlines (trim_end_matches b s) ≡ newlines s
newlines-trim_end_matches b [] h = refl
newlines-trim_end_matches b (c ∷ cs) h =
    go (trim_end_matches b cs) (newlines-trim_end_matches b cs h)
  where
    go :
        (rest : Text)
        → newlines rest ≡ newlines cs
        → newlines (if is_empty rest && c == b then [] else c ∷ rest) ≡ newlines (c ∷ cs)
    go [] e = elim (Bool-cases (c == b)) [
      | inl t ↦
          let same : c ≡ b = ground arith in
          let other : (c == b'\n') ≡ false = ground arith in
          rw t (omega (arith, e, ap one_if other))
      | inr t ↦ rw t (omega (arith, e))
    ]
    go (d ∷ ds) e = omega (arith, e)

one_if-le : (b : Bool) → one_if b ≤ 1
one_if-le true = omega arith
one_if-le false = omega arith

eq_text_eq : (s t : Text) → eq_text s t ≡ true → s ≡ t
eq_text_eq [] [] h = refl
eq_text_eq [] (d ∷ t) h = absurd (cc)
eq_text_eq (c ∷ s) [] h = absurd (cc)
eq_text_eq (c ∷ s) (d ∷ t) h = elim (Bool-cases (c == d)) [
  | inl e ↦
      let same : c ≡ d = ground arith in
      rw (same, eq_text_eq s t (subst (λ b. (b && eq_text s t) ≡ true) e h)) refl
  | inr e ↦ absurd (ground arith)
]

newlines-ends_with : (p s : Text) → ends_with p s ≡ true → newlines p ≤ newlines s
newlines-ends_with [] [] h = omega arith
newlines-ends_with (b ∷ p) [] h = absurd (cc)
newlines-ends_with p (c ∷ cs) h = elim (Bool-cases (eq_text p (c ∷ cs))) [
  | inl e ↦ omega (arith, ap newlines (eq_text_eq p (c ∷ cs) e))
  | inr e ↦ omega (
    arith,
    newlines-ends_with p cs (subst (λ b. (if b then true else ends_with p cs) ≡ true) e h),
  )
]

-- Indenting keeps the number of line breaks.
pub newlines-indent_prelude :
    (prelude : Text) → newlines (indent_prelude prelude) ≡ newlines prelude
unfolding indent_prelude
newlines-indent_prelude prelude = trimmed (ends_with (b'\n' ∷ b' ' ∷ b' ' ∷ []) indented)
  where
    first : Text
    first = b' ' ∷ b' ' ∷ replace (b'\n' ∷ []) (b'\n' ∷ b' ' ∷ b' ' ∷ []) prelude

    second : Text
    second = replace (b' ' ∷ b' ' ∷ b'\r' ∷ b'\n' ∷ []) (b'\r' ∷ b'\n' ∷ []) first

    indented : Text
    indented = replace (b' ' ∷ b' ' ∷ b'\n' ∷ []) (b'\n' ∷ []) second

    same : newlines indented ≡ newlines prelude
    same = omega (
      arith,
      newlines-replace b' ' (b' ' ∷ b'\n' ∷ []) (b'\n' ∷ []) second (refl),
      newlines-replace b' ' (b' ' ∷ b'\r' ∷ b'\n' ∷ []) (b'\r' ∷ b'\n' ∷ []) first (refl),
      newlines-replace b'\n' [] (b'\n' ∷ b' ' ∷ b' ' ∷ []) prelude (refl),
    )

    trimmed :
        (b : Bool)
        → newlines (if b then trim_end_matches b' ' indented else indented) ≡ newlines prelude
    trimmed true = newlines-trim_end_matches b' ' indented (λ h. omega arith) ∙ same
    trimmed false = same

nonempty-append : (s t : Text) → is_empty s ≡ false → is_empty (s ++ t) ≡ false
nonempty-append [] t h = absurd (cc)
nonempty-append (c ∷ s) t h = refl

nonempty-replace :
    (p : Text) (d : ℕ) (w s : Text) → is_empty s ≡ false → is_empty (replace p (d ∷ w) s) ≡ false
nonempty-replace p d w [] h = h
nonempty-replace p d w (c ∷ cs) h = nonempty-append _ _ (go (starts_with p (c ∷ cs)))
  where
    go : (b : Bool) → is_empty (if b then d ∷ w else c ∷ []) ≡ false
    go true = refl
    go false = refl

nonempty_of_newlines : (s : Text) → 1 ≤ newlines s → is_empty s ≡ false
nonempty_of_newlines [] h = absurd (omega arith)
nonempty_of_newlines (c ∷ s) h = refl

-- An indented prelude is never empty.
pub nonempty-indent_prelude : (prelude : Text) → is_empty (indent_prelude prelude) ≡ false
unfolding indent_prelude
nonempty-indent_prelude prelude = trimmed (ends_with (b'\n' ∷ b' ' ∷ b' ' ∷ []) indented) refl
  where
    first : Text
    first = b' ' ∷ b' ' ∷ replace (b'\n' ∷ []) (b'\n' ∷ b' ' ∷ b' ' ∷ []) prelude

    second : Text
    second = replace (b' ' ∷ b' ' ∷ b'\r' ∷ b'\n' ∷ []) (b'\r' ∷ b'\n' ∷ []) first

    indented : Text
    indented = replace (b' ' ∷ b' ' ∷ b'\n' ∷ []) (b'\n' ∷ []) second

    nonempty : is_empty indented ≡ false
    nonempty =
        nonempty-replace (b' ' ∷ b' ' ∷ b'\n' ∷ []) b'\n' [] second
          (nonempty-replace (b' ' ∷ b' ' ∷ b'\r' ∷ b'\n' ∷ []) b'\r' (b'\n' ∷ []) first refl)

    trimmed :
        (b : Bool)
        → ends_with (b'\n' ∷ b' ' ∷ b' ' ∷ []) indented ≡ b
        → is_empty (if b then trim_end_matches b' ' indented else indented) ≡ false
    trimmed true e = nonempty_of_newlines (trim_end_matches b' ' indented) (
        omega (
          arith,
          newlines-ends_with (b'\n' ∷ b' ' ∷ b' ' ∷ []) indented e,
          newlines-trim_end_matches b' ' indented (λ h. omega arith),
        ))
    trimmed false e = nonempty

nonempty-lines : (c : ℕ) (cs : Text) → is_empty (lines (c ∷ cs)) ≡ false
nonempty-lines c cs = go (c == b'\n') (lines cs)
  where
    go :
        (b : Bool) (rest : List Text)
        → is_empty (
            if b
            then [] ∷ rest
            else elim rest [ [] ↦ (c ∷ []) ∷ [] | line ∷ others ↦ (c ∷ line) ∷ others ])
          ≡ false
    go true rest = refl
    go false [] = refl
    go false (line ∷ others) = refl

length-lines :
    (c : ℕ) (cs : Text)
    → length (lines (c ∷ cs)) + one_if (ends_with (b'\n' ∷ []) (c ∷ cs)) ≡ newlines (c ∷ cs) + 1
length-lines c [] = grind arith
length-lines c (d ∷ ds) = omega (
  arith,
  ap one_if (skipped (b'\n' == c)),
  go (c == b'\n') (lines (d ∷ ds)) (nonempty-lines d ds) (length-lines d ds),
)
  where
    ends : Bool
    ends = ends_with (b'\n' ∷ []) (d ∷ ds)

    skipped : (b : Bool) → (if b && false then true else ends) ≡ ends
    skipped true = refl
    skipped false = refl

    go :
        (b : Bool) (rest : List Text)
        → is_empty rest ≡ false
        → length rest + one_if ends ≡ newlines (d ∷ ds) + 1
        → length (
              if b
              then [] ∷ rest
              else elim rest [ [] ↦ (c ∷ []) ∷ [] | line ∷ others ↦ (c ∷ line) ∷ others ])
            + one_if ends
          ≡ one_if b + newlines (d ∷ ds) + 1
    go true rest nonempty h = omega (arith, h)
    go false [] nonempty h = absurd (cc)
    go false (line ∷ others) nonempty h = omega (arith, h)

-- The number of lines of a text that is not empty.
pub count_lines_lem : (s : Text) → is_empty s ≡ false → count_lines s ≡ newlines s + 1
unfolding count_lines
count_lines_lem [] h = absurd (cc)
count_lines_lem (c ∷ cs) h = go (ends_with (b'\n' ∷ []) (c ∷ cs)) (length-lines c cs)
  where
    go :
        (b : Bool)
        → length (lines (c ∷ cs)) + one_if b ≡ newlines (c ∷ cs) + 1
        → (if b then length (lines (c ∷ cs)) + 1 else length (lines (c ∷ cs)))
          ≡ newlines (c ∷ cs) + 1
    go true e = e
    go false e = omega (arith, e)
