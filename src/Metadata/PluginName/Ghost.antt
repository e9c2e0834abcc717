-- ===== src/Metadata/PluginName/Ghost.antt =====
-- src/metadata/plugin_metadata.rs: the extension of ghosted plugins.
use libloot.Prelude.{
  ℕ, zero, suc, ◌-◌, ◌≡◌, refl, sym, ap, ◌∙◌, subst, ◌⊎◌, inl, inr, Bool, true, false, ◌&&◌, [],
  ◌∷◌, ◌++◌, Option, none, some, some_inj, length, length-append, Bool-cases, if◌then◌else◌, arith,
}
use libloot.Text.{Text, is_char_boundary, split_at_checked}
use libloot.Metadata.PluginName.{
  ghost_file_extension, eq_byte_ignore_case, eq_ignore_ascii_case, trim_dot_ghost,
}

length_of_eq : (s t : Text) → eq_ignore_ascii_case s t ≡ true → length s ≡ length t
length_of_eq [] [] h = refl
length_of_eq [] (d ∷ t) h = absurd (cc)
length_of_eq (c ∷ s) [] h = absurd (cc)
length_of_eq (c ∷ s) (d ∷ t) h = elim (Bool-cases (eq_byte_ignore_case c d)) [
  | inl e ↦ ap suc (length_of_eq s t (subst (λ b. (b && eq_ignore_ascii_case s t) ≡ true) e h))
  | inr e ↦ absurd (ground (arith, subst (λ b. (b && eq_ignore_ascii_case s t) ≡ true) e h))
]

ghost_boundary :
    (ext : Text)
    → eq_ignore_ascii_case ext ghost_file_extension ≡ true
    → is_char_boundary ext ≡ true
ghost_boundary [] h = refl
ghost_boundary (c ∷ ext) h = go (eq_byte_ignore_case c b'.') refl h
  where
    go :
        (t : Bool)
        → eq_byte_ignore_case c b'.' ≡ t
        → (t && eq_ignore_ascii_case ext (b'g' ∷ b'h' ∷ b'o' ∷ b's' ∷ b't' ∷ [])) ≡ true
        → is_char_boundary (c ∷ ext) ≡ true
    go true e k = ground arith
    go false e k = absurd (cc)

append_of_split : (n : ℕ) (s a b : Text) → split_at_checked n s ≡ some (a, b) → s ≡ a ++ b
append_of_split zero s a b h = go (is_char_boundary s) h
  where
    go :
        (t : Bool)
        → ◌≡◌ {A = Option (Text × Text)} (if t then some ([], s) else none) (some (a, b))
        → s ≡ a ++ b
    go true h =
        let same = some_inj ([], s) (a, b) h in
        ap (λ (w : Text × Text). w.1) same ∙ ap (λ (w : Text × Text). w.0 ++ b) same
    go false h = absurd (cc)
append_of_split (suc n) [] a b h = absurd (cc)
append_of_split (suc n) (c ∷ s) a b h = go (split_at_checked n s) (append_of_split n s) h
  where
    go :
        (o : Option (Text × Text))
        → ((x y : Text) → o ≡ some (x, y) → s ≡ x ++ y)
        → (elim o as (λ w. Option (Text × Text)) [ none ↦ none | some (x, y) ↦ some (c ∷ x, y) ])
          ≡ some (a, b)
        → c ∷ s ≡ a ++ b
    go none rec h = absurd (cc)
    go (some (x, y)) rec h =
        let same = some_inj (c ∷ x, y) (a, b) h in
        ap (λ l. c ∷ l) (rec x y refl) ∙ ap (λ (w : Text × Text). w.0 ++ w.1) same

split_at-append :
    (stem ext : Text)
    → is_char_boundary ext ≡ true
    → split_at_checked (length stem) (stem ++ ext) ≡ some (stem, ext)
split_at-append [] ext h = rw h refl
split_at-append (c ∷ stem) ext h = rw (split_at-append stem ext h) refl

-- The text ends with the extension in some case, and is trimmed to the stem; or it does not, and is
-- left as it is.
abbrev pub TrimOutcome : Text → Text → Type 0
TrimOutcome s trimmed =
    ((ext : Text) × (s ≡ trimmed ++ ext) × (eq_ignore_ascii_case ext ghost_file_extension ≡ true))
    ⊎ ((trimmed ≡ s)
        × ((stem ext : Text)
            → s ≡ stem ++ ext
            → eq_ignore_ascii_case ext ghost_file_extension ≡ false))

-- A name that ends with `.ghost`, in upper or lower case, is trimmed to what is before that, and any
-- other name is left as it is.
pub trim_dot_ghost-TrimOutcome : (s : Text) → TrimOutcome s (trim_dot_ghost s)
unfolding trim_dot_ghost
trim_dot_ghost-TrimOutcome s = go (split_at_checked (length s - length ghost_file_extension) s) refl
  where
    unique :
        (stem ext : Text)
        → s ≡ stem ++ ext
        → eq_ignore_ascii_case ext ghost_file_extension ≡ true
        → split_at_checked (length s - length ghost_file_extension) s ≡ some (stem, ext)
    unique stem ext e h =
        let size : length s - length ghost_file_extension ≡ length stem =
          omega (arith, ap length e, length-append stem ext, length_of_eq ext _ h) in
        ap (λ n. split_at_checked n s) size
        ∙ ap (split_at_checked (length stem)) e
        ∙ split_at-append stem ext (ghost_boundary ext h)

    kept :
        (o : Option (Text × Text))
        → split_at_checked (length s - length ghost_file_extension) s ≡ o
        → ((stem ext : Text)
            → o ≡ some (stem, ext)
            → eq_ignore_ascii_case ext ghost_file_extension ≡ false)
        → (stem ext : Text) → s ≡ stem ++ ext
        → eq_ignore_ascii_case ext ghost_file_extension ≡ false
    kept o eo other stem ext e = elim (Bool-cases (eq_ignore_ascii_case ext ghost_file_extension)) [
      | inl h ↦ other stem ext (sym eo ∙ unique stem ext e h)
      | inr h ↦ h
    ]

    go :
        (o : Option (Text × Text))
        → split_at_checked (length s - length ghost_file_extension) s ≡ o
        → TrimOutcome s (elim o as (λ x. Text) [
          | some (first, last) ↦ if eq_ignore_ascii_case last ghost_file_extension then first else s
          | none ↦ s
        ])
    go none eo = inr (refl, kept none eo (λ stem ext h. absurd (cc)))
    go (some (first, last)) eo =
        elim (Bool-cases (eq_ignore_ascii_case last ghost_file_extension)) [
          | inl h ↦ rw h (inl (last, append_of_split _ s first last eo, h))
          | inr h ↦ rw h (
              inr (
                refl,
                kept (some (first, last)) eo (λ stem ext e.
                    subst (λ w. eq_ignore_ascii_case w ghost_file_extension ≡ false)
                      (ap (λ (w : Text × Text). w.1) (some_inj (first, last) (stem, ext) e)) h),
              ))
        ]
