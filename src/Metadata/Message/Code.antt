-- ===== src/Metadata/Message/Code.antt =====
-- src/metadata/message.rs: languages that have the same language code.
use libloot.Prelude.{
  ◌≡◌, refl, ap, ◌∙◌, subst, ◌↔◌, ◌⊎◌, inl, inr, Bool, true, false, [], ◌∷◌, ◌++◌, Memᴰ,
  not_mem_nil, Option, none, some, Bool-cases, ◌==◌, if◌then◌else◌, arith, ℕ,
}
use libloot.Text.{Text, eq_text}
use libloot.Metadata.Equality.{text-IsTest}
use libloot.Metadata.Message.{MessageContent, split_once, is_same_code}

-- The first language has a country code and the second is its language code, or the first has none
-- and is the language code of the second.
abbrev pub HasSameCode : Text → Text → Type 0
HasSameCode language content =
    ((country : Text) × (language ≡ content ++ b'_' ∷ country) × ¬ (Memᴰ b'_' content))
    ⊎ ((country : Text) × (content ≡ language ++ b'_' ∷ country) × ¬ (Memᴰ b'_' language))

split_once-append :
    (byte : ℕ) (first last : Text)
    → ¬ (Memᴰ byte first)
    → split_once byte (first ++ byte ∷ last) ≡ some (first, last)
split_once-append byte [] last h = let here : (byte == byte) ≡ true = ground arith in rw here refl
split_once-append byte (c ∷ first) last h = elim (Bool-cases (c == byte)) [
  | inl e ↦ absurd (h (Memᴰ.head (ground arith)))
  | inr e ↦ rw (e, split_once-append byte first last (λ m. h (Memᴰ.tail m))) refl
]

split_once-absent : (byte : ℕ) (s : Text) → ¬ (Memᴰ byte s) → split_once byte s ≡ none
split_once-absent byte [] h = refl
split_once-absent byte (c ∷ s) h = elim (Bool-cases (c == byte)) [
  | inl e ↦ absurd (h (Memᴰ.head (ground arith)))
  | inr e ↦ rw (e, split_once-absent byte s (λ m. h (Memᴰ.tail m))) refl
]

-- What `split_once` finds.
abbrev IsSplit : ℕ → Text → Option (Text × Text) → Type 0
IsSplit byte s none = ¬ (Memᴰ byte s)
IsSplit byte s (some (first, last)) = (s ≡ first ++ byte ∷ last) × ¬ (Memᴰ byte first)

not_mem_cons :
    (byte c : ℕ) (s : Text) → (c == byte) ≡ false → ¬ (Memᴰ byte s) → ¬ (Memᴰ byte (c ∷ s))
not_mem_cons byte c s e h (Memᴰ.head same) = ground arith
not_mem_cons byte c s e h (Memᴰ.tail m) = h m

split_once-IsSplit : (byte : ℕ) (s : Text) → IsSplit byte s (split_once byte s)
split_once-IsSplit byte [] = not_mem_nil
split_once-IsSplit byte (c ∷ s) =
    go (c == byte) refl (split_once byte s) (split_once-IsSplit byte s)
  where
    go :
        (t : Bool)
        → (c == byte) ≡ t
        → (o : Option (Text × Text)) → IsSplit byte s o
        → IsSplit byte (c ∷ s) (
            if t then some ([], s) else elim o as (λ x. Option (Text × Text)) [
              | none ↦ none
              | some (first, last) ↦ some (c ∷ first, last)
            ])
    go true e o h = let same : c ≡ byte = ground arith in (ap (λ b. b ∷ s) same, not_mem_nil)
    go false e none h = not_mem_cons byte c s e h
    go false e (some (first, last)) h = (ap (λ l. c ∷ l) h.0, not_mem_cons byte c first e h.1)

-- The choice that the code makes, from the parts of both languages.
abbrev same : Text → Text → Option (Text × Text) → Option (Text × Text) → Bool
same language content o p =
    elim (elim o as (λ x. Option Text) [ none ↦ none | some (code, country) ↦ some code ])
      as (λ x. Bool) [
        | some code ↦ eq_text code content
        | none ↦
            elim (elim p as (λ x. Option Text) [ none ↦ none | some (code, country) ↦ some code ])
              as (λ x. Bool) [ some code ↦ eq_text code language | none ↦ false ]
      ]

pub is_same_code_iff :
    (language : Text) (c : MessageContent)
    → (is_same_code language c ≡ true) ↔ HasSameCode language c.language
is_same_code_iff language c = (
  go (split_once b'_' language) (split_once-IsSplit b'_' language) (split_once b'_' c.language)
      (split_once-IsSplit b'_' c.language),
  back,
)
  where
    go :
        (o : Option (Text × Text))
        → IsSplit b'_' language o
        → (p : Option (Text × Text)) → IsSplit b'_' c.language p
        → same language c.language o p ≡ true
        → HasSameCode language c.language
    go (some (code, country)) s p t h =
        let equal = text-IsTest.sound code c.language h in
        inl (
          country,
          s.0 ∙ ap (λ w. w ++ b'_' ∷ country) equal,
          subst (λ w. ¬ (Memᴰ b'_' w)) equal s.1,
        )
    go none s (some (code, country)) t h =
        let equal = text-IsTest.sound code language h in
        inr (country, t.0 ∙ ap (λ w. w ++ b'_' ∷ country) equal, s)
    go none s none t h = absurd (cc)

    back : HasSameCode language c.language → is_same_code language c ≡ true
    back (inl (country, e, free)) =
        ap (λ o. same language c.language o (split_once b'_' c.language))
          (ap (split_once b'_') e ∙ split_once-append b'_' c.language country free)
        ∙ text-IsTest.same c.language
    back (inr (country, e, free)) =
        ap (λ o. same language c.language o (split_once b'_' c.language))
          (split_once-absent b'_' language free)
        ∙ ap (same language c.language none)
            (ap (split_once b'_') e ∙ split_once-append b'_' language country free)
        ∙ text-IsTest.same language
