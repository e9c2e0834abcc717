-- ===== src/Metadata/Samples/Case.antt =====
-- The comparison of names without regard to the case of ASCII letters, as an example of `unicase::eq`.
use libloot.Prelude.{
  ℕ, ◌+◌, ◌≡◌, refl, sym, ap, ◌∙◌, ◌↔◌, Bool, true, false, ◌&&◌, [], ◌∷◌, any, ==_iff, true-false,
  leb, if◌then◌else◌, arith,
}
use libloot.Text.{Text}
use libloot.Metadata.PluginName.{
  is_regex_name, is_regex_byte, to_ascii_lowercase, eq_byte_ignore_case, eq_ignore_ascii_case,
}
use libloot.Metadata.Document.Consistent.{IsCaseFold}

same_lower :
    (c d : ℕ) → (eq_byte_ignore_case c d ≡ true) ↔ (to_ascii_lowercase c ≡ to_ascii_lowercase d)
same_lower c d = ==_iff (to_ascii_lowercase c) (to_ascii_lowercase d)

is_regex_byte-lowercase : (c : ℕ) → is_regex_byte c ≡ is_regex_byte (to_ascii_lowercase c)
is_regex_byte-lowercase c = go (leb b'A' c && leb c b'Z') refl
  where
    go :
        (t : Bool)
        → (leb b'A' c && leb c b'Z') ≡ t
        → is_regex_byte c ≡ is_regex_byte (if t then c + 32 else c)
    go true e = ground arith
    go false e = refl

same_byte : (c d : ℕ) → eq_byte_ignore_case c d ≡ true → is_regex_byte c ≡ is_regex_byte d
same_byte c d h =
    is_regex_byte-lowercase c
    ∙ ap is_regex_byte ((same_lower c d).0 h)
    ∙ sym (is_regex_byte-lowercase d)

-- The lower case of a text, and texts that have the same.
abbrev lowercase : Text → Text
lowercase [] = []
lowercase (c ∷ s) = to_ascii_lowercase c ∷ lowercase s

eq_lowercase : (s t : Text) → (eq_ignore_ascii_case s t ≡ true) ↔ (lowercase s ≡ lowercase t)
eq_lowercase [] [] = (λ h. refl, λ h. refl)
eq_lowercase [] (d ∷ t) = (λ h. absurd (cc), λ h. absurd (cc))
eq_lowercase (c ∷ s) [] = (λ h. absurd (cc), λ h. absurd (cc))
eq_lowercase (c ∷ s) (d ∷ t) = go (eq_byte_ignore_case c d) refl (same_lower c d) (eq_lowercase s t)
  where
    heads : {a b : ℕ} {k l : Text} → a ∷ k ≡ b ∷ l → a ≡ b
    heads h = cc

    tails : {a b : ℕ} {k l : Text} → a ∷ k ≡ b ∷ l → k ≡ l
    tails h = cc

    go :
        (b : Bool)
        → eq_byte_ignore_case c d ≡ b
        → (eq_byte_ignore_case c d ≡ true) ↔ (to_ascii_lowercase c ≡ to_ascii_lowercase d)
        → (eq_ignore_ascii_case s t ≡ true) ↔ (lowercase s ≡ lowercase t)
        → ((b && eq_ignore_ascii_case s t) ≡ true)
          ↔ (to_ascii_lowercase c ∷ lowercase s ≡ to_ascii_lowercase d ∷ lowercase t)
    go true e byte rest = (λ h. rw (byte.0 e, rest.0 h) refl, λ h. rest.1 (tails h))
    go false e byte rest = (λ h. absurd (cc), λ h. absurd (true-false (sym (byte.1 (heads h)) ∙ e)))

same_name :
    (s t : Text) → eq_ignore_ascii_case s t ≡ true → any is_regex_byte s ≡ any is_regex_byte t
same_name [] [] h = refl
same_name [] (d ∷ t) h = absurd (cc)
same_name (c ∷ s) [] h = absurd (cc)
same_name (c ∷ s) (d ∷ t) h = go (eq_byte_ignore_case c d) refl h (same_name s t)
  where
    go :
        (b : Bool)
        → eq_byte_ignore_case c d ≡ b
        → (b && eq_ignore_ascii_case s t) ≡ true
        → (eq_ignore_ascii_case s t ≡ true → any is_regex_byte s ≡ any is_regex_byte t)
        → any is_regex_byte (c ∷ s) ≡ any is_regex_byte (d ∷ t)
    go true e h rest =
        ap (λ b. if b then true else any is_regex_byte s) (same_byte c d e)
        ∙ ap (λ r. if is_regex_byte d then true else r) (rest h)
    go false e h rest = absurd (cc)

-- Comparing without regard to the case of ASCII letters is an equality up to case.
pub ascii-IsCaseFold : IsCaseFold eq_ignore_ascii_case
unfolding is_regex_name
ascii-IsCaseFold = record {
  equivalence = record {
    reflexive = λ a. (eq_lowercase a a).1 refl;
    symmetric = λ a b h. (eq_lowercase b a).1 (sym ((eq_lowercase a b).0 h));
    transitive =
        λ a b c h k. (eq_lowercase a c).1 ((eq_lowercase a b).0 h ∙ (eq_lowercase b c).0 k);
  };
  same_regex = λ a b h. same_name a b h;
}
