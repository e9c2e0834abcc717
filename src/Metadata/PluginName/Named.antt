-- ===== src/Metadata/PluginName/Named.antt =====
-- src/metadata/plugin_metadata.rs: the names that `PluginName::new` makes.
use libloot.Prelude.{
  ◌≡◌, refl, sym, ap, subst, ◌⊎◌, inl, inr, Bool, true, false, [], ◌∷◌, ◌++◌, Memᴰ, mem_cons,
  not_mem_nil, none, some, ℕ, any, Bool-cases, if◌then◌else◌, arith, true-false,
}
use libloot.Prelude.Result.{Result, ok, err, ◌>>=◌}
use libloot.Text.{Text}
use libloot.Metadata.PluginName.{
  PluginName, plugin_name, trim_dot_ghost, is_regex_byte, is_regex_name, replace_capturing_groups,
}
use libloot.Metadata.PluginName.Ghost.{TrimOutcome, trim_dot_ghost-TrimOutcome}
use libloot.Metadata.PluginName.Groups.{groups_from, replace_capturing_groups-groups_from}

-- The bytes that no file name has.
abbrev pub IsSpecial : ℕ → Type 0
IsSpecial b = (b ≡ b':') ⊎ (b ≡ b'\\') ⊎ (b ≡ b'*') ⊎ (b ≡ b'?') ⊎ (b ≡ b'|')

abbrev pub HasSpecial : Text → Type 0
HasSpecial name = (b : ℕ) × Memᴰ b name × IsSpecial b

is_regex_byte-true : (b : ℕ) → is_regex_byte b ≡ true → IsSpecial b
is_regex_byte-true b h = ground arith

is_regex_byte-false : (b : ℕ) → is_regex_byte b ≡ false → ¬ (IsSpecial b)
is_regex_byte-false b h = ground arith

HasSpecial-of_any : (name : Text) → any is_regex_byte name ≡ true → HasSpecial name
HasSpecial-of_any [] h = absurd (cc)
HasSpecial-of_any (c ∷ name) h = elim (Bool-cases (is_regex_byte c)) [
  | inl e ↦ (c, Memᴰ.head refl, is_regex_byte-true c e)
  | inr e ↦
      let (b, m, special) =
        HasSpecial-of_any name
          (subst (λ t. (if t then true else any is_regex_byte name) ≡ true) e h) in
      (b, Memᴰ.tail m, special)
]

any-false_of_none : (name : Text) → any is_regex_byte name ≡ false → ¬ (HasSpecial name)
any-false_of_none [] h (b, m, special) = not_mem_nil m
any-false_of_none (c ∷ name) h (b, m, special) = elim ((mem_cons b c name).0 m) [
  | inl same ↦ is_regex_byte-false c first.0 (subst IsSpecial same special)
  | inr m' ↦ any-false_of_none name first.1 (b, m', special)
]
  where
    go :
        (t : Bool)
        → (if t then true else any is_regex_byte name) ≡ false
        → (t ≡ false) × (any is_regex_byte name ≡ false)
    go true h = absurd (true-false h)
    go false h = (refl, h)

    first : (is_regex_byte c ≡ false) × (any is_regex_byte name ≡ false)
    first = go (is_regex_byte c) h

module _ {R X : Type 0} (case_insensitive_regex : Text → Result X R) where
  -- The regular expression of a whole name, whose groups do not capture.
  abbrev pattern_of : Text → Text
  pattern_of name = b'^' ∷ (groups_from 0 0 name ++ b'$' ∷ [])

  -- A name with the given text, which is trimmed, and a regular expression exactly if it has a
  -- special byte; or the error of that regular expression.
  abbrev pub NameOutcome : Text → Result X (PluginName R) → Type 0
  NameOutcome name (ok n) =
      TrimOutcome name n.string
      × (((n.regex ≡ none) × ¬ (HasSpecial n.string))
          ⊎ ((regex : R) × (n.regex ≡ some regex)
              × HasSpecial n.string
              × (case_insensitive_regex (pattern_of n.string) ≡ ok regex)))
  NameOutcome name (err e) =
      (trimmed : Text) × TrimOutcome name trimmed
      × HasSpecial trimmed
      × (case_insensitive_regex (pattern_of trimmed) ≡ err e)

  -- A plugin name is the given name without the extension of ghosts. If that has none of the bytes
  -- `:`, `\`, `*`, `?` and `|`, it has no regular expression; if it has one of them, it has the
  -- regular expression made from the whole name, in which each `(` that is not before a `?`, or at
  -- the end, or behind just one backslash has `?:` behind it, and making it fails only if that
  -- regular expression cannot be made.
  pub plugin_name-NameOutcome :
      (name : Text) → NameOutcome name (plugin_name R case_insensitive_regex name)
  unfolding plugin_name is_regex_name
  plugin_name-NameOutcome name = elim (Bool-cases (is_regex_name (trim_dot_ghost name))) [
    | inl e ↦
        rw (e, plugin_name)
          (go (HasSpecial-of_any (trim_dot_ghost name) e)
            (case_insensitive_regex
              (b'^' ∷ (replace_capturing_groups (trim_dot_ghost name) ++ b'$' ∷ [])))
            (ap (λ groups. case_insensitive_regex (b'^' ∷ (groups ++ b'$' ∷ [])))
              (sym (replace_capturing_groups-groups_from (trim_dot_ghost name)))))
    | inr e ↦
        rw (e, plugin_name)
          (trim_dot_ghost-TrimOutcome name, inl (refl, any-false_of_none (trim_dot_ghost name) e))
  ]
    where
      go :
          HasSpecial (trim_dot_ghost name)
          → (r : Result X R) → case_insensitive_regex (pattern_of (trim_dot_ghost name)) ≡ r
          → NameOutcome name
              (r >>= λ regex. ok (record { string = trim_dot_ghost name; regex = some regex }))
      go special (ok regex) er = (trim_dot_ghost-TrimOutcome name, inr (regex, refl, special, er))
      go special (err x) er = (trim_dot_ghost name, trim_dot_ghost-TrimOutcome name, special, er)
