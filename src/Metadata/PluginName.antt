-- ===== src/Metadata/PluginName.antt =====
-- src/metadata/plugin_metadata.rs: names of plugins, of which some are regular expressions.
pub mod Ghost
pub mod Ends
pub mod Groups
pub mod Named
use libloot.Prelude.{
  ℕ, suc, ◌+◌, ◌-◌, Bool, true, false, not, ◌&&◌, ◌||◌, List, [], ◌∷◌, ◌++◌, Option, none, some,
  length, any, leb, ltb, ◌==◌, if◌then◌else◌,
}
use libloot.Prelude.Result.{Result, ok, err, ◌>>=◌}
use libloot.Text.{Text, split_at_checked, starts_with, ends_with, is_none}

abbrev pub ghost_file_extension : Text
ghost_file_extension = b'.' ∷ b'g' ∷ b'h' ∷ b'o' ∷ b's' ∷ b't' ∷ []

-- `u8::to_ascii_lowercase`, `u8::eq_ignore_ascii_case` and `str::eq_ignore_ascii_case`
abbrev pub to_ascii_lowercase : ℕ → ℕ
to_ascii_lowercase c = if leb b'A' c && leb c b'Z' then c + 32 else c

abbrev pub eq_byte_ignore_case : ℕ → ℕ → Bool
eq_byte_ignore_case c d = to_ascii_lowercase c == to_ascii_lowercase d

abbrev pub eq_ignore_ascii_case : Text → Text → Bool
eq_ignore_ascii_case [] [] = true
eq_ignore_ascii_case [] (d ∷ ds) = false
eq_ignore_ascii_case (c ∷ cs) [] = false
eq_ignore_ascii_case (c ∷ cs) (d ∷ ds) = eq_byte_ignore_case c d && eq_ignore_ascii_case cs ds

unfoldable pub trim_dot_ghost : Text → Text
trim_dot_ghost string =
    elim (split_at_checked (length string - length ghost_file_extension) string) [
      | some (first, last) ↦
          if eq_ignore_ascii_case last ghost_file_extension then first else string
      | none ↦ string
    ]

-- The bytes that make a name a regular expression.
abbrev pub is_regex_byte : ℕ → Bool
is_regex_byte c = c == b':' || c == b'\\' || c == b'*' || c == b'?' || c == b'|'

unfoldable pub is_regex_name : Text → Bool
is_regex_name name = any is_regex_byte name

-- `str::split_inclusive`, at a byte.
abbrev pub split_inclusive : ℕ → Text → List Text
split_inclusive byte [] = []
split_inclusive byte (c ∷ cs) =
    let rest = split_inclusive byte cs in
    if c == byte
    then (c ∷ []) ∷ rest
    else elim rest [ [] ↦ (c ∷ []) ∷ [] | part ∷ parts ↦ (c ∷ part) ∷ parts ]

-- The loop over the parts, each with the one after it.
unfoldable pub non_capturing : List Text → Text
non_capturing [] = []
non_capturing (before ∷ []) = before
non_capturing (before ∷ after ∷ parts) =
    let rest = non_capturing (after ∷ parts) in
    if not (starts_with (b'?' ∷ []) after)
      && (not (ends_with (b'\\' ∷ b'(' ∷ []) before)
          || ends_with (b'\\' ∷ b'\\' ∷ b'(' ∷ []) before)
    then before ++ (b'?' ∷ b':' ∷ rest)
    else before ++ rest

unfoldable pub replace_capturing_groups : Text → Text
unfolding non_capturing
replace_capturing_groups regex_string = non_capturing (split_inclusive b'(' regex_string)

module _ (R : Type 0) where
  pub record PluginName : Type 0 where
    pub string : Text
    pub regex : Option R

  abbrev pub is_regex : PluginName → Bool
  is_regex name = not (is_none name.regex)

  -- `regex_find` tells whether `Regex::find` finds a match.
  unfoldable pub name_matches : (Text → Text → Bool) → (R → Text → Bool) → PluginName → Text → Bool
  name_matches unicase_eq regex_find name other_name = elim name.regex [
    | some regex ↦ regex_find regex other_name
    | none ↦ unicase_eq name.string other_name
  ]

  module _ {X : Type 0} (case_insensitive_regex : Text → Result X R) where
    unfoldable pub plugin_name : Text → Result X PluginName
    unfolding trim_dot_ghost is_regex_name replace_capturing_groups
    plugin_name name =
        let trimmed = trim_dot_ghost name in
        if is_regex_name trimmed
        then (case_insensitive_regex (b'^' ∷ (replace_capturing_groups trimmed ++ b'$' ∷ []))
            >>= λ regex. ok (record { string = trimmed; regex = some regex }))
        else ok (record { string = trimmed; regex = none })

-- `zip` and `all`: whether the bytes are the same without regard to case, as far as both lists go.
abbrev pub zip_all : Text → Text → Bool
zip_all [] ds = true
zip_all (c ∷ cs) [] = true
zip_all (c ∷ cs) (d ∷ ds) = eq_byte_ignore_case c d && zip_all cs ds

abbrev pub rev : Text → Text
rev [] = []
rev (c ∷ cs) = rev cs ++ c ∷ []

unfoldable pub iends_with_ascii : Text → Text → Bool
iends_with_ascii string suffix =
    leb (length suffix) (length string) && zip_all (rev string) (rev suffix)
