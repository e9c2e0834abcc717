-- ===== src/Metadata/Tag.antt =====
-- src/metadata/tag.rs: Bash Tag suggestions.
use libloot.Prelude.{Bool, true, false, ◌&&◌, Option, none, some}
use libloot.Text.{Text, eq_text, eq_option}

pub data TagSuggestion : Type 0 where
  addition removal : TagSuggestion

abbrev pub eq_suggestion : TagSuggestion → TagSuggestion → Bool
eq_suggestion addition addition = true
eq_suggestion removal removal = true
eq_suggestion a b = false

pub record Tag : Type 0 where
  pub name : Text
  pub suggestion : TagSuggestion
  pub condition : Option Text

abbrev pub tag : Text → TagSuggestion → Tag
tag name suggestion = record { name = name; suggestion = suggestion; condition = none }

abbrev pub is_addition : Tag → Bool
is_addition t = eq_suggestion t.suggestion addition

abbrev pub eq_tag : Tag → Tag → Bool
eq_tag a b =
    eq_text a.name b.name
    && eq_suggestion a.suggestion b.suggestion
    && eq_option eq_text a.condition b.condition

abbrev pub with_condition : Text → Tag → Tag
with_condition condition t = record t { condition = some condition }
