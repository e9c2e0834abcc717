-- ===== src/Metadata/Group.antt =====
-- src/metadata/group.rs: groups of plugins.
use libloot.Prelude.{List, [], ◌∷◌, Option, none, some}
use libloot.Text.{Text}

pub record Group : Type 0 where
  pub name : Text
  pub description : Option Text
  pub after_groups : List Text

abbrev pub default_name : Text
default_name = b'd' ∷ b'e' ∷ b'f' ∷ b'a' ∷ b'u' ∷ b'l' ∷ b't' ∷ []

abbrev pub group : Text → Group
group name = record { name = name; description = none; after_groups = [] }

abbrev pub default_group : Group
default_group = record { name = default_name; description = none; after_groups = [] }

abbrev pub with_description : Text → Group → Group
with_description description g = record g { description = some description }

abbrev pub with_after_groups : List Text → Group → Group
with_after_groups after_groups g = record g { after_groups = after_groups }
