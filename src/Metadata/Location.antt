-- ===== src/Metadata/Location.antt =====
-- src/metadata/location.rs: where a plugin can be found.
use libloot.Prelude.{Bool, ◌&&◌, Option, none, some}
use libloot.Text.{Text, eq_text, eq_option}

pub record Location : Type 0 where
  pub url : Text
  pub name : Option Text

abbrev pub location : Text → Location
location url = record { url = url; name = none }

abbrev pub eq_location : Location → Location → Bool
eq_location a b = eq_text a.url b.url && eq_option eq_text a.name b.name

abbrev pub with_name : Text → Location → Location
with_name name l = record l { name = some name }
