-- ===== src/Metadata/File.antt =====
-- src/metadata/file.rs: files and their names, which are compared without regard to case.
use libloot.Prelude.{Bool, ◌&&◌, List, [], Option, none, some}
use libloot.Prelude.Result.{Result, ok, ◌>>◌}
use libloot.Text.{Text, eq_text, eq_list, eq_option, is_empty, is_none}
use libloot.Metadata.Message.{MessageContent, eq_message_content, validate_message_contents}

abbrev pub Filename : Type 0
Filename = Text

pub record File : Type 0 where
  pub name : Filename
  pub display_name : Option Text
  pub detail : List MessageContent
  pub condition : Option Text
  pub constraint : Option Text

abbrev pub file : Text → File
file name = record {
  name = name;
  display_name = none;
  detail = [];
  condition = none;
  constraint = none;
}

abbrev pub with_detail : List MessageContent → File → Result (Unit {0}) File
with_detail detail f = do validate_message_contents detail; ok (record f { detail = detail })

-- Whether the file is written as its name alone.
abbrev pub is_scalar : File → Bool
is_scalar f =
    is_none f.condition && is_none f.constraint && is_empty f.detail && is_none f.display_name

-- The derived equality, with that of the names.
abbrev pub eq_file : (Filename → Filename → Bool) → File → File → Bool
eq_file unicase_eq a b =
    unicase_eq a.name b.name
    && eq_option eq_text a.display_name b.display_name
    && eq_list eq_message_content a.detail b.detail
    && eq_option eq_text a.condition b.condition
    && eq_option eq_text a.constraint b.constraint

abbrev pub with_display_name : Text → File → File
with_display_name display_name f = record f { display_name = some display_name }

abbrev pub with_condition : Text → File → File
with_condition condition f = record f { condition = some condition }

abbrev pub with_constraint : Text → File → File
with_constraint constraint f = record f { constraint = some constraint }
