-- ===== src/Metadata/CleaningData.antt =====
-- src/metadata/plugin_cleaning_data.rs: data that tells a plugin dirty or clean.
use libloot.Prelude.{ℕ, Bool, ◌&&◌, List, [], Option, none, some, ◌==◌}
use libloot.Prelude.Result.{Result, ok, ◌>>◌}
use libloot.Text.{Text, eq_text, eq_list, eq_option}
use libloot.Metadata.Message.{MessageContent, eq_message_content, validate_message_contents}

pub record PluginCleaningData : Type 0 where
  pub crc : ℕ
  pub itm_count : ℕ
  pub deleted_reference_count : ℕ
  pub deleted_navmesh_count : ℕ
  pub cleaning_utility : Text
  pub detail : List MessageContent
  pub condition : Option Text

abbrev pub plugin_cleaning_data : ℕ → Text → PluginCleaningData
plugin_cleaning_data crc cleaning_utility = record {
  crc = crc;
  itm_count = 0;
  deleted_reference_count = 0;
  deleted_navmesh_count = 0;
  cleaning_utility = cleaning_utility;
  detail = [];
  condition = none;
}

abbrev pub eq_cleaning_data : PluginCleaningData → PluginCleaningData → Bool
eq_cleaning_data a b =
    (a.crc == b.crc)
    && (a.itm_count == b.itm_count)
    && (a.deleted_reference_count == b.deleted_reference_count)
    && (a.deleted_navmesh_count == b.deleted_navmesh_count)
    && eq_text a.cleaning_utility b.cleaning_utility
    && eq_list eq_message_content a.detail b.detail
    && eq_option eq_text a.condition b.condition

abbrev pub with_itm_count : ℕ → PluginCleaningData → PluginCleaningData
with_itm_count itm_count c = record c { itm_count = itm_count }

abbrev pub with_deleted_reference_count : ℕ → PluginCleaningData → PluginCleaningData
with_deleted_reference_count n c = record c { deleted_reference_count = n }

abbrev pub with_deleted_navmesh_count : ℕ → PluginCleaningData → PluginCleaningData
with_deleted_navmesh_count n c = record c { deleted_navmesh_count = n }

abbrev pub with_detail :
    List MessageContent → PluginCleaningData → Result (Unit {0}) PluginCleaningData
with_detail detail c = do validate_message_contents detail; ok (record c { detail = detail })

abbrev pub with_condition : Text → PluginCleaningData → PluginCleaningData
with_condition condition c = record c { condition = some condition }
