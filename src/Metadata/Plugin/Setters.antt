-- ===== src/Metadata/Plugin/Setters.antt =====
-- src/metadata/plugin_metadata.rs: the operations that set one part of a plugin's metadata.
use libloot.Prelude.{List, none, some}
use libloot.Text.{Text}
use libloot.Metadata.Message.{Message}
use libloot.Metadata.File.{File}
use libloot.Metadata.Tag.{Tag}
use libloot.Metadata.Location.{Location}
use libloot.Metadata.CleaningData.{PluginCleaningData}
use libloot.Metadata.Plugin.{PluginMetadata}

module _ (R : Type 0) where
  abbrev pub set_group : Text → PluginMetadata R → PluginMetadata R
  set_group group p = record p { group = some group }

  abbrev pub unset_group : PluginMetadata R → PluginMetadata R
  unset_group p = record p { group = none }

  abbrev pub set_load_after_files : List File → PluginMetadata R → PluginMetadata R
  set_load_after_files files p = record p { load_after = files }

  abbrev pub set_requirements : List File → PluginMetadata R → PluginMetadata R
  set_requirements files p = record p { requirements = files }

  abbrev pub set_incompatibilities : List File → PluginMetadata R → PluginMetadata R
  set_incompatibilities files p = record p { incompatibilities = files }

  abbrev pub set_messages : List Message → PluginMetadata R → PluginMetadata R
  set_messages messages p = record p { messages = messages }

  abbrev pub set_tags : List Tag → PluginMetadata R → PluginMetadata R
  set_tags tags p = record p { tags = tags }

  abbrev pub set_dirty_info : List PluginCleaningData → PluginMetadata R → PluginMetadata R
  set_dirty_info dirty_info p = record p { dirty_info = dirty_info }

  abbrev pub set_clean_info : List PluginCleaningData → PluginMetadata R → PluginMetadata R
  set_clean_info clean_info p = record p { clean_info = clean_info }

  abbrev pub set_locations : List Location → PluginMetadata R → PluginMetadata R
  set_locations locations p = record p { locations = locations }
