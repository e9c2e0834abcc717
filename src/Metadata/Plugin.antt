-- ===== src/Metadata/Plugin.antt =====
-- src/metadata/plugin_metadata.rs: the metadata of a plugin.
pub mod Merged
pub mod Setters
use libloot.Prelude.{
  Bool, true, false, not, ◌&&◌, List, [], ◌∷◌, ◌++◌, Option, none, some, any, keep, if◌then◌else◌,
}
use libloot.Prelude.Result.{Result, ok, err, ◌>>=◌}
use libloot.Text.{Text, is_empty, is_none, eq_text}
use libloot.Metadata.Message.{Message}
use libloot.Metadata.File.{File, Filename, eq_file}
use libloot.Metadata.Tag.{Tag, eq_tag}
use libloot.Metadata.Location.{Location, eq_location}
use libloot.Metadata.CleaningData.{PluginCleaningData, eq_cleaning_data}
use libloot.Metadata.PluginName.{PluginName, plugin_name, is_regex, name_matches}

module _ {A : Type 0} (eq : A → A → Bool) where
  -- `slice::contains`
  abbrev pub contains : List A → A → Bool
  contains target element = any (λ t. eq t element) target

  -- The loop over the source, with the vector that it pushes to.
  unfoldable pub merge_from : List A → List A → List A → List A
  merge_from target vec [] = vec
  merge_from target vec (element ∷ source) =
      merge_from target (if contains target element then vec else vec ++ element ∷ []) source

  unfoldable pub merge_slices : List A → List A → List A
  unfolding merge_from
  merge_slices target source = merge_from target target source

-- What is kept of a plugin's files where some have a constraint that the database evaluates.
unfoldable pub filter_files_by_constraint :
    {X : Type 0} → (Text → Result X Bool) → List File → Result X (List File)
filter_files_by_constraint evaluate [] = ok []
filter_files_by_constraint evaluate (f ∷ files) =
    let rest = filter_files_by_constraint evaluate files in
    elim f.constraint [
      | none ↦ (rest >>= λ kept. ok (f ∷ kept))
      | some c ↦ (evaluate c >>= λ holds. (rest >>= λ kept. ok (if holds then f ∷ kept else kept)))
    ]

module _ (R : Type 0) where
  pub record PluginMetadata : Type 0 where
    pub name : PluginName R
    pub group : Option Text
    pub load_after : List File
    pub requirements : List File
    pub incompatibilities : List File
    pub messages : List Message
    pub tags : List Tag
    pub dirty_info : List PluginCleaningData
    pub clean_info : List PluginCleaningData
    pub locations : List Location

  abbrev name_only : PluginName R → PluginMetadata
  name_only name = record {
    name = name;
    group = none;
    load_after = [];
    requirements = [];
    incompatibilities = [];
    messages = [];
    tags = [];
    dirty_info = [];
    clean_info = [];
    locations = [];
  }

  abbrev pub with_same_name : PluginMetadata → PluginMetadata
  with_same_name metadata = name_only metadata.name

  unfoldable pub has_name_only : PluginMetadata → Bool
  has_name_only p =
      is_none p.group
      && is_empty p.load_after
      && is_empty p.requirements
      && is_empty p.incompatibilities
      && is_empty p.messages
      && is_empty p.tags
      && is_empty p.dirty_info
      && is_empty p.clean_info
      && is_empty p.locations

  abbrev pub is_regex_plugin : PluginMetadata → Bool
  is_regex_plugin p = is_regex R p.name

  module _ {X : Type 0} (case_insensitive_regex : Text → Result X R) where
    unfoldable pub plugin_metadata : Text → Result X PluginMetadata
    plugin_metadata name = plugin_name R case_insensitive_regex name >>= λ n. ok (name_only n)

  module _ (unicase_eq : Filename → Filename → Bool) where
    unfoldable pub merge_metadata : PluginMetadata → PluginMetadata → PluginMetadata
    unfolding has_name_only merge_slices
    merge_metadata p plugin = if has_name_only plugin then p else record p {
      group = if is_none p.group && not (is_none plugin.group) then plugin.group else p.group;
      load_after = merge_slices (eq_file unicase_eq) p.load_after plugin.load_after;
      requirements = merge_slices (eq_file unicase_eq) p.requirements plugin.requirements;
      incompatibilities =
          merge_slices (eq_file unicase_eq) p.incompatibilities plugin.incompatibilities;
      tags = merge_slices eq_tag p.tags plugin.tags;
      messages = p.messages ++ plugin.messages;
      dirty_info = merge_slices eq_cleaning_data p.dirty_info plugin.dirty_info;
      clean_info = merge_slices eq_cleaning_data p.clean_info plugin.clean_info;
      locations = merge_slices eq_location p.locations plugin.locations;
    }
