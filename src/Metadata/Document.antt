-- ===== src/Metadata/Document.antt =====
-- src/metadata/metadata_document.rs: a metadata document and its plugins. `regex_find` tells whether
-- `Regex::find` finds a match.
pub mod Consistent
pub mod Removal
pub mod Removed
pub mod Lookup
pub mod Order
pub mod Reachable
use libloot.Prelude.{
  Bool, true, false, not, List, [], ◌∷◌, ◌++◌, Option, none, some, any, keep, find, if◌then◌else◌,
}
use libloot.Prelude.Dict.{lookup, insert, remove}
use libloot.Prelude.Result.{Result, ok, err, ◌>>=◌}
use libloot.Text.{Text, eq_text, is_none}
use libloot.Metadata.Message.{Message}
use libloot.Metadata.File.{Filename}
use libloot.Metadata.Group.{Group, default_name, default_group}
use libloot.Metadata.PluginName.{PluginName, name_matches}
use libloot.Metadata.Plugin.{
  PluginMetadata, is_regex_plugin, plugin_metadata, merge_metadata, has_name_only,
}

module _ (R : Type 0) where
  pub record MetadataDocument : Type 0 where
    pub bash_tags : List Text
    pub groups : List Group
    pub messages : List Message
    pub plugins : List (Filename × PluginMetadata R)
    pub regex_plugins : List (PluginMetadata R)
    pub ordered_plugin_names : List Filename

  abbrev pub default_document : MetadataDocument
  default_document = record {
    bash_tags = [];
    groups = default_group ∷ [];
    messages = [];
    plugins = [];
    regex_plugins = [];
    ordered_plugin_names = [];
  }

  abbrev pub filename : PluginMetadata R → Filename
  filename p = p.name.string

  abbrev pub set_bash_tags : List Text → MetadataDocument → MetadataDocument
  set_bash_tags bash_tags d = record d { bash_tags = bash_tags }

  abbrev pub has_default : List Group → Bool
  has_default groups = any (λ (g : Group). eq_text g.name default_name) groups

  unfoldable pub set_groups : List Group → MetadataDocument → MetadataDocument
  set_groups groups d =
      if has_default groups
      then record d { groups = groups }
      else record d { groups = default_group ∷ groups }

  abbrev pub set_messages : List Message → MetadataDocument → MetadataDocument
  set_messages messages d = record d { messages = messages }

  abbrev pub clear : MetadataDocument → MetadataDocument
  clear d = record {
    bash_tags = [];
    groups = [];
    messages = [];
    plugins = [];
    regex_plugins = [];
    ordered_plugin_names = [];
  }

  module _ (unicase_eq : Filename → Filename → Bool) where
    abbrev pub get_plugin : Filename → MetadataDocument → Option (PluginMetadata R)
    get_plugin name d = lookup unicase_eq name d.plugins

    -- The first regular expression entry whose name is the same, in the same case.
    abbrev pub find_regex : Filename → MetadataDocument → Option (PluginMetadata R)
    find_regex name d = find (λ r. eq_text (filename r) name) d.regex_plugins

    -- `filter_map` over the names.
    abbrev pub filter_names :
        (Filename → Option (PluginMetadata R)) → List Filename → List (PluginMetadata R)
    filter_names f [] = []
    filter_names f (name ∷ names) =
        let rest = filter_names f names in elim (f name) [ some p ↦ p ∷ rest | none ↦ rest ]

    unfoldable pub ordered_plugins_iter : MetadataDocument → List (PluginMetadata R)
    ordered_plugins_iter d =
        filter_names (λ f. elim (get_plugin f d) [ some p ↦ some p | none ↦ find_regex f d ])
          d.ordered_plugin_names

    unfoldable pub set_plugin_metadata : PluginMetadata R → MetadataDocument → MetadataDocument
    set_plugin_metadata metadata d =
        if is_regex_plugin R metadata
        then record d {
          regex_plugins = d.regex_plugins ++ metadata ∷ [];
          ordered_plugin_names = d.ordered_plugin_names ++ filename metadata ∷ [];
        }
        else let (old_value, plugins) = insert unicase_eq (filename metadata) metadata d.plugins in
          record d {
            plugins = plugins;
            ordered_plugin_names =
                if is_none old_value
                then d.ordered_plugin_names ++ filename metadata ∷ []
                else d.ordered_plugin_names;
          }

    -- The names that are left of the order once a name was removed.
    abbrev pub without : Filename → List Filename → List Filename
    without name names = keep (λ f. not (unicase_eq f name)) names

    unfoldable pub remove_plugin_metadata : Filename → MetadataDocument → MetadataDocument
    remove_plugin_metadata name d =
        if not (is_none (lookup unicase_eq name d.plugins))
        then record d {
          plugins = remove unicase_eq name d.plugins;
          ordered_plugin_names = without name d.ordered_plugin_names;
        }
        else record d {
          plugins = remove unicase_eq name d.plugins;
          regex_plugins = keep (λ p. not (unicase_eq (filename p) name)) d.regex_plugins;
          ordered_plugin_names =
              if any (λ p. unicase_eq (filename p) name) d.regex_plugins
              then without name d.ordered_plugin_names
              else d.ordered_plugin_names;
        }

    -- The loop that merges the entries that match a name.
    unfoldable pub merge_matching :
        (R → Text → Bool) → Filename → List (PluginMetadata R) → PluginMetadata R → PluginMetadata R
    merge_matching regex_find name [] metadata = metadata
    merge_matching regex_find name (p ∷ regex_plugins) metadata =
        merge_matching regex_find name regex_plugins (
          if name_matches R unicase_eq regex_find p.name name
          then merge_metadata R unicase_eq metadata p
          else metadata)

    unfoldable pub find_plugin :
        {X : Type 0}
        → (Text → Result X R)
        → (R → Text → Bool)
        → Filename
        → MetadataDocument
        → Result X (Option (PluginMetadata R))
    unfolding merge_matching
    find_plugin case_insensitive_regex regex_find name d =
        elim (lookup unicase_eq name d.plugins) [
          | some m ↦ ok m
          | none ↦ plugin_metadata R case_insensitive_regex name
        ]
        >>= λ start.
            let metadata = merge_matching regex_find name d.regex_plugins start in
            ok (if has_name_only R metadata then none else some metadata)
