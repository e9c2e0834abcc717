-- ===== src/Metadata/Samples.antt =====
-- The theorems on metadata at examples.
pub mod Case
use libloot.Prelude.{
  ℕ, ◌≡◌, refl, sym, ap, ◌∙◌, subst, ◌↔◌, ◌⊎◌, inl, inr, Bool, true, false, not, ◌&&◌, List, [],
  ◌∷◌, ◌++◌, Memᴰ, not_mem_nil, Option, none, some, ◌+◌, ==_iff, true-false, or_else, find, any,
  Bool-cases, ◌==◌, leb, if◌then◌else◌, arith,
}
use libloot.Prelude.Dict.{IsEquivalence}
use libloot.Prelude.Result.{Result, ok, err}
use libloot.Text.{Text, eq_text}
use libloot.Metadata.Masterlist.{SplitMasterlist, split_on_prelude}
use libloot.Metadata.Masterlist.Splits.{IsSplit, split_on_prelude-IsSplit}
use libloot.Metadata.Message.{
  MessageContent, default_language, is_same_code, select_message_content, validate_message_contents,
}
use libloot.Metadata.Message.Code.{HasSameCode}
use libloot.Metadata.Message.Choice.{
  is_exact, is_default, find_last, select_message_content_lem, select_message_content-found,
}
use libloot.Metadata.Samples.Case.{ascii-IsCaseFold}
use libloot.Metadata.File.{Filename, file}
use libloot.Metadata.PluginName.{
  PluginName, plugin_name, trim_dot_ghost, is_regex_name, is_regex_byte, to_ascii_lowercase,
  eq_byte_ignore_case, eq_ignore_ascii_case,
}
use libloot.Metadata.Message.{MessageType, Message, message, eq_message}
use libloot.Metadata.Common.{get_common_metadata_values}
use libloot.Metadata.Common.Counted.{occurrences, firsts_after}
use libloot.Metadata.Common.Repeated.{messages_of, common_messages}
use libloot.Prelude.{keep, ltb}
use libloot.Metadata.PluginName.Ends.{iends_with_ascii_lem}
use libloot.Prelude.{length, ◌<◌}
use libloot.Metadata.PluginName.{iends_with_ascii}
use libloot.Metadata.PluginName.Ghost.{TrimOutcome, trim_dot_ghost-TrimOutcome}
use libloot.Metadata.PluginName.Named.{NameOutcome, plugin_name-NameOutcome}
use libloot.Metadata.Plugin.{PluginMetadata, merge_metadata, has_name_only}
use libloot.Metadata.Plugin.Merged.{IsMerged, merge_metadata-IsMerged}
use libloot.Metadata.Document.{
  MetadataDocument, default_document, set_plugin_metadata, remove_plugin_metadata, find_plugin,
  ordered_plugins_iter, find_regex,
}
use libloot.Metadata.Document.Consistent.{IsCaseFold, IsConsistent, IsNamed}
use libloot.Metadata.Document.Reachable.{
  Step, Reachable, reachable-IsConsistent, IsConsistent-of_reachable,
}
use libloot.Metadata.Document.Removed.{IsRemoved, IsUnlisted}
use libloot.Metadata.Document.Lookup.{
  NoMatch, find_plugin-set_plugin_metadata, find_plugin-remove_plugin_metadata,
}
use libloot.Metadata.Document.Order.{ordered_plugins_iter-set_plugin_metadata}

-- `prelude:`, a line `  a`, and a line `b:`.
abbrev masterlist : Text
masterlist =
    b'p' ∷ b'r' ∷ b'e' ∷ b'l' ∷ b'u' ∷ b'd' ∷ b'e' ∷ b':' ∷ b'\n' ∷ b' ' ∷ b' ' ∷ b'a' ∷ b'\n'
    ∷ b'b' ∷ b':' ∷ []

abbrev parts : SplitMasterlist
parts = record {
  before_prelude = b'p' ∷ b'r' ∷ b'e' ∷ b'l' ∷ b'u' ∷ b'd' ∷ b'e' ∷ b':' ∷ [];
  prelude = b'\n' ∷ b' ' ∷ b' ' ∷ b'a' ∷ b'\n' ∷ [];
  after_prelude = b'b' ∷ b':' ∷ [];
}

masterlist-parts : split_on_prelude masterlist ≡ some parts
unfolding split_on_prelude
masterlist-parts = refl

split_on_prelude-IsSplit_example : IsSplit masterlist parts
split_on_prelude-IsSplit_example = split_on_prelude-IsSplit masterlist parts masterlist-parts

abbrev english : MessageContent
english = record { text = b'h' ∷ b'i' ∷ []; language = default_language }

abbrev german : MessageContent
german = record { text = b'j' ∷ b'a' ∷ []; language = b'd' ∷ b'e' ∷ [] }

abbrev austrian : Text
austrian = b'd' ∷ b'e' ∷ b'_' ∷ b'A' ∷ b'T' ∷ []

select_message_content_lem_example :
    (select_message_content (english ∷ german ∷ []) austrian
      ≡ or_else (find (is_exact austrian) (english ∷ german ∷ [])) (
          or_else
            (find (is_same_code austrian) (english ∷ german ∷ []))
            (find_last (is_default austrian) (english ∷ german ∷ []) none)))
    × ((m : MessageContent) → (is_same_code austrian m ≡ true) ↔ HasSameCode austrian m.language)
select_message_content_lem_example = select_message_content_lem austrian english german []

both-valid : validate_message_contents (english ∷ german ∷ []) ≡ ok tt
unfolding validate_message_contents
both-valid = refl

select_message_content-found_example :
    (c : MessageContent) × (select_message_content (english ∷ german ∷ []) (b'f' ∷ b'r' ∷ [])
      ≡ some c)
select_message_content-found_example =
    select_message_content-found (b'f' ∷ b'r' ∷ []) (english ∷ german ∷ []) both-valid refl

abbrev ghosted : Text
ghosted = b'a' ∷ b'.' ∷ b'G' ∷ b'h' ∷ b'o' ∷ b's' ∷ b't' ∷ []

trim_dot_ghost-TrimOutcome_example : TrimOutcome ghosted (trim_dot_ghost ghosted)
trim_dot_ghost-TrimOutcome_example = trim_dot_ghost-TrimOutcome ghosted

-- Regular expressions that can be made of any text and match nothing.
abbrev any_regex : Text → Result (Unit {0}) (Unit {0})
any_regex text = ok tt

abbrev no_match : Unit {0} → Text → Bool
no_match regex text = false

plugin_name-NameOutcome_example :
    NameOutcome any_regex (b'a' ∷ b'*' ∷ []) (plugin_name (Unit {0}) any_regex (b'a' ∷ b'*' ∷ []))
plugin_name-NameOutcome_example = plugin_name-NameOutcome any_regex (b'a' ∷ b'*' ∷ [])

abbrev Plugin : Type 0
Plugin = PluginMetadata (Unit {0})

abbrev plugin : Text → Option (Unit {0}) → Plugin
plugin name regex = record {
  name = record { string = name; regex = regex };
  group = some (b'g' ∷ []);
  load_after = file (b'x' ∷ []) ∷ [];
  requirements = [];
  incompatibilities = [];
  messages = [];
  tags = [];
  dirty_info = [];
  clean_info = [];
  locations = [];
}

abbrev plain : Plugin
plain = plugin (b'a' ∷ []) none

abbrev pattern_plugin : Plugin
pattern_plugin = plugin (b'b' ∷ b'*' ∷ []) (some tt)

merge_metadata-IsMerged_example :
    IsMerged
      (Unit {0})
      eq_ignore_ascii_case
      plain
      pattern_plugin
      (merge_metadata (Unit {0}) eq_ignore_ascii_case plain pattern_plugin)
merge_metadata-IsMerged_example =
    merge_metadata-IsMerged (Unit {0}) eq_ignore_ascii_case plain pattern_plugin

plain-IsNamed : IsNamed (Unit {0}) eq_ignore_ascii_case plain
unfolding is_regex_name
plain-IsNamed = refl

pattern-IsNamed : IsNamed (Unit {0}) eq_ignore_ascii_case pattern_plugin
unfolding is_regex_name
pattern-IsNamed = refl

abbrev document : MetadataDocument (Unit {0})
document = set_plugin_metadata (Unit {0}) eq_ignore_ascii_case plain (default_document (Unit {0}))

document-Reachable : Reachable (Unit {0}) eq_ignore_ascii_case document
document-Reachable = Reachable.next Reachable.start (Step.plugin_set plain plain-IsNamed)

abbrev without_plain : MetadataDocument (Unit {0})
without_plain = remove_plugin_metadata (Unit {0}) eq_ignore_ascii_case (b'A' ∷ []) document

reachable-IsConsistent_example :
    IsConsistent (Unit {0}) eq_ignore_ascii_case document
    × IsRemoved (Unit {0}) eq_ignore_ascii_case (b'A' ∷ []) document without_plain
    × IsUnlisted (Unit {0}) eq_ignore_ascii_case (b'A' ∷ []) document without_plain
reachable-IsConsistent_example =
    reachable-IsConsistent (Unit {0}) eq_ignore_ascii_case ascii-IsCaseFold document-Reachable
      (b'A' ∷ [])

abbrev found : Filename → MetadataDocument (Unit {0}) → Result (Unit {0}) (Option Plugin)
found = find_plugin (Unit {0}) eq_ignore_ascii_case any_regex no_match

-- The plugin is found under its name in upper case.
find_plugin-set_plugin_metadata_example :
    (eq_ignore_ascii_case (b'a' ∷ []) (b'A' ∷ []) ≡ true
      → has_name_only (Unit {0}) plain ≡ false
      → NoMatch eq_ignore_ascii_case any_regex no_match ascii-IsCaseFold (b'A' ∷ []) []
      → found (b'A' ∷ []) document ≡ ok (some plain))
    × (eq_ignore_ascii_case (b'a' ∷ []) (b'A' ∷ []) ≡ false
        → found (b'A' ∷ []) document ≡ found (b'A' ∷ []) (default_document (Unit {0})))
find_plugin-set_plugin_metadata_example =
    find_plugin-set_plugin_metadata eq_ignore_ascii_case any_regex no_match ascii-IsCaseFold plain
      (default_document (Unit {0})) (b'A' ∷ []) refl

name_made :
    plugin_name (Unit {0}) any_regex (b'A' ∷ []) ≡ ok (record { string = b'A' ∷ []; regex = none })
unfolding plugin_name trim_dot_ghost is_regex_name
name_made = refl

none_left :
    (remove_plugin_metadata (Unit {0}) eq_ignore_ascii_case (b'A' ∷ []) document).regex_plugins ≡ []
unfolding remove_plugin_metadata set_plugin_metadata
none_left = refl

find_plugin-remove_plugin_metadata_example :
    IsRemoved (Unit {0}) eq_ignore_ascii_case (b'A' ∷ []) document without_plain
    × (found (b'A' ∷ []) without_plain ≡ ok none)
find_plugin-remove_plugin_metadata_example =
    find_plugin-remove_plugin_metadata eq_ignore_ascii_case any_regex no_match ascii-IsCaseFold
      (b'A' ∷ []) document (record { string = b'A' ∷ []; regex = none }) name_made
      (λ r m. absurd (not_mem_nil (subst (Memᴰ r) none_left m)))

first_entry :
    or_else
      (find_regex (Unit {0}) eq_ignore_ascii_case (b'b' ∷ b'*' ∷ []) document)
      (some pattern_plugin)
    ≡ some pattern_plugin
unfolding set_plugin_metadata
first_entry = refl

ordered_plugins_iter-set_plugin_metadata_example :
    ordered_plugins_iter
      (Unit {0})
      eq_ignore_ascii_case
      (set_plugin_metadata (Unit {0}) eq_ignore_ascii_case pattern_plugin document)
    ≡ ordered_plugins_iter (Unit {0}) eq_ignore_ascii_case document ++ pattern_plugin ∷ []
ordered_plugins_iter-set_plugin_metadata_example =
    ordered_plugins_iter-set_plugin_metadata (Unit {0}) eq_ignore_ascii_case ascii-IsCaseFold
      pattern_plugin pattern_plugin document
      (IsConsistent-of_reachable (Unit {0}) eq_ignore_ascii_case ascii-IsCaseFold
        document-Reachable)
      pattern-IsNamed refl first_entry

abbrev note : Message
note = message MessageType.say (b'h' ∷ b'i' ∷ [])

common_messages_example :
    (get_common_metadata_values eq_ignore_ascii_case
      (Unit {0})
      (note ∷ note ∷ [])
      (plain ∷ [])
      true).1
    ≡ keep
        (λ m. ltb 1 (occurrences eq_message m (note ∷ note ∷ [])))
        (firsts_after eq_message [] (note ∷ note ∷ []))
common_messages_example =
    common_messages eq_ignore_ascii_case (Unit {0}) (note ∷ note ∷ []) (plain ∷ []) true
      (omega arith)

abbrev lower_ghost : Text
lower_ghost = b'.' ∷ b'g' ∷ b'h' ∷ b'o' ∷ b's' ∷ b't' ∷ []

iends_with_ascii_lem_example :
    (length ghosted < length lower_ghost → iends_with_ascii ghosted lower_ghost ≡ false)
    × ((stem ext : Text)
        → ghosted ≡ stem ++ ext
        → length ext ≡ length lower_ghost
        → iends_with_ascii ghosted lower_ghost ≡ eq_ignore_ascii_case ext lower_ghost)
iends_with_ascii_lem_example = iends_with_ascii_lem ghosted lower_ghost
