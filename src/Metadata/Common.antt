-- ===== src/Metadata/Common.antt =====
-- src/metadata/metadata_document.rs: the values that a document holds more than once. The values are
-- compared as the code's hash maps compare what the references point to.
pub mod Counted
pub mod Repeated
use libloot.Prelude.{
  ℕ, ◌+◌, ◌%◌, Bool, true, false, not, ◌||◌, List, [], ◌∷◌, ◌++◌, Option, none, some, keep, ltb,
  if◌then◌else◌,
}
use libloot.Prelude.Dict.{lookup, insert}
use libloot.Text.{Text, eq_text, eq_list, is_empty}
use libloot.Metadata.Message.{MessageContent, Message, eq_message_content, eq_message}
use libloot.Metadata.File.{File, Filename, eq_file, is_scalar}
use libloot.Metadata.Tag.{Tag}
use libloot.Metadata.CleaningData.{PluginCleaningData}
use libloot.Metadata.Plugin.{PluginMetadata}

pub record OrderedCounts (A : Type 0) : Type 0 where
  pub order : List A
  pub counts : List (A × ℕ)

abbrev pub new_counts : {A : Type 0} → OrderedCounts A
new_counts = record { order = []; counts = [] }

module _ {A : Type 0} (eq : A → A → Bool) where
  -- The new count, and the counts, which are of the type `u32`.
  unfoldable pub increment_for : A → OrderedCounts A → ℕ × OrderedCounts A
  increment_for value c = elim (lookup eq value c.counts) [
    | some n ↦ (
      (n + 1) % 4294967296,
      record c { counts = (insert eq value ((n + 1) % 4294967296) c.counts).1 },
    )
    | none ↦ (1, record { order = c.order ++ value ∷ []; counts = (insert eq value 1 c.counts).1 })
  ]

  unfoldable pub into_common_values : OrderedCounts A → List A
  into_common_values c =
      keep (λ e. elim (lookup eq e c.counts) [ some n ↦ ltb 1 n | none ↦ false ]) c.order

pub record Counts : Type 0 where
  pub files : OrderedCounts File
  pub messages : OrderedCounts Message
  pub message_contents : OrderedCounts (List MessageContent)
  pub conditions : OrderedCounts Text

abbrev pub eq_contents : List MessageContent → List MessageContent → Bool
eq_contents = eq_list eq_message_content

abbrev pub count_contents : List MessageContent → Counts → Counts
count_contents contents c =
    if is_empty contents
    then c
    else record c { message_contents = (increment_for eq_contents contents c.message_contents).1 }

abbrev pub count_condition : Option Text → Counts → Counts
count_condition none c = c
count_condition (some condition) c = record c {
  conditions = (increment_for eq_text condition c.conditions).1;
}

unfoldable pub count_message_values : Message → Counts → Counts
count_message_values message c =
    let (message_count, messages) = increment_for eq_message message c.messages in
    let counted = record c { messages = messages } in
    if ltb 1 message_count
    then counted
    else count_condition message.condition (count_contents message.content counted)

module _ (unicase_eq : Filename → Filename → Bool) where
  unfoldable pub count_file_parts : File → Counts → Counts
  count_file_parts file c =
      count_condition file.constraint
        (count_condition file.condition (count_contents file.detail c))

  unfoldable pub count_file_values : Bool → File → Counts → Counts
  unfolding count_file_parts
  count_file_values anchor_scalar_files file c =
      if anchor_scalar_files || not (is_scalar file)
      then (let (file_count, files) = increment_for (eq_file unicase_eq) file c.files in
          let counted = record c { files = files } in
          if ltb 1 file_count then counted else count_file_parts file counted)
      else count_file_parts file c

  unfoldable pub count_messages : List Message → Counts → Counts
  unfolding count_message_values
  count_messages [] c = c
  count_messages (m ∷ messages) c = count_messages messages (count_message_values m c)

  unfoldable pub count_files : Bool → List File → Counts → Counts
  unfolding count_file_values
  count_files anchor_scalar_files [] c = c
  count_files anchor_scalar_files (f ∷ files) c =
      count_files anchor_scalar_files files (count_file_values anchor_scalar_files f c)

  unfoldable pub count_tags : List Tag → Counts → Counts
  count_tags [] c = c
  count_tags (t ∷ tags) c = count_tags tags (count_condition t.condition c)

  unfoldable pub count_cleaning_data : List PluginCleaningData → Counts → Counts
  count_cleaning_data [] c = c
  count_cleaning_data (info ∷ infos) c =
      count_cleaning_data infos (count_condition info.condition (count_contents info.detail c))

  module _ (R : Type 0) where
    unfoldable pub count_plugin : Bool → PluginMetadata R → Counts → Counts
    unfolding count_files count_messages count_tags count_cleaning_data
    count_plugin anchor_scalar_files p c =
        let c₁ = count_files anchor_scalar_files p.load_after c in
        let c₂ = count_files anchor_scalar_files p.requirements c₁ in
        let c₃ = count_files anchor_scalar_files p.incompatibilities c₂ in
        let c₄ = count_messages p.messages c₃ in
        let c₅ = count_tags p.tags c₄ in
        let c₆ = count_cleaning_data p.dirty_info c₅ in count_cleaning_data p.clean_info c₆

    unfoldable pub count_plugins : Bool → List (PluginMetadata R) → Counts → Counts
    unfolding count_plugin
    count_plugins anchor_scalar_files [] c = c
    count_plugins anchor_scalar_files (p ∷ plugins) c =
        count_plugins anchor_scalar_files plugins (count_plugin anchor_scalar_files p c)

    -- The files, messages, message contents and conditions.
    unfoldable pub get_common_metadata_values :
        List Message
        → List (PluginMetadata R)
        → Bool
        → List File × List Message × List (List MessageContent) × List Text
    unfolding count_messages count_plugins into_common_values
    get_common_metadata_values general_messages plugins anchor_scalar_files =
        let start : Counts = record {
          files = new_counts;
          messages = new_counts;
          message_contents = new_counts;
          conditions = new_counts;
        } in
        let c = count_plugins anchor_scalar_files plugins (count_messages general_messages start) in
        (
          into_common_values (eq_file unicase_eq) c.files,
          into_common_values eq_message c.messages,
          into_common_values eq_contents c.message_contents,
          into_common_values eq_text c.conditions,
        )
