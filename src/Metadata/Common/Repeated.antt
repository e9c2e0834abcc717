-- ===== src/Metadata/Common/Repeated.antt =====
-- src/metadata/metadata_document.rs: the messages that a document holds more than once.
use libloot.Prelude.{
  ◌<◌, length, ◌≡◌, refl, sym, ap, ◌∙◌, Bool, true, false, not, ◌||◌, List, [], ◌∷◌, ◌++◌, Option,
  none, some, keep, ltb, if◌then◌else◌,
}
use libloot.Metadata.Equality.{IsEquivalence-of_test, message-IsTest}
use libloot.Text.{Text}
use libloot.Metadata.Message.{MessageContent, Message, eq_message}
use libloot.Metadata.File.{File, Filename, eq_file, is_scalar}
use libloot.Metadata.Tag.{Tag}
use libloot.Metadata.CleaningData.{PluginCleaningData}
use libloot.Metadata.Plugin.{PluginMetadata}
use libloot.Metadata.Common.{
  OrderedCounts, new_counts, Counts, increment_for, into_common_values, count_contents,
  count_condition, count_message_values, count_file_parts, count_file_values, count_messages,
  count_files, count_tags, count_cleaning_data, count_plugin, count_plugins,
  get_common_metadata_values,
}
use libloot.Metadata.Common.Counted.{
  occurrences, firsts_after, increments, into_common_values-increments,
}

-- Counting something other than messages.
messages-count_contents :
    (contents : List MessageContent) (c : Counts)
    → (count_contents contents c).messages ≡ c.messages
messages-count_contents [] c = refl
messages-count_contents (x ∷ contents) c = refl

messages-count_condition :
    (o : Option Text) (c : Counts) → (count_condition o c).messages ≡ c.messages
messages-count_condition none c = refl
messages-count_condition (some condition) c = refl

messages-count_message_values :
    (m : Message) (c : Counts)
    → (count_message_values m c).messages ≡ (increment_for eq_message m c.messages).1
unfolding count_message_values
messages-count_message_values m c = go (ltb 1 (increment_for eq_message m c.messages).0)
  where
    counted : Counts
    counted = record c { messages = (increment_for eq_message m c.messages).1 }

    go :
        (b : Bool)
        → (if b
            then counted
            else count_condition m.condition (count_contents m.content counted)).messages
          ≡ (increment_for eq_message m c.messages).1
    go true = refl
    go false =
        messages-count_condition m.condition (count_contents m.content counted)
        ∙ messages-count_contents m.content counted

module _ (unicase_eq : Filename → Filename → Bool) where
  messages-count_file_parts :
      (f : File) (c : Counts) → (count_file_parts unicase_eq f c).messages ≡ c.messages
  unfolding count_file_parts
  messages-count_file_parts f c =
      messages-count_condition f.constraint _
      ∙ messages-count_condition f.condition _
      ∙ messages-count_contents f.detail c

  messages-count_file_values :
      (b : Bool) (f : File) (c : Counts)
      → (count_file_values unicase_eq b f c).messages ≡ c.messages
  unfolding count_file_values
  messages-count_file_values b f c =
      go (b || not (is_scalar f)) (ltb 1 (increment_for (eq_file unicase_eq) f c.files).0)
    where
      counted : Counts
      counted = record c { files = (increment_for (eq_file unicase_eq) f c.files).1 }

      go :
          (t u : Bool)
          → (if t
              then (if u then counted else count_file_parts unicase_eq f counted)
              else count_file_parts unicase_eq f c).messages
            ≡ c.messages
      go true true = refl
      go true false = messages-count_file_parts f counted
      go false u = messages-count_file_parts f c

  messages-count_files :
      (b : Bool) (fs : List File) (c : Counts)
      → (count_files unicase_eq b fs c).messages ≡ c.messages
  unfolding count_files
  messages-count_files b [] c = refl
  messages-count_files b (f ∷ fs) c =
      messages-count_files b fs (count_file_values unicase_eq b f c)
      ∙ messages-count_file_values b f c

  messages-count_tags :
      (tags : List Tag) (c : Counts) → (count_tags unicase_eq tags c).messages ≡ c.messages
  unfolding count_tags
  messages-count_tags [] c = refl
  messages-count_tags (t ∷ tags) c =
      messages-count_tags tags (count_condition t.condition c)
      ∙ messages-count_condition t.condition c

  messages-count_cleaning_data :
      (infos : List PluginCleaningData) (c : Counts)
      → (count_cleaning_data unicase_eq infos c).messages ≡ c.messages
  unfolding count_cleaning_data
  messages-count_cleaning_data [] c = refl
  messages-count_cleaning_data (i ∷ infos) c =
      messages-count_cleaning_data infos _
      ∙ messages-count_condition i.condition _
      ∙ messages-count_contents i.detail c

  messages-count_messages :
      (ms : List Message) (c : Counts)
      → (count_messages unicase_eq ms c).messages ≡ increments eq_message ms c.messages
  unfolding count_messages
  messages-count_messages [] c = refl
  messages-count_messages (m ∷ ms) c =
      messages-count_messages ms (count_message_values m c)
      ∙ ap (increments eq_message ms) (messages-count_message_values m c)

  increments-append :
      (xs ys : List Message) (c : OrderedCounts Message)
      → increments eq_message (xs ++ ys) c ≡ increments eq_message ys (increments eq_message xs c)
  increments-append [] ys c = refl
  increments-append (x ∷ xs) ys c = increments-append xs ys (increment_for eq_message x c).1

  module _ (R : Type 0) where
    -- All messages of some plugins.
    abbrev pub messages_of : List (PluginMetadata R) → List Message
    messages_of [] = []
    messages_of (p ∷ plugins) = p.messages ++ messages_of plugins

    messages-count_plugin :
        (b : Bool) (p : PluginMetadata R) (c : Counts)
        → (count_plugin unicase_eq R b p c).messages ≡ increments eq_message p.messages c.messages
    unfolding count_plugin
    messages-count_plugin b p c =
        messages-count_cleaning_data p.clean_info _
        ∙ messages-count_cleaning_data p.dirty_info _
        ∙ messages-count_tags p.tags _
        ∙ messages-count_messages p.messages _
        ∙ ap (increments eq_message p.messages) (
            messages-count_files b p.incompatibilities _
            ∙ messages-count_files b p.requirements _
            ∙ messages-count_files b p.load_after c)

    messages-count_plugins :
        (b : Bool) (plugins : List (PluginMetadata R)) (c : Counts)
        → (count_plugins unicase_eq R b plugins c).messages
          ≡ increments eq_message (messages_of plugins) c.messages
    unfolding count_plugins
    messages-count_plugins b [] c = refl
    messages-count_plugins b (p ∷ plugins) c =
        messages-count_plugins b plugins (count_plugin unicase_eq R b p c)
        ∙ ap (increments eq_message (messages_of plugins)) (messages-count_plugin b p c)
        ∙ sym (increments-append p.messages (messages_of plugins) c.messages)

    -- If a document has fewer than 2 ^ 32 messages, so that their 32-bit counts do not wrap, the
    -- common messages are those of its general messages and its plugins' messages that occur more
    -- than once, each once, in the order of their first occurrence, whatever else the plugins hold.
    pub common_messages :
        (general : List Message) (plugins : List (PluginMetadata R)) (anchor_scalar_files : Bool)
        → length (general ++ messages_of plugins) < 4294967296
        → let all = general ++ messages_of plugins in
          (get_common_metadata_values unicase_eq R general plugins anchor_scalar_files).1
          ≡ keep (λ m. ltb 1 (occurrences eq_message m all)) (firsts_after eq_message [] all)
    unfolding get_common_metadata_values
    common_messages general plugins anchor_scalar_files fits =
        ap (into_common_values eq_message) (
          messages-count_plugins anchor_scalar_files plugins _
          ∙ ap (increments eq_message (messages_of plugins)) (messages-count_messages general _)
          ∙ sym (increments-append general (messages_of plugins) new_counts))
        ∙ into_common_values-increments eq_message (IsEquivalence-of_test message-IsTest)
            (general ++ messages_of plugins) fits
