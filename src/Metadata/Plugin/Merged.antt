-- ===== src/Metadata/Plugin/Merged.antt =====
-- src/metadata/plugin_metadata.rs: merging metadata.
use libloot.Prelude.{
  ◌≡◌, refl, sym, ap, ◌∙◌, inl, inr, Bool, true, not, ◌&&◌, List, [], ◌∷◌, ◌++◌, Option, none, some,
  or_else, keep, Bool-cases, if◌then◌else◌, arith,
}
use mathlib.Core.List.{append_assoc, append-nil}
use libloot.Text.{is_empty, is_none}
use libloot.Metadata.File.{File, Filename, eq_file}
use libloot.Metadata.Tag.{eq_tag}
use libloot.Metadata.Location.{eq_location}
use libloot.Metadata.CleaningData.{eq_cleaning_data}
use libloot.Metadata.Plugin.{
  contains, merge_from, merge_slices, PluginMetadata, has_name_only, merge_metadata,
}

module _ {A : Type 0} (eq : A → A → Bool) where
  -- The elements of the source that the target does not have.
  abbrev pub missing : List A → List A → List A
  missing target source = keep (λ x. not (contains eq target x)) source

  merge_from_lem :
      (target vec source : List A) → merge_from eq target vec source ≡ vec ++ missing target source
  unfolding merge_from
  merge_from_lem target vec [] = sym (append-nil vec)
  merge_from_lem target vec (x ∷ source) = elim (Bool-cases (contains eq target x)) [
    | inl e ↦ rw e (merge_from_lem target vec source)
    | inr e ↦ rw e (
        merge_from_lem target (vec ++ x ∷ []) source
        ∙ append_assoc vec (x ∷ []) (missing target source))
  ]

  pub merge_slices_lem :
      (target source : List A) → merge_slices eq target source ≡ target ++ missing target source
  unfolding merge_slices
  merge_slices_lem target source = merge_from_lem target target source

module _ (R : Type 0) (unicase_eq : Filename → Filename → Bool) where
  abbrev eq_files : File → File → Bool
  eq_files = eq_file unicase_eq

  -- The second metadata added to the first: the first name, the first group that is set, all
  -- messages, and of each other list what the first does not have.
  pub record IsMerged (p plugin merged : PluginMetadata R) : Type 0 where
    pub name : merged.name ≡ p.name
    pub group : merged.group ≡ or_else p.group plugin.group
    pub load_after :
        merged.load_after ≡ p.load_after ++ missing eq_files p.load_after plugin.load_after
    pub requirements :
        merged.requirements ≡ p.requirements ++ missing eq_files p.requirements plugin.requirements
    pub incompatibilities :
        merged.incompatibilities
        ≡ p.incompatibilities ++ missing eq_files p.incompatibilities plugin.incompatibilities
    pub messages : merged.messages ≡ p.messages ++ plugin.messages
    pub tags : merged.tags ≡ p.tags ++ missing eq_tag p.tags plugin.tags
    pub dirty_info :
        merged.dirty_info ≡ p.dirty_info ++ missing eq_cleaning_data p.dirty_info plugin.dirty_info
    pub clean_info :
        merged.clean_info ≡ p.clean_info ++ missing eq_cleaning_data p.clean_info plugin.clean_info
    pub locations :
        merged.locations ≡ p.locations ++ missing eq_location p.locations plugin.locations

  merged_group :
      {A : Type 0} (a b : Option A) → (if is_none a && not (is_none b) then b else a) ≡ or_else a b
  merged_group none none = refl
  merged_group none (some b) = refl
  merged_group (some a) b = refl

  empty_eq : {A : Type 0} (l : List A) → is_empty l ≡ true → l ≡ []
  empty_eq [] h = refl
  empty_eq (x ∷ l) h = absurd (cc)

  none_eq : {A : Type 0} (o : Option A) → is_none o ≡ true → o ≡ none
  none_eq none h = refl
  none_eq (some a) h = absurd (cc)

  none_missing :
      {A : Type 0} (eq : A → A → Bool) (target source : List A)
      → is_empty source ≡ true
      → target ≡ target ++ missing eq target source
  none_missing eq target source h =
      sym (append-nil target) ∙ ap (λ l. target ++ missing eq target l) (sym (empty_eq source h))

  name_only-IsMerged :
      (p plugin : PluginMetadata R) → has_name_only R plugin ≡ true → IsMerged p plugin p
  unfolding has_name_only
  name_only-IsMerged p plugin h = record {
    name = refl;
    group = sym (ap (or_else p.group) (none_eq plugin.group (ground arith)) ∙ or_else-none p.group);
    load_after = none_missing eq_files p.load_after plugin.load_after (ground arith);
    requirements = none_missing eq_files p.requirements plugin.requirements (ground arith);
    incompatibilities =
        none_missing eq_files p.incompatibilities plugin.incompatibilities (ground arith);
    messages = sym (
        ap (λ l. p.messages ++ l) (empty_eq plugin.messages (ground arith))
        ∙ append-nil p.messages);
    tags = none_missing eq_tag p.tags plugin.tags (ground arith);
    dirty_info = none_missing eq_cleaning_data p.dirty_info plugin.dirty_info (ground arith);
    clean_info = none_missing eq_cleaning_data p.clean_info plugin.clean_info (ground arith);
    locations = none_missing eq_location p.locations plugin.locations (ground arith);
  }
    where
      or_else-none : {A : Type 0} (o : Option A) → or_else o none ≡ o
      or_else-none none = refl
      or_else-none (some a) = refl

  -- Merging adds to the first metadata what it does not have of the second: the name stays, and so
  -- does a group that is set, else the second's is taken; all of the second's messages come
  -- after the first's, also those that it has already; and each other list gets those elements of the second's that are not in it, in their
  -- order behind its own, also where the second has no more than a name.
  pub merge_metadata-IsMerged :
      (p plugin : PluginMetadata R) → IsMerged p plugin (merge_metadata R unicase_eq p plugin)
  unfolding merge_metadata
  merge_metadata-IsMerged p plugin = elim (Bool-cases (has_name_only R plugin)) [
    | inl only ↦ rw (only, merge_metadata) (name_only-IsMerged p plugin only)
    | inr more ↦
        rw (more, merge_metadata)
          (record {
            name = refl;
            group = merged_group p.group plugin.group;
            load_after = merge_slices_lem eq_files p.load_after plugin.load_after;
            requirements = merge_slices_lem eq_files p.requirements plugin.requirements;
            incompatibilities =
                merge_slices_lem eq_files p.incompatibilities plugin.incompatibilities;
            messages = refl;
            tags = merge_slices_lem eq_tag p.tags plugin.tags;
            dirty_info = merge_slices_lem eq_cleaning_data p.dirty_info plugin.dirty_info;
            clean_info = merge_slices_lem eq_cleaning_data p.clean_info plugin.clean_info;
            locations = merge_slices_lem eq_location p.locations plugin.locations;
          })
  ]
