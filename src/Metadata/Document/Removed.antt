-- ===== src/Metadata/Document/Removed.antt =====
-- src/metadata/metadata_document.rs: what removing a plugin takes out of a document.
use libloot.Prelude.{
  ◌≡◌, refl, sym, ap, ◌∙◌, ◌↔◌, inl, inr, Bool, true, false, not, ◌&&◌, List, Memᴰ, Option, none,
  some, any, keep, mem_keep, any-false, Bool-cases, if◌then◌else◌,
}
use libloot.Prelude.Dict.{lookup, lookup-remove, lookup_same}
use libloot.Text.{is_none}
use libloot.Metadata.File.{Filename}
use libloot.Metadata.Plugin.{PluginMetadata}
use libloot.Metadata.Document.{MetadataDocument, filename, remove_plugin_metadata, without}
use libloot.Metadata.Document.Consistent.{IsCaseFold, IsConsistent}

module _ (R : Type 0) (unicase_eq : Filename → Filename → Bool) where
  abbrev Plugin : Type 0
  Plugin = PluginMetadata R

  -- The second document has the first one's entries less those removed under a name: the entry of
  -- the map with that name, or, if there is none, all entries with that name that are regular
  -- expressions.
  pub record IsRemoved (name : Filename) (old new : MetadataDocument R) : Type 0 where
    pub specific :
        (f : Filename)
        → lookup unicase_eq f new.plugins
          ≡ (if unicase_eq name f then none else lookup unicase_eq f old.plugins)
    pub regexes :
        (r : Plugin)
        → Memᴰ r new.regex_plugins ↔ (
            Memᴰ r old.regex_plugins
            × ((is_none (lookup unicase_eq name old.plugins) && unicase_eq (filename R r) name)
                ≡ false))

  -- The order has just the names that are not the one removed.
  abbrev pub IsUnlisted : Filename → MetadataDocument R → MetadataDocument R → Type 0
  IsUnlisted name old new =
      (g : Filename)
      → Memᴰ g new.ordered_plugin_names
        ↔ (Memᴰ g old.ordered_plugin_names × (unicase_eq g name ≡ false))

  not-true : (b : Bool) → (not b ≡ true) ↔ (b ≡ false)
  not-true true = (λ h. absurd (cc), λ h. absurd (cc))
  not-true false = (λ h. refl, λ h. refl)

  mem_keep-not :
      {A : Type 0} (p : A → Bool) (a : A) (l : List A)
      → Memᴰ a (keep (λ x. not (p x)) l) ↔ (Memᴰ a l × (p a ≡ false))
  mem_keep-not p a l =
      let old = mem_keep (λ x. not (p x)) a l in
      (λ m. ((old.0 m).0, (not-true (p a)).0 (old.0 m).1), λ m. old.1 (m.0, (not-true (p a)).1 m.1))

  module _ (law : IsCaseFold unicase_eq) (name : Filename) (d : MetadataDocument R) where
    pub remove_plugin_metadata-IsRemoved :
        IsRemoved name d (remove_plugin_metadata R unicase_eq name d)
    unfolding remove_plugin_metadata
    remove_plugin_metadata-IsRemoved = go (lookup unicase_eq name d.plugins) refl
      where
        go :
            (o : Option Plugin)
            → lookup unicase_eq name d.plugins ≡ o
            → IsRemoved name d (remove_plugin_metadata R unicase_eq name d)
        go (some m) e =
            rw (e, remove_plugin_metadata)
              (record {
                specific = λ f. lookup-remove unicase_eq law.equivalence name f d.plugins;
                regexes = λ r. rw e (λ m. (m, refl), λ m. m.0);
              })
        go none e =
            rw (e, remove_plugin_metadata)
              (record {
                specific = λ f. lookup-remove unicase_eq law.equivalence name f d.plugins;
                regexes = λ r.
                    rw e (mem_keep-not (λ p. unicase_eq (filename R p) name) r d.regex_plugins);
              })

    -- In a document that has neither, no name of the order is the one removed.
    apart :
        IsConsistent R unicase_eq d
        → lookup unicase_eq name d.plugins ≡ none
        → any (λ p. unicase_eq (filename R p) name) d.regex_plugins ≡ false
        → (g : Filename) → Memᴰ g d.ordered_plugin_names
        → unicase_eq g name ≡ false
    apart h absent no_regex g at = elim (Bool-cases (unicase_eq g name)) [
      | inr k ↦ k
      | inl k ↦ elim (h.backed g at) [
        | inl (m, e) ↦
            let same = lookup_same unicase_eq law.equivalence g name d.plugins k in absurd (cc)
        | inr (m, at', eq) ↦
            sym (ap (λ f. unicase_eq f name) eq) ∙ any-false _ m d.regex_plugins no_regex at'
      ]
    ]

    pub remove_plugin_metadata-IsUnlisted :
        IsConsistent R unicase_eq d → IsUnlisted name d (remove_plugin_metadata R unicase_eq name d)
    unfolding remove_plugin_metadata
    remove_plugin_metadata-IsUnlisted h g = go (lookup unicase_eq name d.plugins) refl
      where
        dropped :
            Memᴰ g (without R unicase_eq name d.ordered_plugin_names)
            ↔ (Memᴰ g d.ordered_plugin_names × (unicase_eq g name ≡ false))
        dropped = mem_keep-not (λ f. unicase_eq f name) g d.ordered_plugin_names

        go :
            (o : Option Plugin)
            → lookup unicase_eq name d.plugins ≡ o
            → Memᴰ g (remove_plugin_metadata R unicase_eq name d).ordered_plugin_names
              ↔ (Memᴰ g d.ordered_plugin_names × (unicase_eq g name ≡ false))
        go (some m) e = rw (e, remove_plugin_metadata) dropped
        go none e = elim (Bool-cases (any (λ p. unicase_eq (filename R p) name) d.regex_plugins)) [
          | inl some_regex ↦ rw (e, some_regex, remove_plugin_metadata) dropped
          | inr no_regex ↦
              rw (e, no_regex, remove_plugin_metadata)
                (λ at. (at, apart h e no_regex g at), λ m. m.0)
        ]
