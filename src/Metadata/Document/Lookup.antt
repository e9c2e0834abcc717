-- ===== src/Metadata/Document/Lookup.antt =====
-- src/metadata/metadata_document.rs: what is found after a plugin was set or removed.
use libloot.Prelude.{
  ◌≡◌, refl, ap, ◌∙◌, Bool, true, false, not, List, [], ◌∷◌, Memᴰ, Option, none, some,
  if◌then◌else◌,
}
use libloot.Prelude.Dict.{lookup, remove, lookup-insert, lookup-remove}
use libloot.Prelude.Result.{Result, ok}
use libloot.Text.{Text, is_none}
use libloot.Metadata.File.{Filename}
use libloot.Metadata.PluginName.{PluginName, plugin_name, name_matches}
use libloot.Metadata.Plugin.{PluginMetadata, is_regex_plugin, plugin_metadata, has_name_only}
use libloot.Metadata.Document.{
  MetadataDocument, filename, set_plugin_metadata, remove_plugin_metadata, merge_matching,
  find_plugin,
}
use libloot.Metadata.Document.Consistent.{IsCaseFold}
use libloot.Metadata.Document.Removed.{IsRemoved, remove_plugin_metadata-IsRemoved}

module _ {R X : Type 0} (unicase_eq : Filename → Filename → Bool)
    (case_insensitive_regex : Text → Result X R) (regex_find : R → Text → Bool)
    (law : IsCaseFold unicase_eq) where
  abbrev Plugin : Type 0
  Plugin = PluginMetadata R

  abbrev found : Filename → MetadataDocument R → Result X (Option Plugin)
  found = find_plugin R unicase_eq case_insensitive_regex regex_find

  -- No entry that is a regular expression matches the name.
  abbrev pub NoMatch : Filename → List Plugin → Type 0
  NoMatch name entries =
      (r : Plugin) → Memᴰ r entries → name_matches R unicase_eq regex_find r.name name ≡ false

  merge_matching-none :
      (name : Filename) (entries : List Plugin) (m : Plugin)
      → NoMatch name entries
      → merge_matching R unicase_eq regex_find name entries m ≡ m
  unfolding merge_matching
  merge_matching-none name [] m h = refl
  merge_matching-none name (r ∷ entries) m h =
      rw (h r (Memᴰ.head refl)) (merge_matching-none name entries m (λ x k. h x (Memᴰ.tail k)))

  plugins-set :
      (p : Plugin) (d : MetadataDocument R) (name : Filename)
      → is_regex_plugin R p ≡ false
      → lookup unicase_eq name (set_plugin_metadata R unicase_eq p d).plugins
        ≡ (if unicase_eq (filename R p) name then some p else lookup unicase_eq name d.plugins)
  unfolding set_plugin_metadata
  plugins-set p d name h =
      rw (h, set_plugin_metadata)
        (lookup-insert unicase_eq law.equivalence (filename R p) name p d.plugins)

  regex_plugins-set :
      (p : Plugin) (d : MetadataDocument R)
      → is_regex_plugin R p ≡ false
      → (set_plugin_metadata R unicase_eq p d).regex_plugins ≡ d.regex_plugins
  unfolding set_plugin_metadata
  regex_plugins-set p d h = rw (h, set_plugin_metadata) refl

  -- Once a plugin that is no regular expression and has more than a name is set, it is found under
  -- each name that is equal up to case and that no regular expression matches; and under each other
  -- name, the same is found as before.
  pub find_plugin-set_plugin_metadata :
      (p : Plugin) (d : MetadataDocument R) (name : Filename)
      → is_regex_plugin R p ≡ false
      → (unicase_eq (filename R p) name ≡ true
          → has_name_only R p ≡ false
          → NoMatch name d.regex_plugins
          → found name (set_plugin_metadata R unicase_eq p d) ≡ ok (some p))
        × (unicase_eq (filename R p) name ≡ false
            → found name (set_plugin_metadata R unicase_eq p d) ≡ found name d)
  unfolding find_plugin
  find_plugin-set_plugin_metadata p d name literal =
      let there = plugins-set p d name literal in
      let regexes = regex_plugins-set p d literal in
      (
        λ same more free.
            let here =
              there ∙ ap (λ b. if b then some p else lookup unicase_eq name d.plugins) same in
            rw (here, regexes, merge_matching-none name d.regex_plugins p free, more) refl,
        λ other.
            let here =
              there ∙ ap (λ b. if b then some p else lookup unicase_eq name d.plugins) other in
            rw (here, regexes) refl,
      )

  plugins-removed :
      (name : Filename) (d : MetadataDocument R)
      → lookup unicase_eq name (remove_plugin_metadata R unicase_eq name d).plugins ≡ none
  unfolding remove_plugin_metadata
  plugins-removed name d = go (not (is_none (lookup unicase_eq name d.plugins))) refl
    where
      gone : lookup unicase_eq name (remove unicase_eq name d.plugins) ≡ none
      gone =
          lookup-remove unicase_eq law.equivalence name name d.plugins
          ∙ ap (λ b. if b then none else lookup unicase_eq name d.plugins)
              (law.equivalence.reflexive name)

      go :
          (b : Bool)
          → not (is_none (lookup unicase_eq name d.plugins)) ≡ b
          → lookup unicase_eq name (remove_plugin_metadata R unicase_eq name d).plugins ≡ none
      go true e = rw (e, remove_plugin_metadata) gone
      go false e = rw (e, remove_plugin_metadata) gone

  -- Once a plugin is removed, the map's entry of its name is gone, or, if there was none, all
  -- entries that are regular expressions with its name; all other entries are kept; and nothing is
  -- found under its name, if the name is a valid one and no regular expression that is left
  -- matches it.
  pub find_plugin-remove_plugin_metadata :
      (name : Filename) (d : MetadataDocument R) (valid : PluginName R)
      → plugin_name R case_insensitive_regex name ≡ ok valid
      → NoMatch name (remove_plugin_metadata R unicase_eq name d).regex_plugins
      → IsRemoved R unicase_eq name d (remove_plugin_metadata R unicase_eq name d)
        × (found name (remove_plugin_metadata R unicase_eq name d) ≡ ok none)
  unfolding find_plugin plugin_metadata has_name_only
  find_plugin-remove_plugin_metadata name d valid e free =
      let entries = (remove_plugin_metadata R unicase_eq name d).regex_plugins in
      (
        remove_plugin_metadata-IsRemoved R unicase_eq law name d,
        rw (plugins-removed name d, e, merge_matching-none name entries _ free) refl,
      )
