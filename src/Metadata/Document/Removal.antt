-- ===== src/Metadata/Document/Removal.antt =====
-- src/metadata/metadata_document.rs: removing a plugin.
use libloot.Prelude.{
  ◌≡◌, refl, sym, ap, ◌∙◌, ◌↔◌, inl, inr, Bool, true, false, not, List, Memᴰ, Option, none, some,
  any, keep, mem_keep, any-false, true-false, Bool-cases, if◌then◌else◌,
}
use libloot.Prelude.Dict.{lookup, remove, lookup-remove, lookup_same}
use libloot.Metadata.File.{Filename}
use libloot.Metadata.Plugin.{PluginMetadata}
use libloot.Metadata.Document.{MetadataDocument, filename, remove_plugin_metadata, without}
use libloot.Metadata.Document.Consistent.{IsCaseFold, IsConsistent}

none-some : {A : Type 0} {a : A} → none ≡ some a → ⊥
none-some h = cc

not-true : (b : Bool) → b ≡ false → not b ≡ true
not-true b h = rw h refl

not-false : (b : Bool) → not b ≡ true → b ≡ false
not-false true h = absurd (cc)
not-false false h = refl

module _ (R : Type 0) (unicase_eq : Filename → Filename → Bool) (law : IsCaseFold unicase_eq)
    (name : Filename) (d : MetadataDocument R) (h : IsConsistent R unicase_eq d) where
  abbrev Plugin : Type 0
  Plugin = PluginMetadata R

  abbrev plugins : List (Filename × Plugin)
  plugins = remove unicase_eq name d.plugins

  left_if :
      (f : Filename)
      → lookup unicase_eq f plugins
        ≡ (if unicase_eq name f then none else lookup unicase_eq f d.plugins)
  left_if f = lookup-remove unicase_eq law.equivalence name f d.plugins

  left :
      (f : Filename)
      → unicase_eq name f ≡ false
      → lookup unicase_eq f plugins ≡ lookup unicase_eq f d.plugins
  left f e = left_if f ∙ ap (λ b. if b then none else lookup unicase_eq f d.plugins) e

  -- What is found after the removal was there before, under a name that is not equal.
  was_there :
      (f : Filename) (m : Plugin)
      → lookup unicase_eq f plugins ≡ some m
      → (unicase_eq name f ≡ false) × (lookup unicase_eq f d.plugins ≡ some m)
  was_there f m e = elim (Bool-cases (unicase_eq name f)) [
    | inl k ↦ absurd (
        none-some
          (sym (left_if f ∙ ap (λ b. if b then none else lookup unicase_eq f d.plugins) k) ∙ e))
    | inr k ↦ (k, sym (left f k) ∙ e)
  ]

  flip : (a b : Filename) → unicase_eq a b ≡ false → unicase_eq b a ≡ false
  flip a b e = elim (Bool-cases (unicase_eq b a)) [
    | inl k ↦ absurd (true-false (sym (law.equivalence.symmetric b a k) ∙ e))
    | inr k ↦ k
  ]

  -- A name that is equal to one of two is not equal to the other if those are not.
  apart :
      (g f : Filename)
      → unicase_eq name f ≡ false
      → unicase_eq g f ≡ true
      → unicase_eq g name ≡ false
  apart g f e k = elim (Bool-cases (unicase_eq g name)) [
    | inl x ↦ absurd (
        true-false
          (sym (law.equivalence.transitive name g f (law.equivalence.symmetric g name x) k) ∙ e))
    | inr x ↦ x
  ]

  mem_without :
      (g : Filename) (names : List Filename)
      → Memᴰ g (without R unicase_eq name names) ↔ (Memᴰ g names × (not (unicase_eq g name) ≡ true))
  mem_without g names = mem_keep (λ f. not (unicase_eq f name)) g names

  -- No regular expression has the name of an entry of the map.
  regex_apart :
      (m : Plugin)
      → lookup unicase_eq name d.plugins ≡ some m
      → (r : Plugin) → Memᴰ r d.regex_plugins
      → unicase_eq (filename R r) name ≡ false
  regex_apart m e r at = elim (Bool-cases (unicase_eq (filename R r) name)) [
    | inl k ↦
        let found = h.specific name m e in
        absurd (
          true-false (
            sym (h.regexes r at)
            ∙ law.same_regex (filename R r) name k
            ∙ sym (law.same_regex (filename R m) name found.1)
            ∙ found.0))
    | inr k ↦ k
  ]

  specific-IsConsistent :
      (m : Plugin)
      → lookup unicase_eq name d.plugins ≡ some m
      → IsConsistent R unicase_eq (record d {
        plugins = plugins;
        ordered_plugin_names = without R unicase_eq name d.ordered_plugin_names;
      })
  specific-IsConsistent m0 e0 = record {
    specific = λ f m k. h.specific f m (was_there f m k).1;
    regexes = h.regexes;
    listed = λ f m k.
        let old = was_there f m k in
        let (g, at, eq) = h.listed f m old.1 in
        (g, (mem_without g d.ordered_plugin_names).1 (at, not-true _ (apart g f old.0 eq)), eq);
    regexes_listed = λ m k.
        (mem_without (filename R m) d.ordered_plugin_names).1
          (h.regexes_listed m k, not-true _ (regex_apart m0 e0 m k));
    backed = λ g k.
        let old = (mem_without g d.ordered_plugin_names).0 k in
        elim (h.backed g old.0) [
          | inl (m, e) ↦ inl (m, left g (flip g name (not-false _ old.1)) ∙ e)
          | inr x ↦ inr x
        ];
  }

  module _ (absent : lookup unicase_eq name d.plugins ≡ none) where
    unchanged : (f : Filename) → lookup unicase_eq f plugins ≡ lookup unicase_eq f d.plugins
    unchanged f = elim (Bool-cases (unicase_eq name f)) [
      | inl k ↦
          left_if f
          ∙ ap (λ b. if b then none else lookup unicase_eq f d.plugins) k
          ∙ sym absent
          ∙ lookup_same unicase_eq law.equivalence name f d.plugins k
      | inr k ↦ left f k
    ]

    abbrev regexes_left : List Plugin
    regexes_left = keep (λ p. not (unicase_eq (filename R p) name)) d.regex_plugins

    regex-IsConsistent :
        (names : List Filename)
        → ((g : Filename)
            → Memᴰ g d.ordered_plugin_names
            → unicase_eq g name ≡ false
            → Memᴰ g names)
        → ((g : Filename)
            → Memᴰ g names
            → Memᴰ g d.ordered_plugin_names
              × ((m : Plugin)
                  → Memᴰ m d.regex_plugins
                  → filename R m ≡ g
                  → unicase_eq (filename R m) name ≡ false))
        → IsConsistent R unicase_eq (record d {
          plugins = plugins;
          regex_plugins = regexes_left;
          ordered_plugin_names = names;
        })
    regex-IsConsistent names kept from = record {
      specific = λ f m k. h.specific f m (sym (unchanged f) ∙ k);
      regexes = λ m k. h.regexes m ((mem_keep _ m d.regex_plugins).0 k).0;
      listed = λ f m k.
          let old = sym (unchanged f) ∙ k in
          let (g, at, eq) = h.listed f m old in
          (g, kept g at (apart g f (name_apart f m old) eq), eq);
      regexes_listed = λ m k.
          let old = (mem_keep _ m d.regex_plugins).0 k in
          kept (filename R m) (h.regexes_listed m old.0) (not-false _ old.1);
      backed = λ g k.
          let old = from g k in
          elim (h.backed g old.0) [
            | inl (m, e) ↦ inl (m, unchanged g ∙ e)
            | inr (m, at, eq) ↦
                inr (m, (mem_keep _ m d.regex_plugins).1 (at, not-true _ (old.1 m at eq)), eq)
          ];
    }
      where
        name_apart :
            (f : Filename) (m : Plugin)
            → lookup unicase_eq f d.plugins ≡ some m
            → unicase_eq name f ≡ false
        name_apart f m e = elim (Bool-cases (unicase_eq name f)) [
          | inl k ↦ absurd (
              none-some
                (sym absent ∙ lookup_same unicase_eq law.equivalence name f d.plugins k ∙ e))
          | inr k ↦ k
        ]

  pub remove_plugin_metadata-IsConsistent :
      IsConsistent R unicase_eq (remove_plugin_metadata R unicase_eq name d)
  unfolding remove_plugin_metadata
  remove_plugin_metadata-IsConsistent = go (lookup unicase_eq name d.plugins) refl
    where
      go :
          (o : Option Plugin)
          → lookup unicase_eq name d.plugins ≡ o
          → IsConsistent R unicase_eq (remove_plugin_metadata R unicase_eq name d)
      go (some m) e = rw (e, remove_plugin_metadata) (specific-IsConsistent m e)
      go none e = elim (Bool-cases (any (λ p. unicase_eq (filename R p) name) d.regex_plugins)) [
        | inl some_regex ↦
            rw (e, some_regex, remove_plugin_metadata)
              (regex-IsConsistent e (without R unicase_eq name d.ordered_plugin_names)
                (λ g at k. (mem_without g d.ordered_plugin_names).1 (at, not-true _ k))
                (λ g at.
                  let old = (mem_without g d.ordered_plugin_names).0 at in
                  (old.0, λ m k eq. rw eq (not-false _ old.1))))
        | inr no_regex ↦
            rw (e, no_regex, remove_plugin_metadata)
              (regex-IsConsistent e d.ordered_plugin_names (λ g at k. at)
                (λ g at. (at, λ m k eq. any-false _ m d.regex_plugins no_regex k)))
      ]
