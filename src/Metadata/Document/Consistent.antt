-- ===== src/Metadata/Document/Consistent.antt =====
-- src/metadata/metadata_document.rs: the plugins and their order.
use libloot.Prelude.{
  ◌≡◌, refl, sym, ap, ◌∙◌, subst, ◌⊎◌, inl, inr, Bool, true, false, List, [], ◌∷◌, ◌++◌, Memᴰ,
  mem_concat, not_mem_nil, some_inj, Option, none, some, Bool-cases, if◌then◌else◌,
}
use libloot.Prelude.Dict.{IsEquivalence, lookup, insert, lookup-insert, old-insert}
use libloot.Text.{is_none}
use libloot.Metadata.File.{Filename}
use libloot.Metadata.PluginName.{is_regex_name}
use libloot.Metadata.Plugin.{PluginMetadata, is_regex_plugin}
use libloot.Metadata.Document.{MetadataDocument, filename, clear, set_plugin_metadata}

-- What `unicase::eq` is: an equality up to case, and case is nothing to the bytes that make a name
-- a regular expression.
pub record IsCaseFold (unicase_eq : Filename → Filename → Bool) : Type 0 where
  pub equivalence : IsEquivalence unicase_eq
  pub same_regex : (a b : Filename) → unicase_eq a b ≡ true → is_regex_name a ≡ is_regex_name b

module _ (R : Type 0) (unicase_eq : Filename → Filename → Bool) where
  abbrev Plugin : Type 0
  Plugin = PluginMetadata R

  abbrev Document : Type 0
  Document = MetadataDocument R

  -- A plugin whose name was made by `PluginName::new`.
  abbrev pub IsNamed : Plugin → Type 0
  IsNamed p = is_regex_plugin R p ≡ is_regex_name (filename R p)

  -- The map holds plugins under their own names and none that is a regular expression, the other
  -- entries are regular expressions, and the order lists every entry and nothing else.
  pub record IsConsistent (d : Document) : Type 0 where
    pub specific :
        (f : Filename) (m : Plugin)
        → lookup unicase_eq f d.plugins ≡ some m
        → (is_regex_name (filename R m) ≡ false) × (unicase_eq (filename R m) f ≡ true)
    pub regexes : (m : Plugin) → Memᴰ m d.regex_plugins → is_regex_name (filename R m) ≡ true
    pub listed :
        (f : Filename) (m : Plugin)
        → lookup unicase_eq f d.plugins ≡ some m
        → (g : Filename) × Memᴰ g d.ordered_plugin_names × (unicase_eq g f ≡ true)
    pub regexes_listed :
        (m : Plugin) → Memᴰ m d.regex_plugins → Memᴰ (filename R m) d.ordered_plugin_names
    pub backed :
        (g : Filename)
        → Memᴰ g d.ordered_plugin_names
        → ((m : Plugin) × (lookup unicase_eq g d.plugins ≡ some m))
          ⊎ ((m : Plugin) × Memᴰ m d.regex_plugins × (filename R m ≡ g))

  pub empty-IsConsistent : (d : Document) → IsConsistent (clear R d)
  empty-IsConsistent d = record {
    specific = λ f m h. absurd (cc);
    regexes = λ m h. absurd (not_mem_nil h);
    listed = λ f m h. absurd (cc);
    regexes_listed = λ m h. absurd (not_mem_nil h);
    backed = λ g h. absurd (not_mem_nil h);
  }

  module _ (law : IsCaseFold unicase_eq) where
    set_regex-IsConsistent :
        (p : Plugin) (d : Document)
        → IsNamed p
        → is_regex_plugin R p ≡ true
        → IsConsistent d
        → IsConsistent (record d {
          regex_plugins = d.regex_plugins ++ p ∷ [];
          ordered_plugin_names = d.ordered_plugin_names ++ filename R p ∷ [];
        })
    set_regex-IsConsistent p d named regex h = record {
      specific = h.specific;
      regexes = λ m k. elim ((mem_concat m p d.regex_plugins).0 k) [
        | inl old ↦ h.regexes m old
        | inr same ↦ rw same (sym named ∙ regex)
      ];
      listed = λ f m k.
          let (g, at, eq) = h.listed f m k in
          (g, (mem_concat g (filename R p) d.ordered_plugin_names).1 (inl at), eq);
      regexes_listed = λ m k.
          (mem_concat (filename R m) (filename R p) d.ordered_plugin_names).1
            (elim ((mem_concat m p d.regex_plugins).0 k) [
              | inl old ↦ inl (h.regexes_listed m old)
              | inr same ↦ inr (ap (filename R) same)
            ]);
      backed = λ g k. elim ((mem_concat g (filename R p) d.ordered_plugin_names).0 k) [
        | inl old ↦ elim (h.backed g old) [
          | inl x ↦ inl x
          | inr (m, at, eq) ↦ inr (m, (mem_concat m p d.regex_plugins).1 (inl at), eq)
        ]
        | inr same ↦ inr (p, (mem_concat p p d.regex_plugins).1 (inr refl), sym same)
      ];
    }

    -- A map in which a plugin was put, with an order that lists it.
    module _ (p : Plugin) (d : Document) (named : IsNamed p) (literal : is_regex_plugin R p ≡ false)
        (h : IsConsistent d) (plugins : List (Filename × Plugin)) (names : List Filename)
        (put : (f : Filename)
          → lookup unicase_eq f plugins
            ≡ (if unicase_eq (filename R p) f then some p else lookup unicase_eq f d.plugins))
        (kept : (g : Filename) → Memᴰ g d.ordered_plugin_names → Memᴰ g names)
        (added : (g : Filename) → Memᴰ g names → Memᴰ g d.ordered_plugin_names ⊎ (g ≡ filename R p))
        (there : (g : Filename) × Memᴰ g names × (unicase_eq g (filename R p) ≡ true)) where
      put_new :
          (f : Filename) → unicase_eq (filename R p) f ≡ true → lookup unicase_eq f plugins ≡ some p
      put_new f e = put f ∙ ap (λ b. if b then some p else lookup unicase_eq f d.plugins) e

      put_old :
          (f : Filename)
          → unicase_eq (filename R p) f ≡ false
          → lookup unicase_eq f plugins ≡ lookup unicase_eq f d.plugins
      put_old f e = put f ∙ ap (λ b. if b then some p else lookup unicase_eq f d.plugins) e

      put-IsConsistent : IsConsistent (record d { plugins = plugins; ordered_plugin_names = names })
      put-IsConsistent = record {
        specific = λ f m k. elim (Bool-cases (unicase_eq (filename R p) f)) [
          | inl e ↦
              let same = some_inj p m (sym (put_new f e) ∙ k) in
              (
                subst (λ w. is_regex_name (filename R w) ≡ false) same (sym named ∙ literal),
                subst (λ w. unicase_eq (filename R w) f ≡ true) same e,
              )
          | inr e ↦ h.specific f m (sym (put_old f e) ∙ k)
        ];
        regexes = h.regexes;
        listed = λ f m k. elim (Bool-cases (unicase_eq (filename R p) f)) [
          | inl e ↦
              let (g, at, eq) = there in (g, at, law.equivalence.transitive g (filename R p) f eq e)
          | inr e ↦ let (g, at, eq) = h.listed f m (sym (put_old f e) ∙ k) in (g, kept g at, eq)
        ];
        regexes_listed = λ m k. kept (filename R m) (h.regexes_listed m k);
        backed = λ g k. elim (added g k) [
          | inr same ↦ inl (p, put_new g (rw same (law.equivalence.reflexive (filename R p))))
          | inl old ↦ elim (h.backed g old) [
            | inr x ↦ inr x
            | inl (m, e) ↦ elim (Bool-cases (unicase_eq (filename R p) g)) [
              | inl eq ↦ inl (p, put_new g eq)
              | inr eq ↦ inl (m, put_old g eq ∙ e)
            ]
          ]
        ];
      }

    pub set_plugin_metadata-IsConsistent :
        (p : Plugin) (d : Document)
        → IsNamed p
        → IsConsistent d
        → IsConsistent (set_plugin_metadata R unicase_eq p d)
    unfolding set_plugin_metadata
    set_plugin_metadata-IsConsistent p d named h = elim (Bool-cases (is_regex_plugin R p)) [
      | inl regex ↦ rw (regex, set_plugin_metadata) (set_regex-IsConsistent p d named regex h)
      | inr literal ↦
          rw (literal, set_plugin_metadata, old-insert unicase_eq law.equivalence name p d.plugins)
            (go literal (lookup unicase_eq name d.plugins) refl)
    ]
      where
        name : Filename
        name = filename R p

        plugins : List (Filename × Plugin)
        plugins = (insert unicase_eq name p d.plugins).1

        go :
            is_regex_plugin R p ≡ false
            → (o : Option Plugin) → lookup unicase_eq name d.plugins ≡ o
            → IsConsistent (record d {
              plugins = plugins;
              ordered_plugin_names =
                  if is_none o then d.ordered_plugin_names ++ name ∷ [] else d.ordered_plugin_names;
            })
        go literal none e =
            put-IsConsistent p d named literal h plugins (d.ordered_plugin_names ++ name ∷ [])
              (λ f. lookup-insert unicase_eq law.equivalence name f p d.plugins)
              (λ g m. (mem_concat g name d.ordered_plugin_names).1 (inl m))
              (λ g m. (mem_concat g name d.ordered_plugin_names).0 m)
              (
                name,
                (mem_concat name name d.ordered_plugin_names).1 (inr refl),
                law.equivalence.reflexive name,
              )
        go literal (some old) e =
            put-IsConsistent p d named literal h plugins d.ordered_plugin_names
              (λ f. lookup-insert unicase_eq law.equivalence name f p d.plugins) (λ g m. m)
              (λ g m. inl m) (h.listed name old e)
