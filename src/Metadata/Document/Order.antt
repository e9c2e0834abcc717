-- ===== src/Metadata/Document/Order.antt =====
-- src/metadata/metadata_document.rs: the plugins in the order in which they are written.
use libloot.Prelude.{
  ◌≡◌, refl, sym, ap, ◌∙◌, subst, inl, inr, Bool, true, List, [], ◌∷◌, ◌++◌, Memᴰ, mem_cons, Option,
  none, some, or_else, find, true-false, Bool-cases, Option-cases, not_mem_nil, if◌then◌else◌,
  arith,
}
use libloot.Prelude.Dict.{lookup}
use libloot.Text.{Text, eq_text}
use libloot.Metadata.File.{Filename}
use libloot.Metadata.Plugin.{PluginMetadata, is_regex_plugin}
use libloot.Metadata.Document.{
  MetadataDocument, filename, find_regex, filter_names, ordered_plugins_iter, set_plugin_metadata,
}
use libloot.Metadata.Document.Consistent.{IsCaseFold, IsNamed, IsConsistent}

eq_text_refl : (s : Text) → eq_text s s ≡ true
eq_text_refl [] = refl
eq_text_refl (c ∷ s) = ground (arith, eq_text_refl s)

module _ {A : Type 0} where
  find-append :
      (p : A → Bool) (l : List A) (a : A)
      → find p (l ++ a ∷ []) ≡ or_else (find p l) (if p a then some a else none)
  find-append p [] a = refl
  find-append p (x ∷ l) a = elim (Bool-cases (p x)) [
    | inl e ↦ rw e refl
    | inr e ↦ rw e (find-append p l a)
  ]

  find_mem :
      (p : A → Bool) (l : List A) (a : A) → Memᴰ a l → p a ≡ true → (b : A) × (find p l ≡ some b)
  find_mem p [] a m h = absurd (not_mem_nil m)
  find_mem p (x ∷ l) a m h = elim (Bool-cases (p x)) [
    | inl e ↦ rw e (x, refl)
    | inr e ↦ rw e (elim ((mem_cons a x l).0 m) [
      | inl same ↦ absurd (true-false (sym h ∙ ap p same ∙ e))
      | inr m' ↦ find_mem p l a m' h
    ])
  ]

module _ (R : Type 0) (unicase_eq : Filename → Filename → Bool) where
  abbrev Plugin : Type 0
  Plugin = PluginMetadata R

  filter_names-append :
      (f : Filename → Option Plugin) (names : List Filename) (name : Filename) (p : Plugin)
      → f name ≡ some p
      → filter_names R unicase_eq f (names ++ name ∷ [])
        ≡ filter_names R unicase_eq f names ++ p ∷ []
  filter_names-append f [] name p h = rw h refl
  filter_names-append f (x ∷ names) name p h = go (f x) (filter_names-append f names name p h)
    where
      go :
          (o : Option Plugin)
          → filter_names R unicase_eq f (names ++ name ∷ [])
            ≡ filter_names R unicase_eq f names ++ p ∷ []
          → (elim o as (λ x. List Plugin) [
            | some q ↦ q ∷ filter_names R unicase_eq f (names ++ name ∷ [])
            | none ↦ filter_names R unicase_eq f (names ++ name ∷ [])
          ])
            ≡ (elim o as (λ x. List Plugin) [
              | some q ↦ q ∷ filter_names R unicase_eq f names
              | none ↦ filter_names R unicase_eq f names
            ])
              ++ p ∷ []
      go none e = e
      go (some q) e = ap (λ l. q ∷ l) e

  abbrev put : Option Plugin → List Plugin → List Plugin
  put o l = elim o [ some p ↦ p ∷ l | none ↦ l ]

  filter_names-same :
      (f g : Filename → Option Plugin) (names : List Filename)
      → ((name : Filename) → Memᴰ name names → f name ≡ g name)
      → filter_names R unicase_eq f names ≡ filter_names R unicase_eq g names
  filter_names-same f g [] h = refl
  filter_names-same f g (x ∷ names) h =
      ap (λ o. put o (filter_names R unicase_eq f names)) (h x (Memᴰ.head refl))
      ∙ ap (put (g x)) (filter_names-same f g names (λ n m. h n (Memᴰ.tail m)))

  -- The entry of a name, where the regular expressions are those of a list.
  abbrev entry : List Plugin → MetadataDocument R → Filename → Option Plugin
  entry regexes d f = elim (lookup unicase_eq f d.plugins) [
    | some p ↦ some p
    | none ↦ find (λ r. eq_text (filename R r) f) regexes
  ]

  entry-regex :
      (regexes : List Plugin) (d : MetadataDocument R) (f : Filename)
      → lookup unicase_eq f d.plugins ≡ none
      → entry regexes d f ≡ find (λ r. eq_text (filename R r) f) regexes
  entry-regex regexes d f e = ap (pick (find (λ r. eq_text (filename R r) f) regexes)) e
    where
      pick : Option Plugin → Option Plugin → Option Plugin
      pick rest o = elim o [ some p ↦ some p | none ↦ rest ]

  -- If a regular expression entry is added to a consistent document, its name is added to the end of
  -- the order, and what is written there is the first entry of that name: the added one only if no
  -- entry before it has the name.
  pub ordered_plugins_iter-set_plugin_metadata :
      IsCaseFold unicase_eq
      → (q first : Plugin) (d : MetadataDocument R) → IsConsistent R unicase_eq d
      → IsNamed R unicase_eq q
      → is_regex_plugin R q ≡ true
      → or_else (find_regex R unicase_eq (filename R q) d) (some q) ≡ some first
      → ordered_plugins_iter R unicase_eq (set_plugin_metadata R unicase_eq q d)
        ≡ ordered_plugins_iter R unicase_eq d ++ first ∷ []
  unfolding ordered_plugins_iter set_plugin_metadata
  ordered_plugins_iter-set_plugin_metadata law q first d h named regex choice =
      ap (ordered_plugins_iter R unicase_eq) added
      ∙ (filter_names-append (entry (d.regex_plugins ++ q ∷ []) d) d.ordered_plugin_names name first
            new
          ∙ ap (λ l. l ++ first ∷ [])
              (filter_names-same (entry (d.regex_plugins ++ q ∷ []) d) (entry d.regex_plugins d)
                d.ordered_plugin_names old))
    where
      name : Filename
      name = filename R q

      added : set_plugin_metadata R unicase_eq q d ≡ record d {
        regex_plugins = d.regex_plugins ++ q ∷ [];
        ordered_plugin_names = d.ordered_plugin_names ++ filename R q ∷ [];
      }
      added = rw (regex, set_plugin_metadata) refl

      literal : (m : Plugin) → lookup unicase_eq name d.plugins ≡ some m → ⊥
      literal m e =
          let found = h.specific name m e in
          true-false
            (sym (sym named ∙ regex) ∙ sym (law.same_regex (filename R m) name found.1) ∙ found.0)

      new : entry (d.regex_plugins ++ q ∷ []) d name ≡ some first
      new = elim (Option-cases (lookup unicase_eq name d.plugins)) [
        | inl e ↦
            entry-regex (d.regex_plugins ++ q ∷ []) d name e
            ∙ find-append (λ r. eq_text (filename R r) name) d.regex_plugins q
            ∙ ap
                (λ b.
                  or_else (find (λ r. eq_text (filename R r) name) d.regex_plugins)
                    (if b then some q else none))
                (eq_text_refl name)
            ∙ choice
        | inr (m, e) ↦ absurd (literal m e)
      ]

      old :
          (f : Filename)
          → Memᴰ f d.ordered_plugin_names
          → entry (d.regex_plugins ++ q ∷ []) d f ≡ entry d.regex_plugins d f
      old f at = elim (h.backed f at) [
        | inl (m, e) ↦ rw (e, entry) refl
        | inr (m, k, same) ↦
            let hit =
              subst (λ w. eq_text (filename R m) w ≡ true) same (eq_text_refl (filename R m)) in
            let (b, e) = find_mem (λ r. eq_text (filename R r) f) d.regex_plugins m k hit in
            let one = find-append (λ r. eq_text (filename R r) f) d.regex_plugins q in
            let both =
              one
              ∙ ap (λ o. or_else o (if eq_text (filename R q) f then some q else none)) e
              ∙ sym e in
            elim (Option-cases (lookup unicase_eq f d.plugins)) [
              | inl none_there ↦
                  entry-regex (d.regex_plugins ++ q ∷ []) d f none_there
                  ∙ both
                  ∙ sym (entry-regex d.regex_plugins d f none_there)
              | inr (x, there) ↦ rw (there, entry) refl
            ]
      ]
