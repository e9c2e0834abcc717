-- ===== src/Metadata/Document/Reachable.antt =====
-- src/metadata/metadata_document.rs: the documents that the operations lead to.
use libloot.Prelude.{Bool, inl, inr, Bool-cases, List}
use libloot.Text.{Text}
use libloot.Metadata.Message.{Message}
use libloot.Metadata.Group.{Group}
use libloot.Metadata.File.{Filename}
use libloot.Metadata.Plugin.{PluginMetadata}
use libloot.Metadata.Document.{
  MetadataDocument, default_document, has_default, set_bash_tags, set_groups, set_messages, clear,
  set_plugin_metadata, remove_plugin_metadata,
}
use libloot.Metadata.Document.Consistent.{
  IsCaseFold, IsNamed, IsConsistent, empty-IsConsistent, set_plugin_metadata-IsConsistent,
}
use libloot.Metadata.Document.Removed.{
  IsRemoved, IsUnlisted, remove_plugin_metadata-IsRemoved, remove_plugin_metadata-IsUnlisted,
}
use libloot.Metadata.Document.Removal.{remove_plugin_metadata-IsConsistent}

module _ (R : Type 0) (unicase_eq : Filename → Filename → Bool) where
  -- One call of an operation that changes a document, other than loading.
  pub data Step : MetadataDocument R → MetadataDocument R → Type 0 where
    bash_tags_set : {d : MetadataDocument R} (tags : List Text) → Step d (set_bash_tags R tags d)
    groups_set : {d : MetadataDocument R} (groups : List Group) → Step d (set_groups R groups d)
    messages_set :
        {d : MetadataDocument R} (messages : List Message) → Step d (set_messages R messages d)
    plugin_set :
        {d : MetadataDocument R} (p : PluginMetadata R)
        → IsNamed R unicase_eq p
        → Step d (set_plugin_metadata R unicase_eq p d)
    plugin_removed :
        {d : MetadataDocument R} (name : Filename)
        → Step d (remove_plugin_metadata R unicase_eq name d)
    cleared : {d : MetadataDocument R} → Step d (clear R d)

  pub data Reachable : MetadataDocument R → Type 0 where
    start : Reachable (default_document R)
    next : {d e : MetadataDocument R} → Reachable d → Step d e → Reachable e

  -- What the invariant is about is the same in both documents.
  IsConsistent-of_same :
      (d : MetadataDocument R) (tags : List Text) (groups : List Group) (messages : List Message)
      → IsConsistent R unicase_eq d
      → IsConsistent R unicase_eq
          (record d { bash_tags = tags; groups = groups; messages = messages })
  IsConsistent-of_same d tags groups messages h = record {
    specific = h.specific;
    regexes = h.regexes;
    listed = h.listed;
    regexes_listed = h.regexes_listed;
    backed = h.backed;
  }

  module _ (law : IsCaseFold unicase_eq) where
    Step-IsConsistent :
        {d e : MetadataDocument R}
        → Step d e
        → IsConsistent R unicase_eq d
        → IsConsistent R unicase_eq e
    unfolding set_groups
    Step-IsConsistent (Step.bash_tags_set {d = d} tags) h =
        IsConsistent-of_same d tags d.groups d.messages h
    Step-IsConsistent (Step.messages_set {d = d} messages) h =
        IsConsistent-of_same d d.bash_tags d.groups messages h
    Step-IsConsistent (Step.groups_set {d = d} groups) h =
        elim (Bool-cases (has_default R groups)) [
          | inl e ↦ rw (e, set_groups) (IsConsistent-of_same d d.bash_tags groups d.messages h)
          | inr e ↦ rw (e, set_groups) (IsConsistent-of_same d d.bash_tags _ d.messages h)
        ]
    Step-IsConsistent (Step.plugin_set {d = d} p named) h =
        set_plugin_metadata-IsConsistent R unicase_eq law p d named h
    Step-IsConsistent (Step.plugin_removed {d = d} name) h =
        remove_plugin_metadata-IsConsistent R unicase_eq law name d h
    Step-IsConsistent (Step.cleared {d = d}) h = empty-IsConsistent R unicase_eq d

    pub IsConsistent-of_reachable :
        {d : MetadataDocument R} → Reachable d → IsConsistent R unicase_eq d
    IsConsistent-of_reachable Reachable.start =
        IsConsistent-of_same _ _ _ _ (empty-IsConsistent R unicase_eq (default_document R))
    IsConsistent-of_reachable (Reachable.next r s) =
        Step-IsConsistent s (IsConsistent-of_reachable r)

    -- In every document that calls of the operations other than loading lead to from the default
    -- one, the map's plugins stand under their own names and are no regular expressions, the other
    -- entries are, and the order lists each entry and nothing else, if the plugins that are set have
    -- names that `PluginName::new` made and `unicase::eq` is an equality up to case. Removing a
    -- plugin from such a document takes the map's entry of that name out of it, or, if there is
    -- none, all entries with that name that are regular expressions, and the name out of the order,
    -- and nothing else.
    pub reachable-IsConsistent :
        {d : MetadataDocument R}
        → Reachable d
        → (name : Filename)
        → IsConsistent R unicase_eq d
          × IsRemoved R unicase_eq name d (remove_plugin_metadata R unicase_eq name d)
          × IsUnlisted R unicase_eq name d (remove_plugin_metadata R unicase_eq name d)
    reachable-IsConsistent {d} r name =
        let consistent = IsConsistent-of_reachable r in
        (
          consistent,
          remove_plugin_metadata-IsRemoved R unicase_eq law name d,
          remove_plugin_metadata-IsUnlisted R unicase_eq law name d consistent,
        )
