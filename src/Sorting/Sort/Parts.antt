-- ===== src/Sorting/Sort/Parts.antt =====
-- src/sorting/plugins.rs: the three parts that `sort_plugins` sorts by themselves.
use libloot.Prelude.{
  ◌≡◌, refl, Bool, true, false, not, ◌&&◌, String, List, [], ◌∷◌, ◌++◌, Memᴰ, mem_keep, keep,
  if◌then◌else◌, ℕ,
}
use mathlib.Core.List.{Perm, perm_middle}
use mathlib.Core.List.Perm
use libloot.Prelude.Result.{Result}
use libloot.Prelude.Sort.{stable_sort-Perm}
use libloot.External.Petgraph.{Petgraph}
use libloot.Sorting.Plugins.Data.{SortingPlugin, PluginSortingData, is_blueprint_master}
use libloot.Sorting.Sort.{by_name, plain_masters, blueprint_masters, non_masters}

module _ {E T : Type 0} (trait : SortingPlugin E T) (P : Petgraph (PluginSortingData T))
    (Q : Petgraph String) (unicase_eq : String → String → Bool)
    (toposort : P.Graph → Result ℕ (List ℕ)) where
  abbrev Plugins : Type 0
  Plugins = List (PluginSortingData T)

  -- Three lists that hold the plugins, each as often as they do: the masters that are no
  -- blueprints, the plugins that are no masters, and the masters that are blueprints.
  pub record IsPartition (plugins masters others blueprints : Plugins) : Type 0 where
    pub together : Perm plugins (masters ++ (others ++ blueprints))
    pub are_masters :
        (p : PluginSortingData T)
        → Memᴰ p masters
        → (p.is_master ≡ true) × (trait.is_blueprint_plugin p.plugin ≡ false)
    pub are_others : (p : PluginSortingData T) → Memᴰ p others → p.is_master ≡ false
    pub are_blueprints :
        (p : PluginSortingData T)
        → Memᴰ p blueprints
        → (p.is_master ≡ true) × (trait.is_blueprint_plugin p.plugin ≡ true)

  abbrev masters_of : Plugins → Plugins
  masters_of plugins = plain_masters trait P Q unicase_eq toposort plugins

  abbrev blueprints_of : Plugins → Plugins
  blueprints_of plugins = blueprint_masters trait P Q unicase_eq toposort plugins

  abbrev others_of : Plugins → Plugins
  others_of plugins = non_masters trait P Q unicase_eq toposort plugins

  parts-Perm :
      (plugins : Plugins)
      → Perm plugins (masters_of plugins ++ (others_of plugins ++ blueprints_of plugins))
  parts-Perm [] = Perm.refl []
  parts-Perm (p ∷ plugins) = choose (Perm.cons p (parts-Perm plugins)) p.is_master
    where
      masters : Plugins
      masters = masters_of plugins

      others : Plugins
      others = others_of plugins

      blueprints : Plugins
      blueprints = blueprints_of plugins

      flagged : Plugins
      flagged = keep (λ (q : PluginSortingData T). q.is_master) plugins

      Rest : Type 0
      Rest = Perm (p ∷ plugins) (p ∷ (masters ++ (others ++ blueprints)))

      master :
          Rest
          → (b : Bool)
          → Perm (p ∷ plugins) (
              (if not b then p ∷ masters else masters)
              ++ (others ++ (if b then p ∷ blueprints else blueprints)))
      master rest false = rest
      master rest true = Perm.trans rest (
          Perm.symm (
            Perm.trans (Perm.append_left masters (perm_middle others blueprints))
              (perm_middle masters (others ++ blueprints))))

      choose :
          Rest
          → (b : Bool)
          → Perm (p ∷ plugins) (
              keep (λ q. not (is_blueprint_master trait q)) (if b then p ∷ flagged else flagged)
              ++ ((if not b then p ∷ others else others)
                  ++ keep (is_blueprint_master trait) (if b then p ∷ flagged else flagged)))
      choose rest false = Perm.trans rest (Perm.symm (perm_middle masters (others ++ blueprints)))
      choose rest true = master rest (is_blueprint_master trait p)

  not-false : (b : Bool) → not b ≡ true → b ≡ false
  not-false true h = absurd (cc)
  not-false false h = refl

  and-right : (a b : Bool) → a ≡ true → (a && b) ≡ false → b ≡ false
  and-right true b e h = h
  and-right false b e h = absurd (cc)

  and-right_true : (a b : Bool) → (a && b) ≡ true → b ≡ true
  and-right_true true b h = h
  and-right_true false b h = absurd (cc)

  -- The code's filters, over the plugins in the order of their names, make such parts.
  pub by_name-IsPartition :
      (plugins : Plugins)
      → let sorted = by_name trait P Q unicase_eq toposort plugins in
        IsPartition plugins (masters_of sorted) (others_of sorted) (blueprints_of sorted)
  by_name-IsPartition plugins =
      let sorted = by_name trait P Q unicase_eq toposort plugins in
      record {
        together = Perm.trans (Perm.symm (stable_sort-Perm _ plugins)) (parts-Perm sorted);
        are_masters = λ p m.
            let (inner, plain) =
              (mem_keep _ p (keep (λ (q : PluginSortingData T). q.is_master) sorted)).0 m in
            let master = ((mem_keep _ p sorted).0 inner).1 in
            (master, and-right _ _ master (not-false _ plain));
        are_others = λ p m. not-false _ ((mem_keep _ p sorted).0 m).1;
        are_blueprints = λ p m.
            let (inner, blueprint) =
              (mem_keep _ p (keep (λ (q : PluginSortingData T). q.is_master) sorted)).0 m in
            (((mem_keep _ p sorted).0 inner).1, and-right_true _ _ blueprint);
      }
