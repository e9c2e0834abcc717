-- ===== src/Sorting/Validate/Exact.antt =====
-- src/sorting/validate.rs: what the checks accept, and what they report.
use libloot.Prelude.{
  ◌≡◌, refl, subst, ◌↔◌, ◌⊎◌, inl, inr, Bool, true, String, List, [], ◌∷◌, ◌++◌, any, str_eq,
  str_eq_iff, Memᴰ, mem_cons, not_mem_nil, Bool-cases, map,
}
use libloot.Prelude.Result.{
  Result, ok, err, ◌>>=◌, ◌>>◌, map_err, map_err-ok_iff, >>-ok_iff, try_for_each-ok_iff, ok-inj,
}
use libloot.Sorting.Vertex.{EdgeType}
use libloot.Sorting.Error.{
  PluginDataError, UndefinedGroupError, CyclicInteractionError, PluginGraphValidationError,
}
use libloot.Sorting.Plugins.Data.{SortingPlugin, PluginSortingData, name, masters}
use libloot.Sorting.Validate.{
  validate_plugin_groups, contains, validate_files, validate_master_names, cyclic, validate_plugin,
  validate_masters, validate_non_masters, validate_early_loaders, validate_early_loading_plugins,
  validate_specific_and_hardcoded_edges,
}
use libloot.Sorting.Validate.Files.{
  AreAbsent, AreAbsent-cons, validate_files-ok_iff, validate_master_names-ok_iff,
}

any-str_eq : (s : String) (names : List String) → (any (str_eq s) names ≡ true) ↔ Memᴰ s names
any-str_eq s [] = (λ h. absurd (cc), λ m. absurd (not_mem_nil m))
any-str_eq s (n ∷ names) = elim (Bool-cases (str_eq s n)) [
  | inl e ↦ rw e (λ h. Memᴰ.head ((str_eq_iff s n).0 e), λ m. refl)
  | inr e ↦ rw e (
    λ h. Memᴰ.tail ((any-str_eq s names).0 h),
    λ m. elim ((mem_cons s n names).0 m) [
      | inl same ↦ absurd (cc ((str_eq_iff s n).1 same))
      | inr m' ↦ (any-str_eq s names).1 m'
    ],
  )
]

-- The first plugin whose group is not among the names.
pub record FirstUndefined {T : Type 0} (plugins : List (PluginSortingData T))
    (group_names : List String) (e : UndefinedGroupError) : Type 0 where
  pub before : List (PluginSortingData T)
  pub plugin : PluginSortingData T
  pub after : List (PluginSortingData T)
  pub split : plugins ≡ before ++ plugin ∷ after
  pub defined : (p : PluginSortingData T) → Memᴰ p before → Memᴰ p.group group_names
  pub undefined : ¬ (Memᴰ plugin.group group_names)
  pub reported : e.group_name ≡ plugin.group

-- What the check of the groups returns.
abbrev pub GroupsChecked :
    {T : Type 0}
    → List (PluginSortingData T)
    → List String
    → Result UndefinedGroupError (Unit {0})
    → Type 0
GroupsChecked {T = T} plugins group_names (ok u) =
    (p : PluginSortingData T) → Memᴰ p plugins → Memᴰ p.group group_names
GroupsChecked plugins group_names (err e) = FirstUndefined plugins group_names e

-- The check of the groups passes only if the group of each plugin is among the names, and else it
-- reports the group of the first plugin whose group is not.
pub validate_plugin_groups-GroupsChecked :
    {T : Type 0} (plugins : List (PluginSortingData T)) (group_names : List String)
    → GroupsChecked plugins group_names (validate_plugin_groups plugins group_names)
unfolding validate_plugin_groups
validate_plugin_groups-GroupsChecked [] group_names = λ p m. absurd (not_mem_nil m)
validate_plugin_groups-GroupsChecked {T = T} (plugin ∷ plugins) group_names =
    elim (Bool-cases (any (str_eq plugin.group) group_names)) [
      | inl e ↦
          rw (e, validate_plugin_groups)
            (later e (validate_plugin_groups plugins group_names)
              (validate_plugin_groups-GroupsChecked plugins group_names))
      | inr e ↦
          rw (e, validate_plugin_groups)
            (record {
              before = [];
              plugin = plugin;
              after = plugins;
              split = refl;
              defined = λ p m. absurd (not_mem_nil m);
              undefined = λ m. cc ((any-str_eq plugin.group group_names).1 m);
              reported = refl;
            })
    ]
  where
    later :
        any (str_eq plugin.group) group_names ≡ true
        → (r : Result UndefinedGroupError (Unit {0})) → GroupsChecked plugins group_names r
        → GroupsChecked (plugin ∷ plugins) group_names r
    later e (ok u) h = λ p m. elim ((mem_cons p plugin plugins).0 m) [
      | inl same ↦ rw same ((any-str_eq plugin.group group_names).0 e)
      | inr m' ↦ h p m'
    ]
    later e (err x) h = record {
      before = plugin ∷ h.before;
      plugin = h.plugin;
      after = h.after;
      split = rw h.split;
      defined = λ p m. elim ((mem_cons p plugin h.before).0 m) [
        | inl same ↦ rw same ((any-str_eq plugin.group group_names).0 e)
        | inr m' ↦ h.defined p m'
      ];
      undefined = h.undefined;
      reported = h.reported;
    }

module _ (unicase_eq : String → String → Bool) where
  module _ {E T : Type 0} (trait : SortingPlugin E T) where
    abbrev Plugin : Type 0
    Plugin = PluginSortingData T

    -- A plugin whose masters can be read and are none of `others`, and whose metadata names none
    -- of `others` or `blueprints`.
    pub record IsAllowed (others blueprints : List String) (plugin : Plugin) : Type 0 where
      pub master_names : List String
      pub read : masters trait plugin ≡ ok master_names
      pub masters_absent : AreAbsent unicase_eq others master_names
      pub masterlist_req :
          AreAbsent unicase_eq others plugin.masterlist_req
          × AreAbsent unicase_eq blueprints plugin.masterlist_req
      pub user_req :
          AreAbsent unicase_eq others plugin.user_req
          × AreAbsent unicase_eq blueprints plugin.user_req
      pub masterlist_load_after :
          AreAbsent unicase_eq others plugin.masterlist_load_after
          × AreAbsent unicase_eq blueprints plugin.masterlist_load_after
      pub user_load_after :
          AreAbsent unicase_eq others plugin.user_load_after
          × AreAbsent unicase_eq blueprints plugin.user_load_after

    -- The part of `validate_plugin` that follows the reading of the masters.
    abbrev checks :
        List String
        → List String
        → Plugin
        → List String
        → Result (PluginGraphValidationError E) (Unit {0})
    checks others blueprints plugin names =
        let file_check = λ (files : List String) (t : EdgeType).
          cyclic unicase_eq trait
            (validate_files unicase_eq files (name trait plugin) others blueprints t) in
        cyclic unicase_eq trait (validate_master_names unicase_eq names (name trait plugin) others)
        >> (file_check plugin.masterlist_req EdgeType.masterlist_requirement
            >> (file_check plugin.user_req EdgeType.user_requirement
                >> (file_check plugin.masterlist_load_after EdgeType.masterlist_load_after
                    >> file_check plugin.user_load_after EdgeType.user_load_after)))

    cyclic-ok_iff :
        (r : Result CyclicInteractionError (Unit {0}))
        → (cyclic unicase_eq trait r ≡ ok tt) ↔ (r ≡ ok tt)
    cyclic-ok_iff r = map_err-ok_iff PluginGraphValidationError.cycle_found r tt

    file_check-ok_iff :
        (others blueprints : List String) (plugin_name : String) (files : List String)
        (t : EdgeType)
        → (cyclic unicase_eq trait (validate_files unicase_eq files plugin_name others blueprints t)
            ≡ ok tt)
          ↔ (AreAbsent unicase_eq others files × AreAbsent unicase_eq blueprints files)
    file_check-ok_iff others blueprints plugin_name files t =
        let c = cyclic-ok_iff (validate_files unicase_eq files plugin_name others blueprints t) in
        let v = validate_files-ok_iff unicase_eq files plugin_name others blueprints t in
        (λ h. v.0 (c.0 h), λ h. c.1 (v.1 h))

    checks-ok_iff :
        (others blueprints : List String) (plugin : Plugin) (names : List String)
        → masters trait plugin ≡ ok names
        → (checks others blueprints plugin names ≡ ok tt) ↔ IsAllowed others blueprints plugin
    checks-ok_iff others blueprints plugin names e =
        let check = file_check-ok_iff others blueprints (name trait plugin) in
        let read = validate_master_names-ok_iff unicase_eq names (name trait plugin) others in
        let read_check =
          cyclic-ok_iff (validate_master_names unicase_eq names (name trait plugin) others) in
        let a = check plugin.masterlist_req EdgeType.masterlist_requirement in
        let b = check plugin.user_req EdgeType.user_requirement in
        let c = check plugin.masterlist_load_after EdgeType.masterlist_load_after in
        let d = check plugin.user_load_after EdgeType.user_load_after in
        (
          λ h.
              let (m, h₁) = (>>-ok_iff _ _).0 h in
              let (ha, h₂) = (>>-ok_iff _ _).0 h₁ in
              let (hb, h₃) = (>>-ok_iff _ _).0 h₂ in
              let (hc, hd) = (>>-ok_iff _ _).0 h₃ in
              record {
                master_names = names;
                read = e;
                masters_absent = read.0 (read_check.0 m);
                masterlist_req = a.0 ha;
                user_req = b.0 hb;
                masterlist_load_after = c.0 hc;
                user_load_after = d.0 hd;
              },
          λ p. (>>-ok_iff _ _).1 (
            read_check.1 (
                read.1 (
                  subst (AreAbsent unicase_eq others) (ok-inj _ _ (masters trait plugin) p.read e)
                    p.masters_absent)),
            (>>-ok_iff _ _).1 (
              a.1 p.masterlist_req,
              (>>-ok_iff _ _).1 (
                b.1 p.user_req,
                (>>-ok_iff _ _).1 (c.1 p.masterlist_load_after, d.1 p.user_load_after),
              ),
            ),
          ),
        )

    validate_plugin-ok_iff :
        (others blueprints : List String) (plugin : Plugin)
        → (validate_plugin unicase_eq trait others blueprints plugin ≡ ok tt)
          ↔ IsAllowed others blueprints plugin
    unfolding validate_plugin
    validate_plugin-ok_iff others blueprints plugin = go (masters trait plugin) refl
      where
        go :
            (r : Result (PluginDataError E) (List String))
            → masters trait plugin ≡ r
            → ((map_err PluginGraphValidationError.plugin_data r
                  >>= checks others blueprints plugin)
                ≡ ok tt)
              ↔ IsAllowed others blueprints plugin
        go (ok names) e = checks-ok_iff others blueprints plugin names e
        go (err x) e = (λ h. absurd (cc), λ p. absurd (cc p.read))

    validate_early_loaders-ok_iff :
        (early : List String) (master : String) (others : List String)
        → (validate_early_loaders unicase_eq trait early master others ≡ ok tt)
          ↔ AreAbsent unicase_eq others early
    unfolding validate_early_loaders
    validate_early_loaders-ok_iff [] master others = (λ h f m. absurd (not_mem_nil m), λ h. refl)
    validate_early_loaders-ok_iff (file ∷ files) master others =
        elim (Bool-cases (contains unicase_eq others file)) [
          | inl e ↦
              rw (e, validate_early_loaders)
                (λ h. absurd (cc), λ h. absurd (cc (h file (Memᴰ.head refl))))
          | inr e ↦
              rw (e, validate_early_loaders)
                (
                  λ h.
                      AreAbsent-cons unicase_eq others file files e
                        ((validate_early_loaders-ok_iff files master others).0 h),
                  λ h.
                      (validate_early_loaders-ok_iff files master others).1
                        (λ f m. h f (Memᴰ.tail m)),
                )
        ]

    early_loading-ok_iff :
        (early : List String) (plain : List Plugin) (others : List String)
        → (validate_early_loading_plugins unicase_eq trait early plain others ≡ ok tt)
          ↔ ((plain ≡ []) ⊎ AreAbsent unicase_eq others early)
    unfolding validate_early_loading_plugins
    early_loading-ok_iff early [] others = (λ h. inl refl, λ h. refl)
    early_loading-ok_iff early (master ∷ rest) others =
        let check = validate_early_loaders-ok_iff early (name trait master) others in
        (λ h. inr (check.0 h), λ h. elim h [ inl e ↦ absurd (cc) | inr absent ↦ check.1 absent ])

    -- The checks pass exactly if three things hold. Each plain master's masters can be read and are
    -- none of the other plugins, and its metadata names none of those or of the blueprint masters.
    -- Each other plugin's masters can be read, and its metadata names none of the blueprint masters.
    -- No early loader is among the other plugins, unless there is no plain master.
    -- Masters among the blueprint masters are accepted.
    pub validate_specific_and_hardcoded_edges-ok_iff :
        (plain blueprint others : List Plugin) (early : List String)
        → (validate_specific_and_hardcoded_edges unicase_eq trait plain blueprint others early
            ≡ ok tt)
          ↔ (((p : Plugin)
                → Memᴰ p plain
                → IsAllowed (map (name trait) others) (map (name trait) blueprint) p)
              × ((p : Plugin) → Memᴰ p others → IsAllowed [] (map (name trait) blueprint) p)
              × ((plain ≡ []) ⊎ AreAbsent unicase_eq (map (name trait) others) early))
    unfolding validate_specific_and_hardcoded_edges validate_masters validate_non_masters
    validate_specific_and_hardcoded_edges-ok_iff plain blueprint others early =
        let other_names = map (name trait) others in
        let blueprint_names = map (name trait) blueprint in
        let ms =
          try_for_each-ok_iff (validate_plugin unicase_eq trait other_names blueprint_names)
            plain in
        let os = try_for_each-ok_iff (validate_plugin unicase_eq trait [] blueprint_names) others in
        let early_check =
          cyclic-ok_iff (validate_early_loading_plugins unicase_eq trait early plain other_names) in
        (
          λ h.
              let (h₁, h₂) = (>>-ok_iff _ _).0 h in
              let (h₃, h₄) = (>>-ok_iff _ _).0 h₂ in
              (
                λ p m. (validate_plugin-ok_iff other_names blueprint_names p).0 (ms.0 h₁ p m),
                λ p m. (validate_plugin-ok_iff [] blueprint_names p).0 (os.0 h₃ p m),
                (early_loading-ok_iff early plain other_names).0 (early_check.0 h₄),
              ),
          λ h. (>>-ok_iff _ _).1 (
            ms.1 (λ p m. (validate_plugin-ok_iff other_names blueprint_names p).1 (h.0 p m)),
            (>>-ok_iff _ _).1 (
              os.1 (λ p m. (validate_plugin-ok_iff [] blueprint_names p).1 (h.1 p m)),
              early_check.1 ((early_loading-ok_iff early plain other_names).1 h.2),
            ),
          ),
        )
