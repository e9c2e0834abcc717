-- ===== src/Sorting/Validate/Files.antt =====
-- src/sorting/validate.rs: the checks of files and of masters' names.
use libloot.Prelude.{
  ◌≡◌, refl, ◌↔◌, inl, inr, Bool, false, String, List, [], ◌∷◌, Memᴰ, mem_cons, not_mem_nil,
  Bool-cases,
}
use libloot.Prelude.Result.{ok}
use libloot.Sorting.Vertex.{EdgeType}
use libloot.Sorting.Validate.{contains, validate_files, validate_master_names}

module _ (unicase_eq : String → String → Bool) where
  -- None of the files is among the names.
  abbrev pub AreAbsent : List String → List String → Type 0
  AreAbsent names files = (f : String) → Memᴰ f files → contains unicase_eq names f ≡ false

  pub AreAbsent-cons :
      (names : List String) (f : String) (fs : List String)
      → contains unicase_eq names f ≡ false
      → AreAbsent names fs
      → AreAbsent names (f ∷ fs)
  AreAbsent-cons names f fs e h g m = elim ((mem_cons g f fs).0 m) [
    | inl same ↦ rw same e
    | inr m' ↦ h g m'
  ]

  pub validate_files-ok_iff :
      (files : List String) (plugin_name : String) (others blueprints : List String) (t : EdgeType)
      → (validate_files unicase_eq files plugin_name others blueprints t ≡ ok tt)
        ↔ (AreAbsent others files × AreAbsent blueprints files)
  unfolding validate_files
  validate_files-ok_iff [] plugin_name others blueprints t =
      (λ h. (λ f m. absurd (not_mem_nil m), λ f m. absurd (not_mem_nil m)), λ h. refl)
  validate_files-ok_iff (file ∷ files) plugin_name others blueprints t =
      elim (Bool-cases (contains unicase_eq others file)) [
        | inl e ↦
            rw (e, validate_files) (λ h. absurd (cc), λ h. absurd (cc (h.0 file (Memᴰ.head refl))))
        | inr e ↦ elim (Bool-cases (contains unicase_eq blueprints file)) [
          | inl b ↦
              rw (e, b, validate_files)
                (λ h. absurd (cc), λ h. absurd (cc (h.1 file (Memᴰ.head refl))))
          | inr b ↦
              rw (e, b, validate_files)
                (
                  λ h.
                      let later =
                        (validate_files-ok_iff files plugin_name others blueprints t).0 h in
                      (
                        AreAbsent-cons others file files e later.0,
                        AreAbsent-cons blueprints file files b later.1,
                      ),
                  λ h.
                      (validate_files-ok_iff files plugin_name others blueprints t).1
                        (λ f m. h.0 f (Memᴰ.tail m), λ f m. h.1 f (Memᴰ.tail m)),
                )
        ]
      ]

  pub validate_master_names-ok_iff :
      (files : List String) (plugin_name : String) (others : List String)
      → (validate_master_names unicase_eq files plugin_name others ≡ ok tt) ↔ AreAbsent others files
  unfolding validate_master_names
  validate_master_names-ok_iff [] plugin_name others = (λ h f m. absurd (not_mem_nil m), λ h. refl)
  validate_master_names-ok_iff (file ∷ files) plugin_name others =
      elim (Bool-cases (contains unicase_eq others file)) [
        | inl e ↦
            rw (e, validate_master_names)
              (λ h. absurd (cc), λ h. absurd (cc (h file (Memᴰ.head refl))))
        | inr e ↦
            rw (e, validate_master_names)
              (
                λ h.
                    AreAbsent-cons others file files e
                      ((validate_master_names-ok_iff files plugin_name others).0 h),
                λ h.
                    (validate_master_names-ok_iff files plugin_name others).1
                      (λ f m. h f (Memᴰ.tail m)),
              )
      ]
