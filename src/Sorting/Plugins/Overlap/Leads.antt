-- ===== src/Sorting/Plugins/Overlap/Leads.antt =====
-- src/sorting/plugins.rs: which of two plugins that overlap loads first.
use libloot.Prelude.{
  ◌<◌, ◌≡◌, refl, ◌⊎◌, inl, inr, Bool, true, false, not, ◌||◌, ◌==◌, Option, none, some, ltb,
  or-eq-true, if◌then◌else◌, arith,
}
use libloot.Prelude.Result.{Result, ok, err, ◌>>=◌}
use libloot.External.Petgraph.{Petgraph}
use libloot.Sorting.Vertex.{EdgeType}
use libloot.Sorting.Error.{PluginDataError}
use libloot.Sorting.Plugins.Data.{
  SortingPlugin, PluginSortingData, asset_count, do_records_overlap, do_assets_overlap,
}
use libloot.Sorting.Plugins.Overlap.{records_do_not_decide, overlap_order}

module _ {E T : Type 0} (trait : SortingPlugin E T) (P : Petgraph (PluginSortingData T))
    (p q : PluginSortingData T) where
  -- The records of the two plugins do not say which of them loads first.
  abbrev pub AreUndecided : Type 0
  AreUndecided =
      (p.override_record_count ≡ q.override_record_count)
      ⊎ (do_records_overlap trait p q ≡ ok false)

  -- The first plugin overrides more records and the records overlap, or else the first has more
  -- assets and the assets overlap.
  abbrev pub LoadsFirst : Type 0
  LoadsFirst =
      ((q.override_record_count < p.override_record_count)
        × (do_records_overlap trait p q ≡ ok true))
      ⊎ (AreUndecided
          × (asset_count trait q < asset_count trait p)
          × (do_assets_overlap trait p q ≡ true))

  -- The same, for the second plugin.
  abbrev pub LoadsLast : Type 0
  LoadsLast =
      ((p.override_record_count < q.override_record_count)
        × (do_records_overlap trait p q ≡ ok true))
      ⊎ (AreUndecided
          × (asset_count trait p < asset_count trait q)
          × (do_assets_overlap trait p q ≡ true))

  -- The records of the plugins have to be compared, and cannot be read.
  abbrev pub CannotCompare : PluginDataError E → Type 0
  CannotCompare e =
      ¬ (p.override_record_count ≡ q.override_record_count) × (do_records_overlap trait p q ≡ err e)

  abbrev RecordsOutcome : Result (PluginDataError E) Bool → Type 0
  RecordsOutcome (err e) = CannotCompare e
  RecordsOutcome (ok true) = AreUndecided
  RecordsOutcome (ok false) =
      ¬ (p.override_record_count ≡ q.override_record_count)
      × (do_records_overlap trait p q ≡ ok true)

  records_do_not_decide-RecordsOutcome : RecordsOutcome (records_do_not_decide trait P p q)
  unfolding records_do_not_decide
  records_do_not_decide-RecordsOutcome =
      go (p.override_record_count == q.override_record_count) refl (do_records_overlap trait p q)
        refl
    where
      go :
          (t : Bool)
          → (p.override_record_count == q.override_record_count) ≡ t
          → (r : Result (PluginDataError E) Bool) → do_records_overlap trait p q ≡ r
          → RecordsOutcome (if t then ok true else r >>= λ overlap. ok (not overlap))
      go true e r er = inl (ground arith)
      go false e (err x) er = (λ same. ground arith, er)
      go false e (ok true) er = (λ same. ground arith, er)
      go false e (ok false) er = inr er

  abbrev pub OrderOutcome : Result (PluginDataError E) (Option (Bool × EdgeType)) → Type 0
  OrderOutcome (err e) = CannotCompare e
  OrderOutcome (ok none) = ¬ LoadsFirst × ¬ LoadsLast
  OrderOutcome (ok (some (true, t))) = LoadsFirst
  OrderOutcome (ok (some (false, t))) = LoadsLast

  ok-true-false :
      do_records_overlap trait p q ≡ ok true → do_records_overlap trait p q ≡ ok false → ⊥
  ok-true-false h k = cc

  ok-err :
      (b : Bool) (e : PluginDataError E)
      → do_records_overlap trait p q ≡ ok b
      → do_records_overlap trait p q ≡ err e
      → ⊥
  ok-err b e h k = cc

  not-clash : (b : Bool) → not b ≡ true → b ≡ true → ⊥
  not-clash true h k = cc
  not-clash false h k = cc

  -- Neither loads first if the records do not decide and the assets do not either.
  tied :
      AreUndecided
      → (asset_count trait p == asset_count trait q || not (do_assets_overlap trait p q)) ≡ true
      → ¬ LoadsFirst × ¬ LoadsLast
  tied undecided e = (
    λ h. elim h [
      | inl (more, overlap) ↦ elim undecided [
        | inl same ↦ omega (arith, more, same)
        | inr apart ↦ ok-true-false overlap apart
      ]
      | inr (u, more, overlap) ↦ elim (or-eq-true _ _ e) [
        | inl same ↦ ground arith
        | inr apart ↦ not-clash (do_assets_overlap trait p q) apart overlap
      ]
    ],
    λ h. elim h [
      | inl (more, overlap) ↦ elim undecided [
        | inl same ↦ omega (arith, more, same)
        | inr apart ↦ ok-true-false overlap apart
      ]
      | inr (u, more, overlap) ↦ elim (or-eq-true _ _ e) [
        | inl same ↦ ground arith
        | inr apart ↦ not-clash (do_assets_overlap trait p q) apart overlap
      ]
    ],
  )

  pub overlap_order-OrderOutcome : OrderOutcome (overlap_order trait P p q)
  unfolding overlap_order
  overlap_order-OrderOutcome =
      go (records_do_not_decide trait P p q) records_do_not_decide-RecordsOutcome
    where
      by_records :
          ¬ (p.override_record_count ≡ q.override_record_count)
          → do_records_overlap trait p q ≡ ok true
          → (t : Bool) → ltb q.override_record_count p.override_record_count ≡ t
          → OrderOutcome (ok (some (t, EdgeType.record_overlap)))
      by_records differ overlap true e = inl (ground arith, overlap)
      by_records differ overlap false e = inl (ground arith, overlap)

      by_assets :
          AreUndecided
          → (tie : Bool)
          → (asset_count trait p == asset_count trait q || not (do_assets_overlap trait p q)) ≡ tie
          → (t : Bool) → ltb (asset_count trait q) (asset_count trait p) ≡ t
          → OrderOutcome (ok (if tie then none else some (t, EdgeType.asset_overlap)))
      by_assets u true e t et = tied u e
      by_assets u false e true et = inr (u, ground arith, ground arith)
      by_assets u false e false et = inr (u, ground arith, ground arith)

      go :
          (r : Result (PluginDataError E) Bool)
          → RecordsOutcome r
          → OrderOutcome (
              r >>= λ by_assets. ok (
                if by_assets
                then if asset_count trait p == asset_count trait q
                    || not (do_assets_overlap trait p q)
                  then none
                  else some
                      (ltb (asset_count trait q) (asset_count trait p), EdgeType.asset_overlap)
                else some
                    (ltb q.override_record_count p.override_record_count, EdgeType.record_overlap)))
      go (err e) h = h
      go (ok true) h = by_assets h _ refl _ refl
      go (ok false) h = by_records h.0 h.1 _ refl

  -- If one of the plugins loads first, the code's choice is made.
  pub overlap_order-decides :
      LoadsFirst ⊎ LoadsLast → (o : Bool × EdgeType) × (overlap_order trait P p q ≡ ok (some o))
  overlap_order-decides h = go (overlap_order trait P p q) overlap_order-OrderOutcome refl
    where
      comparable : (e : PluginDataError E) → CannotCompare e → LoadsFirst ⊎ LoadsLast → ⊥
      comparable e (differ, unread) (inl (inl (more, overlap))) = ok-err true e overlap unread
      comparable e (differ, unread) (inr (inl (more, overlap))) = ok-err true e overlap unread
      comparable e (differ, unread) (inl (inr (inl same, more, overlap))) = differ same
      comparable e (differ, unread) (inr (inr (inl same, more, overlap))) = differ same
      comparable e (differ, unread) (inl (inr (inr apart, more, overlap))) =
          ok-err false e apart unread
      comparable e (differ, unread) (inr (inr (inr apart, more, overlap))) =
          ok-err false e apart unread

      go :
          (r : Result (PluginDataError E) (Option (Bool × EdgeType)))
          → OrderOutcome r
          → overlap_order trait P p q ≡ r
          → (o : Bool × EdgeType) × (overlap_order trait P p q ≡ ok (some o))
      go (err e) c er = absurd (comparable e c h)
      go (ok none) c er = absurd (elim h [ inl first ↦ c.0 first | inr last ↦ c.1 last ])
      go (ok (some o)) c er = (o, er)
