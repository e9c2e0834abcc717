-- ===== src/Metadata/Masterlist/Located.antt =====
-- src/metadata/metadata_document.rs and src/metadata/error.rs: the places of errors in a masterlist
-- whose prelude was replaced.
use libloot.Prelude.{
  ℕ, ◌+◌, ◌-◌, ◌≤◌, ◌<◌, ◌≡◌, ◌⊎◌, true, false, [], ◌∷◌, ◌++◌, none, some, length, if◌then◌else◌,
}
use libloot.Prelude.Result.{Result, ok, err}
use libloot.Text.{Text, is_empty}
use libloot.Metadata.Masterlist.{
  ℤ, PreludeDiffSpan, PreludeSubstitutionOverflow, MasterlistWithReplacedPrelude, SplitMasterlist,
  split_on_prelude, count_lines, indent_prelude, adjust_location,
}
use libloot.Metadata.Masterlist.Lines.{newlines}
use libloot.Metadata.Masterlist.Splits.{IsSplit}

-- The line, from 1, of what follows a text.
abbrev pub line_after : Text → ℕ
line_after s = newlines s + 1

module _ (isize_max usize_max : ℕ) where
  -- Where the places in the masterlist with the new prelude come from: those before the prelude are
  -- as they were, those in it have their line in the new prelude's own text and the column without
  -- the indent's two bytes, and those after it have their line in the old masterlist.
  pub record IsLocated (split : SplitMasterlist) (new_prelude : Text) (span : PreludeDiffSpan)
      : Type 0 where
    pub before :
        (read rest : Text) (column : ℕ)
        → split.before_prelude ≡ read ++ rest
        → adjust_location isize_max usize_max
            (record { line = line_after read; column = column })
            span
          ≡ (record { line = line_after read; column = column }, false)
    pub within :
        (read rest : Text) (column : ℕ)
        → new_prelude ≡ read ++ rest
        → 2 ≤ column
        → adjust_location isize_max usize_max
            (record { line = line_after (split.before_prelude ++ b'\n' ∷ read); column = column })
            span
          ≡ (record { line = line_after read; column = column - 2 }, true)
    pub after :
        (read rest : Text) (column : ℕ)
        → is_empty split.after_prelude ≡ false
        → split.after_prelude ≡ read ++ rest
        → adjust_location isize_max usize_max
            (record {
              line = line_after (split.before_prelude ++ b'\n' ∷ (new_prelude ++ b'\n' ∷ read));
              column = column;
            })
            span
          ≡ (
            record {
              line = line_after (split.before_prelude ++ (split.prelude ++ read));
              column = column;
            },
            false,
          )

  module _ (masterlist new_prelude : Text) (split : SplitMasterlist) (added : ℤ)
      (parts : IsSplit masterlist split) (nonempty : is_empty new_prelude ≡ false)
      (fits : newlines masterlist < usize_max) where
    abbrev modifier : ℕ
    modifier = if is_empty split.after_prelude then 1 else 2

    abbrev span : PreludeDiffSpan
    span = record {
      start_line = count_lines split.before_prelude + 1;
      end_line = count_lines split.before_prelude + 1 + (count_lines new_prelude - 1);
      lines_added_count = added;
    }

  -- What replacing the prelude comes to: without a prelude, the masterlist as it is; else the
  -- masterlist with the new prelude and the places that errors in it are mapped to, or the error,
  -- only if the two preludes' numbers of lines are further apart than the word can tell.
  abbrev pub ReplaceOutcome :
      Text → Text → Result PreludeSubstitutionOverflow MasterlistWithReplacedPrelude → Type 0
  ReplaceOutcome masterlist prelude (ok r) =
      ((split_on_prelude masterlist ≡ none) × (r ≡ record { masterlist = masterlist; meta = none }))
      ⊎ ((split : SplitMasterlist) × (span : PreludeDiffSpan) × (split_on_prelude masterlist
            ≡ some split)
          × (r.meta ≡ some span)
          × (r.masterlist
              ≡ split.before_prelude
                ++ (b'\n'
                    ∷ (indent_prelude prelude
                        ++ (if is_empty split.after_prelude
                            then []
                            else b'\n' ∷ split.after_prelude))))
          × (newlines (indent_prelude prelude) ≡ newlines prelude)
          × IsLocated split (indent_prelude prelude) span)
  ReplaceOutcome masterlist prelude (err e) =
      (split : SplitMasterlist) × (split_on_prelude masterlist ≡ some split)
      × (e.index ≡ length split.before_prelude)
      × (e.line ≡ line_after (split.before_prelude ++ b'\n' ∷ []))
      × (e.new_prelude_count ≡ newlines prelude + 1)
      × (e.old_prelude_count
          ≡ newlines split.prelude - (if is_empty split.after_prelude then 0 else 1))
      × ((isize_max + e.old_prelude_count < e.new_prelude_count)
          ⊎ (isize_max + e.new_prelude_count < e.old_prelude_count))
