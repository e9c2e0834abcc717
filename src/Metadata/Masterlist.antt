-- ===== src/Metadata/Masterlist.antt =====
-- src/metadata/metadata_document.rs: replacing the prelude of a masterlist, and, of
-- src/metadata/error.rs, where an error in the result is. `isize_max` and `usize_max` are the
-- greatest values of the machine's word.
pub mod Lines
pub mod Matches
pub mod Ends
pub mod Splits
pub mod Shift
pub mod Located
use libloot.Prelude.{
  ℕ, zero, suc, ◌+◌, ◌-◌, Bool, true, false, not, ◌||◌, List, [], ◌∷◌, ◌++◌, Option, none, some,
  length, leb, ltb, ◌==◌, if◌then◌else◌,
}
use libloot.Prelude.Result.{Result, ok, err, ◌>>=◌}
use libloot.Text.{
  Text, is_empty, strip_prefix, find_text, split_at_checked, lines, replace, ends_with,
  trim_end_matches,
}

-- `isize`
pub data ℤ : Type 0 where
  pos negsuc : ℕ → ℤ

abbrev pub is_negative : ℤ → Bool
is_negative (pos n) = false
is_negative (negsuc n) = true

abbrev pub unsigned_abs : ℤ → ℕ
unsigned_abs (pos n) = n
unsigned_abs (negsuc n) = suc n

abbrev pub neg : ℕ → ℤ
neg zero = pos 0
neg (suc n) = negsuc n

pub record PreludeDiffSpan : Type 0 where
  pub start_line : ℕ
  pub end_line : ℕ
  pub lines_added_count : ℤ

pub record Position : Type 0 where
  pub line : ℕ
  pub column : ℕ

-- The error for too many lines, with the place and the counts that it is made from.
pub record PreludeSubstitutionOverflow : Type 0 where
  pub index : ℕ
  pub line : ℕ
  pub new_prelude_count : ℕ
  pub old_prelude_count : ℕ

pub record MasterlistWithReplacedPrelude : Type 0 where
  pub masterlist : Text
  pub meta : Option PreludeDiffSpan

pub record SplitMasterlist : Type 0 where
  pub before_prelude : Text
  pub prelude : Text
  pub after_prelude : Text

abbrev pub prelude_on_first_line : Text
prelude_on_first_line = b'p' ∷ b'r' ∷ b'e' ∷ b'l' ∷ b'u' ∷ b'd' ∷ b'e' ∷ b':' ∷ []

abbrev pub prelude_on_new_line : Text
prelude_on_new_line = b'\n' ∷ prelude_on_first_line

unfoldable pub split_on_prelude_start : Text → Option (Text × Text)
split_on_prelude_start masterlist = elim (strip_prefix prelude_on_first_line masterlist) [
  | some remainder ↦ some (prelude_on_first_line, remainder)
  | none ↦ elim (find_text prelude_on_new_line masterlist) [
    | none ↦ none
    | some i ↦ split_at_checked (i + length prelude_on_new_line) masterlist
  ]
]

-- The bytes with which a line that is still in the prelude begins.
abbrev pub is_in_prelude : ℕ → Bool
is_in_prelude byte = byte == b' ' || byte == b'#' || byte == b'\n' || byte == b'\r'

-- The loop over the bytes, with the index of the first of them.
unfoldable pub find_prelude_end : Text → ℕ → Text → Option (Text × Text)
find_prelude_end remainder i [] = none
find_prelude_end remainder i (byte ∷ []) = none
find_prelude_end remainder i (byte ∷ next_byte ∷ bytes) =
    let later = find_prelude_end remainder (suc i) (next_byte ∷ bytes) in
    if not (byte == b'\n') || is_in_prelude next_byte
    then later
    else elim (split_at_checked (suc i) remainder) [ some pair ↦ some pair | none ↦ later ]

unfoldable pub split_on_prelude : Text → Option SplitMasterlist
unfolding split_on_prelude_start find_prelude_end
split_on_prelude masterlist = elim (split_on_prelude_start masterlist) [
  | none ↦ none
  | some (prefix, remainder) ↦ elim (find_prelude_end remainder 0 remainder) [
    | some (prelude, suffix) ↦
        some (record { before_prelude = prefix; prelude = prelude; after_prelude = suffix })
    | none ↦ some (record { before_prelude = prefix; prelude = remainder; after_prelude = [] })
  ]
]

unfoldable pub count_lines : Text → ℕ
count_lines string =
    let count = length (lines string) in if ends_with (b'\n' ∷ []) string then count + 1 else count

unfoldable pub indent_prelude : Text → Text
indent_prelude prelude =
    let indented = replace (b' ' ∷ b' ' ∷ b'\n' ∷ []) (b'\n' ∷ []) (
      replace (b' ' ∷ b' ' ∷ b'\r' ∷ b'\n' ∷ []) (b'\r' ∷ b'\n' ∷ [])
        (b' ' ∷ b' ' ∷ replace (b'\n' ∷ []) (b'\n' ∷ b' ' ∷ b' ' ∷ []) prelude)) in
    if ends_with (b'\n' ∷ b' ' ∷ b' ' ∷ []) indented
    then trim_end_matches b' ' indented
    else indented

module _ (isize_max usize_max : ℕ) where
  -- `isize::try_from`
  abbrev pub isize_from : ℕ → Result (Unit {0}) ℕ
  isize_from n = if leb n isize_max then ok n else err tt

  unfoldable pub lines_added : (new_count old_count : ℕ) → Result (Unit {0}) ℤ
  lines_added new_count old_count =
      if leb old_count new_count
      then (isize_from (new_count - old_count) >>= λ n. ok (pos n))
      else (isize_from (old_count - new_count) >>= λ n. ok (neg n))

  unfoldable pub replace_prelude :
      Text → Text → Result PreludeSubstitutionOverflow MasterlistWithReplacedPrelude
  unfolding split_on_prelude indent_prelude count_lines lines_added
  replace_prelude masterlist prelude = elim (split_on_prelude masterlist) [
    | none ↦ ok (record { masterlist = masterlist; meta = none })
    | some split ↦
        let new_prelude = indent_prelude prelude in
        let last = is_empty split.after_prelude in
        let replaced =
          split.before_prelude
          ++ (b'\n' ∷ (new_prelude ++ (if last then [] else b'\n' ∷ split.after_prelude))) in
        let old_count = count_lines split.prelude - (if last then 1 else 2) in
        let start = count_lines split.before_prelude + 1 in
        let new_count = count_lines new_prelude in
        elim (lines_added new_count old_count) [
          | err e ↦ err (record {
            index = length split.before_prelude;
            line = start;
            new_prelude_count = new_count;
            old_prelude_count = old_count;
          })
          | ok added ↦ ok (record {
            masterlist = replaced;
            meta = some (record {
              start_line = start;
              end_line = start + (new_count - 1);
              lines_added_count = added;
            });
          })
        ]
  ]

  -- `usize::saturating_add`
  abbrev pub saturating_add : ℕ → ℕ → ℕ
  saturating_add a b = if leb (a + b) usize_max then a + b else usize_max

  -- The column's subtraction, of `usize`, which wraps.
  abbrev pub without_indent : ℕ → ℕ
  without_indent column = if leb 2 column then column - 2 else column + (usize_max + 1) - 2

  unfoldable pub adjust_location : Position → PreludeDiffSpan → Position × Bool
  adjust_location position span =
      if ltb span.end_line position.line
      then (
        record {
          line =
              if is_negative span.lines_added_count
              then saturating_add position.line (unsigned_abs span.lines_added_count)
              else position.line - unsigned_abs span.lines_added_count;
          column = position.column;
        },
        false,
      )
      else if leb span.start_line position.line
      then (
        record {
          line = position.line - span.start_line + 1;
          column = without_indent position.column;
        },
        true,
      )
      else (record { line = position.line; column = position.column }, false)
