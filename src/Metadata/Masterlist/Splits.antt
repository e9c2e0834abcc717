-- ===== src/Metadata/Masterlist/Splits.antt =====
-- src/metadata/metadata_document.rs: the three parts of a masterlist with a prelude.
use libloot.Prelude.{
  ℕ, suc, ◌+◌, ◌≡◌, refl, sym, ap, ◌∙◌, subst, ◌⊎◌, inl, inr, Bool, true, false, not, ◌||◌, [], ◌∷◌,
  ◌++◌, Option, none, some, some_inj, length, length-append, ◌==◌, if◌then◌else◌, arith,
}
use mathlib.Core.List.{append_assoc, append-nil}
use libloot.Text.{Text, strip_prefix, find_text, split_at_checked}
use libloot.Metadata.Masterlist.{
  SplitMasterlist, prelude_on_first_line, prelude_on_new_line, split_on_prelude_start,
  is_in_prelude, find_prelude_end, split_on_prelude,
}
use libloot.Metadata.Masterlist.Ends.{
  append-step, length-step, BeginsInPrelude, LinesAreIn, EndsAfter, is_in_prelude-false,
  find_prelude_end-EndsAfter,
}
use libloot.Metadata.Masterlist.Matches.{
  MatchAt, strip_prefix-append, find_text-MatchAt, split_at_checked-append,
}

-- The text is empty or ends with a line break.
abbrev pub EndsLine : Text → Type 0
EndsLine s = (s ≡ []) ⊎ ((line : Text) × (s ≡ line ++ b'\n' ∷ []))

-- The parts make up the masterlist, the first ends with the key, which begins a line, the lines of
-- the second are in the prelude, and the third is empty or begins with a line that is not.
pub record IsSplit (masterlist : Text) (split : SplitMasterlist) : Type 0 where
  pub joined : masterlist ≡ split.before_prelude ++ (split.prelude ++ split.after_prelude)
  pub key : (lead : Text) × (split.before_prelude ≡ lead ++ prelude_on_first_line) × EndsLine lead
  pub end :
      (split.after_prelude ≡ [])
      ⊎ ((line : Text) × (byte : ℕ) × (rest : Text) × (split.prelude ≡ line ++ b'\n' ∷ [])
          × (split.after_prelude ≡ byte ∷ rest)
          × ¬ (BeginsInPrelude byte))
  pub lines_in : LinesAreIn split.prelude

-- A place in the remainder where the prelude may end.
abbrev IsEnd : Text → Text → Text → Type 0
IsEnd remainder a b =
    (remainder ≡ a ++ b)
    × (line : Text) × (byte : ℕ) × (rest : Text) × (a ≡ line ++ b'\n' ∷ [])
    × (b ≡ byte ∷ rest)
    × (is_in_prelude byte ≡ false)

find_prelude_end-IsEnd :
    (whole before bytes : Text) (i : ℕ) (a b : Text)
    → whole ≡ before ++ bytes
    → length before ≡ i
    → find_prelude_end whole i bytes ≡ some (a, b)
    → IsEnd whole a b
unfolding find_prelude_end
find_prelude_end-IsEnd whole before [] i a b e count h = absurd (cc)
find_prelude_end-IsEnd whole before (c ∷ []) i a b e count h = absurd (cc)
find_prelude_end-IsEnd whole before (c ∷ d ∷ cs) i a b e count h =
    go (c == b'\n') refl (is_in_prelude d) refl (split_at_checked (suc i) whole) refl
      (find_prelude_end whole (suc i) (d ∷ cs))
      (find_prelude_end-IsEnd whole (before ++ c ∷ []) (d ∷ cs) (suc i) a b step
        (length-step before c ∙ ap suc count))
      h
  where
    step : whole ≡ (before ++ c ∷ []) ++ d ∷ cs
    step = e ∙ append-step before c (d ∷ cs)

    go :
        (t : Bool)
        → (c == b'\n') ≡ t
        → (u : Bool) → is_in_prelude d ≡ u
        → (o : Option (Text × Text)) → split_at_checked (suc i) whole ≡ o
        → (later : Option (Text × Text)) → (later ≡ some (a, b) → IsEnd whole a b)
        → (if not t || u
            then later
            else elim o as (λ x. Option (Text × Text)) [ some pair ↦ some pair | none ↦ later ])
          ≡ some (a, b)
        → IsEnd whole a b
    go false et u eu o eo later rec h = rec h
    go true et true eu o eo later rec h = rec h
    go true et false eu none eo later rec h = rec h
    go true et false eu (some pair) eo later rec h =
        let (ea, eb) = split_at_checked-append (before ++ c ∷ []) (d ∷ cs) a b (
          subst (λ w. split_at_checked (length (before ++ c ∷ [])) w ≡ some (a, b)) step
            (ap (λ n. split_at_checked n whole) (length-step before c ∙ ap suc count) ∙ eo ∙ h)) in
        let newline : c ≡ b'\n' = ground arith in
        (rw (ea, eb) step, before, d, cs, ea ∙ ap (λ w. before ++ w ∷ []) newline, eb, eu)

split_on_prelude_start-IsKey :
    (masterlist prefix remainder : Text)
    → split_on_prelude_start masterlist ≡ some (prefix, remainder)
    → (masterlist ≡ prefix ++ remainder)
      × (lead : Text) × (prefix ≡ lead ++ prelude_on_first_line)
      × EndsLine lead
unfolding split_on_prelude_start
split_on_prelude_start-IsKey masterlist prefix remainder h =
    go (strip_prefix prelude_on_first_line masterlist) refl
      (find_text prelude_on_new_line masterlist) refl h
  where
    first :
        (x : Text)
        → masterlist ≡ prelude_on_first_line ++ x
        → ◌≡◌ {A = Text × Text} (prelude_on_first_line, x) (prefix, remainder)
        → (masterlist ≡ prefix ++ remainder)
          × (lead : Text) × (prefix ≡ lead ++ prelude_on_first_line)
          × EndsLine lead
    first x e same =
        let ep = ap (λ (w : Text × Text). w.0) same in
        let er = ap (λ (w : Text × Text). w.1) same in
        (
          subst (λ w. masterlist ≡ w ++ remainder) ep
              (subst (λ w. masterlist ≡ prelude_on_first_line ++ w) er e),
          [],
          sym ep,
          inl refl,
        )

    later :
        (i : ℕ)
        → MatchAt prelude_on_new_line masterlist i
        → split_at_checked (i + length prelude_on_new_line) masterlist ≡ some (prefix, remainder)
        → (masterlist ≡ prefix ++ remainder)
          × (lead : Text) × (prefix ≡ lead ++ prelude_on_first_line)
          × EndsLine lead
    later i (lead, rest, e, count) split =
        let key = lead ++ prelude_on_new_line in
        let whole : masterlist ≡ key ++ rest =
          e ∙ sym (append_assoc lead prelude_on_new_line rest) in
        let size : length key ≡ i + length prelude_on_new_line =
          omega (arith, count, length-append lead prelude_on_new_line) in
        let (ep, er) = split_at_checked-append key rest prefix remainder (
          subst (λ w. split_at_checked (length key) w ≡ some (prefix, remainder)) whole
            (ap (λ n. split_at_checked n masterlist) size ∙ split)) in
        (
          rw (ep, er) whole,
          lead ++ b'\n' ∷ [],
          ep ∙ append-step lead b'\n' prelude_on_first_line,
          inr (lead, refl),
        )

    go :
        (o : Option Text)
        → strip_prefix prelude_on_first_line masterlist ≡ o
        → (f : Option ℕ) → find_text prelude_on_new_line masterlist ≡ f
        → (elim o as (λ x. Option (Text × Text)) [
          | some x ↦ some (prelude_on_first_line, x)
          | none ↦ elim f as (λ x. Option (Text × Text)) [
            | none ↦ none
            | some i ↦ split_at_checked (i + length prelude_on_new_line) masterlist
          ]
        ])
          ≡ some (prefix, remainder)
        → (masterlist ≡ prefix ++ remainder)
          × (lead : Text) × (prefix ≡ lead ++ prelude_on_first_line)
          × EndsLine lead
    go (some x) eo f ef h =
        first x (strip_prefix-append prelude_on_first_line masterlist x eo)
          (some_inj (prelude_on_first_line, x) (prefix, remainder) h)
    go none eo none ef h = absurd (cc)
    go none eo (some i) ef h = later i (find_text-MatchAt prelude_on_new_line masterlist i ef) h

-- If a masterlist is split on its prelude, the parts joined are the masterlist; the first part ends
-- with the key `prelude:`, which begins a line; and the last part is empty, or the prelude ends with
-- a line break and the last part begins with a byte other than a space, `#` or a line's end, which
-- is the first place where a line does so: each line break inside the prelude is followed by one of
-- those bytes, or by a byte that no character of a text begins with.
pub split_on_prelude-IsSplit :
    (masterlist : Text) (split : SplitMasterlist)
    → split_on_prelude masterlist ≡ some split
    → IsSplit masterlist split
unfolding split_on_prelude
split_on_prelude-IsSplit masterlist split h =
    start (split_on_prelude_start masterlist) (split_on_prelude_start-IsKey masterlist) h
  where
    end :
        (prefix remainder : Text)
        → (masterlist ≡ prefix ++ remainder)
          × (lead : Text) × (prefix ≡ lead ++ prelude_on_first_line)
          × EndsLine lead
        → (o : Option (Text × Text)) → ((a b : Text) → o ≡ some (a, b) → IsEnd remainder a b)
        → EndsAfter [] remainder o
        → (elim o as (λ x. Option SplitMasterlist) [
          | some (a, b) ↦ some (record { before_prelude = prefix; prelude = a; after_prelude = b })
          | none ↦
              some (record { before_prelude = prefix; prelude = remainder; after_prelude = [] })
        ])
          ≡ some split
        → IsSplit masterlist split
    end prefix remainder k (some (a, b)) rec (l, ep, eb, ls) h =
        let (joined, line, byte, rest, ea, after, other) = rec a b refl in
        subst (IsSplit masterlist) (some_inj _ split h) (record {
          joined = k.0 ∙ ap (λ w. prefix ++ w) joined;
          key = (k.1, k.2, k.3);
          end = inr (line, byte, rest, ea, after, is_in_prelude-false byte other);
          lines_in = subst LinesAreIn (sym ep) ls;
        })
    end prefix remainder k none rec ls h = subst (IsSplit masterlist) (some_inj _ split h) (record {
      joined = k.0 ∙ ap (λ w. prefix ++ w) (sym (append-nil remainder));
      key = (k.1, k.2, k.3);
      end = inl refl;
      lines_in = ls;
    })

    start :
        (o : Option (Text × Text))
        → ((x y : Text)
            → o ≡ some (x, y)
            → (masterlist ≡ x ++ y)
              × (lead : Text) × (x ≡ lead ++ prelude_on_first_line)
              × EndsLine lead)
        → (elim o as (λ x. Option SplitMasterlist) [
          | none ↦ none
          | some (prefix, remainder) ↦
              elim (find_prelude_end remainder 0 remainder) as (λ x. Option SplitMasterlist) [
                | some (a, b) ↦
                    some (record { before_prelude = prefix; prelude = a; after_prelude = b })
                | none ↦
                    some
                      (record { before_prelude = prefix; prelude = remainder; after_prelude = [] })
              ]
        ])
          ≡ some split
        → IsSplit masterlist split
    start none rec h = absurd (cc)
    start (some (prefix, remainder)) rec h =
        end prefix remainder (rec prefix remainder refl) (find_prelude_end remainder 0 remainder)
          (λ a b e. find_prelude_end-IsEnd remainder [] remainder 0 a b refl refl e)
          (find_prelude_end-EndsAfter remainder [] remainder 0 refl refl) h
