-- ===== src/Metadata/Masterlist/Ends.antt =====
-- src/metadata/metadata_document.rs: the lines of a prelude, up to the first that is not in it.
use libloot.Prelude.{
  ℕ, suc, ◌≤◌, ◌<◌, ◌≡◌, refl, sym, ap, ◌∙◌, subst, ◌⊎◌, inl, inr, Bool, true, false, not, ◌||◌, [],
  ◌∷◌, ◌++◌, Option, none, some, length, ◌==◌, if◌then◌else◌, arith,
}
use libloot.Text.{Text, is_char_boundary, split_at_checked}
use libloot.Metadata.Masterlist.{is_in_prelude, find_prelude_end}
use libloot.Metadata.Masterlist.Matches.{split_at_checked-append}

-- The bytes with which the lines of a prelude begin: a space, `#` or a line's end.
abbrev pub BeginsInPrelude : ℕ → Type 0
BeginsInPrelude byte = (byte ≡ b' ') ⊎ (byte ≡ b'#') ⊎ (byte ≡ b'\n') ⊎ (byte ≡ b'\r')

-- The bytes that no character begins with.
abbrev pub IsContinuation : ℕ → Type 0
IsContinuation byte = (128 ≤ byte) × (byte < 192)

-- What follows each line break of a text is in the prelude (or is no character at all, which is
-- not in a text of UTF-8).
abbrev pub LinesAreIn : Text → Type 0
LinesAreIn s =
    (a : Text) (byte : ℕ) (b : Text)
    → s ≡ a ++ b'\n' ∷ byte ∷ b
    → BeginsInPrelude byte ⊎ IsContinuation byte

pub is_in_prelude-true : (byte : ℕ) → is_in_prelude byte ≡ true → BeginsInPrelude byte
is_in_prelude-true byte h = ground arith

pub is_in_prelude-false : (byte : ℕ) → is_in_prelude byte ≡ false → ¬ (BeginsInPrelude byte)
is_in_prelude-false byte h = ground arith

uncons : (c d : ℕ) (s t : Text) → c ∷ s ≡ d ∷ t → (c ≡ d) × (s ≡ t)
uncons c d s t h = (cc, cc)

LinesAreIn-nil : LinesAreIn []
LinesAreIn-nil [] byte b h = absurd (cc)
LinesAreIn-nil (x ∷ a) byte b h = absurd (cc)

LinesAreIn-one : (c : ℕ) → LinesAreIn (c ∷ [])
LinesAreIn-one c [] byte b h = absurd (cc)
LinesAreIn-one c (x ∷ a) byte b h = LinesAreIn-nil a byte b (uncons c x [] _ h).1

LinesAreIn-cons :
    (c : ℕ) (s : Text)
    → LinesAreIn s
    → ((d : ℕ) (t : Text) → s ≡ d ∷ t → c ≡ b'\n' → BeginsInPrelude d ⊎ IsContinuation d)
    → LinesAreIn (c ∷ s)
LinesAreIn-cons c s h k [] byte b e =
    let (here, rest) = uncons c b'\n' s (byte ∷ b) e in k byte b rest here
LinesAreIn-cons c s h k (x ∷ a) byte b e = h a byte b (uncons c x s _ e).1

split_at_checked-none :
    (first last : Text)
    → split_at_checked (length first) (first ++ last) ≡ none
    → is_char_boundary last ≡ false
split_at_checked-none [] last h = go (is_char_boundary last) h
  where
    go :
        (t : Bool)
        → ◌≡◌ {A = Option (Text × Text)} (if t then some ([], last) else none) none
        → t ≡ false
    go false h = refl
    go true h = absurd (cc)
split_at_checked-none (c ∷ first) last h =
    go (split_at_checked (length first) (first ++ last)) (split_at_checked-none first last) h
  where
    go :
        (o : Option (Text × Text))
        → (o ≡ none → is_char_boundary last ≡ false)
        → (elim o as (λ w. Option (Text × Text)) [ none ↦ none | some (x, y) ↦ some (c ∷ x, y) ])
          ≡ none
        → is_char_boundary last ≡ false
    go none rec h = rec refl
    go (some (x, y)) rec h = absurd (cc)

-- What the loop comes to behind some bytes: the prelude goes on for some lines that are in it, or to
-- the end.
abbrev pub EndsAfter : Text → Text → Option (Text × Text) → Type 0
EndsAfter before bytes none = LinesAreIn bytes
EndsAfter before bytes (some (prelude, suffix)) =
    (l : Text) × (prelude ≡ before ++ l) × (bytes ≡ l ++ suffix) × LinesAreIn l

pub append-step : (before : Text) (c : ℕ) (cs : Text) → before ++ c ∷ cs ≡ (before ++ c ∷ []) ++ cs
append-step [] c cs = refl
append-step (b ∷ before) c cs = ap (λ l. b ∷ l) (append-step before c cs)

pub length-step : (before : Text) (c : ℕ) → length (before ++ c ∷ []) ≡ suc (length before)
length-step [] c = refl
length-step (b ∷ before) c = ap suc (length-step before c)

-- A line that is passed is in the prelude.
EndsAfter-pass :
    (before : Text) (c d : ℕ) (cs : Text) (o : Option (Text × Text))
    → (c ≡ b'\n' → BeginsInPrelude d ⊎ IsContinuation d)
    → EndsAfter (before ++ c ∷ []) (d ∷ cs) o
    → EndsAfter before (c ∷ d ∷ cs) o
EndsAfter-pass before c d cs none h rec =
    LinesAreIn-cons c (d ∷ cs) rec
      (λ y t e k. subst (λ w. BeginsInPrelude w ⊎ IsContinuation w) (uncons d y cs t e).0 (h k))
EndsAfter-pass before c d cs (some (prelude, suffix)) h (l, ep, eb, rec) = (
  c ∷ l,
  ep ∙ sym (append-step before c l),
  ap (λ w. c ∷ w) eb,
  LinesAreIn-cons c l rec (λ y t e k.
      let same = uncons d y cs (t ++ suffix) (eb ∙ ap (λ w. w ++ suffix) e) in
      subst (λ w. BeginsInPrelude w ⊎ IsContinuation w) same.0 (h k)),
)

pub find_prelude_end-EndsAfter :
    (whole before bytes : Text) (i : ℕ)
    → whole ≡ before ++ bytes
    → length before ≡ i
    → EndsAfter before bytes (find_prelude_end whole i bytes)
unfolding find_prelude_end
find_prelude_end-EndsAfter whole before [] i e count = LinesAreIn-nil
find_prelude_end-EndsAfter whole before (c ∷ []) i e count = LinesAreIn-one c
find_prelude_end-EndsAfter whole before (c ∷ d ∷ cs) i e count =
    go (c == b'\n') refl (is_in_prelude d) refl (split_at_checked (suc i) whole) refl
      (find_prelude_end whole (suc i) (d ∷ cs))
      (find_prelude_end-EndsAfter whole (before ++ c ∷ []) (d ∷ cs) (suc i) step
        (length-step before c ∙ ap suc count))
  where
    step : whole ≡ (before ++ c ∷ []) ++ d ∷ cs
    step = e ∙ append-step before c (d ∷ cs)

    at_place :
        (o : Option (Text × Text))
        → split_at_checked (suc i) whole ≡ o
        → split_at_checked (length (before ++ c ∷ [])) ((before ++ c ∷ []) ++ d ∷ cs) ≡ o
    at_place o eo =
        subst (λ w. split_at_checked (length (before ++ c ∷ [])) w ≡ o) step
          (ap (λ n. split_at_checked n whole) (length-step before c ∙ ap suc count) ∙ eo)

    go :
        (t : Bool)
        → (c == b'\n') ≡ t
        → (u : Bool) → is_in_prelude d ≡ u
        → (o : Option (Text × Text)) → split_at_checked (suc i) whole ≡ o
        → (later : Option (Text × Text)) → EndsAfter (before ++ c ∷ []) (d ∷ cs) later
        → EndsAfter before (c ∷ d ∷ cs) (
            if not t || u
            then later
            else elim o as (λ x. Option (Text × Text)) [ some pair ↦ some pair | none ↦ later ])
    go false et u eu o eo later rec =
        EndsAfter-pass before c d cs later (λ k. absurd (ground arith)) rec
    go true et true eu o eo later rec =
        EndsAfter-pass before c d cs later (λ k. inl (is_in_prelude-true d eu)) rec
    go true et false eu none eo later rec =
        let inside : is_char_boundary (d ∷ cs) ≡ false =
          split_at_checked-none (before ++ c ∷ []) (d ∷ cs) (at_place none eo) in
        EndsAfter-pass before c d cs later (λ k. inr (ground arith)) rec
    go true et false eu (some (a, b)) eo later rec =
        let (ea, eb) =
          split_at_checked-append (before ++ c ∷ []) (d ∷ cs) a b (at_place (some (a, b)) eo) in
        (c ∷ [], ea, ap (λ w. c ∷ w) (sym eb), LinesAreIn-one c)
