-- ===== src/Metadata/PluginName/Groups.antt =====
-- src/metadata/plugin_metadata.rs: `replace_capturing_groups`, as one scan of the text.
use libloot.Prelude.{
  ℕ, ◌≡◌, refl, sym, ap, ◌∙◌, subst, inl, inr, Bool, true, false, not, ◌&&◌, ◌||◌, List, [], ◌∷◌,
  ◌++◌, any, Bool-cases, ◌==◌, if◌then◌else◌, arith,
}
use mathlib.Core.List.{append_assoc, append-nil}
use libloot.Text.{Text, eq_text, is_empty, starts_with, ends_with}
use libloot.Metadata.PluginName.{split_inclusive, non_capturing, replace_capturing_groups}

-- From left to right, with the two bytes before: each `(` before a byte other than `?` gets `?:`
-- behind it, unless just one backslash stands before it.
abbrev pub groups_from : ℕ → ℕ → Text → Text
groups_from q p [] = []
groups_from q p (c ∷ []) = c ∷ []
groups_from q p (c ∷ d ∷ s) =
    let rest = groups_from p c (d ∷ s) in
    if (c == b'(') && (not (d == b'?') && (not (p == b'\\') || q == b'\\'))
    then c ∷ b'?' ∷ b':' ∷ rest
    else c ∷ rest

eq_text-concat :
    (w u : Text) (b c : ℕ) → eq_text (w ++ b ∷ []) (u ++ c ∷ []) ≡ (eq_text w u && b == c)
eq_text-concat [] [] b c = go (b == c)
  where
    go : (t : Bool) → (t && true) ≡ t
    go true = refl
    go false = refl
eq_text-concat [] (y ∷ []) b c = go (b == y)
  where
    go : (t : Bool) → (t && false) ≡ false
    go true = refl
    go false = refl
eq_text-concat [] (y ∷ z ∷ u) b c = go (b == y)
  where
    go : (t : Bool) → (t && false) ≡ false
    go true = refl
    go false = refl
eq_text-concat (x ∷ []) [] b c = go (x == c)
  where
    go : (t : Bool) → (t && false) ≡ false
    go true = refl
    go false = refl
eq_text-concat (x ∷ z ∷ w) [] b c = go (x == c)
  where
    go : (t : Bool) → (t && false) ≡ false
    go true = refl
    go false = refl
eq_text-concat (x ∷ w) (y ∷ u) b c = go (x == y) (eq_text-concat w u b c)
  where
    go :
        (t : Bool)
        → eq_text (w ++ b ∷ []) (u ++ c ∷ []) ≡ (eq_text w u && b == c)
        → (t && eq_text (w ++ b ∷ []) (u ++ c ∷ [])) ≡ ((t && eq_text w u) && b == c)
    go true h = h
    go false h = refl

ends_with-concat :
    (w u : Text) (b c : ℕ) → ends_with (w ++ b ∷ []) (u ++ c ∷ []) ≡ (b == c && ends_with w u)
ends_with-concat w [] b c =
    ap (λ t. if t then true else is_empty (w ++ b ∷ [])) (eq_text-concat w [] b c) ∙ go w (b == c)
  where
    go :
        (w : Text) (t : Bool)
        → (if eq_text w [] && t then true else is_empty (w ++ b ∷ [])) ≡ (t && is_empty w)
    go [] true = refl
    go [] false = refl
    go (x ∷ w) true = refl
    go (x ∷ w) false = refl
ends_with-concat w (y ∷ u) b c =
    ap (λ t. if t then true else ends_with (w ++ b ∷ []) (u ++ c ∷ []))
      (eq_text-concat w (y ∷ u) b c)
    ∙ go (eq_text w (y ∷ u)) (b == c) (ends_with-concat w u b c)
  where
    go :
        (e t : Bool)
        → ends_with (w ++ b ∷ []) (u ++ c ∷ []) ≡ (t && ends_with w u)
        → (if e && t then true else ends_with (w ++ b ∷ []) (u ++ c ∷ []))
          ≡ (t && (if e then true else ends_with w u))
    go true true h = refl
    go true false h = h
    go false true h = h
    go false false h = h

-- The text has no `(`.
abbrev HasNoOpening : Text → Type 0
HasNoOpening u = any (λ b. b == b'(') u ≡ false

no_opening-cons : (b : ℕ) (u : Text) → HasNoOpening (b ∷ u) → ((b == b'(') ≡ false) × HasNoOpening u
no_opening-cons b u h = go (b == b'(') h
  where
    go :
        (t : Bool)
        → (if t then true else any (λ b. b == b'(') u) ≡ false
        → (t ≡ false) × HasNoOpening u
    go true h = absurd (cc)
    go false h = (refl, h)

no_opening-concat :
    (u : Text) (c : ℕ) → HasNoOpening u → (c == b'(') ≡ false → HasNoOpening (u ++ c ∷ [])
no_opening-concat [] c h e = rw e refl
no_opening-concat (b ∷ u) c h e =
    let (k, rest) = no_opening-cons b u h in rw k (no_opening-concat u c rest e)

split-at_opening :
    (u s : Text)
    → HasNoOpening u
    → split_inclusive b'(' (u ++ b'(' ∷ s) ≡ (u ++ b'(' ∷ []) ∷ split_inclusive b'(' s
split-at_opening [] s h = refl
split-at_opening (b ∷ u) s h =
    let (k, rest) = no_opening-cons b u h in rw (k, split-at_opening u s rest) refl

split-no_opening :
    (b : ℕ) (u : Text) → HasNoOpening (b ∷ u) → split_inclusive b'(' (b ∷ u) ≡ (b ∷ u) ∷ []
split-no_opening b [] h = rw (no_opening-cons b [] h).0 refl
split-no_opening b (c ∷ u) h =
    let (k, rest) = no_opening-cons b (c ∷ u) h in rw (k, split-no_opening c u rest) refl

non_capturing-no_opening : (u : Text) → HasNoOpening u → non_capturing (split_inclusive b'(' u) ≡ u
unfolding non_capturing
non_capturing-no_opening [] h = refl
non_capturing-no_opening (b ∷ u) h = rw (split-no_opening b u h) refl

split-first :
    (d : ℕ) (s : Text)
    → (first : Text) × (parts : List Text) × (split_inclusive b'(' (d ∷ s) ≡ (d ∷ first) ∷ parts)
split-first d s = go (d == b'(') (split_inclusive b'(' s)
  where
    go :
        (t : Bool) (rest : List Text)
        → (first : Text) × (parts : List Text) × ((if t
              then (d ∷ []) ∷ rest
              else elim rest as (λ x. List Text) [
                | [] ↦ (d ∷ []) ∷ []
                | part ∷ parts ↦ (d ∷ part) ∷ parts
              ])
            ≡ (d ∷ first) ∷ parts)
    go true rest = ([], rest, refl)
    go false [] = ([], [], refl)
    go false (part ∷ parts) = (part, parts, refl)

-- The last two bytes of a part, as far as backslashes go.
record AreLast (u : Text) (q p : ℕ) : Type 0 where
  one : ends_with (b'\\' ∷ []) u ≡ p == b'\\'
  two : ends_with (b'\\' ∷ b'\\' ∷ []) u ≡ (p == b'\\' && q == b'\\')

==_comm : (b c : ℕ) → (b == c) ≡ (c == b)
==_comm b c = ground arith

AreLast-concat : (u : Text) (q p c : ℕ) → AreLast u q p → AreLast (u ++ c ∷ []) p c
AreLast-concat u q p c h = record {
  one =
      ends_with-concat [] u b'\\' c
      ∙ ap (λ t. t && ends_with [] u) (==_comm b'\\' c)
      ∙ and-true (c == b'\\') (ends_with [] u) (ends_with_nil u);
  two =
      ends_with-concat (b'\\' ∷ []) u b'\\' c
      ∙ ap (λ t. t && ends_with (b'\\' ∷ []) u) (==_comm b'\\' c)
      ∙ ap (λ t. c == b'\\' && t) h.one;
}
  where
    and-true : (t e : Bool) → e ≡ true → (t && e) ≡ t
    and-true true e h = h
    and-true false e h = refl

    ends_with_nil : (s : Text) → ends_with [] s ≡ true
    ends_with_nil [] = refl
    ends_with_nil (c ∷ s) = ends_with_nil s

-- The code's test on the part before and the part after.
is_capturing :
    (u : Text) (q p d : ℕ) (first : Text)
    → AreLast u q p
    → (not (starts_with (b'?' ∷ []) (d ∷ first))
        && (not (ends_with (b'\\' ∷ b'(' ∷ []) (u ++ b'(' ∷ []))
            || ends_with (b'\\' ∷ b'\\' ∷ b'(' ∷ []) (u ++ b'(' ∷ [])))
      ≡ (not (d == b'?') && (not (p == b'\\') || q == b'\\'))
is_capturing u q p d first h =
    let one = ends_with-concat (b'\\' ∷ []) u b'(' b'(' ∙ h.one in
    let two = ends_with-concat (b'\\' ∷ b'\\' ∷ []) u b'(' b'(' ∙ h.two in
    rw (one, two) (go (b'?' == d) (d == b'?') (p == b'\\') (q == b'\\') (==_comm b'?' d))
  where
    go :
        (t t' x y : Bool)
        → t ≡ t'
        → (not (t && true) && (not x || (x && y))) ≡ (not t' && (not x || y))
    go true t' x y e = rw⁻¹ e refl
    go false t' true y e = rw⁻¹ e refl
    go false t' false y e = rw⁻¹ e refl

non_capturing-at_opening :
    (u : Text) (q p d : ℕ) (s : Text)
    → HasNoOpening u
    → AreLast u q p
    → non_capturing (split_inclusive b'(' (d ∷ s)) ≡ groups_from p b'(' (d ∷ s)
    → non_capturing (split_inclusive b'(' (u ++ b'(' ∷ d ∷ s)) ≡ u ++ groups_from q p (b'(' ∷ d ∷ s)
unfolding non_capturing
non_capturing-at_opening u q p d s free last rec =
    let (first, parts, e) = split-first d s in
    ap non_capturing (split-at_opening u (d ∷ s) free ∙ ap (λ l. (u ++ b'(' ∷ []) ∷ l) e)
    ∙ ap
        (λ t.
          if t
          then (u ++ b'(' ∷ []) ++ (b'?' ∷ b':' ∷ non_capturing ((d ∷ first) ∷ parts))
          else (u ++ b'(' ∷ []) ++ non_capturing ((d ∷ first) ∷ parts))
        (is_capturing u q p d first last)
    ∙ go (not (d == b'?') && (not (p == b'\\') || q == b'\\')) (ap non_capturing (sym e) ∙ rec)
  where
    go :
        {rest scanned : Text} (t : Bool)
        → rest ≡ scanned
        → (if t then (u ++ b'(' ∷ []) ++ (b'?' ∷ b':' ∷ rest) else (u ++ b'(' ∷ []) ++ rest)
          ≡ u ++ (if t then b'(' ∷ b'?' ∷ b':' ∷ scanned else b'(' ∷ scanned)
    go true h = append_assoc u (b'(' ∷ []) _ ∙ ap (λ r. u ++ b'(' ∷ b'?' ∷ b':' ∷ r) h
    go false h = append_assoc u (b'(' ∷ []) _ ∙ ap (λ r. u ++ b'(' ∷ r) h

non_capturing-groups_from :
    (s u : Text) (q p : ℕ)
    → HasNoOpening u
    → AreLast u q p
    → non_capturing (split_inclusive b'(' (u ++ s)) ≡ u ++ groups_from q p s
unfolding non_capturing
non_capturing-groups_from [] u q p free last =
    ap (λ w. non_capturing (split_inclusive b'(' w)) (append-nil u)
    ∙ non_capturing-no_opening u free
    ∙ sym (append-nil u)
non_capturing-groups_from (c ∷ []) u q p free last = elim (Bool-cases (c == b'(')) [
  | inl k ↦
      let same : c ≡ b'(' = ground arith in rw same (ap non_capturing (split-at_opening u [] free))
  | inr k ↦ non_capturing-no_opening (u ++ c ∷ []) (no_opening-concat u c free k)
]
non_capturing-groups_from (c ∷ d ∷ s) u q p free last = elim (Bool-cases (c == b'(')) [
  | inl k ↦
      let same : c ≡ b'(' = ground arith in
      subst
        (λ w.
          non_capturing (split_inclusive b'(' (u ++ w ∷ d ∷ s)) ≡ u ++ groups_from q p (w ∷ d ∷ s))
        (sym same)
        (non_capturing-at_opening u q p d s free last
          (non_capturing-groups_from (d ∷ s) [] p b'(' refl (record { one = refl; two = refl })))
  | inr k ↦
      ap (λ w. non_capturing (split_inclusive b'(' w)) (sym (append_assoc u (c ∷ []) (d ∷ s)))
      ∙ non_capturing-groups_from (d ∷ s) (u ++ c ∷ []) p c (no_opening-concat u c free k)
          (AreLast-concat u q p c last)
      ∙ append_assoc u (c ∷ []) (groups_from p c (d ∷ s))
      ∙ passed k
]
  where
    passed :
        (c == b'(') ≡ false → u ++ c ∷ groups_from p c (d ∷ s) ≡ u ++ groups_from q p (c ∷ d ∷ s)
    passed k = rw k refl

pub replace_capturing_groups-groups_from :
    (s : Text) → replace_capturing_groups s ≡ groups_from 0 0 s
unfolding replace_capturing_groups
replace_capturing_groups-groups_from s =
    non_capturing-groups_from s [] 0 0 refl (record { one = refl; two = refl })
