-- ===== src/Text.antt =====
-- The texts of the metadata as their UTF-8 bytes, and what the code uses of Rust's `str`.
use libloot.Prelude.{
  ℕ, zero, suc, ◌-◌, Bool, true, false, not, ◌&&◌, List, [], ◌∷◌, ◌++◌, Option, none, some, length,
  leb, ltb, ◌==◌, if◌then◌else◌,
}

abbrev pub Text : Type 0
Text = List ℕ

abbrev pub eq_text : Text → Text → Bool
eq_text [] [] = true
eq_text [] (d ∷ ds) = false
eq_text (c ∷ cs) [] = false
eq_text (c ∷ cs) (d ∷ ds) = (c == d) && eq_text cs ds

abbrev pub is_empty : {A : Type 0} → List A → Bool
is_empty [] = true
is_empty (x ∷ xs) = false

-- `str::strip_prefix`
abbrev pub strip_prefix : Text → Text → Option Text
strip_prefix [] s = some s
strip_prefix (p ∷ ps) [] = none
strip_prefix (p ∷ ps) (c ∷ cs) = let rest = strip_prefix ps cs in if p == c then rest else none

-- `str::starts_with`
abbrev pub starts_with : Text → Text → Bool
starts_with [] s = true
starts_with (p ∷ ps) [] = false
starts_with (p ∷ ps) (c ∷ cs) = (p == c) && starts_with ps cs

-- `str::ends_with`
abbrev pub ends_with : Text → Text → Bool
ends_with p [] = is_empty p
ends_with p (c ∷ cs) = let later = ends_with p cs in if eq_text p (c ∷ cs) then true else later

-- `str::find`: the index of the first match.
abbrev pub find_text : Text → Text → Option ℕ
find_text p [] = if is_empty p then some 0 else none
find_text p (c ∷ cs) =
    let later = find_text p cs in
    if starts_with p (c ∷ cs) then some 0 else elim later [ none ↦ none | some i ↦ some (suc i) ]

-- Whether a character begins here or the text ends.
abbrev pub is_char_boundary : Text → Bool
is_char_boundary [] = true
is_char_boundary (c ∷ cs) = not (leb 128 c && ltb c 192)

-- `str::split_at_checked`, behind the start of the text.
abbrev pub split_at_checked : ℕ → Text → Option (Text × Text)
split_at_checked zero s = if is_char_boundary s then some ([], s) else none
split_at_checked (suc n) [] = none
split_at_checked (suc n) (c ∷ cs) = elim (split_at_checked n cs) [
  | none ↦ none
  | some (first, last) ↦ some (c ∷ first, last)
]

-- `str::lines`; a carriage return at a line's end is left in it.
abbrev pub lines : Text → List Text
lines [] = []
lines (c ∷ cs) =
    let rest = lines cs in
    if c == b'\n'
    then [] ∷ rest
    else elim rest [ [] ↦ (c ∷ []) ∷ [] | line ∷ others ↦ (c ∷ line) ∷ others ]

-- The rest of `str::replace`, behind the bytes of a match that are still to skip.
abbrev pub replace_from : ℕ → Text → Text → Text → Text
replace_from skip p w [] = []
replace_from (suc skip) p w (c ∷ cs) = replace_from skip p w cs
replace_from zero p w (c ∷ cs) =
    let matches = starts_with p (c ∷ cs) in
    (if matches then w else c ∷ []) ++ replace_from (if matches then length p - 1 else 0) p w cs

-- `str::replace`, for a pattern that is not empty.
abbrev pub replace : Text → Text → Text → Text
replace p w s = replace_from 0 p w s

-- `str::trim_end_matches`, for one byte.
abbrev pub trim_end_matches : ℕ → Text → Text
trim_end_matches b [] = []
trim_end_matches b (c ∷ cs) =
    let rest = trim_end_matches b cs in if is_empty rest && c == b then [] else c ∷ rest

-- The equality of slices and of optional values.
abbrev pub eq_list : {A : Type 0} → (A → A → Bool) → List A → List A → Bool
eq_list eq [] [] = true
eq_list eq [] (y ∷ ys) = false
eq_list eq (x ∷ xs) [] = false
eq_list eq (x ∷ xs) (y ∷ ys) = eq x y && eq_list eq xs ys

abbrev pub eq_option : {A : Type 0} → (A → A → Bool) → Option A → Option A → Bool
eq_option eq none none = true
eq_option eq none (some b) = false
eq_option eq (some a) none = false
eq_option eq (some a) (some b) = eq a b

abbrev pub is_none : {A : Type 0} → Option A → Bool
is_none none = true
is_none (some a) = false
