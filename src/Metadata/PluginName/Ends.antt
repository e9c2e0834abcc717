-- ===== src/Metadata/PluginName/Ends.antt =====
-- src/metadata/plugin_metadata.rs: the ends of names.
use libloot.Prelude.{
  ◌<◌, ◌≡◌, refl, sym, ap, ◌∙◌, Bool, true, false, ◌&&◌, [], ◌∷◌, ◌++◌, length, length-append, leb,
  arith,
}
use mathlib.Core.List.{append_assoc, append-nil}
use libloot.Text.{Text}
use libloot.Metadata.PluginName.{
  eq_byte_ignore_case, eq_ignore_ascii_case, zip_all, rev, iends_with_ascii,
}

and_comm : (a b : Bool) → (a && b) ≡ (b && a)
and_comm true true = refl
and_comm true false = refl
and_comm false true = refl
and_comm false false = refl

and_assoc : (a b c : Bool) → (a && (b && c)) ≡ ((a && b) && c)
and_assoc true b c = refl
and_assoc false b c = refl

and_true : (a : Bool) → (a && true) ≡ a
and_true true = refl
and_true false = refl

length-rev : (s : Text) → length (rev s) ≡ length s
length-rev [] = refl
length-rev (c ∷ s) = omega (arith, length-rev s, length-append (rev s) (c ∷ []))

rev-append : (s t : Text) → rev (s ++ t) ≡ rev t ++ rev s
rev-append [] t = sym (append-nil (rev t))
rev-append (c ∷ s) t =
    ap (λ l. l ++ c ∷ []) (rev-append s t) ∙ append_assoc (rev t) (rev s) (c ∷ [])

zip_all-append :
    (a b x y : Text)
    → length a ≡ length b
    → zip_all (a ++ x) (b ++ y) ≡ (zip_all a b && zip_all x y)
zip_all-append [] [] x y h = refl
zip_all-append [] (d ∷ b) x y h = absurd (omega arith)
zip_all-append (c ∷ a) [] x y h = absurd (omega arith)
zip_all-append (c ∷ a) (d ∷ b) x y h =
    ap (λ r. eq_byte_ignore_case c d && r) (zip_all-append a b x y (omega arith))
    ∙ and_assoc (eq_byte_ignore_case c d) (zip_all a b) (zip_all x y)

zip_all-rev :
    (a b : Text) → length a ≡ length b → zip_all (rev a) (rev b) ≡ eq_ignore_ascii_case a b
zip_all-rev [] [] h = refl
zip_all-rev [] (d ∷ b) h = absurd (omega arith)
zip_all-rev (c ∷ a) [] h = absurd (omega arith)
zip_all-rev (c ∷ a) (d ∷ b) h =
    zip_all-append (rev a) (rev b) (c ∷ []) (d ∷ []) (omega (arith, length-rev a, length-rev b))
    ∙ ap (λ r. r && (eq_byte_ignore_case c d && true)) (zip_all-rev a b (omega arith))
    ∙ ap (λ r. eq_ignore_ascii_case a b && r) (and_true (eq_byte_ignore_case c d))
    ∙ and_comm (eq_ignore_ascii_case a b) (eq_byte_ignore_case c d)

zip_all-nil : (s : Text) → zip_all s [] ≡ true
zip_all-nil [] = refl
zip_all-nil (c ∷ s) = refl

-- A name that is shorter than a suffix does not end with it, and any other one does exactly if its
-- last bytes, as many as the suffix has, are the suffix without regard to the case of ASCII letters.
pub iends_with_ascii_lem :
    (string suffix : Text)
    → (length string < length suffix → iends_with_ascii string suffix ≡ false)
      × ((stem ext : Text)
          → string ≡ stem ++ ext
          → length ext ≡ length suffix
          → iends_with_ascii string suffix ≡ eq_ignore_ascii_case ext suffix)
unfolding iends_with_ascii
iends_with_ascii_lem string suffix = (
  λ short. let first : leb (length suffix) (length string) ≡ false = ground arith in rw first refl,
  λ stem ext e size.
      let first : leb (length suffix) (length string) ≡ true =
        ground (arith, ap length e, length-append stem ext, size) in
      ap (λ b. b && zip_all (rev string) (rev suffix)) first
      ∙ ap (λ s. zip_all (rev s) (rev suffix)) e
      ∙ ap (λ s. zip_all s (rev suffix)) (rev-append stem ext)
      ∙ ap (zip_all (rev ext ++ rev stem)) (sym (append-nil (rev suffix)))
      ∙ zip_all-append (rev ext) (rev suffix) (rev stem) []
          (omega (arith, length-rev ext, length-rev suffix, size))
      ∙ ap (λ r. zip_all (rev ext) (rev suffix) && r) (zip_all-nil (rev stem))
      ∙ and_true (zip_all (rev ext) (rev suffix))
      ∙ zip_all-rev ext suffix size,
)
