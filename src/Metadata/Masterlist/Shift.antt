-- ===== src/Metadata/Masterlist/Shift.antt =====
-- src/metadata/error.rs: moving a place by the number of lines that were added.
use libloot.Prelude.{
  ℕ, zero, suc, ◌+◌, ◌-◌, ◌≤◌, ◌<◌, ◌≡◌, refl, subst, ◌⊎◌, inl, inr, Bool, true, false, leb, ltb,
  if◌then◌else◌, arith,
}
use libloot.Prelude.Result.{Result, ok, err, ◌>>=◌}
use libloot.Metadata.Masterlist.{
  ℤ, pos, is_negative, unsigned_abs, neg, PreludeDiffSpan, lines_added, saturating_add,
  adjust_location,
}

module _ (isize_max usize_max : ℕ) where
  pub adjusted_line :
      (new_count old_count line old_line : ℕ) (added : ℤ)
      → lines_added isize_max usize_max new_count old_count ≡ ok added
      → line + old_count ≡ old_line + new_count
      → old_line ≤ usize_max
      → (if is_negative added
          then saturating_add isize_max usize_max line (unsigned_abs added)
          else line - unsigned_abs added)
        ≡ old_line
  unfolding lines_added
  adjusted_line new_count old_count line old_line added h e fits =
      go (leb old_count new_count) refl (leb (new_count - old_count) isize_max)
        (leb (old_count - new_count) isize_max) h
    where
      Adjusts : ℤ → Type 0
      Adjusts z =
          (if is_negative z
            then saturating_add isize_max usize_max line (unsigned_abs z)
            else line - unsigned_abs z)
          ≡ old_line

      ok_inj : (a b : ℤ) → ◌≡◌ {A = Result (Unit {0}) ℤ} (ok a) (ok b) → a ≡ b
      ok_inj a b h = cc

      fewer :
          (m : ℕ) → m ≡ old_count - new_count → leb old_count new_count ≡ false → Adjusts (neg m)
      fewer zero em less = absurd (ground arith)
      fewer (suc m) em less =
          let reached : line + suc m ≡ old_line = ground arith in
          let below : leb (line + suc m) usize_max ≡ true = ground arith in rw below reached

      go :
          (t : Bool)
          → leb old_count new_count ≡ t
          → (u v : Bool)
          → ◌≡◌ {A = Result (Unit {0}) ℤ}
              (if t
                then ((if u then ok (new_count - old_count) else err tt) >>= λ n. ok (pos n))
                else ((if v then ok (old_count - new_count) else err tt) >>= λ n. ok (neg n)))
              (ok added)
          → Adjusts added
      go true et false v h = absurd (cc)
      go false et u false h = absurd (cc)
      go true et true v h =
          subst Adjusts (ok_inj (pos (new_count - old_count)) added h) (ground arith)
      go false et u true h =
          subst Adjusts (ok_inj (neg (old_count - new_count)) added h)
            (fewer (old_count - new_count) refl et)

  pub adjust_location-before :
      (span : PreludeDiffSpan) (line column : ℕ)
      → line < span.start_line
      → span.start_line ≤ span.end_line
      → adjust_location isize_max usize_max (record { line = line; column = column }) span
        ≡ (record { line = line; column = column }, false)
  unfolding adjust_location
  adjust_location-before span line column h order =
      let first : ltb span.end_line line ≡ false = ground arith in
      let second : leb span.start_line line ≡ false = ground arith in rw (first, second) refl

  pub adjust_location-within :
      (span : PreludeDiffSpan) (line column old_line : ℕ)
      → span.start_line ≤ line
      → line ≤ span.end_line
      → line + 1 ≡ span.start_line + old_line
      → 2 ≤ column
      → adjust_location isize_max usize_max (record { line = line; column = column }) span
        ≡ (record { line = old_line; column = column - 2 }, true)
  unfolding adjust_location
  adjust_location-within span line column old_line h k e indented =
      let first : ltb span.end_line line ≡ false = ground arith in
      let second : leb span.start_line line ≡ true = ground arith in
      let moved : line - span.start_line + 1 ≡ old_line = omega arith in
      let inside : leb 2 column ≡ true = ground arith in rw (first, second, moved, inside) refl

  pub adjust_location-after :
      (span : PreludeDiffSpan) (line column old_line : ℕ)
      → span.end_line < line
      → (if is_negative span.lines_added_count
          then saturating_add isize_max usize_max line (unsigned_abs span.lines_added_count)
          else line - unsigned_abs span.lines_added_count)
        ≡ old_line
      → adjust_location isize_max usize_max (record { line = line; column = column }) span
        ≡ (record { line = old_line; column = column }, false)
  unfolding adjust_location
  adjust_location-after span line column old_line h e =
      let first : ltb span.end_line line ≡ true = ground arith in rw (first, e) refl

  pub lines_added_error :
      (new_count old_count : ℕ)
      → lines_added isize_max usize_max new_count old_count ≡ err tt
      → (isize_max + old_count < new_count) ⊎ (isize_max + new_count < old_count)
  unfolding lines_added
  lines_added_error new_count old_count h =
      go (leb old_count new_count) refl (leb (new_count - old_count) isize_max) refl
        (leb (old_count - new_count) isize_max) refl h
    where
      go :
          (t : Bool)
          → leb old_count new_count ≡ t
          → (u : Bool) → leb (new_count - old_count) isize_max ≡ u
          → (v : Bool) → leb (old_count - new_count) isize_max ≡ v
          → ◌≡◌ {A = Result (Unit {0}) ℤ}
              (if t
                then ((if u then ok (new_count - old_count) else err tt) >>= λ n. ok (pos n))
                else ((if v then ok (old_count - new_count) else err tt) >>= λ n. ok (neg n)))
              (err tt)
          → (isize_max + old_count < new_count) ⊎ (isize_max + new_count < old_count)
      go true et true eu v ev h = absurd (cc)
      go true et false eu v ev h = inl (ground arith)
      go false et u eu true ev h = absurd (cc)
      go false et u eu false ev h = inr (ground arith)
