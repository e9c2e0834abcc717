-- ===== src/Prelude/Result.antt =====
-- `Result`: a value or an error, and the `?` operator as the bind of `do` blocks.
use mathlib.Core.Path.{◌≡◌, refl}
use mathlib.Core.Logic.{◌↔◌, inl, inr}
use mathlib.Core.List.{List, [], ◌∷◌, Memᴰ}
use mathlib.Core.List.Memᴰ

pub data Result (X A : Type 0) : Type 0 where
  err : X → Result X A
  ok : A → Result X A

infixl 5 ◌>>=◌
abbrev pub ◌>>=◌ : {X A B : Type 0} (m : Result X A) → (A → Result X B) → Result X B
err x >>= later = err x
ok value >>= later = later value

-- `?` where the function's error type is made from the call's by `From`.
abbrev pub map_err : {X Y A : Type 0} → (X → Y) → Result X A → Result Y A
map_err f (ok a) = ok a
map_err f (err x) = err (f x)

-- A step of a block whose value is not used.
infixl 5 ◌>>◌
abbrev pub ◌>>◌ : {X B : Type 0} → Result X (Unit {0}) → Result X B → Result X B
first >> second = first >>= λ _. second

-- `try_for_each`: the first error ends the loop.
unfoldable pub try_for_each :
    {X A : Type 0} → (A → Result X (Unit {0})) → List A → Result X (Unit {0})
try_for_each f [] = ok tt
try_for_each f (x ∷ xs) = let rest = try_for_each f xs in f x >> rest

pub ok-inj : {X A : Type 0} (a b : A) (r : Result X A) → r ≡ ok a → r ≡ ok b → a ≡ b
ok-inj a b r h k = cc

pub map_err-ok_iff :
    {X Y A : Type 0} (f : X → Y) (r : Result X A) (a : A) → (map_err f r ≡ ok a) ↔ (r ≡ ok a)
map_err-ok_iff f (ok b) a = (λ h. cc, λ h. cc)
map_err-ok_iff f (err x) a = (λ h. absurd (cc), λ h. absurd (cc))

-- Both of two checks pass.
pub >>-ok_iff :
    {X : Type 0} (m k : Result X (Unit {0})) → ((m >> k) ≡ ok tt) ↔ ((m ≡ ok tt) × (k ≡ ok tt))
>>-ok_iff (ok tt) k = (λ h. (refl, h), λ h. h.1)
>>-ok_iff (err x) k = (λ h. absurd (cc), λ h. absurd (cc))

-- A loop that may fail passes exactly if each of its rounds does.
pub try_for_each-ok_iff :
    {X A : Type 0} (f : A → Result X (Unit {0})) (xs : List A)
    → (try_for_each f xs ≡ ok tt) ↔ ((x : A) → Memᴰ x xs → f x ≡ ok tt)
unfolding try_for_each
try_for_each-ok_iff f [] = (λ h x m. absurd (Memᴰ.not-nil m), λ h. refl)
try_for_each-ok_iff f (x ∷ xs) =
    let both = >>-ok_iff (f x) (try_for_each f xs) in
    let later = try_for_each-ok_iff f xs in
    (
      λ h y m. elim (Memᴰ.cases_cons m) [
        | inl e ↦ rw e ((both.0 h).0)
        | inr m' ↦ later.0 ((both.0 h).1) y m'
      ],
      λ h. both.1 (h x (Memᴰ.head refl), later.1 (λ y m. h y (Memᴰ.tail m))),
    )
