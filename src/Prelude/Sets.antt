-- ===== src/Prelude/Sets.antt =====
-- Sets and maps with node indices for keys, as functions, and how many indices a set leaves out.
use Prim.Native.Nat.{ℕ, zero, suc, ◌+◌, ◌<◌, ◌≤◌}
use mathlib.Core.Path.{◌≡◌, refl}
use mathlib.Core.Bool.{Bool, true, false}
use mathlib.Core.Option.{Option, none, some}
use native.Mathlib.Omega.{arith}
use libloot.Prelude.Tests.{◌==◌, if◌then◌else◌}

-- A hash set of node indices.
abbrev pub NodeSet : Type 0
NodeSet = ℕ → Bool

abbrev pub empty_set : NodeSet
empty_set x = false

abbrev pub insert : ℕ → NodeSet → NodeSet
insert x s = λ y. if y == x then true else s y

-- A hash map with node indices for keys.
abbrev pub NodeMap : Type 0 → Type 0
NodeMap A = ℕ → Option A

abbrev pub empty_map : {A : Type 0} → NodeMap A
empty_map x = none

abbrev pub insert_at : {A : Type 0} → ℕ → A → NodeMap A → NodeMap A
insert_at x a m = λ y. if y == x then some a else m y

-- The number of indices below `n` that the set does not hold.
abbrev pub missing : ℕ → NodeSet → ℕ
missing zero s = 0
missing (suc n) s = (if s n then 0 else 1) + missing n s

pub missing-insert_ge : (n x : ℕ) (s : NodeSet) → n ≤ x → missing n (insert x s) ≡ missing n s
missing-insert_ge zero x s h = refl
missing-insert_ge (suc n) x s h = ground (arith, missing-insert_ge n x s)

pub missing-insert :
    (n x : ℕ) (s : NodeSet) → x < n → s x ≡ false → suc (missing n (insert x s)) ≡ missing n s
missing-insert zero x s h e = elim h [ ]
missing-insert (suc n) x s h e = ground (arith, missing-insert n x s, missing-insert_ge n x s)

pub missing-le : (n : ℕ) (s : NodeSet) → missing n s ≤ n
missing-le zero s = omega arith
missing-le (suc n) s = ground (arith, missing-le n s)
