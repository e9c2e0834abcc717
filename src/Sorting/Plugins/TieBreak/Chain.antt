-- ===== src/Sorting/Plugins/TieBreak/Chain.antt =====
-- src/sorting/plugins.rs: chains of nodes, each of which a walk joins to the next one, as the new
-- load order of the tie-breaks is.
use libloot.Prelude.{
  ℕ, ◌≡◌, refl, ap, ◌⊎◌, inl, inr, List, [], ◌∷◌, ◌++◌, none, some, Memᴰ, length, get_elem?,
  insert_index, drop,
}
use mathlib.Core.List.{append_assoc}
use libloot.Sorting.Graph.{Reach, here, step, Reach-trans, IsWalk}

module _ (next : ℕ → List ℕ) where
  abbrev pub IsChain : List ℕ → Type 0
  IsChain [] = Unit
  IsChain (x ∷ []) = Unit
  IsChain (x ∷ y ∷ ys) = Reach next x y × IsChain (y ∷ ys)

  -- The first of the nodes, if there is one, can be reached.
  abbrev pub ReachesHead : ℕ → List ℕ → Type 0
  ReachesHead a [] = Unit
  ReachesHead a (x ∷ xs) = Reach next a x

  pub IsChain-cons : (a : ℕ) (xs : List ℕ) → ReachesHead a xs → IsChain xs → IsChain (a ∷ xs)
  IsChain-cons a [] h c = tt
  IsChain-cons a (x ∷ xs) h c = (h, c)

  pub IsChain-tail : (a : ℕ) (xs : List ℕ) → IsChain (a ∷ xs) → IsChain xs
  IsChain-tail a [] c = tt
  IsChain-tail a (x ∷ xs) c = c.1

  -- A chain can be cut at any of its nodes, and put together there.
  pub IsChain-cut :
      (xs : List ℕ) (y : ℕ) (ys : List ℕ)
      → IsChain (xs ++ y ∷ ys)
      → IsChain (xs ++ y ∷ []) × IsChain (y ∷ ys)
  IsChain-cut [] y ys c = (tt, c)
  IsChain-cut (x ∷ []) y ys (r, c) = ((r, tt), c)
  IsChain-cut (x ∷ w ∷ xs) y ys (r, c) =
      let (front, back) = IsChain-cut (w ∷ xs) y ys c in ((r, front), back)

  pub IsChain-join :
      (xs : List ℕ) (y : ℕ) (ys : List ℕ)
      → IsChain (xs ++ y ∷ [])
      → IsChain (y ∷ ys)
      → IsChain (xs ++ y ∷ ys)
  IsChain-join [] y ys f b = b
  IsChain-join (x ∷ []) y ys (r, f) b = (r, b)
  IsChain-join (x ∷ w ∷ xs) y ys (r, f) b = (r, IsChain-join (w ∷ xs) y ys f b)

  -- The last node may give way to one that it reaches.
  pub IsChain-replace_last :
      (xs : List ℕ) (a b : ℕ) → IsChain (xs ++ a ∷ []) → Reach next a b → IsChain (xs ++ b ∷ [])
  IsChain-replace_last [] a b c r = tt
  IsChain-replace_last (x ∷ []) a b (q, c) r = (Reach-trans q r, tt)
  IsChain-replace_last (x ∷ w ∷ xs) a b (q, c) r = (q, IsChain-replace_last (w ∷ xs) a b c r)

  pub IsChain-drop_last : (xs : List ℕ) (a : ℕ) → IsChain (xs ++ a ∷ []) → IsChain xs
  IsChain-drop_last [] a c = tt
  IsChain-drop_last (x ∷ []) a c = tt
  IsChain-drop_last (x ∷ w ∷ xs) a (q, c) = (q, IsChain-drop_last (w ∷ xs) a c)

  -- A node goes between two parts of a chain if the first part leads to it, and it to the second.
  pub IsChain-insert :
      (xs : List ℕ) (a : ℕ) (ys : List ℕ)
      → IsChain (xs ++ ys)
      → IsChain (xs ++ a ∷ [])
      → ReachesHead a ys
      → IsChain (xs ++ a ∷ ys)
  IsChain-insert xs a [] c f h = f
  IsChain-insert xs a (y ∷ ys) c f h = IsChain-join xs a (y ∷ ys) f (h, (IsChain-cut xs y ys c).1)

  -- The head of a chain reaches all of it.
  pub Reach-of_mem : (x : ℕ) (xs : List ℕ) (y : ℕ) → IsChain (x ∷ xs) → Memᴰ y xs → Reach next x y
  Reach-of_mem x [] y c m = elim m [ ]
  Reach-of_mem x (w ∷ xs) y (r, c) (Memᴰ.head e) = rw e r
  Reach-of_mem x (w ∷ xs) y (r, c) (Memᴰ.tail m) = Reach-trans r (Reach-of_mem w xs y c m)

  -- Of two nodes of a chain, one reaches the other.
  pub IsChain-total :
      (l : List ℕ) (x y : ℕ) → IsChain l → Memᴰ x l → Memᴰ y l → Reach next x y ⊎ Reach next y x
  IsChain-total [] x y c m k = elim m [ ]
  IsChain-total (w ∷ l) x y c (Memᴰ.head e) (Memᴰ.head e') = inl (rw (e, e') here)
  IsChain-total (w ∷ l) x y c (Memᴰ.head e) (Memᴰ.tail m') = inl (rw e (Reach-of_mem w l y c m'))
  IsChain-total (w ∷ l) x y c (Memᴰ.tail m) (Memᴰ.head e') = inr (rw e' (Reach-of_mem w l x c m))
  IsChain-total (w ∷ l) x y c (Memᴰ.tail m) (Memᴰ.tail m') =
      IsChain-total l x y (IsChain-tail w l c) m m'

  pub IsChain-of_IsWalk : (a : ℕ) (l : List ℕ) (b : ℕ) → IsWalk next a l b → IsChain (a ∷ l)
  IsChain-of_IsWalk a [] b w = tt
  IsChain-of_IsWalk a (x ∷ l) b (m, w) = (step here m, IsChain-of_IsWalk x l b w)

pub IsChain-mono :
    {next more : ℕ → List ℕ}
    → ((x y : ℕ) → Reach next x y → Reach more x y)
    → (l : List ℕ) → IsChain next l
    → IsChain more l
IsChain-mono h [] c = tt
IsChain-mono h (x ∷ []) c = tt
IsChain-mono h (x ∷ y ∷ l) (r, c) = (h x y r, IsChain-mono h (y ∷ l) c)

-- Positions behind the first part of a list.
pub get_elem?-append :
    (xs : List ℕ) (y : ℕ) (ys : List ℕ) → get_elem? (xs ++ y ∷ ys) (length xs) ≡ some y
get_elem?-append [] y ys = refl
get_elem?-append (x ∷ xs) y ys = get_elem?-append xs y ys

pub get_elem?_end : (xs : List ℕ) → get_elem? xs (length xs) ≡ none
get_elem?_end [] = refl
get_elem?_end (x ∷ xs) = get_elem?_end xs

pub insert_index-append :
    (xs : List ℕ) (a : ℕ) (ys : List ℕ) → insert_index (length xs) a (xs ++ ys) ≡ xs ++ a ∷ ys
insert_index-append [] a ys = refl
insert_index-append (x ∷ xs) a ys = ap (λ (l : List ℕ). x ∷ l) (insert_index-append xs a ys)

pub drop-append : (xs ys : List ℕ) → drop (length xs) (xs ++ ys) ≡ ys
drop-append [] ys = refl
drop-append (x ∷ xs) ys = drop-append xs ys

pub IsChain-concat :
    (next : ℕ → List ℕ) (xs : List ℕ) (a b : ℕ)
    → IsChain next (xs ++ a ∷ [])
    → Reach next a b
    → IsChain next ((xs ++ a ∷ []) ++ b ∷ [])
IsChain-concat next xs a b c r =
    rw (append_assoc xs (a ∷ []) (b ∷ [])) (IsChain-join next xs a (b ∷ []) c (r, tt))
