-- ===== src/Sorting/Plugins/Specific/Positions.antt =====
-- src/sorting/plugins.rs: positions of early loaders along a chain.
use libloot.Prelude.{
  ℕ, ◌<◌, ◌≡◌, refl, sym, ap, subst, inl, inr, List, [], ◌∷◌, map, Memᴰ, mem_cons, not_mem_nil,
  some, last?, leb, arith,
}
use libloot.Prelude.Sort.{IsSorted}
use libloot.Sorting.Graph.{Reach, here, Reach-trans}
use libloot.Sorting.Plugins.TieBreak.Chain.{IsChain, Reach-of_mem}

abbrev pub node : ℕ × ℕ → ℕ
node p = p.1

pub mem-node : (l : List (ℕ × ℕ)) (p : ℕ × ℕ) → Memᴰ p l → Memᴰ (node p) (map node l)
mem-node [] p m = absurd (not_mem_nil m)
mem-node (q ∷ l) p m = elim ((mem_cons p q l).0 m) [
  | inl e ↦ Memᴰ.head (ap node e)
  | inr m' ↦ Memᴰ.tail (mem-node l p m')
]

-- In a chain that is sorted by position, the lower position leads to the higher one.
pub Reach-positions :
    (next : ℕ → List ℕ) (l : List (ℕ × ℕ)) (p q : ℕ × ℕ)
    → IsSorted (λ a b. leb a.0 b.0) l
    → IsChain next (map node l)
    → Memᴰ p l
    → Memᴰ q l
    → p.0 < q.0
    → Reach next (node p) (node q)
Reach-positions next [] p q s c mp mq lt = absurd (not_mem_nil mp)
Reach-positions next (x ∷ l) p q s c mp mq lt = elim ((mem_cons p x l).0 mp) [
  | inl ep ↦ elim ((mem_cons q x l).0 mq) [
    | inl eq ↦ absurd (omega (arith, ap (λ (w : ℕ × ℕ). w.0) ep, ap (λ (w : ℕ × ℕ). w.0) eq))
    | inr mq' ↦
        subst (λ w. Reach next (node w) (node q)) (sym ep)
          (Reach-of_mem next (node x) (map node l) (node q) c (mem-node l q mq'))
  ]
  | inr mp' ↦ elim ((mem_cons q x l).0 mq) [
    | inl eq ↦
        let first = s.0 p mp' in
        let same = ap (λ (w : ℕ × ℕ). w.0) eq in absurd (ground (arith, first, same))
    | inr mq' ↦ Reach-positions next l p q s.1 (IsChain-rest next x l c) mp' mq' lt
  ]
]
  where
    IsChain-rest :
        (next : ℕ → List ℕ) (x : ℕ × ℕ) (l : List (ℕ × ℕ))
        → IsChain next (map node (x ∷ l))
        → IsChain next (map node l)
    IsChain-rest next x [] c = tt
    IsChain-rest next x (y ∷ l) c = c.1

-- Every node of a chain is the last one or leads to it.
pub Reach-last :
    (next : ℕ → List ℕ) (l : List (ℕ × ℕ)) (p last : ℕ × ℕ)
    → IsChain next (map node l)
    → Memᴰ p l
    → last? l ≡ some last
    → Reach next (node p) (node last)
Reach-last next [] p last c m e = absurd (not_mem_nil m)
Reach-last next (x ∷ []) p last c m e = elim ((mem_cons p x []).0 m) [
  | inl same ↦
      subst (λ w. Reach next (node w) (node last)) (sym same)
        (subst (λ w. Reach next (node x) (node w)) (last_eq x last e) here)
  | inr m' ↦ absurd (not_mem_nil m')
]
  where
    last_eq : (a b : ℕ × ℕ) → some a ≡ some b → a ≡ b
    last_eq a b h = cc
Reach-last next (x ∷ y ∷ l) p last c m e = elim ((mem_cons p x (y ∷ l)).0 m) [
  | inl same ↦
      subst (λ w. Reach next (node w) (node last)) (sym same)
        (Reach-trans c.0 (Reach-last next (y ∷ l) y last c.1 (Memᴰ.head refl) e))
  | inr m' ↦ Reach-last next (y ∷ l) p last c.1 m' e
]
