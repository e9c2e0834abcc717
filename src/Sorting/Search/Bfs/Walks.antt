-- ===== src/Sorting/Search/Bfs/Walks.antt =====
-- src/sorting/search.rs: the walks to and from the nodes that the two directions visited.
use libloot.Prelude.{
  ℕ, ◌≡◌, true, List, Memᴰ, NodeSet, insert, empty_set, ◌==◌, arith, Bool-cases, inl, inr,
}
use libloot.Sorting.Graph.{Reach, here, step, Reach-first, Reach-trans}

pub record AreJoined (next : ℕ → List ℕ) (from to : ℕ) (fv rv : NodeSet) : Type 0 where
  pub forward : (x : ℕ) → fv x ≡ true → Reach next from x
  pub reverse : (x : ℕ) → rv x ≡ true → Reach next x to

-- What holds at `t` and on a set holds on the set with `t`.
pub insert_cases {κ} :
    (Q : ℕ → Type κ) (t : ℕ) (s : NodeSet)
    → Q t
    → ((x : ℕ) → s x ≡ true → Q x)
    → (x : ℕ) → insert t s x ≡ true
    → Q x
insert_cases Q t s q h x m = elim (Bool-cases (x == t)) [
  | inl same ↦ let e : x ≡ t = ground arith in rw e q
  | inr other ↦ h x (ground arith)
]

module _ (next : ℕ → List ℕ) (from to : ℕ) where
  pub AreJoined-start : AreJoined next from to (insert from empty_set) (insert to empty_set)
  AreJoined-start = record {
    forward = insert_cases (Reach next from) from empty_set here (λ x h. absurd (cc));
    reverse = insert_cases (λ x. Reach next x to) to empty_set here (λ x h. absurd (cc));
  }

  module _ {fv rv : NodeSet} (joined : AreJoined next from to fv rv) where
    pub AreJoined-forward :
        (s t : ℕ) → fv s ≡ true → Memᴰ t (next s) → AreJoined next from to (insert t fv) rv
    AreJoined-forward s t h m = record {
      forward = insert_cases (Reach next from) t fv (step (joined.forward s h) m) joined.forward;
      reverse = joined.reverse;
    }

    pub AreJoined-reverse :
        (s t : ℕ) → rv t ≡ true → Memᴰ t (next s) → AreJoined next from to fv (insert s rv)
    AreJoined-reverse s t h m = record {
      forward = joined.forward;
      reverse =
          insert_cases (λ x. Reach next x to) s rv (Reach-first m (joined.reverse t h))
            joined.reverse;
    }

    pub Reach-of_both : (x : ℕ) → fv x ≡ true → rv x ≡ true → Reach next from to
    Reach-of_both x f r = Reach-trans (joined.forward x f) (joined.reverse x r)
