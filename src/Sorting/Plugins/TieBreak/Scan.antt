-- ===== src/Sorting/Plugins/TieBreak/Scan.antt =====
-- src/sorting/plugins.rs: the search for the position of a node that is pinned.
use libloot.Prelude.{
  ℕ, ◌≡◌, refl, ap, ◌∙◌, subst, inl, inr, Bool, true, false, List, [], ◌∷◌, ◌++◌, Option, none,
  some, Memᴰ, length, length-append, mem_cons, arith,
}
use mathlib.Core.List.{reverse, reverse-append, append_assoc}
use libloot.External.Petgraph.{Petgraph}
use libloot.Sorting.Graph.{Reach}
use libloot.Sorting.Plugins.Data.{SortingPlugin, PluginSortingData}
use libloot.Sorting.Plugins.Graph.{PluginsGraph, path_exists}
use libloot.Sorting.Plugins.Graph.Paths.{next_of, IsCacheSound, PathAnswer, path_exists-PathAnswer}
use libloot.Sorting.Plugins.TieBreak.{last_unreached}

pub length-reverse : (xs : List ℕ) → length (reverse xs) ≡ length xs
length-reverse [] = refl
length-reverse (x ∷ xs) = omega (
  arith,
  ap length (reverse-append (x ∷ []) xs),
  length-append (reverse xs) (x ∷ []),
  length-reverse xs,
)

-- What the search for the place of `node` found, on the nodes before `zs` in the order `whole`.
pub data Place (next : ℕ → List ℕ) (node : ℕ) (whole : List ℕ) : Option ℕ → Type 0 where
  first : ((y : ℕ) → Memᴰ y whole → Reach next node y) → Place next node whole none
  behind :
      (before : List ℕ) (x : ℕ) (zs : List ℕ) (k : ℕ)
      → length before ≡ k
      → whole ≡ before ++ x ∷ zs
      → ¬ (Reach next node x)
      → ((y : ℕ) → Memᴰ y zs → Reach next node y)
      → Place next node whole (some k)

module _ {E T : Type 0} (trait : SortingPlugin E T) (P : Petgraph (PluginSortingData T)) where
  abbrev Graph : Type 0
  Graph = PluginsGraph trait P

  pub record Scanned (graph : Graph) (node : ℕ) (whole : List ℕ) (r : Option ℕ × Graph)
      : Type 0 where
    pub same : r.1.inner ≡ graph.inner
    pub sound : IsCacheSound trait P r.1
    pub place : Place (next_of trait P graph) node whole r.0

  pub last_unreached-Scanned :
      (node : ℕ) (rs zs : List ℕ) (graph : Graph)
      → IsCacheSound trait P graph
      → ((y : ℕ) → Memᴰ y zs → Reach (next_of trait P graph) node y)
      → Scanned graph node (reverse rs ++ zs) (last_unreached trait P node rs graph)
  unfolding last_unreached
  last_unreached-Scanned node [] zs graph sound reached = record {
    same = refl;
    sound = sound;
    place = first reached;
  }
  last_unreached-Scanned node (ni ∷ before) zs graph sound reached =
      go (path_exists trait P node ni graph) (path_exists-PathAnswer trait P graph node ni sound)
        (last_unreached-Scanned node before (ni ∷ zs))
    where
      whole_eq : reverse (ni ∷ before) ++ zs ≡ reverse before ++ ni ∷ zs
      whole_eq =
          ap (λ (l : List ℕ). l ++ zs) (reverse-append (ni ∷ []) before)
          ∙ append_assoc (reverse before) (ni ∷ []) zs

      go :
          (r : Bool × Graph)
          → PathAnswer trait P graph node ni r
          → ((g : Graph)
              → IsCacheSound trait P g
              → ((y : ℕ) → Memᴰ y (ni ∷ zs) → Reach (next_of trait P g) node y)
              → Scanned g node (reverse before ++ ni ∷ zs) (last_unreached trait P node before g))
          → Scanned graph node (reverse (ni ∷ before) ++ zs) (elim r.0 [
            | true ↦ last_unreached trait P node before r.1
            | false ↦ (some (length before), r.1)
          ])
      go (true, g) a rec =
          let s = rec g a.sound (λ y m. elim ((mem_cons y ni zs).0 m) [
            | inl e ↦ rw (e, a.same) (a.found refl)
            | inr old ↦ rw a.same (reached y old)
          ]) in
          record {
            same = s.same ∙ a.same;
            sound = s.sound;
            place = rw whole_eq (
                subst
                  (λ (i : P.Graph).
                    Place (P.neighbors i) node (reverse before ++ ni ∷ zs)
                      (last_unreached trait P node before g).0)
                  a.same s.place);
          }
      go (false, g) a rec = record {
        same = a.same;
        sound = a.sound;
        place =
            behind (reverse before) ni zs (length before) (length-reverse before) whole_eq
              (a.not_found refl) reached;
      }
