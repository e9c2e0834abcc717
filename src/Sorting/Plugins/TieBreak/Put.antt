-- ===== src/Sorting/Plugins/TieBreak/Put.antt =====
-- src/sorting/plugins.rs: the edges that tie a node to the two parts of the new load order between
-- which it goes.
use libloot.Prelude.{
  ℕ, suc, ◌+◌, ◌<◌, ◌≡◌, refl, sym, ap, ◌∙◌, subst, List, [], ◌∷◌, ◌++◌, Option, none, some, Memᴰ,
  length, length-append, get_elem?, arith,
}
use mathlib.Core.List.{append_assoc, append-nil}
use mathlib.Core.List.Memᴰ
use libloot.External.Petgraph.{Petgraph}
use libloot.Sorting.Vertex.{EdgeType}
use libloot.Sorting.Graph.{Reach}
use libloot.Sorting.Plugins.Data.{SortingPlugin, PluginSortingData}
use libloot.Sorting.Plugins.Graph.{PluginsGraph, add_edge}
use libloot.Sorting.Plugins.Graph.Paths.{next_of}
use libloot.Sorting.Plugins.Graph.Growth.{
  IsSafe, Progress, Progress-refl, Progress-trans, add_edge-Progress, Reach-add_edge,
}
use libloot.Sorting.Plugins.TieBreak.{add_edge_from, add_edge_to, preceding, insert_position}
use libloot.Sorting.Plugins.TieBreak.Chain.{
  IsChain, ReachesHead, IsChain-cut, get_elem?-append, get_elem?_end, IsChain-concat,
}
use libloot.Sorting.Plugins.TieBreak.Scan.{Place, first, behind}
use libloot.Sorting.Plugins.TieBreak.Tied.{Reach-Grows, IsChain-Grows, not-Reach_back}

module _ {E T : Type 0} (trait : SortingPlugin E T) (P : Petgraph (PluginSortingData T)) where
  abbrev Graph : Type 0
  Graph = PluginsGraph trait P

  -- The edges to and from the node that goes between two parts of the load order.
  pub record Joined (graph : Graph) (node : ℕ) (front back : List ℕ) (graph' : Graph) : Type 0 where
    pub progress : Progress trait P graph graph'
    pub lead : IsChain (next_of trait P graph') (front ++ node ∷ [])
    pub reaches : ReachesHead (next_of trait P graph') node back

  -- The edge to the node behind, which `node` reaches already.
  join_back :
      (graph : Graph) (node : ℕ) (front back : List ℕ)
      → IsSafe trait P graph
      → node < P.node_count graph.inner
      → ((y : ℕ) → Memᴰ y back → y < P.node_count graph.inner)
      → ((y : ℕ) → Memᴰ y back → ¬ (node ≡ y))
      → ((y : ℕ) → Memᴰ y back → Reach (next_of trait P graph) node y)
      → IsChain (next_of trait P graph) (front ++ node ∷ [])
      → Joined graph node front back
          (add_edge_to trait P node (get_elem? (front ++ back) (length front)) graph)
  join_back graph node front [] safe hn hb ne reached lead = rw (append-nil front) (
      rw (get_elem?_end front)
        (record { progress = Progress-refl trait P graph safe; lead = lead; reaches = tt }))
  join_back graph node front (y ∷ ys) safe hn hb ne reached lead =
      let here_y = Memᴰ.head {xs = ys} refl in
      let p =
        add_edge-Progress trait P graph node y EdgeType.tie_break hn (hb y here_y) safe
          (not-Reach_back safe.acyclic (ne y here_y) (reached y here_y)) in
      rw (get_elem?-append front y ys) (record {
        progress = p;
        lead = IsChain-Grows trait P p.grows (front ++ node ∷ []) lead;
        reaches = Reach-Grows trait P p.grows node y (reached y here_y);
      })

  -- Where the node goes, and the edges that it gets.
  pub record Put (graph : Graph) (node : ℕ) (order : List ℕ) (position : ℕ) (graph' : Graph)
      : Type 0 where
    pub front : List ℕ
    pub back : List ℕ
    pub split : order ≡ front ++ back
    pub at : length front ≡ position
    pub joined : Joined graph node front back graph'

  module _ (graph : Graph) (node : ℕ) (pre post : List ℕ) (safe : IsSafe trait P graph)
      (hn : node < P.node_count graph.inner)
      (inside : (y : ℕ) → Memᴰ y (pre ++ post) → y < P.node_count graph.inner)
      (other : (y : ℕ) → Memᴰ y (pre ++ post) → ¬ (node ≡ y))
      (chain : IsChain (next_of trait P graph) (pre ++ post))
      (lead : IsChain (next_of trait P graph) (pre ++ node ∷ [])) where
    put_behind :
        (before : List ℕ) (x : ℕ) (zs : List ℕ)
        → post ≡ before ++ x ∷ zs
        → ¬ (Reach (next_of trait P graph) node x)
        → ((y : ℕ) → Memᴰ y zs → Reach (next_of trait P graph) node y)
        → (front : List ℕ) → front ≡ (pre ++ before) ++ x ∷ []
        → pre ++ post ≡ front ++ zs
        → Joined graph node front zs (
            add_edge_to trait P node
              (get_elem? (front ++ zs) (length front))
              (add_edge trait P x node EdgeType.tie_break graph))
    put_behind before x zs e not_x reached front ef whole =
        let x_in = subst (Memᴰ x) (sym whole) (
          Memᴰ.append_left zs
            (subst (Memᴰ x) (sym ef) (Memᴰ.append_right (pre ++ before) (Memᴰ.head refl)))) in
        let back_in =
          λ (y : ℕ) (m : Memᴰ y zs). subst (Memᴰ y) (sym whole) (Memᴰ.append_right front m) in
        let p =
          add_edge-Progress trait P graph x node EdgeType.tie_break (inside x x_in) hn safe not_x in
        let edge =
          Reach-add_edge trait P graph x node EdgeType.tie_break (inside x x_in) hn safe.sound in
        let up_to_x =
          (IsChain-cut (next_of trait P graph) (pre ++ before) x zs (
            subst (IsChain (next_of trait P graph))
              (ap (λ (l : List ℕ). pre ++ l) e ∙ sym (append_assoc pre before (x ∷ zs)))
              chain)).0 in
        let j =
          join_back (add_edge trait P x node EdgeType.tie_break graph) node front zs p.safe
            (omega (arith, hn, p.grows.count))
            (λ y m. omega (arith, inside y (back_in y m), p.grows.count))
            (λ y m. other y (back_in y m)) (λ y m. Reach-Grows trait P p.grows node y (reached y m))
            (rw ef (
              IsChain-concat (next_of trait P (add_edge trait P x node EdgeType.tie_break graph))
                (pre ++ before) x node
                (IsChain-Grows trait P p.grows ((pre ++ before) ++ x ∷ []) up_to_x) edge)) in
        record {
          progress = Progress-trans trait P p j.progress;
          lead = j.lead;
          reaches = j.reaches;
        }

    whole_eq :
        (before : List ℕ) (x : ℕ) (zs : List ℕ)
        → post ≡ before ++ x ∷ zs
        → pre ++ post ≡ ((pre ++ before) ++ x ∷ []) ++ zs
    whole_eq before x zs e =
        ap (λ (l : List ℕ). pre ++ l) e
        ∙ sym (append_assoc pre before (x ∷ zs))
        ∙ sym (append_assoc (pre ++ before) (x ∷ []) zs)

    preceding_eq :
        (before : List ℕ) (x : ℕ) (zs : List ℕ) (k : ℕ)
        → length before ≡ k
        → post ≡ before ++ x ∷ zs
        → get_elem? (pre ++ post) (length pre + k) ≡ some x
    preceding_eq before x zs k ek e =
        let len : length pre + k ≡ length (pre ++ before) =
          omega (arith, length-append pre before, ek) in
        rw (len, whole_eq before x zs e, append_assoc (pre ++ before) (x ∷ []) zs)
          (get_elem?-append (pre ++ before) x zs)

    pub Put-node :
        (previous : Option ℕ)
        → Place (next_of trait P graph) node post previous
        → Put graph node (pre ++ post) (insert_position trait P (length pre) previous) (
            add_edge_to trait P node
              (get_elem? (pre ++ post) (insert_position trait P (length pre) previous))
              (add_edge_from trait P
                (preceding trait P (length pre) previous (pre ++ post))
                node
                graph))
    Put-node none (first reached) = record {
      front = pre;
      back = post;
      split = refl;
      at = refl;
      joined =
          join_back graph node pre post safe hn (λ y m. inside y (Memᴰ.append_right pre m))
            (λ y m. other y (Memᴰ.append_right pre m)) reached lead;
    }
    Put-node (some _) (behind before x zs k ek e not_x reached) =
        let front = (pre ++ before) ++ x ∷ [] in
        let whole : pre ++ post ≡ front ++ zs = whole_eq before x zs e in
        let len : length front ≡ suc (length pre + k) =
          omega (arith, length-append (pre ++ before) (x ∷ []), length-append pre before, ek) in
        record {
          front = front;
          back = zs;
          split = whole;
          at = len;
          joined =
              rw (preceding_eq before x zs k ek e)
                (rw (whole, ← len) (put_behind before x zs e not_x reached front refl whole));
        }
