-- ===== src/Sorting/Search/Cycle/Step.antt =====
-- src/sorting/search.rs: the rounds of the search for a cycle.
use libloot.Prelude.{
  ℕ, ◌≡◌, refl, sym, ap, ◌∙◌, subst, ◌⊎◌, inl, inr, Bool, true, false, String, List, [], ◌∷◌, ◌++◌,
  Memᴰ, mem_cons, not_mem_nil, NodeMap, insert_at, ◌==◌, ==_iff, Bool-cases, Option, none, some,
  position, drop, str_eq, init, if◌then◌else◌,
}
use libloot.External.Petgraph.{Petgraph, EdgeRef}
use libloot.Sorting.Graph.{Reach}
use libloot.Sorting.Vertex.{Vertex, vertex, with_out_edge_type}
use libloot.Sorting.Search.Dfs.{Colour, white, grey, black, colour_of, edges, on_edge, dfs_step}
use libloot.Sorting.Search.Dfs.Ends.{colour_of-insert_at}
use libloot.Sorting.Search.Cycle.{
  CycleDetector, node_name, on_tree_edge, on_back_edge, on_finish, cycle_visitor,
}
use libloot.Sorting.Search.Cycle.Trail.{
  TrailFits, TrailFits-push, TrailFits-pop, mem-names_below, position_of_mem,
}
use libloot.Sorting.Search.Cycle.Colours.{
  nodes_of, IsFinishedOrder, IsStack, IsStack-pop, Reach-top, cover-rest, edges-OwnEdges,
  edges-cover,
}

module _ {N : Type 0} (P : Petgraph N) (g : Petgraph.Graph P) (node_mapper : N → String) where
  abbrev name_of : ℕ → String
  name_of = node_name P g node_mapper

  abbrev next : ℕ → List ℕ
  next = P.neighbors g

  -- An edge, and a walk back.
  abbrev pub HasCycle : Type 0
  HasCycle = (a : ℕ) × (b : ℕ) × Memᴰ b (next a) × Reach next b a

  -- The state of a search that has found no cycle, with the nodes finished so far. Those of
  -- `wanted` are finished or on the stack.
  pub record Searching (wanted : List ℕ) (stack : List (ℕ × List EdgeRef))
      (colours : NodeMap Colour) (d : CycleDetector) : Type 0 where
    pub order : List ℕ
    pub finished : IsFinishedOrder next order
    pub is_stack : IsStack next order stack
    pub trail : TrailFits name_of stack d.trail
    pub black_nodes : (x : ℕ) → colour_of colours x ≡ black → Memᴰ x order
    pub grey_nodes : (x : ℕ) → colour_of colours x ≡ grey → Memᴰ x (nodes_of stack)
    pub none_found : d.found_cycle ≡ false
    pub reached : (x : ℕ) → Memᴰ x wanted → Memᴰ x order ⊎ Memᴰ x (nodes_of stack)

  abbrev pub Progressing :
      List ℕ → List (ℕ × List EdgeRef) → NodeMap Colour → CycleDetector → Type 0
  Progressing wanted stack colours d =
      ((d.found_cycle ≡ true) × HasCycle) ⊎ Searching wanted stack colours d

  -- The visitor does nothing once a cycle is found.
  pub found_stays :
      (n : ℕ) (es : List EdgeRef) (below : List (ℕ × List EdgeRef)) (colours : NodeMap Colour)
      (d : CycleDetector)
      → d.found_cycle ≡ true
      → (dfs_step P g (cycle_visitor P g node_mapper) n es below colours d).visitor.found_cycle
        ≡ true
  unfolding dfs_step on_edge cycle_visitor on_tree_edge on_back_edge on_finish
  found_stays n [] below colours d h = rw h refl
  found_stays n (e ∷ es) below colours d h = by_colour (colour_of colours e.target)
    where
      by_colour :
          (c : Colour)
          → (on_edge P g
              (cycle_visitor P g node_mapper)
              c
              e
              ((n, es) ∷ below)
              colours
              d).visitor.found_cycle
            ≡ true
      by_colour white = rw h refl
      by_colour grey = rw h refl
      by_colour black = h

  coloured_if :
      (k : ℕ) (c : Colour) (colours : NodeMap Colour) (x : ℕ) (b : Bool)
      → (x == k) ≡ b
      → colour_of (insert_at k c colours) x ≡ (if b then c else colour_of colours x)
  coloured_if k c colours x b e =
      subst (λ b'. colour_of (insert_at k c colours) x ≡ (if b' then c else colour_of colours x)) e
        (colour_of-insert_at k c colours x)

  -- A node that has a colour after another one was coloured is that one, or had the colour.
  pub coloured_cases :
      (k : ℕ) (c : Colour) (colours : NodeMap Colour) (x : ℕ) (d : Colour)
      → colour_of (insert_at k c colours) x ≡ d
      → ((x ≡ k) × (c ≡ d)) ⊎ (¬ (x ≡ k) × (colour_of colours x ≡ d))
  coloured_cases k c colours x d h = elim (Bool-cases (x == k)) [
    | inl e ↦ inl ((==_iff x k).0 e, sym (coloured_if k c colours x true e) ∙ h)
    | inr e ↦ inr (λ same. cc ((==_iff x k).1 same), sym (coloured_if k c colours x false e) ∙ h)
  ]

  pub finish-Searching :
      (wanted : List ℕ) (n : ℕ) (below : List (ℕ × List EdgeRef)) (colours : NodeMap Colour)
      (d : CycleDetector)
      → Searching wanted ((n, []) ∷ below) colours d
      → Searching wanted below (insert_at n black colours) (record d { trail = init d.trail })
  finish-Searching wanted n below colours d h =
      let (own, cover, rest) = h.is_stack in
      record {
        order = n ∷ h.order;
        finished =
            (λ y m. elim (cover y m) [ inl t ↦ absurd (not_mem_nil t) | inr o ↦ o ], h.finished);
        is_stack = IsStack-pop next h.order n below rest;
        trail = TrailFits-pop name_of (n, []) below d.trail h.trail;
        black_nodes = λ x e. elim (coloured_cases n black colours x black e) [
          | inl (same, _) ↦ Memᴰ.head same
          | inr (other, old) ↦ Memᴰ.tail (h.black_nodes x old)
        ];
        grey_nodes = λ x e. elim (coloured_cases n black colours x grey e) [
          | inl (same, wrong) ↦ absurd (cc)
          | inr (other, old) ↦ elim ((mem_cons x n (nodes_of below)).0 (h.grey_nodes x old)) [
            | inl same ↦ absurd (other same)
            | inr m ↦ m
          ]
        ];
        none_found = h.none_found;
        reached = λ x m. elim (h.reached x m) [
          | inl o ↦ inl (Memᴰ.tail o)
          | inr s ↦ elim ((mem_cons x n (nodes_of below)).0 s) [
            | inl same ↦ inl (Memᴰ.head same)
            | inr m' ↦ inr m'
          ]
        ];
      }

  pub cross-Searching :
      (wanted : List ℕ) (n : ℕ) (e : EdgeRef) (es : List EdgeRef) (below : List (ℕ × List EdgeRef))
      (colours : NodeMap Colour) (d : CycleDetector)
      → colour_of colours e.target ≡ black
      → Searching wanted ((n, e ∷ es) ∷ below) colours d
      → Searching wanted ((n, es) ∷ below) colours d
  cross-Searching wanted n e es below colours d c h =
      let (own, cover, rest) = h.is_stack in
      record {
        order = h.order;
        finished = h.finished;
        is_stack = (
          λ x m. own x (Memᴰ.tail m),
          λ y m. elim (cover-rest next h.order n e es cover y m) [
            | inl t ↦ inl t
            | inr (inl o) ↦ inr o
            | inr (inr same) ↦
                inr (subst (λ w. Memᴰ w h.order) (sym same) (h.black_nodes e.target c))
          ],
          rest,
        );
        trail = h.trail;
        black_nodes = h.black_nodes;
        grey_nodes = h.grey_nodes;
        none_found = h.none_found;
        reached = h.reached;
      }

  pub tree-Searching :
      (wanted : List ℕ) (n : ℕ) (e : EdgeRef) (es : List EdgeRef) (below : List (ℕ × List EdgeRef))
      (colours : NodeMap Colour) (d : CycleDetector)
      → Searching wanted ((n, e ∷ es) ∷ below) colours d
      → Searching wanted
          ((e.target, edges P g e.target) ∷ (n, es) ∷ below)
          (insert_at e.target grey colours)
          (record d {
            trail = d.trail ++ with_out_edge_type (vertex (name_of e.source)) e.weight ∷ [];
          })
  tree-Searching wanted n e es below colours d h =
      let (own, cover, rest) = h.is_stack in
      let (source, edge) = own e (Memᴰ.head refl) in
      record {
        order = h.order;
        finished = h.finished;
        is_stack = (
          edges-OwnEdges P g e.target,
          λ y m. inl (edges-cover P g e.target y m),
          (edge, λ x m. own x (Memᴰ.tail m), cover-rest next h.order n e es cover, rest),
        );
        trail =
            TrailFits-push name_of n (e ∷ es) es below (e.target, edges P g e.target) d.trail
              (with_out_edge_type (vertex (name_of e.source)) e.weight) (ap name_of source) h.trail;
        black_nodes = λ x c. elim (coloured_cases e.target grey colours x black c) [
          | inl (same, wrong) ↦ absurd (cc)
          | inr (other, old) ↦ h.black_nodes x old
        ];
        grey_nodes = λ x c. elim (coloured_cases e.target grey colours x grey c) [
          | inl (same, _) ↦ Memᴰ.head same
          | inr (other, old) ↦ Memᴰ.tail (h.grey_nodes x old)
        ];
        none_found = h.none_found;
        reached = λ x m. elim (h.reached x m) [ inl o ↦ inl o | inr s ↦ inr (Memᴰ.tail s) ];
      }

  -- A back edge closes a cycle, and the detector finds its target in the trail.
  pub back-found :
      (wanted : List ℕ) (n : ℕ) (e : EdgeRef) (es : List EdgeRef) (below : List (ℕ × List EdgeRef))
      (colours : NodeMap Colour) (d : CycleDetector)
      → colour_of colours e.target ≡ grey
      → Searching wanted ((n, e ∷ es) ∷ below) colours d
      → ((on_back_edge P g node_mapper e d).found_cycle ≡ true) × HasCycle
  unfolding on_back_edge on_tree_edge
  back-found wanted n e es below colours d c h =
      let (own, cover, rest) = h.is_stack in
      let (source, edge) = own e (Memᴰ.head refl) in
      let on_stack = h.grey_nodes e.target c in
      let v = with_out_edge_type (vertex (name_of e.source)) e.weight in
      let pushed =
        TrailFits-push name_of n (e ∷ es) es below (n, []) d.trail v (ap name_of source) h.trail in
      let in_trail =
        subst (Memᴰ (name_of e.target)) (sym pushed)
          (mem-names_below name_of ((n, es) ∷ below) e.target on_stack) in
      (
        rw (h.none_found) (
            found (position (λ (w : Vertex). str_eq w.name (name_of e.target)) (d.trail ++ v ∷ []))
              (position_of_mem (d.trail ++ v ∷ []) (name_of e.target) in_trail)),
        (n, e.target, edge, Reach-top next h.order n below e.target rest on_stack),
      )
    where
      found :
          (o : Option ℕ)
          → ¬ (o ≡ none)
          → (elim o as (λ x. CycleDetector) [
            | none ↦ on_tree_edge P g node_mapper e d
            | some pos ↦ record {
              trail = drop pos (on_tree_edge P g node_mapper e d).trail;
              found_cycle = true;
            }
          ]).found_cycle
            ≡ true
      found none k = absurd (k refl)
      found (some pos) k = refl
