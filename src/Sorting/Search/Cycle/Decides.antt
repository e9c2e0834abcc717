-- ===== src/Sorting/Search/Cycle/Decides.antt =====
-- src/sorting/search.rs: the answer of the search for a cycle.
use libloot.Prelude.{
  ℕ, ◌≡◌, refl, subst, ◌↔◌, inl, inr, Bool, true, false, String, List, [], ◌∷◌, ◌++◌, Memᴰ,
  mem_cons, not_mem_nil, NodeMap, empty_map, insert_at, Option, none, some, init, range,
  mem-count_from, arith,
}
use mathlib.Core.List.Memᴰ
use libloot.External.Petgraph.{Petgraph, EdgeRef}
use libloot.Sorting.Graph.{Acyclic}
use libloot.Sorting.Vertex.{Vertex, vertex, with_out_edge_type}
use libloot.Sorting.Search.Dfs.{
  DfsVisitor, Colour, white, grey, black, colour_of, edges, on_edge, dfs_step, depth_first_search,
}
use libloot.Sorting.Search.Dfs.States.{IsKeptByStep, depth_first_search_invariant}
use libloot.Sorting.Search.Cycle.{
  CycleDetector, new_detector, into_cycle_path, node_name, on_tree_edge, on_finish, cycle_visitor,
  find_cycle_from, find_cycle,
}
use libloot.Sorting.Search.Cycle.Colours.{
  IsFinishedOrder, no_cycle_in_order, edges-OwnEdges, edges-cover,
}
use libloot.Sorting.Search.Cycle.Step.{
  HasCycle, Searching, Progressing, found_stays, coloured_cases, finish-Searching, cross-Searching,
  tree-Searching, back-found,
}

module _ {N : Type 0} (P : Petgraph N) (g : Petgraph.Graph P) (node_mapper : N → String) where
  abbrev visitor : DfsVisitor CycleDetector
  visitor = cycle_visitor P g node_mapper

  on_finish_lem :
      (n : ℕ) (d : CycleDetector)
      → d.found_cycle ≡ false
      → record d { trail = init d.trail } ≡ on_finish P g node_mapper n d
  unfolding on_finish
  on_finish_lem n d h = rw h refl

  on_tree_edge_lem :
      (e : EdgeRef) (d : CycleDetector)
      → d.found_cycle ≡ false
      → record d {
        trail =
            d.trail
            ++ with_out_edge_type (vertex (node_name P g node_mapper e.source)) e.weight ∷ [];
      }
        ≡ on_tree_edge P g node_mapper e d
  unfolding on_tree_edge
  on_tree_edge_lem e d h = rw h refl

  module _ (wanted : List ℕ) where
    on_edge-Progressing :
        (n : ℕ) (e : EdgeRef) (es : List EdgeRef) (below : List (ℕ × List EdgeRef))
        (colours : NodeMap Colour) (d : CycleDetector) (c : Colour)
        → colour_of colours e.target ≡ c
        → Searching P g node_mapper wanted ((n, e ∷ es) ∷ below) colours d
        → Progressing P g node_mapper wanted
            (on_edge P g visitor c e ((n, es) ∷ below) colours d).stack
            (on_edge P g visitor c e ((n, es) ∷ below) colours d).colours
            (on_edge P g visitor c e ((n, es) ∷ below) colours d).visitor
    unfolding on_edge cycle_visitor
    on_edge-Progressing n e es below colours d white k h = inr (
        subst
          (Searching P g node_mapper wanted ((e.target, edges P g e.target) ∷ (n, es) ∷ below)
            (insert_at e.target grey colours))
          (on_tree_edge_lem e d h.none_found)
          (tree-Searching P g node_mapper wanted n e es below colours d h))
    on_edge-Progressing n e es below colours d grey k h =
        inl (back-found P g node_mapper wanted n e es below colours d k h)
    on_edge-Progressing n e es below colours d black k h =
        inr (cross-Searching P g node_mapper wanted n e es below colours d k h)

    Progressing-kept : IsKeptByStep P g visitor (Progressing P g node_mapper wanted)
    unfolding dfs_step cycle_visitor
    Progressing-kept n es below colours d (inl (f, cycle)) =
        inl (found_stays P g node_mapper n es below colours d f, cycle)
    Progressing-kept n es below colours d (inr h) = by_edges es h
      where
        by_edges :
            (l : List EdgeRef)
            → Searching P g node_mapper wanted ((n, l) ∷ below) colours d
            → Progressing P g node_mapper wanted
                (dfs_step P g visitor n l below colours d).stack
                (dfs_step P g visitor n l below colours d).colours
                (dfs_step P g visitor n l below colours d).visitor
        by_edges [] h = inr (
            subst (Searching P g node_mapper wanted below (insert_at n black colours))
              (on_finish_lem n d h.none_found)
              (finish-Searching P g node_mapper wanted n below colours d h))
        by_edges (e ∷ l) h =
            on_edge-Progressing n e l below colours d (colour_of colours e.target) refl h

  start-Searching :
      (wanted : List ℕ) (start : ℕ) (colours : NodeMap Colour) (d : CycleDetector)
      → Searching P g node_mapper wanted [] colours d
      → Searching P g node_mapper
          (start ∷ wanted)
          ((start, edges P g start) ∷ [])
          (insert_at start grey colours)
          d
  start-Searching wanted start colours d h = record {
    order = h.order;
    finished = h.finished;
    is_stack = (edges-OwnEdges P g start, λ y m. inl (edges-cover P g start y m), tt);
    trail = h.trail;
    black_nodes = λ x c. elim (coloured_cases P g node_mapper start grey colours x black c) [
      | inl (same, wrong) ↦ absurd (cc)
      | inr (other, old) ↦ h.black_nodes x old
    ];
    grey_nodes = λ x c. elim (coloured_cases P g node_mapper start grey colours x grey c) [
      | inl (same, _) ↦ Memᴰ.head same
      | inr (other, old) ↦ absurd (not_mem_nil (h.grey_nodes x old))
    ];
    none_found = h.none_found;
    reached = λ x m. elim ((mem_cons x start wanted).0 m) [
      | inl same ↦ inr (Memᴰ.head same)
      | inr m' ↦ elim (h.reached x m') [ inl o ↦ inl o | inr s ↦ absurd (not_mem_nil s) ]
    ];
  }

  search-Progressing :
      (wanted : List ℕ) (start : ℕ) (colours : NodeMap Colour) (d : CycleDetector)
      → Searching P g node_mapper wanted [] colours d
      → Progressing P g node_mapper
          (start ∷ wanted)
          []
          (depth_first_search P g visitor start colours d).0
          (depth_first_search P g visitor start colours d).1
  unfolding cycle_visitor
  search-Progressing wanted start colours d h =
      depth_first_search_invariant P g visitor (Progressing P g node_mapper (start ∷ wanted))
        (Progressing-kept (start ∷ wanted)) start colours d
        (inr (start-Searching wanted start colours d h))

  -- What the loop over the nodes comes to.
  abbrev Answer : List ℕ → Option (List Vertex) → Type 0
  Answer wanted none =
      (order : List ℕ) × IsFinishedOrder (P.neighbors g) order
      × ((x : ℕ) → Memᴰ x wanted → Memᴰ x order)
  Answer wanted (some trail) = HasCycle P g node_mapper

  Answer-fewer :
      (less more : List ℕ) (o : Option (List Vertex))
      → ((x : ℕ) → Memᴰ x less → Memᴰ x more)
      → Answer more o
      → Answer less o
  Answer-fewer less more none sub (order, h, all) = (order, h, λ x m. all x (sub x m))
  Answer-fewer less more (some trail) sub c = c

  find_cycle_from-Answer :
      (nodes wanted : List ℕ) (colours : NodeMap Colour) (d : CycleDetector)
      → Searching P g node_mapper wanted [] colours d
      → Answer (nodes ++ wanted) (find_cycle_from P g node_mapper nodes colours d)
  unfolding find_cycle_from into_cycle_path
  find_cycle_from-Answer [] wanted colours d h = (
    h.order,
    h.finished,
    λ x m. elim (h.reached x m) [ inl o ↦ o | inr s ↦ absurd (not_mem_nil s) ],
  )
  find_cycle_from-Answer (node ∷ nodes) wanted colours d h =
      go (depth_first_search P g visitor node colours d)
        (search-Progressing wanted node colours d h) (find_cycle_from-Answer nodes (node ∷ wanted))
    where
      moved : (x : ℕ) → Memᴰ x (node ∷ nodes ++ wanted) → Memᴰ x (nodes ++ node ∷ wanted)
      moved x m = elim ((mem_cons x node (nodes ++ wanted)).0 m) [
        | inl same ↦ Memᴰ.append_right nodes (Memᴰ.head same)
        | inr m' ↦ elim (Memᴰ.append_cases nodes m') [
          | inl f ↦ Memᴰ.append_left (node ∷ wanted) f
          | inr b ↦ Memᴰ.append_right nodes (Memᴰ.tail b)
        ]
      ]

      decided :
          (r : NodeMap Colour × CycleDetector) (b : Bool)
          → r.1.found_cycle ≡ b
          → Progressing P g node_mapper (node ∷ wanted) [] r.0 r.1
          → ((c : NodeMap Colour) (d' : CycleDetector)
              → Searching P g node_mapper (node ∷ wanted) [] c d'
              → Answer (nodes ++ node ∷ wanted) (find_cycle_from P g node_mapper nodes c d'))
          → Answer (node ∷ nodes ++ wanted) (elim b as (λ x. Option (List Vertex)) [
            | true ↦ into_cycle_path r.1
            | false ↦ find_cycle_from P g node_mapper nodes r.0 r.1
          ])
      decided r true e (inl (f, cycle)) rec = rw f cycle
      decided r true e (inr s) rec = absurd (cc (s.none_found))
      decided r false e (inl (f, cycle)) rec = absurd (cc)
      decided r false e (inr s) rec =
          Answer-fewer (node ∷ nodes ++ wanted) (nodes ++ node ∷ wanted)
            (find_cycle_from P g node_mapper nodes r.0 r.1) moved (rec r.0 r.1 s)

      go :
          (r : NodeMap Colour × CycleDetector)
          → Progressing P g node_mapper (node ∷ wanted) [] r.0 r.1
          → ((c : NodeMap Colour) (d' : CycleDetector)
              → Searching P g node_mapper (node ∷ wanted) [] c d'
              → Answer (nodes ++ node ∷ wanted) (find_cycle_from P g node_mapper nodes c d'))
          → Answer (node ∷ nodes ++ wanted) (elim r.1.found_cycle as (λ x. Option (List Vertex)) [
            | true ↦ into_cycle_path r.1
            | false ↦ find_cycle_from P g node_mapper nodes r.0 r.1
          ])
      go r h rec = decided r r.1.found_cycle refl h rec

  -- The search for a cycle finds none exactly if the graph has none.
  pub find_cycle_iff : (find_cycle P g node_mapper ≡ none) ↔ Acyclic (P.neighbors g)
  unfolding find_cycle new_detector
  find_cycle_iff = decided (find_cycle P g node_mapper) (
      find_cycle_from-Answer (range (P.node_count g)) [] empty_map new_detector (record {
        order = [];
        finished = tt;
        is_stack = tt;
        trail = refl;
        black_nodes = λ x c. absurd (cc);
        grey_nodes = λ x c. absurd (cc);
        none_found = refl;
        reached = λ x m. absurd (not_mem_nil m);
      }))
    where
      decided :
          (o : Option (List Vertex))
          → Answer (range (P.node_count g) ++ []) o
          → (o ≡ none) ↔ Acyclic (P.neighbors g)
      decided none (order, h, all) = (
        λ e a b m r.
            no_cycle_in_order (P.neighbors g) order a b h
              (all a (
                Memᴰ.append_left [] (
                  mem-count_from 0 (P.node_count g) a (omega arith)
                    (omega (arith, (P.mem-neighbors-lt g a b m).0)))))
              m r,
        λ acyclic. refl,
      )
      decided (some trail) (a, b, m, r) = (λ e. absurd (cc), λ acyclic. absurd (acyclic a b m r))
