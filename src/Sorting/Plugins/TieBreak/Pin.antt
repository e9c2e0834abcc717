-- ===== src/Sorting/Plugins/TieBreak/Pin.antt =====
-- src/sorting/plugins.rs: pinning a node in the new load order.
use libloot.Prelude.{
  ℕ, suc, ◌<◌, ◌≡◌, refl, sym, ◌∙◌, subst, ◌⊎◌, inl, inr, true, false, List, [], ◌∷◌, ◌++◌, Option,
  Memᴰ, insert, length, length-append, get_elem?, insert_index, drop, mem_cons, not_mem_nil, arith,
  Bool-cases,
}
use mathlib.Core.List.{reverse, reverse-reverse, append_assoc, append-nil}
use mathlib.Core.List.Memᴰ
use libloot.External.Petgraph.{Petgraph}
use libloot.Sorting.Graph.{Reach}
use libloot.Sorting.Search.Bfs.Walks.{insert_cases}
use libloot.Sorting.Plugins.Data.{SortingPlugin, PluginSortingData}
use libloot.Sorting.Plugins.Graph.{PluginsGraph}
use libloot.Sorting.Plugins.Graph.Paths.{next_of}
use libloot.Sorting.Plugins.Graph.Growth.{Grows, Progress-trans, Progress-of_same}
use libloot.Sorting.Plugins.TieBreak.{
  TieState, last_unreached, add_edge_from, add_edge_to, preceding, insert_position,
  pin_node_position,
}
use libloot.Sorting.Plugins.TieBreak.Chain.{
  IsChain, ReachesHead, IsChain-insert, IsChain-replace_last, IsChain-concat, insert_index-append,
  drop-append,
}
use libloot.Sorting.Plugins.TieBreak.Scan.{Scanned, last_unreached-Scanned}
use libloot.Sorting.Plugins.TieBreak.Put.{Put, Put-node}
use libloot.Sorting.Plugins.TieBreak.Tied.{
  IsTied, Leads, Follows, Advance, Advance-refl, IsChain-Grows, Reach-Grows,
}

ReachesHead-append :
    (next : ℕ → List ℕ) (a : ℕ) (xs : List ℕ) (c : ℕ)
    → ReachesHead next a xs
    → Reach next a c
    → ReachesHead next a (xs ++ c ∷ [])
ReachesHead-append next a [] c h r = r
ReachesHead-append next a (x ∷ xs) c h r = h

mem_insert :
    (front : List ℕ) (a : ℕ) (back : List ℕ) (x : ℕ)
    → Memᴰ x (front ++ a ∷ back)
    → (x ≡ a) ⊎ Memᴰ x (front ++ back)
mem_insert front a back x m = elim (Memᴰ.append_cases front m) [
  | inl f ↦ inr (Memᴰ.append_left back f)
  | inr b ↦ elim ((mem_cons x a back).0 b) [
    | inl e ↦ inl e
    | inr b' ↦ inr (Memᴰ.append_right front b')
  ]
]

mem-insert_old :
    (front : List ℕ) (a : ℕ) (back : List ℕ) (x : ℕ)
    → Memᴰ x (front ++ back)
    → Memᴰ x (front ++ a ∷ back)
mem-insert_old front a back x m = elim (Memᴰ.append_cases front m) [
  | inl f ↦ Memᴰ.append_left (a ∷ back) f
  | inr b ↦ Memᴰ.append_right front (Memᴰ.tail b)
]

module _ {E T : Type 0} (trait : SortingPlugin E T) (P : Petgraph (PluginSortingData T)) where
  abbrev Graph : Type 0
  Graph = PluginsGraph trait P

  abbrev State : Type 0
  State = TieState trait P

  -- What pinning a node comes to: it is processed, what comes after it can be pinned from the new
  -- position on, and what the load order's end led to before, and `node` leads to, it leads to still.
  pub record Pinned (s : State) (node : ℕ) (r : ℕ × State) : Type 0 where
    pub tied : IsTied trait P r.1
    pub advance : Advance trait P s r.1
    pub done : r.1.processed_nodes node ≡ true
    pub pre : List ℕ
    pub post : List ℕ
    pub split : r.1.new_load_order ≡ pre ++ post
    pub at : length pre ≡ r.0
    pub next_lead :
        (m : ℕ) → Follows trait P r.1 node m → IsChain (next_of trait P r.1.graph) (pre ++ m ∷ [])
    pub leads : (c : ℕ) → Follows trait P s node c → Leads trait P s c → Leads trait P r.1 c

  -- The state after a node went between two parts of the load order.
  Put-state :
      (s : State) (node : ℕ) (order : List ℕ) (position : ℕ) (g : Graph)
      → order ≡ s.new_load_order
      → IsTied trait P s
      → node < P.node_count s.graph.inner
      → Put trait P s.graph node order position g
      → Pinned s node (
        suc position,
        record {
          graph = g;
          new_load_order = insert_index position node order;
          processed_nodes = insert node s.processed_nodes;
        },
      )
  Put-state s node order position g same tied hn put =
      rw (← put.at, put.split, insert_index-append put.front node put.back)
        (record {
          tied = record {
            safe = put.joined.progress.safe;
            listed =
                insert_cases (λ x. Memᴰ x (put.front ++ node ∷ put.back)) node s.processed_nodes
                  (Memᴰ.append_right put.front (Memᴰ.head refl))
                  (λ x m.
                    mem-insert_old put.front node put.back x
                      (subst (Memᴰ x) old_order (tied.listed x m)));
            processed = λ x m. elim (mem_insert put.front node put.back x m) [
              | inl e ↦ ground arith
              | inr old ↦ ground (arith, tied.processed x (subst (Memᴰ x) (sym old_order) old))
            ];
            inside = λ x m. elim (mem_insert put.front node put.back x m) [
              | inl e ↦ omega (arith, hn, grows.count)
              | inr old ↦
                  omega (arith, tied.inside x (subst (Memᴰ x) (sym old_order) old), grows.count)
            ];
            chain =
                IsChain-insert (next_of trait P g) put.front node put.back
                  (IsChain-Grows trait P grows (put.front ++ put.back)
                    (subst (IsChain (next_of trait P s.graph)) old_order tied.chain))
                  put.joined.lead put.joined.reaches;
          };
          advance = record { grows = grows; more = λ x m. ground arith };
          done = ground arith;
          pre = put.front ++ node ∷ [];
          post = put.back;
          split = sym (append_assoc put.front (node ∷ []) put.back);
          at = omega (arith, length-append put.front (node ∷ []));
          next_lead = λ m r. IsChain-concat (next_of trait P g) put.front node m put.joined.lead r;
          leads = λ c r l. rw (append_assoc put.front (node ∷ put.back) (c ∷ [])) (
              IsChain-insert (next_of trait P g) put.front node (put.back ++ c ∷ [])
                (subst (IsChain (next_of trait P g)) (append_assoc put.front put.back (c ∷ [])) (
                  IsChain-Grows trait P grows ((put.front ++ put.back) ++ c ∷ []) (
                    subst (λ (o : List ℕ). IsChain (next_of trait P s.graph) (o ++ c ∷ []))
                      old_order l)))
                put.joined.lead
                (ReachesHead-append (next_of trait P g) node put.back c put.joined.reaches
                  (Reach-Grows trait P grows node c r)));
        })
    where
      old_order : s.new_load_order ≡ put.front ++ put.back
      old_order = sym same ∙ put.split

      grows : Grows trait P s.graph g
      grows = put.joined.progress.grows

  -- The search has changed only the cache, so its graph may stand for the state's.
  Put-after :
      (s : State) (node : ℕ) (pre post : List ℕ)
      → IsTied trait P s
      → node < P.node_count s.graph.inner
      → s.processed_nodes node ≡ false
      → IsChain (next_of trait P s.graph) (pre ++ node ∷ [])
      → (r : Option ℕ × Graph) → Scanned trait P s.graph node post r
      → s.new_load_order ≡ pre ++ post
      → Put trait P s.graph node (pre ++ post) (insert_position trait P (length pre) r.0) (
          add_edge_to trait P node
            (get_elem? (pre ++ post) (insert_position trait P (length pre) r.0))
            (add_edge_from trait P (preceding trait P (length pre) r.0 (pre ++ post)) node r.1))
  Put-after s node pre post tied hn fresh lead r scan split =
      let searched = Progress-of_same trait P s.graph r.1 scan.same scan.sound tied.safe in
      let put =
        Put-node trait P r.1 node pre post searched.safe (omega (arith, hn, searched.grows.count))
          (λ y m. omega (arith, tied.inside y (subst (Memᴰ y) (sym split) m), searched.grows.count))
          (λ y m e. ground (arith, tied.processed y (subst (Memᴰ y) (sym split) m)))
          (IsChain-Grows trait P searched.grows (pre ++ post)
            (subst (IsChain (next_of trait P s.graph)) split tied.chain))
          (IsChain-Grows trait P searched.grows (pre ++ node ∷ []) lead) r.0
          (rw scan.same scan.place) in
      record {
        front = put.front;
        back = put.back;
        split = put.split;
        at = put.at;
        joined = record {
          progress = Progress-trans trait P searched put.joined.progress;
          lead = put.joined.lead;
          reaches = put.joined.reaches;
        };
      }

  placed :
      (s : State) (node : ℕ) (pre post : List ℕ)
      → IsTied trait P s
      → node < P.node_count s.graph.inner
      → s.processed_nodes node ≡ false
      → IsChain (next_of trait P s.graph) (pre ++ node ∷ [])
      → (r : Option ℕ × Graph) → Scanned trait P s.graph node post r
      → (start : ℕ) → length pre ≡ start
      → (o : List ℕ) → o ≡ s.new_load_order
      → o ≡ pre ++ post
      → Pinned s node (
        suc (insert_position trait P start r.0),
        record {
          graph =
              add_edge_to trait P node
                (get_elem? o (insert_position trait P start r.0))
                (add_edge_from trait P (preceding trait P start r.0 o) node r.1);
          new_load_order = insert_index (insert_position trait P start r.0) node o;
          processed_nodes = insert node s.processed_nodes;
        },
      )
  placed s node pre post tied hn fresh lead r scan start at o same split =
      rw (← at, split)
        (Put-state s node (pre ++ post) (insert_position trait P (length pre) r.0) _
          (sym split ∙ same) tied hn
          (Put-after s node pre post tied hn fresh lead r scan (sym same ∙ split)))

  pub pin_node_position-Pinned :
      (node range_start : ℕ) (s : State) (pre post : List ℕ)
      → IsTied trait P s
      → node < P.node_count s.graph.inner
      → s.new_load_order ≡ pre ++ post
      → length pre ≡ range_start
      → IsChain (next_of trait P s.graph) (pre ++ node ∷ [])
      → Pinned s node (pin_node_position trait P node range_start s)
  unfolding pin_node_position
  pin_node_position-Pinned node range_start s pre post tied hn split at lead =
      elim (Bool-cases (s.processed_nodes node)) [
        | inl skipped ↦
            rw (skipped, pin_node_position)
              (record {
                tied = tied;
                advance = Advance-refl trait P s;
                done = skipped;
                pre = pre;
                post = post;
                split = split;
                at = at;
                next_lead = λ m r. IsChain-replace_last (next_of trait P s.graph) pre node m lead r;
                leads = λ c r l. l;
              })
        | inr fresh ↦
            rw (fresh, pin_node_position)
              (placed s node pre post tied hn fresh lead
                (last_unreached trait P node (reverse (drop range_start s.new_load_order)) s.graph)
                scanned range_start at s.new_load_order refl split)
      ]
    where
      searched : reverse (reverse (drop range_start s.new_load_order)) ++ [] ≡ post
      searched =
          append-nil (reverse (reverse (drop range_start s.new_load_order)))
          ∙ reverse-reverse (drop range_start s.new_load_order)
          ∙ rw (← at, split) (drop-append pre post)

      scanned :
          Scanned trait P s.graph node post
            (last_unreached trait P node (reverse (drop range_start s.new_load_order)) s.graph)
      scanned =
          subst
            (λ (w : List ℕ).
              Scanned trait P s.graph node w
                (last_unreached trait P node (reverse (drop range_start s.new_load_order)) s.graph))
            searched
            (last_unreached-Scanned trait P node (reverse (drop range_start s.new_load_order)) []
              s.graph tied.safe.sound (λ y m. absurd (not_mem_nil m)))
