-- ===== src/Sorting/Plugins/TieBreak/Push.antt =====
-- src/sorting/plugins.rs: the parts of the loop's body that put nodes into the new load order.
use libloot.Prelude.{
  ℕ, ◌<◌, ◌≡◌, refl, subst, ◌⊎◌, inl, inr, true, false, List, [], ◌∷◌, ◌++◌, Memᴰ, length, mem_cons,
  mem_concat, not_mem_nil, arith, Bool-cases,
}
use mathlib.Core.List.Memᴰ
use libloot.External.Petgraph.{Petgraph}
use libloot.Sorting.Search.Bfs.Walks.{insert_cases}
use libloot.Sorting.Plugins.Data.{SortingPlugin, PluginSortingData}
use libloot.Sorting.Plugins.Graph.Paths.{next_of}
use libloot.Sorting.Plugins.Graph.Growth.{Grows-refl}
use libloot.Sorting.Plugins.TieBreak.{TieState, pin_node_position, pin_nodes, push_unprocessed}
use libloot.Sorting.Plugins.TieBreak.Chain.{IsChain, IsChain-concat, IsChain-tail, Reach-of_mem}
use libloot.Sorting.Plugins.TieBreak.Pin.{Pinned, pin_node_position-Pinned}
use libloot.Sorting.Plugins.TieBreak.Tied.{
  IsTied, Leads, Follows, Advance, Advance-refl, Advance-trans, IsChain-Grows,
}

module _ {E T : Type 0} (trait : SortingPlugin E T) (P : Petgraph (PluginSortingData T)) where
  abbrev State : Type 0
  State = TieState trait P

  abbrev pub In : State → ℕ → Type 0
  In s x = x < P.node_count s.graph.inner

  abbrev ChainOf : State → List ℕ → Type 0
  ChainOf s = IsChain (next_of trait P s.graph)

  -- The node is in the new load order, or can go to its end.
  abbrev pub Ready : State → ℕ → Type 0
  Ready s x = (s.processed_nodes x ≡ true) ⊎ Leads trait P s x

  pub record Pushed (s : State) (current : ℕ) (s' : State) : Type 0 where
    pub tied : IsTied trait P s'
    pub advance : Advance trait P s s'
    pub done : s'.processed_nodes current ≡ true

  -- A node that is not processed goes to the end.
  pub push_fresh-Pushed :
      (current : ℕ) (s : State)
      → IsTied trait P s
      → In s current
      → Leads trait P s current
      → s.processed_nodes current ≡ false
      → Pushed s current (push_unprocessed trait P current s)
  unfolding push_unprocessed
  push_fresh-Pushed current s tied hc lead fresh =
      rw (fresh, push_unprocessed)
        (record {
          tied = record {
            safe = tied.safe;
            listed =
                insert_cases (λ x. Memᴰ x (s.new_load_order ++ current ∷ [])) current
                  s.processed_nodes (Memᴰ.append_right s.new_load_order (Memᴰ.head refl))
                  (λ x m. Memᴰ.append_left (current ∷ []) (tied.listed x m));
            processed =
                λ x m. ground (arith, mem_concat x current s.new_load_order, tied.processed x);
            inside = λ x m. elim ((mem_concat x current s.new_load_order).0 m) [
              | inl old ↦ tied.inside x old
              | inr e ↦ rw e hc
            ];
            chain = lead;
          };
          advance = record { grows = Grows-refl trait P s.graph; more = λ x m. ground arith };
          done = ground arith;
        })

  -- Behind a node that went to the end, there may come what it leads to.
  pub push_fresh-Leads :
      (current next : ℕ) (s : State)
      → Leads trait P s current
      → Follows trait P s current next
      → s.processed_nodes current ≡ false
      → Leads trait P (push_unprocessed trait P current s) next
  unfolding push_unprocessed
  push_fresh-Leads current next s lead r fresh =
      rw (fresh, push_unprocessed)
        (IsChain-concat (next_of trait P s.graph) s.new_load_order current next lead r)

  pub push_unprocessed-Pushed :
      (current : ℕ) (s : State)
      → IsTied trait P s
      → In s current
      → Ready s current
      → Pushed s current (push_unprocessed trait P current s)
  unfolding push_unprocessed
  push_unprocessed-Pushed current s tied hc ready = elim (Bool-cases (s.processed_nodes current)) [
    | inl old ↦
        rw (old, push_unprocessed)
          (record { tied = tied; advance = Advance-refl trait P s; done = old })
    | inr fresh ↦ elim ready [
      | inl done ↦ absurd (cc)
      | inr lead ↦ push_fresh-Pushed current s tied hc lead fresh
    ]
  ]

  pub record PinnedAll (s : State) (nodes : List ℕ) (c : ℕ) (s' : State) : Type 0 where
    pub tied : IsTied trait P s'
    pub advance : Advance trait P s s'
    pub done : (x : ℕ) → Memᴰ x nodes → s'.processed_nodes x ≡ true
    pub leads : Leads trait P s c → Leads trait P s' c

  -- The nodes of a path to `c` are pinned one behind the other.
  pub pin_nodes-PinnedAll :
      (nodes : List ℕ) (c range_start : ℕ) (s : State) (pre post : List ℕ)
      → IsTied trait P s
      → ((x : ℕ) → Memᴰ x nodes → In s x)
      → ChainOf s (nodes ++ c ∷ [])
      → s.new_load_order ≡ pre ++ post
      → length pre ≡ range_start
      → ((x : ℕ) (xs : List ℕ) → nodes ≡ x ∷ xs → ChainOf s (pre ++ x ∷ []))
      → PinnedAll s nodes c (pin_nodes trait P nodes range_start s)
  unfolding pin_nodes
  pin_nodes-PinnedAll [] c range_start s pre post tied inside chain split at lead = record {
    tied = tied;
    advance = Advance-refl trait P s;
    done = λ x m. absurd (not_mem_nil m);
    leads = λ l. l;
  }
  pin_nodes-PinnedAll (node ∷ nodes) c range_start s pre post tied inside chain split at lead =
      go (pin_node_position trait P node range_start s)
        (pin_node_position-Pinned trait P node range_start s pre post tied
          (inside node (Memᴰ.head refl)) split at (lead node nodes refl))
        (pin_nodes-PinnedAll nodes c)
    where
      go :
          (r : ℕ × State)
          → Pinned trait P s node r
          → ((rs : ℕ) (s' : State) (pre' post' : List ℕ)
              → IsTied trait P s'
              → ((x : ℕ) → Memᴰ x nodes → In s' x)
              → ChainOf s' (nodes ++ c ∷ [])
              → s'.new_load_order ≡ pre' ++ post'
              → length pre' ≡ rs
              → ((x : ℕ) (xs : List ℕ) → nodes ≡ x ∷ xs → ChainOf s' (pre' ++ x ∷ []))
              → PinnedAll s' nodes c (pin_nodes trait P nodes rs s'))
          → PinnedAll s (node ∷ nodes) c (pin_nodes trait P nodes r.0 r.1)
      go (rs, s') p rec =
          let grown = IsChain-Grows trait P p.advance.grows (node ∷ nodes ++ c ∷ []) chain in
          let rest =
            rec rs s' p.pre p.post p.tied
              (λ x m. omega (arith, inside x (Memᴰ.tail m), p.advance.grows.count))
              (IsChain-tail (next_of trait P s'.graph) node (nodes ++ c ∷ []) grown) p.split p.at
              (λ x xs e.
                p.next_lead x
                  (subst (λ (l : List ℕ). ChainOf s' (node ∷ l ++ c ∷ [])) e grown).0) in
          record {
            tied = rest.tied;
            advance = Advance-trans trait P p.advance rest.advance;
            done = λ x m. elim ((mem_cons x node nodes).0 m) [
              | inl e ↦ rest.advance.more x (rw e p.done)
              | inr m' ↦ rest.done x m'
            ];
            leads = λ l. rest.leads (
                p.leads c
                  (Reach-of_mem (next_of trait P s.graph) node (nodes ++ c ∷ []) c chain
                    (Memᴰ.append_right nodes (Memᴰ.head refl)))
                  l);
          }
