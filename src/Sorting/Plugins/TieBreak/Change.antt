-- ===== src/Sorting/Plugins/TieBreak/Change.antt =====
-- src/sorting/plugins.rs: the round of the tie-breaks for a pair whose order a path changes.
use libloot.Prelude.{
  ℕ, ◌≡◌, refl, sym, ap, ◌∙◌, subst, ◌⊎◌, inl, inr, ⊎_elim, true, List, [], ◌∷◌, ◌++◌, Option, Memᴰ,
  insert, init, mem_cons, mem_concat, not_mem_nil, arith, Bool-cases,
}
use mathlib.Core.List.{append_assoc, append-nil}
use mathlib.Core.List.Memᴰ
use libloot.External.Petgraph.{Petgraph}
use libloot.Sorting.Graph.{IsWalk}
use libloot.Sorting.Plugins.Data.{SortingPlugin, PluginSortingData}
use libloot.Sorting.Plugins.Graph.{PluginsGraph}
use libloot.Sorting.Plugins.Graph.Paths.{next_of}
use libloot.Sorting.Plugins.Graph.Growth.{Grows-of_same}
use libloot.Sorting.Plugins.TieBreak.{TieState, push_path, is_node, change_order}
use libloot.Sorting.Plugins.TieBreak.Chain.{IsChain, IsChain-of_IsWalk}
use libloot.Sorting.Plugins.TieBreak.Push.{In, Ready, push_unprocessed-Pushed, pin_nodes-PinnedAll}
use libloot.Sorting.Plugins.TieBreak.Tied.{IsTied, Advance-trans}
use libloot.Sorting.Plugins.TieBreak.Keep.{Stepped}

-- A path is its nodes but the last, and its end.
init-walk :
    (next : ℕ → List ℕ) (a : ℕ) (l : List ℕ) (b : ℕ)
    → IsWalk next a l b
    → a ∷ l ≡ init (a ∷ l) ++ b ∷ []
init-walk next a [] b e = rw e
init-walk next a (x ∷ l) b (m, w) = ap (λ (r : List ℕ). a ∷ r) (init-walk next x l b w)

module _ {E T : Type 0} (trait : SortingPlugin E T) (P : Petgraph (PluginSortingData T)) where
  abbrev State : Type 0
  State = TieState trait P

  -- The nodes of a walk are in the graph.
  walk-In :
      (s : State) (x a : ℕ) (l : List ℕ) (b : ℕ)
      → In trait P s a
      → IsWalk (next_of trait P s.graph) a l b
      → Memᴰ x (a ∷ l)
      → In trait P s x
  walk-In s x a l b h w (Memᴰ.head e) = rw e h
  walk-In s x a [] b h w (Memᴰ.tail m) = absurd (not_mem_nil m)
  walk-In s x a (y ∷ l) b h w (Memᴰ.tail m) =
      walk-In s x y l b (P.mem-neighbors-lt s.graph.inner a y w.0).1 w.1 m

  -- What the loop that takes a path as the start of the order comes to.
  record PathPushed (s : State) (path : List ℕ) (s' : State) : Type 0 where
    graph : s'.graph ≡ s.graph
    order : s'.new_load_order ≡ s.new_load_order ++ path
    listed : (x : ℕ) → s'.processed_nodes x ≡ true → (s.processed_nodes x ≡ true) ⊎ Memᴰ x path
    processed : (x : ℕ) → (s.processed_nodes x ≡ true) ⊎ Memᴰ x path → s'.processed_nodes x ≡ true

  push_path-PathPushed : (path : List ℕ) (s : State) → PathPushed s path (push_path trait P path s)
  unfolding push_path
  push_path-PathPushed [] s = record {
    graph = refl;
    order = sym (append-nil s.new_load_order);
    listed = λ x m. inl m;
    processed = λ x m. ⊎_elim (λ h. h) (λ n. absurd (not_mem_nil n)) m;
  }
  push_path-PathPushed (node ∷ path) s =
      let rest = push_path-PathPushed path (record s {
        new_load_order = s.new_load_order ++ node ∷ [];
        processed_nodes = insert node s.processed_nodes;
      }) in
      record {
        graph = rest.graph;
        order = rest.order ∙ append_assoc s.new_load_order (node ∷ []) path;
        listed = λ x m. ground (arith, rest.listed x m, mem_cons x node path);
        processed = λ x m. rest.processed x (ground (arith, mem_cons x node path));
      }

  -- A path leads from the second node to the first one.
  pub change_order-Stepped :
      (first : Option ℕ) (current next : ℕ) (l : List ℕ) (s : State)
      → IsTied trait P s
      → In trait P s current
      → In trait P s next
      → Ready trait P s current
      → (is_node first current ≡ true → s.new_load_order ≡ [])
      → IsWalk (next_of trait P s.graph) next l current
      → Stepped trait P s current next (change_order trait P first current (next ∷ l) s)
  unfolding change_order
  change_order-Stepped first current next l s tied hc hn ready empty walk =
      elim (Bool-cases (is_node first current)) [
        | inl is_first ↦
            let p = push_path-PathPushed (next ∷ l) s in
            let order = p.order ∙ ap (λ (o : List ℕ). o ++ next ∷ l) (empty is_first) in
            let inside = λ (x : ℕ) (m : Memᴰ x (next ∷ l)). walk-In s x next l current hn walk m in
            rw (is_first, change_order)
              (record {
                tied = record {
                  safe = rw p.graph tied.safe;
                  listed = λ x m.
                      ⊎_elim
                        (λ h.
                          absurd (not_mem_nil (subst (Memᴰ x) (empty is_first) (tied.listed x h))))
                        (λ h. subst (Memᴰ x) (sym order) h) (p.listed x m);
                  processed = λ x m. p.processed x (inr (subst (Memᴰ x) order m));
                  inside = λ x m. rw p.graph (inside x (subst (Memᴰ x) order m));
                  chain =
                      rw (p.graph, order)
                        (IsChain-of_IsWalk (next_of trait P s.graph) next l current walk);
                };
                advance = record {
                  grows =
                      Grows-of_same trait P s.graph _
                        (ap (λ (g : PluginsGraph trait P). g.inner) p.graph);
                  more = λ x h. p.processed x (inl h);
                };
                done = p.processed current (
                    inr (
                      subst (Memᴰ current) (sym whole)
                        (Memᴰ.append_right (init (next ∷ l)) (Memᴰ.head refl))));
                ready = inl (p.processed next (inr (Memᴰ.head refl)));
              })
        | inr later ↦
            rw (later, change_order)
              (let pinned =
                  pin_nodes-PinnedAll trait P (init (next ∷ l)) current 0 s [] s.new_load_order tied
                    (λ x m.
                      walk-In s x next l current hn walk
                        (subst (Memᴰ x) (sym whole) (Memᴰ.append_left (current ∷ []) m)))
                    (subst (IsChain (next_of trait P s.graph)) whole
                      (IsChain-of_IsWalk (next_of trait P s.graph) next l current walk))
                    refl refl (λ x xs e. tt) in
                let pushed =
                  push_unprocessed-Pushed trait P current _ pinned.tied
                    (omega (arith, hc, pinned.advance.grows.count))
                    (⊎_elim (λ h. inl (pinned.advance.more current h)) (λ h. inr (pinned.leads h))
                      ready) in
                record {
                  tied = pushed.tied;
                  advance = Advance-trans trait P pinned.advance pushed.advance;
                  done = pushed.done;
                  ready = inl (
                      ⊎_elim (λ m. pushed.advance.more next (pinned.done next m))
                        (λ e. rw e pushed.done)
                        ((mem_concat next current (init (next ∷ l))).0
                          (subst (Memᴰ next) whole (Memᴰ.head refl))));
                })
      ]
    where
      whole : next ∷ l ≡ init (next ∷ l) ++ current ∷ []
      whole = init-walk (next_of trait P s.graph) next l current walk
