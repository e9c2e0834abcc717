-- ===== src/Sorting/Plugins/Specific/Flags.antt =====
-- src/sorting/plugins.rs: the edges from masters to other plugins, and the error of reading a
-- plugin's masters.
use libloot.Prelude.{
  ℕ, zero, suc, ◌+◌, ◌≤◌, ◌<◌, ◌≡◌, refl, sym, ◌∙◌, subst, inl, inr, Bool, true, false, String,
  List, [], ◌∷◌, Memᴰ, mem_cons, not_mem_nil, true-false, count_from, mem-count_from, Bool-cases,
  ◌==◌, if◌then◌else◌, arith,
}
use libloot.Prelude.Result.{Result, ok, err, ◌>>=◌, map_err}
use libloot.External.Petgraph.{Petgraph}
use libloot.Sorting.Graph.{Reach}
use libloot.Sorting.Vertex.{EdgeType}
use libloot.Sorting.Error.{SortingError, PluginDataError, plugin_data}
use libloot.Sorting.Plugins.Data.{SortingPlugin, PluginSortingData, masters}
use libloot.Sorting.Plugins.Graph.{PluginsGraph, add_edge}
use libloot.Sorting.Plugins.Graph.Paths.{next_of, IsCacheSound}
use libloot.Sorting.Plugins.Graph.Growth.{Reach-add_edge}
use libloot.Sorting.Plugins.Specific.{
  add_master_flag_edges, add_specific_edges_at, add_specific_edges_from,
}
use libloot.Sorting.Plugins.Specific.Names.{
  Extends, Extends-refl, Extends-trans, add_edge-Extends, Reach-Extends,
}
use libloot.Sorting.Plugins.Specific.Follow.{
  AreHeeded, named_edges, named_edges-Heeds, add_specific_edges_at-AreHeeded,
  add_specific_edges_from-AreHeeded,
}

module _ {E T : Type 0} (trait : SortingPlugin E T) (P : Petgraph (PluginSortingData T))
    (unicase_eq : String → String → Bool) where
  abbrev Graph : Type 0
  Graph = PluginsGraph trait P

  -- If just one of the two plugins is a master, a walk leads from its node to the other's.
  abbrev IsLinked : PluginSortingData T → PluginSortingData T → Graph → ℕ → ℕ → Type 0
  IsLinked p q graph i j =
      (p.is_master ≡ true → q.is_master ≡ false → Reach (next_of trait P graph) i j)
      × (p.is_master ≡ false → q.is_master ≡ true → Reach (next_of trait P graph) j i)

  IsLinked-Extends :
      (p q : PluginSortingData T) {old new : Graph} {i j : ℕ}
      → Extends trait P old new
      → IsLinked p q old i j
      → IsLinked p q new i j
  IsLinked-Extends p q h k =
      (λ a b. Reach-Extends trait P h (k.0 a b), λ a b. Reach-Extends trait P h (k.1 a b))

  -- Each of the nodes is linked with the given one.
  abbrev AreLinked : PluginSortingData T → Graph → Graph → ℕ → List ℕ → Type 0
  AreLinked plugin old new i later =
      (x : ℕ) → Memᴰ x later → IsLinked plugin (P.index old.inner x) new i x

  add_master_flag_edges-AreLinked :
      (plugin : PluginSortingData T) (i : ℕ) (later : List ℕ) (graph : Graph)
      → i < P.node_count graph.inner
      → ((x : ℕ) → Memᴰ x later → x < P.node_count graph.inner)
      → IsCacheSound trait P graph
      → Extends trait P graph (add_master_flag_edges trait P unicase_eq plugin i later graph)
        × AreLinked plugin graph
            (add_master_flag_edges trait P unicase_eq plugin i later graph)
            i
            later
  unfolding add_master_flag_edges
  add_master_flag_edges-AreLinked plugin i [] graph hi hl sound =
      (Extends-refl trait P graph sound, λ x m. absurd (not_mem_nil m))
  add_master_flag_edges-AreLinked plugin i (x ∷ later) graph hi hl sound =
      let (one, link) = choice plugin.is_master refl (P.index graph.inner x).is_master refl in
      let (rest, links) =
        add_master_flag_edges-AreLinked plugin i later _ (omega (arith, one.grows.count, hi))
          (λ y m. omega (arith, one.grows.count, hl y (Memᴰ.tail m))) one.sound in
      (
        Extends-trans trait P one rest,
        λ y m. elim ((mem_cons y x later).0 m) [
          | inl same ↦
              subst
                (λ w.
                  IsLinked plugin (P.index graph.inner w)
                    (add_master_flag_edges trait P unicase_eq plugin i (x ∷ later) graph) i w)
                (sym same) (IsLinked-Extends plugin (P.index graph.inner x) rest link)
          | inr m' ↦
              subst
                (λ q.
                  IsLinked plugin q
                    (add_master_flag_edges trait P unicase_eq plugin i (x ∷ later) graph) i y)
                (one.grows.nodes y) (links y m')
        ],
      )
    where
      there : x < P.node_count graph.inner
      there = hl x (Memᴰ.head refl)

      choice :
          (a : Bool)
          → plugin.is_master ≡ a
          → (b : Bool) → (P.index graph.inner x).is_master ≡ b
          → Extends trait P graph (
              if a
              then if b then graph else add_edge trait P i x EdgeType.master_flag graph
              else if b
              then add_edge trait P x i EdgeType.master_flag graph
              else graph)
            × IsLinked plugin
                (P.index graph.inner x)
                (if a
                  then if b then graph else add_edge trait P i x EdgeType.master_flag graph
                  else if b
                  then add_edge trait P x i EdgeType.master_flag graph
                  else graph)
                i
                x
      choice true ea true eb = (
        Extends-refl trait P graph sound,
        (λ k l. absurd (true-false (sym eb ∙ l)), λ k l. absurd (true-false (sym ea ∙ k))),
      )
      choice true ea false eb = (
        add_edge-Extends trait P graph i x EdgeType.master_flag hi there sound,
        (
          λ k l. Reach-add_edge trait P graph i x EdgeType.master_flag hi there sound,
          λ k l. absurd (true-false (sym ea ∙ k)),
        ),
      )
      choice false ea true eb = (
        add_edge-Extends trait P graph x i EdgeType.master_flag there hi sound,
        (
          λ k l. absurd (true-false (sym k ∙ ea)),
          λ k l. Reach-add_edge trait P graph x i EdgeType.master_flag there hi sound,
        ),
      )
      choice false ea false eb = (
        Extends-refl trait P graph sound,
        (λ k l. absurd (true-false (sym k ∙ ea)), λ k l. absurd (true-false (sym l ∙ eb))),
      )

  -- An error is that of reading the masters of one of the plugins.
  abbrev pub CannotRead : Graph → List ℕ → SortingError E → Type 0
  CannotRead graph nodes e =
      (i : ℕ) × (d : PluginDataError E) × Memᴰ i nodes
      × (masters trait (P.index graph.inner i) ≡ err d)
      × (e ≡ plugin_data d)

  abbrev AtOutcome : ℕ → List ℕ → Graph → Result (SortingError E) Graph → Type 0
  AtOutcome i later graph (err e) = CannotRead graph (i ∷ []) e
  AtOutcome i later graph (ok new) = AreLinked (P.index graph.inner i) graph new i later

  add_specific_edges_at-AtOutcome :
      (i : ℕ) (later : List ℕ) (graph : Graph)
      → i < P.node_count graph.inner
      → ((x : ℕ) → Memᴰ x later → x < P.node_count graph.inner)
      → IsCacheSound trait P graph
      → AtOutcome i later graph (add_specific_edges_at trait P unicase_eq i later graph)
  unfolding add_specific_edges_at
  add_specific_edges_at-AtOutcome i later graph hi hl sound =
      let (extends, links) =
        add_master_flag_edges-AreLinked (P.index graph.inner i) i later graph hi hl sound in
      go (masters trait (P.index graph.inner i)) refl extends links
    where
      flagged : Graph
      flagged = add_master_flag_edges trait P unicase_eq (P.index graph.inner i) i later graph

      go :
          (r : Result (PluginDataError E) (List String))
          → masters trait (P.index graph.inner i) ≡ r
          → Extends trait P graph flagged
          → AreLinked (P.index graph.inner i) graph flagged i later
          → AtOutcome i later graph (
              map_err plugin_data r >>= λ names.
              ok (named_edges trait P unicase_eq i (P.index graph.inner i) names flagged))
      go (err d) e h links = (i, d, Memᴰ.head refl, e, refl)
      go (ok names) e h links =
          let named =
            named_edges-Heeds trait P unicase_eq i names (P.index graph.inner i) flagged flagged
              (omega (arith, h.grows.count, hi)) e (Extends-refl trait P flagged h.sound) in
          λ x m.
            IsLinked-Extends (P.index graph.inner i) (P.index graph.inner x) named.0 (links x m)

  -- Each node is linked with those that follow it in the list.
  abbrev AllLinked : Graph → Graph → List ℕ → Type 0
  AllLinked old new [] = Unit
  AllLinked old new (x ∷ xs) = AreLinked (P.index old.inner x) old new x xs × AllLinked old new xs

  AllLinked-first :
      (first old new : Graph) (nodes : List ℕ)
      → Extends trait P first old
      → AllLinked old new nodes
      → AllLinked first new nodes
  AllLinked-first first old new [] h k = tt
  AllLinked-first first old new (x ∷ xs) h k = (
    λ y m.
        subst (λ p. IsLinked p (P.index first.inner y) new x y) (h.grows.nodes x)
          (subst (λ q. IsLinked (P.index old.inner x) q new x y) (h.grows.nodes y) (k.0 y m)),
    AllLinked-first first old new xs h k.1,
  )

  abbrev pub FromOutcome : List ℕ → Graph → Result (SortingError E) Graph → Type 0
  FromOutcome nodes graph (err e) = CannotRead graph nodes e
  FromOutcome nodes graph (ok new) = AllLinked graph new nodes

  pub add_specific_edges_from-FromOutcome :
      (nodes : List ℕ) (graph : Graph)
      → ((x : ℕ) → Memᴰ x nodes → x < P.node_count graph.inner)
      → IsCacheSound trait P graph
      → FromOutcome nodes graph (add_specific_edges_from trait P unicase_eq nodes graph)
  unfolding add_specific_edges_from
  add_specific_edges_from-FromOutcome [] graph hl sound = tt
  add_specific_edges_from-FromOutcome (i ∷ later) graph hl sound =
      let here = hl i (Memᴰ.head refl) in
      let rest = λ (x : ℕ) (m : Memᴰ x later). hl x (Memᴰ.tail m) in
      go (add_specific_edges_at trait P unicase_eq i later graph)
        (add_specific_edges_at-AreHeeded trait P unicase_eq i later graph here rest sound)
        (add_specific_edges_at-AtOutcome i later graph here rest sound)
        (λ g below s. (
          add_specific_edges_from-AreHeeded trait P unicase_eq later g below s,
          add_specific_edges_from-FromOutcome later g below s,
        ))
    where
      Heeded : List ℕ → Graph → Result (SortingError E) Graph → Type 0
      Heeded nodes g r = AreHeeded trait P unicase_eq nodes g r

      join :
          (new : Graph)
          → Extends trait P graph new
          → AreLinked (P.index graph.inner i) graph new i later
          → (r : Result (SortingError E) Graph) → AreHeeded trait P unicase_eq later new r
          → FromOutcome later new r
          → FromOutcome (i ∷ later) graph r
      join new h one (err e) k (x, d, m, unread, same) =
          (x, d, Memᴰ.tail m, subst (λ p. masters trait p ≡ err d) (h.grows.nodes x) unread, same)
      join new h one (ok last) k links = (
        λ x m. IsLinked-Extends (P.index graph.inner i) (P.index graph.inner x) k.0 (one x m),
        AllLinked-first graph new last later h links,
      )

      go :
          (r : Result (SortingError E) Graph)
          → AreHeeded trait P unicase_eq (i ∷ []) graph r
          → AtOutcome i later graph r
          → ((g : Graph)
              → ((x : ℕ) → Memᴰ x later → x < P.node_count g.inner)
              → IsCacheSound trait P g
              → AreHeeded trait P unicase_eq later g
                  (add_specific_edges_from trait P unicase_eq later g)
                × FromOutcome later g (add_specific_edges_from trait P unicase_eq later g))
          → FromOutcome (i ∷ later) graph (r >>= add_specific_edges_from trait P unicase_eq later)
      go (err e) h (x, d, m, unread, same) rec = elim ((mem_cons x i []).0 m) [
        | inl eq ↦ (x, d, Memᴰ.head eq, unread, same)
        | inr m' ↦ absurd (not_mem_nil m')
      ]
      go (ok new) h one rec =
          let (heeded, links) =
            rec new (λ x m. omega (arith, h.0.grows.count, hl x (Memᴰ.tail m))) h.0.sound in
          join new h.0 one (add_specific_edges_from trait P unicase_eq later new) heeded links

  pub AllLinked-pair :
      (k n : ℕ) (old new : Graph) (i j : ℕ)
      → AllLinked old new (count_from k n)
      → k ≤ i
      → i < j
      → j < k + n
      → IsLinked (P.index old.inner i) (P.index old.inner j) new i j
  AllLinked-pair k zero old new i j h ki ij jn = absurd (omega arith)
  AllLinked-pair k (suc n) old new i j h ki ij jn = elim (Bool-cases (k == i)) [
    | inl e ↦
        let same : k ≡ i = ground arith in
        subst (λ w. IsLinked (P.index old.inner w) (P.index old.inner j) new w j) same
          (h.0 j (mem-count_from (suc k) n j (omega arith) (omega arith)))
    | inr e ↦ AllLinked-pair (suc k) n old new i j h.1 (ground arith) ij (omega arith)
  ]
