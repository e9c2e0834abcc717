-- ===== src/Sorting/Sort/Rules.antt =====
-- src/sorting/plugins.rs: what the data and the metadata of the plugins ask of a load order.
use libloot.Prelude.{
  ℕ, ◌<◌, ◌≡◌, ap, ◌∙◌, Bool, refl, String, List, [], ◌∷◌, map, Memᴰ, IsDistinct, none, some,
  position, ◌↔◌, ◌⊎◌, inl, inr, arith,
}
use libloot.Prelude.Result.{ok}
use libloot.External.Petgraph.{Petgraph}
use libloot.Sorting.Graph.{Reach, Reach-mono}
use libloot.Sorting.Plugins.Data.{SortingPlugin, PluginSortingData, name, masters}
use libloot.Sorting.Plugins.Graph.{PluginsGraph}
use libloot.Sorting.Plugins.Graph.Paths.{next_of}
use libloot.Sorting.Plugins.Graph.Growth.{Grows}
use libloot.Sorting.Plugins.Specific.{at}
use libloot.Sorting.Plugins.Specific.Names.{Extends, Reach-Extends, found, node_index_by_name_lt}
use libloot.Sorting.Plugins.Specific.Follow.{Heeds}
use libloot.Sorting.Plugins.Specific.Early.{LoadsEarly}
use libloot.Sorting.Plugins.Specific.Loaders.{early_position}
use libloot.Sorting.Sort.Order.{
  IsTopologicalOrder, IsSortedPath-of_order, NotBehind, Reach-NotBehind,
}

module _ {E T : Type 0} (trait : SortingPlugin E T) (P : Petgraph (PluginSortingData T))
    (unicase_eq : String → String → Bool) where
  abbrev Graph : Type 0
  Graph = PluginsGraph trait P

  abbrev plugin_at : Graph → ℕ → PluginSortingData T
  plugin_at = at trait P unicase_eq

  -- One of the names stands for a node.
  abbrev Names : Graph → List String → ℕ → Type 0
  Names graph names j = (n : String) × Memᴰ n names × (found trait P unicase_eq n graph ≡ some j)

  -- The nodes that a node's plugin must come after, by its masters and its metadata.
  abbrev pub IsAsked : Graph → ℕ → ℕ → Type 0
  IsAsked graph i j =
      ((names : List String) × (masters trait (plugin_at graph i) ≡ ok names) × Names graph names j)
      ⊎ Names graph (plugin_at graph i).masterlist_req j
      ⊎ Names graph (plugin_at graph i).user_req j
      ⊎ Names graph (plugin_at graph i).masterlist_load_after j
      ⊎ Names graph (plugin_at graph i).user_load_after j

  -- A relation of coming before holds between each plugin and those that it must come after, the
  -- early loaders in the order of their list, and the early loaders and the other plugins.
  pub record MeetsRules (early : List String) (graph : Graph) (Before : ℕ → ℕ → Type 0)
      : Type 0 where
    pub asked : (i j : ℕ) → i < P.node_count graph.inner → IsAsked graph i j → Before j i
    pub early_in_order :
        (x y i j : ℕ)
        → x < P.node_count graph.inner
        → y < P.node_count graph.inner
        → early_position trait P unicase_eq early graph x ≡ some i
        → early_position trait P unicase_eq early graph y ≡ some j
        → i < j
        → Before x y
    pub early_before_others :
        (x y i : ℕ)
        → x < P.node_count graph.inner
        → y < P.node_count graph.inner
        → early_position trait P unicase_eq early graph x ≡ some i
        → early_position trait P unicase_eq early graph y ≡ none
        → Before x y

  asked_lt : (graph : Graph) (i j : ℕ) → IsAsked graph i j → j < P.node_count graph.inner
  asked_lt graph i j h = go h
    where
      lt : (names : List String) → Names graph names j → j < P.node_count graph.inner
      lt names (n, m, e) = node_index_by_name_lt trait P unicase_eq n graph j e

      go : IsAsked graph i j → j < P.node_count graph.inner
      go (inl (names, read, h)) = lt names h
      go (inr (inl h)) = lt _ h
      go (inr (inr (inl h))) = lt _ h
      go (inr (inr (inr (inl h)))) = lt _ h
      go (inr (inr (inr (inr h)))) = lt _ h

  pub MeetsRules-map :
      {Before After : ℕ → ℕ → Type 0} (early : List String) (graph : Graph)
      → ((x y : ℕ) → x < P.node_count graph.inner → Before x y → After x y)
      → MeetsRules early graph Before
      → MeetsRules early graph After
  MeetsRules-map early graph f h = record {
    asked = λ i j hi a. f j i (asked_lt graph i j a) (h.asked i j hi a);
    early_in_order = λ x y i j hx hy ei ej lt. f x y hx (h.early_in_order x y i j hx hy ei ej lt);
    early_before_others = λ x y i hx hy ei ej. f x y hx (h.early_before_others x y i hx hy ei ej);
  }

  Heeds-asked :
      (old new : Graph) (i j : ℕ)
      → Heeds trait P unicase_eq (plugin_at old i) old new i
      → IsAsked old i j
      → Reach (next_of trait P new) j i
  Heeds-asked old new i j h (inl (names, read, (n, m, e))) = h.after_masters names read n j m e
  Heeds-asked old new i j h (inr (inl (n, m, e))) = h.masterlist_req n j m e
  Heeds-asked old new i j h (inr (inr (inl (n, m, e)))) = h.user_req n j m e
  Heeds-asked old new i j h (inr (inr (inr (inl (n, m, e))))) = h.masterlist_load_after n j m e
  Heeds-asked old new i j h (inr (inr (inr (inr (n, m, e))))) = h.user_load_after n j m e

  early_position-Grows :
      (early : List String) (old new : Graph) (x : ℕ)
      → Grows trait P old new
      → early_position trait P unicase_eq early new x
        ≡ early_position trait P unicase_eq early old x
  early_position-Grows early old new x h =
      ap (λ (p : PluginSortingData T). position (λ e. unicase_eq e (name trait p)) early)
        (h.nodes x)

  -- The specific edges and those of the early loaders give walks for all that is asked.
  pub MeetsRules-of_edges :
      (early : List String) (start g₁ g₂ : Graph)
      → Extends trait P start g₁
      → ((i : ℕ)
          → i < P.node_count start.inner
          → Heeds trait P unicase_eq (plugin_at start i) start g₁ i)
      → LoadsEarly trait P unicase_eq early g₁ g₂
      → MeetsRules early start (Reach (next_of trait P g₂))
  MeetsRules-of_edges early start g₁ g₂ ext heeds h =
      let count = ext.grows.count in
      let same = λ (x : ℕ). early_position-Grows early start g₁ x ext.grows in
      record {
        asked =
            λ i j hi a. Reach-Extends trait P h.extends (Heeds-asked start g₁ i j (heeds i hi) a);
        early_in_order = λ x y i j hx hy ei ej lt.
            h.in_order x y i j (omega (arith, hx, count)) (omega (arith, hy, count)) (same x ∙ ei)
              (same y ∙ ej) lt;
        early_before_others = λ x y i hx hy ei ej.
            h.before_others x y i (omega (arith, hx, count)) (omega (arith, hy, count))
              (same x ∙ ei) (same y ∙ ej);
      }

  -- The names of all the nodes, each once, in an order that meets the rules.
  pub record IsLoadOrder (early : List String) (graph : Graph) (names : List String) : Type 0 where
    pub order : List ℕ
    pub named : names ≡ map (λ i. name trait (plugin_at graph i)) order
    pub distinct : IsDistinct order
    pub all : (x : ℕ) → Memᴰ x order ↔ (x < P.node_count graph.inner)
    pub rules : MeetsRules early graph (NotBehind order)

  map_ext : {A B : Type 0} (f g : A → B) (l : List A) → ((a : A) → f a ≡ g a) → map f l ≡ map g l
  map_ext f g [] h = refl
  map_ext f g (a ∷ l) h = rw (h a, map_ext f g l h) refl

  -- A topological order of a graph with more edges gives such an order.
  pub IsLoadOrder-of_order :
      (early : List String) (start prepared last : Graph) (path : List ℕ)
      → MeetsRules early start (Reach (next_of trait P prepared))
      → Grows trait P start prepared
      → Grows trait P prepared last
      → IsTopologicalOrder P last.inner path
      → IsLoadOrder early start (map (λ i. name trait (plugin_at last i)) path)
  IsLoadOrder-of_order early start prepared last path rules h k topo =
      let all : (x : ℕ) → Memᴰ x path ↔ (x < P.node_count start.inner) = λ x. (
        λ m. omega (arith, (topo.all x).0 m, h.count, k.count),
        λ lt. (topo.all x).1 (omega (arith, lt, h.count, k.count)),
      ) in
      record {
        order = path;
        named = map_ext _ _ path (λ i. ap (name trait) (k.nodes i ∙ h.nodes i));
        distinct = topo.distinct;
        all = all;
        rules =
            MeetsRules-map early start
              (λ x y hx r.
                Reach-NotBehind (next_of trait P last) path x y
                  (IsSortedPath-of_order P last.inner path topo) ((all x).1 hx)
                  (Reach-mono k.kept r))
              rules;
      }
