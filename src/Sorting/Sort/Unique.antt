-- ===== src/Sorting/Sort/Unique.antt =====
-- src/sorting/plugins.rs: the end of `sort_plugins_partition`.
use libloot.Prelude.{ℕ, ◌≡◌, sym, arith, Bool, String, List, Memᴰ, none}
use libloot.Prelude.Result.{Result, ok}
use libloot.External.Petgraph.{Petgraph}
use libloot.Sorting.Graph.{Acyclic}
use libloot.Sorting.Plugins.Data.{SortingPlugin, PluginSortingData}
use libloot.Sorting.Plugins.Graph.{PluginsGraph}
use libloot.Sorting.Plugins.Graph.Paths.{next_of}
use libloot.Sorting.Plugins.Graph.Growth.{Grows, IsSafe}
use libloot.Sorting.Plugins.TieBreak.{TieState, add_tie_break_edges}
use libloot.Sorting.Plugins.TieBreak.Total.{add_tie_break_edges-IsDecided}
use libloot.Sorting.Sort.{topological_sort, check_path_is_hamiltonian}
use libloot.Sorting.Sort.Order.{
  IsTopologicalOrder, IsSortedPath-of_order, IsSortedPath-unique, no_gap,
}

-- What the documentation of `petgraph::algo::toposort` says: a graph without cycles has an order
-- of all its nodes in which each is before its successors, and the function returns one.
abbrev pub IsToposort :
    {N : Type 0} (P : Petgraph N) → (Petgraph.Graph P → Result ℕ (List ℕ)) → Type 0
IsToposort P toposort =
    (g : P.Graph)
    → Acyclic (P.neighbors g)
    → (path : List ℕ) × (toposort g ≡ ok path) × IsTopologicalOrder P g path

module _ {E T : Type 0} (trait : SortingPlugin E T) (P : Petgraph (PluginSortingData T))
    (Q : Petgraph String) (unicase_eq : String → String → Bool)
    (toposort : P.Graph → Result ℕ (List ℕ)) where
  -- What the tie-breaks and the sort come to: the order of the nodes, with no error, no pair of
  -- neighbours in it that the check of the path would find without an edge, and no other order.
  pub record HasOneOrder (graph : PluginsGraph trait P) : Type 0 where
    pub tied : TieState trait P
    pub path : List ℕ
    pub ties_broken : add_tie_break_edges trait P graph ≡ ok tied
    pub grows : Grows trait P graph tied.graph
    pub safe : IsSafe trait P tied.graph
    pub sorted : topological_sort trait P Q unicase_eq toposort tied.graph ≡ ok path
    pub order : IsTopologicalOrder P tied.graph.inner path
    pub hamiltonian : check_path_is_hamiltonian trait P Q unicase_eq toposort tied.graph path ≡ none
    pub only : (other : List ℕ) → IsTopologicalOrder P tied.graph.inner other → other ≡ path

  -- If `toposort` does what its documentation says, then from a graph without cycles and with a
  -- sound cache the tie-breaks and the topological sort return with no error, the tie-breaks keep
  -- the nodes and the edges, make no cycle and keep the cache sound, the order that comes out has each node before those that its edges
  -- lead to, it is the only such order, and the check of the path finds no pair without an edge.
  pub topological_sort-HasOneOrder :
      IsToposort P toposort
      → (graph : PluginsGraph trait P) → IsSafe trait P graph
      → HasOneOrder graph
  unfolding topological_sort check_path_is_hamiltonian
  topological_sort-HasOneOrder contract graph safe =
      let (s, e, decided) = add_tie_break_edges-IsDecided trait P graph safe in
      let (path, se, order) = contract s.graph.inner decided.safe.acyclic in
      let count = decided.grows.count in
      let total = λ (x y : ℕ) (mx : Memᴰ x path) (my : Memᴰ y path).
        decided.total x y (omega (arith, (order.all x).0 mx, count))
          (omega (arith, (order.all y).0 my, count)) in
      record {
        tied = s;
        path = path;
        ties_broken = e;
        grows = decided.grows;
        safe = decided.safe;
        sorted = rw se;
        order = order;
        hamiltonian =
            no_gap trait P s.graph path decided.safe.acyclic total
              (IsSortedPath-of_order P s.graph.inner path order);
        only = λ other h. sym (
            IsSortedPath-unique (next_of trait P s.graph) path other decided.safe.acyclic total
              (λ x. (λ m. (h.all x).1 ((order.all x).0 m), λ m. (order.all x).1 ((h.all x).0 m)))
              (IsSortedPath-of_order P s.graph.inner path order)
              (IsSortedPath-of_order P s.graph.inner other h));
      }
