-- ===== src/External/Petgraph.antt =====
-- The graphs of the petgraph crate. Its code is not part of the repository, so a graph is a
-- parameter: a record of the operations that src/sorting calls, with what the crate's
-- documentation says of them. Node indices are the numbers below `node_count`.
pub mod Sample
use libloot.Prelude.{ℕ, suc, ◌<◌, ◌≡◌, ◌↔◌, ◌⊎◌, Bool, true, Option, List, [], map, Memᴰ}
use libloot.Sorting.Vertex.{EdgeType}

-- An edge, as `edges` yields it.
pub record EdgeRef : Type 0 where
  pub source : ℕ
  pub target : ℕ
  pub weight : EdgeType

pub record Petgraph (N : Type 0) : Type 1 where
  pub Graph : Type 0
  -- `Graph::new`
  pub new : Graph
  -- `add_node`, which returns the former node count as the new node's index
  pub add_node : Graph → N → Graph
  -- `add_edge`, which allows parallel edges
  pub add_edge : Graph → ℕ → ℕ → EdgeType → Graph
  -- `update_edge`, which sets the weight of an edge that is there and else adds the edge
  pub update_edge : Graph → ℕ → ℕ → EdgeType → Graph
  pub node_count : Graph → ℕ
  -- `graph[index]`, for an index below the node count
  pub index : Graph → ℕ → N
  pub edges : Graph → ℕ → List EdgeRef
  -- `neighbors`: the targets of the outgoing edges
  pub neighbors : Graph → ℕ → List ℕ
  -- `neighbors_directed(_, Incoming)`
  pub incoming : Graph → ℕ → List ℕ
  -- `find_edge`, and the weight of the edge that it finds
  pub find_edge : Graph → ℕ → ℕ → Option EdgeType
  pub contains_edge : Graph → ℕ → ℕ → Bool
  pub node_count-new : node_count new ≡ 0
  pub node_count-add_node : (g : Graph) (n : N) → node_count (add_node g n) ≡ suc (node_count g)
  pub node_count-add_edge :
      (g : Graph) (a b : ℕ) (t : EdgeType) → node_count (add_edge g a b t) ≡ node_count g
  pub index-add_node : (g : Graph) (n : N) → index (add_node g n) (node_count g) ≡ n
  pub index-add_node_old :
      (g : Graph) (n : N) (i : ℕ) → i < node_count g → index (add_node g n) i ≡ index g i
  pub index-add_edge :
      (g : Graph) (a b : ℕ) (t : EdgeType) (i : ℕ) → index (add_edge g a b t) i ≡ index g i
  pub neighbors-new : (a : ℕ) → neighbors new a ≡ []
  pub neighbors-add_node : (g : Graph) (n : N) (a : ℕ) → neighbors (add_node g n) a ≡ neighbors g a
  pub mem-neighbors-add_edge :
      (g : Graph) (a b : ℕ) (t : EdgeType) (x y : ℕ)
      → a < node_count g
      → b < node_count g
      → Memᴰ y (neighbors (add_edge g a b t) x) ↔ (((x ≡ a) × (y ≡ b)) ⊎ Memᴰ y (neighbors g x))
  pub node_count-update_edge :
      (g : Graph) (a b : ℕ) (t : EdgeType) → node_count (update_edge g a b t) ≡ node_count g
  pub index-update_edge :
      (g : Graph) (a b : ℕ) (t : EdgeType) (i : ℕ) → index (update_edge g a b t) i ≡ index g i
  pub mem-neighbors-update_edge :
      (g : Graph) (a b : ℕ) (t : EdgeType) (x y : ℕ)
      → a < node_count g
      → b < node_count g
      → Memᴰ y (neighbors (update_edge g a b t) x) ↔ (((x ≡ a) × (y ≡ b)) ⊎ Memᴰ y (neighbors g x))
  pub mem-neighbors-lt :
      (g : Graph) (a b : ℕ) → Memᴰ b (neighbors g a) → (a < node_count g) × (b < node_count g)
  pub mem-incoming_iff : (g : Graph) (a b : ℕ) → Memᴰ a (incoming g b) ↔ Memᴰ b (neighbors g a)
  pub edges_source : (g : Graph) (a : ℕ) (e : EdgeRef) → Memᴰ e (edges g a) → e.source ≡ a
  pub edges_target : (g : Graph) (a : ℕ) → map (λ e. e.target) (edges g a) ≡ neighbors g a
  pub contains_edge_iff :
      (g : Graph) (a b : ℕ) → (contains_edge g a b ≡ true) ↔ Memᴰ b (neighbors g a)
