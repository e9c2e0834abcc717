-- ===== src/Sorting/Samples/Plugins.antt =====
-- Plugins, and graphs of them, that the examples are about.
use libloot.Prelude.{inl, ℕ, ◌≡◌, refl, true, false, String, List, [], ◌∷◌, not_mem_nil, arith}
use libloot.Prelude.Result.{Result, ok, err}
use libloot.External.Petgraph.{Petgraph}
use libloot.External.Petgraph.Sample.{Built, built}
use libloot.Sorting.Graph.{Reach, here, step}
use libloot.Sorting.Vertex.{EdgeType}
use libloot.Sorting.Plugins.Data.{SortingPlugin, PluginSortingData}
use libloot.Sorting.Plugins.Overlap.{add_overlap_edges}
use libloot.Sorting.Plugins.Overlap.Settled.{MustSettle}
use libloot.Sorting.Plugins.Graph.{PluginsGraph, new, add_node, add_edge}
use libloot.Sorting.Plugins.Graph.Growth.{
  IsSafe, new-IsSafe, add_node-IsSafe, Progress, add_edge-Progress,
}

pub record SamplePlugin : Type 0 where
  pub file : String
  pub master_files : List String
  pub records : ℕ

-- All plugins change the same record.
abbrev pub sample_trait : SortingPlugin (Unit {0}) SamplePlugin
sample_trait = record {
  name = λ p. p.file;
  is_master = λ p. false;
  is_blueprint_plugin = λ p. false;
  masters = λ p. ok p.master_files;
  override_record_count = λ p. ok p.records;
  asset_count = λ p. 0;
  do_records_overlap = λ p q. ok true;
  do_assets_overlap = λ p q. false;
}

abbrev pub plugin : String → List String → ℕ → ℕ → PluginSortingData SamplePlugin
plugin file masters records load_order = record {
  plugin = record { file = file; master_files = masters; records = records };
  is_master = false;
  override_record_count = records;
  load_order_index = load_order;
  group = "default";
  group_is_user_metadata = false;
  masterlist_load_after = [];
  user_load_after = [];
  masterlist_req = [];
  user_req = [];
}

abbrev pub large : PluginSortingData SamplePlugin
large = plugin "Large.esp" [] 9 2

abbrev pub small : PluginSortingData SamplePlugin
small = plugin "Small.esp" [] 1 0

abbrev pub patch : PluginSortingData SamplePlugin
patch = plugin "Patch.esp" ("Small.esp" ∷ []) 4 1

abbrev pub plugin_graphs : Petgraph (PluginSortingData SamplePlugin)
plugin_graphs = built large

abbrev pub Plugins : Type 0
Plugins = PluginsGraph sample_trait plugin_graphs

-- Three nodes: 0 is the large plugin, 1 the small one and 2 the patch.
abbrev pub three_nodes : Plugins
three_nodes = add_node sample_trait plugin_graphs patch (
    add_node sample_trait plugin_graphs small
      (add_node sample_trait plugin_graphs large (new sample_trait plugin_graphs)))

pub three_nodes-IsSafe : IsSafe sample_trait plugin_graphs three_nodes
three_nodes-IsSafe = add_node-IsSafe sample_trait plugin_graphs patch _ (
    add_node-IsSafe sample_trait plugin_graphs small _
      (add_node-IsSafe sample_trait plugin_graphs large _ (new-IsSafe sample_trait plugin_graphs)))

pub count_three : 3 ≡ plugin_graphs.node_count three_nodes.inner
unfolding add_node
count_three = refl

-- No node leads to another one yet.
pub three_nodes-apart : {a b : ℕ} → Reach (plugin_graphs.neighbors three_nodes.inner) a b → a ≡ b
unfolding add_node
three_nodes-apart here = refl
three_nodes-apart (step r e) = absurd (not_mem_nil e)

-- The edge from the small plugin to the patch.
abbrev pub linked : Plugins
linked = add_edge sample_trait plugin_graphs 1 2 EdgeType.master three_nodes

pub linked-Progress : Progress sample_trait plugin_graphs three_nodes linked
linked-Progress =
    add_edge-Progress sample_trait plugin_graphs three_nodes 1 2 EdgeType.master
      (omega (arith, count_three)) (omega (arith, count_three)) three_nodes-IsSafe
      (λ r. absurd (omega (arith, three_nodes-apart r)))

-- Groups: the late group comes after the default one.
abbrev pub group_graphs : Petgraph String
group_graphs = built "default"

abbrev pub groups : Built String
groups =
    group_graphs.add_edge
      (group_graphs.add_node (group_graphs.add_node group_graphs.new "default") "late") 0 1
      EdgeType.masterlist_load_after

abbrev pub ok_or : {X A : Type 0} → A → Result X A → A
ok_or default (ok a) = a
ok_or default (err x) = default

-- The three plugins after the edges between those that overlap.
abbrev pub overlapped : Plugins
overlapped = ok_or three_nodes (add_overlap_edges sample_trait plugin_graphs three_nodes)

pub add_overlap_edges_three :
    add_overlap_edges sample_trait plugin_graphs three_nodes ≡ ok overlapped
unfolding add_overlap_edges add_node
add_overlap_edges_three = refl

pub large_small-MustSettle : MustSettle sample_trait plugin_graphs three_nodes 0 1
unfolding add_node
large_small-MustSettle = (inl (omega arith), inl (inl (omega arith, refl)))
