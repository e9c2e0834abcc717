-- ===== src/Sorting/Vertex.antt =====
-- src/sorting/vertex.rs: the kinds of edges, and the vertices by which a path is reported.
use libloot.Prelude.{String, Option, none, some}

pub data EdgeType : Type 0 where
  hardcoded master_flag master masterlist_requirement user_requirement : EdgeType
  masterlist_load_after user_load_after masterlist_group user_group : EdgeType
  record_overlap asset_overlap tie_break blueprint_master : EdgeType

-- The text by which an edge is shown.
unfoldable pub display : EdgeType → String
display EdgeType.hardcoded = "Hardcoded"
display EdgeType.master_flag = "Master Flag"
display EdgeType.master = "Master"
display EdgeType.masterlist_requirement = "Masterlist Requirement"
display EdgeType.user_requirement = "User Requirement"
display EdgeType.masterlist_load_after = "Masterlist Load After"
display EdgeType.user_load_after = "User Load After"
display EdgeType.masterlist_group = "Masterlist Group"
display EdgeType.user_group = "User Group"
display EdgeType.record_overlap = "Record Overlap"
display EdgeType.asset_overlap = "Asset Overlap"
display EdgeType.tie_break = "Tie Break"
display EdgeType.blueprint_master = "Blueprint Master"

pub record Vertex : Type 0 where
  pub name : String
  pub out_edge_type : Option EdgeType

abbrev pub vertex : String → Vertex
vertex n = record { name = n; out_edge_type = none }

abbrev pub with_out_edge_type : Vertex → EdgeType → Vertex
with_out_edge_type v t = record v { out_edge_type = some t }
