-- ===== src/Sorting/Plugins/Data.antt =====
-- src/sorting/plugins.rs: what sorting knows of a plugin. The trait `SortingPlugin` is a record of
-- functions over a type `T` of plugins, and `E` is the error type of the esplugin crate.
use libloot.Prelude.{ℕ, Bool, ◌&&◌, String, List}
use libloot.Prelude.Result.{Result}
use libloot.Sorting.Error.{PluginDataError}

pub record SortingPlugin (E T : Type 0) : Type 0 where
  pub name : T → String
  pub is_master : T → Bool
  pub is_blueprint_plugin : T → Bool
  pub masters : T → Result (PluginDataError E) (List String)
  pub override_record_count : T → Result (PluginDataError E) ℕ
  pub asset_count : T → ℕ
  pub do_records_overlap : T → T → Result (PluginDataError E) Bool
  pub do_assets_overlap : T → T → Bool

pub record PluginSortingData (T : Type 0) : Type 0 where
  pub plugin : T
  pub is_master : Bool
  pub override_record_count : ℕ
  pub load_order_index : ℕ
  pub group : String
  pub group_is_user_metadata : Bool
  pub masterlist_load_after : List String
  pub user_load_after : List String
  pub masterlist_req : List String
  pub user_req : List String

module _ {E T : Type 0} (trait : SortingPlugin E T) where
  abbrev pub name : PluginSortingData T → String
  name p = trait.name p.plugin

  abbrev pub is_blueprint_master : PluginSortingData T → Bool
  is_blueprint_master p = p.is_master && trait.is_blueprint_plugin p.plugin

  abbrev pub asset_count : PluginSortingData T → ℕ
  asset_count p = trait.asset_count p.plugin

  abbrev pub masters : PluginSortingData T → Result (PluginDataError E) (List String)
  masters p = trait.masters p.plugin

  abbrev pub do_records_overlap :
      PluginSortingData T → PluginSortingData T → Result (PluginDataError E) Bool
  do_records_overlap p other = trait.do_records_overlap p.plugin other.plugin

  abbrev pub do_assets_overlap : PluginSortingData T → PluginSortingData T → Bool
  do_assets_overlap p other = trait.do_assets_overlap p.plugin other.plugin
