-- ===== src/NodePool/Tests.antt =====
-- Runs of the node pool on concrete data.
use ipw_boce.NodePool.{
  Pools, World, api_item, has_row_id, item_of, parse_pools, pool_api, pool_location,
  reload_node_pools, sort_defs,
}
use ipw_boce.NodePool.Admin.{
  NodeDefInput, create_node_def, delete_node_def, has_def_id, is_approved_id, new_def,
  normalize_def, with_def,
}
use ipw_boce.NodePool.Admin.Laws.{delete_node_def_ends}
use ipw_boce.NodePool.Reload.{in_api, in_location, items_in, reload_node_pools_lem}
use ipw_boce.Points.Tests.{start}
use ipw_boce.Prelude.{
  [], arith, codes, count, find, if◌then◌else◌, ltb, none, refl, some, true, ◌∷◌, ◌≡◌,
}
use ipw_boce.Prelude.Int.{pos}
use ipw_boce.Store.{NodeDef, ok}

abbrev pub tokyo : NodeDef
tokyo = record {
  id = 5;
  node_id = codes "tokyo";
  label = codes "Tokyo";
  ws = true;
  url = [];
  pool = codes "location,api";
  stack = [];
  enabled = true;
  sort_order = pos 2;
  ws_key = codes "k1";
  api_key = [];
  donation_id = 7;
  owner_id = 1;
  net_type = codes "idc";
}

abbrev pub no_pools : Pools
no_pools = record {
  api_pool = [];
  location_pool = [];
  setting_api = [];
  setting_loc = [];
  node_creds = [];
  api_keys = [];
  ws_keys = [];
}

abbrev pub world : World
world = record {
  db = record start { next_id = 9; node_defs = tokyo ∷ [] };
  nodes = [];
  pools = no_pools;
}

abbrev oslo : NodeDefInput
oslo = record {
  node_id = codes " oslo ";
  label = codes "Oslo";
  url = codes "http://oslo";
  ws = none;
  pool = codes "API";
  pools = [];
  stack = [];
  enabled = none;
  sort_order = some (pos 1);
  api_key = some (codes "k2");
  ws_key = none;
}

abbrev oslo_row : NodeDef
oslo_row = new_def 9 oslo (codes "api") (codes "DualStack")

oslo_normal : normalize_def oslo [] ≡ ok (codes "api", codes "DualStack")
unfolding normalize_def
oslo_normal = refl

oslo_runs : create_node_def oslo world ≡ (ok oslo_row, reload_node_pools (with_def oslo_row world))
unfolding create_node_def
oslo_runs = refl

parsed : parse_pools (codes "Location, api,x") ≡ codes "api" ∷ codes "location" ∷ []
unfolding parse_pools
parsed = refl

reload_node_pools_lem_example :
    let p = (reload_node_pools world).pools in
    let rows = sort_defs world.db.node_defs in
    (p.api_pool ≡ (if ltb 0 (count in_api rows) then items_in api_item pool_api rows else []))
    × (p.location_pool
        ≡ (if ltb 0 (count in_location rows) then items_in item_of pool_location rows else []))
reload_node_pools_lem_example = reload_node_pools_lem world

abbrev loaded : Pools
loaded = (reload_node_pools world).pools

delete_node_def_ends_example :
    let w' = (delete_node_def (codes "root") 5 world).1 in
    (find (has_def_id 5) w'.db.node_defs ≡ none)
    × (find (is_approved_id 7) w'.db.donations ≡ none)
    × (find (has_row_id (codes "tokyo")) w'.nodes ≡ none)
delete_node_def_ends_example = delete_node_def_ends (codes "root") 5 world tokyo refl (ground arith)
