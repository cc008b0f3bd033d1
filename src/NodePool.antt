-- ===== src/NodePool.antt =====
-- The pools of probe nodes (nodepool.go): the reload of both pools and of the credentials from the
-- table of node definitions, the look-ups, and the join of the pools. A map is an association list
-- whose newest entry stands first. `World` is the part of the program's state that the node
-- definitions share: the database, the rows of seen nodes, and the pools in memory.
pub mod Tests
pub mod Joined
pub mod Names
pub mod Reload
pub mod Admin
use ipw_boce.Prelude.{
  Bool, List, Option, Text, [], codes, contains, false, find, if◌then◌else◌, is_empty, is_some, leb,
  ltb, none, not, some, sort_texts, split_commas, suc, text_eq, to_lower, trim_space, true, update,
  where_rows, ℕ, ◌&&◌, ◌++◌, ◌||◌, ◌∷◌,
}
use ipw_boce.Prelude.Int.{leb_ℤ, ltb_ℤ}
use ipw_boce.Store.{Db, DonationStatus, NodeDef, NodeDonation, NodeRow}

pub record ApiInfo : Type 0 where
  pub label : Text
  pub id : Text
  pub url : Text
  pub ws : Bool
  pub stack : Text

pub record Credential : Type 0 where
  pub node_id : Text
  pub ws_key : Text
  pub api_key : Text

-- The pools in memory, and the settings of setting.json that they fall back to.
pub record Pools : Type 0 where
  pub api_pool : List ApiInfo
  pub location_pool : List ApiInfo
  pub setting_api : List ApiInfo
  pub setting_loc : List ApiInfo
  pub node_creds : List Credential
  pub api_keys : List Credential
  pub ws_keys : List Credential

pub record World : Type 0 where
  pub db : Db
  pub nodes : List NodeRow
  pub pools : Pools

abbrev pub pool_api : Text
pool_api = codes "api"

abbrev pub pool_location : Text
pool_location = codes "location"

abbrev pub stack_dual : Text
stack_dual = codes "DualStack"

abbrev pub stack_ipv4 : Text
stack_ipv4 = codes "IPv4"

abbrev pub stack_ipv6 : Text
stack_ipv6 = codes "IPv6"

-- nodePoolForType
unfoldable pub node_pool_for_type : Text → Pools → List ApiInfo
node_pool_for_type t p =
    if text_eq t (codes "location") || text_eq t (codes "asn") then p.location_pool else p.api_pool

abbrev pub has_info_id : Text → ApiInfo → Bool
has_info_id id n = text_eq n.id id

abbrev pub has_row_id : Text → NodeRow → Bool
has_row_id id n = text_eq n.node_id id

-- findNode
unfoldable pub find_node : List ApiInfo → Text → Option ApiInfo
find_node list id = find (has_info_id id) list

-- The loop of allPoolNodes; `seen` holds the identifiers so far.
unfoldable pub first_of_each : List Text → List ApiInfo → List ApiInfo
unfolding contains
first_of_each seen [] = []
first_of_each seen (n ∷ ns) =
    let old = first_of_each seen ns in
    let new = first_of_each (n.id ∷ seen) ns in if contains seen n.id then old else n ∷ new

-- allPoolNodes
unfoldable pub all_pool_nodes : Pools → List ApiInfo
unfolding first_of_each
all_pool_nodes p = first_of_each [] (p.api_pool ++ p.location_pool)

-- poolLabelFor: the label of the node in the joined pool, if it has one.
abbrev pub label_of : Option ApiInfo → Text
label_of none = []
label_of (some n) = n.label

unfoldable pub pool_label_for : Pools → Text → Text
unfolding all_pool_nodes find_node
pool_label_for p id = label_of (find_node (all_pool_nodes p) id)

abbrev pub is_pool : Text → Bool
is_pool v = text_eq v pool_api || text_eq v pool_location

-- The loop of parsePools over the parts.
unfoldable pub keep_pools : List Text → List Text → List Text
unfolding contains to_lower trim_space
keep_pools [] out = out
keep_pools (seg ∷ segs) out =
    let v = to_lower (trim_space seg) in
    keep_pools segs (if is_pool v && not (contains out v) then out ++ (v ∷ []) else out)

-- parsePools
unfoldable pub parse_pools : Text → List Text
unfolding keep_pools sort_texts split_commas
parse_pools raw = sort_texts (keep_pools (split_commas raw []) [])

abbrev pub or_api : List Text → List Text
or_api [] = pool_api ∷ []
or_api (p ∷ ps) = p ∷ ps

-- The pools of a row: the API pool if it names none.
unfoldable pub pools_of : NodeDef → List Text
unfolding parse_pools
pools_of r = or_api (parse_pools r.pool)

unfoldable pub in_pool : Text → NodeDef → Bool
unfolding pools_of contains
in_pool pool r = contains (pools_of r) pool

abbrev pub item_of : NodeDef → ApiInfo
item_of r = record {
  label = r.label;
  id = r.node_id;
  url = trim_space r.url;
  ws = r.ws;
  stack = r.stack;
}

abbrev pub api_item : NodeDef → ApiInfo
api_item r = record (item_of r) {
  stack =
      if not (text_eq r.stack stack_ipv4) && not (text_eq r.stack stack_ipv6)
      then stack_dual
      else r.stack;
}

-- The order `sort_order asc, id asc`.
abbrev pub comes_first : NodeDef → NodeDef → Bool
comes_first a b =
    ltb_ℤ a.sort_order b.sort_order || (leb_ℤ a.sort_order b.sort_order && leb a.id b.id)

unfoldable pub insert_def : NodeDef → List NodeDef → List NodeDef
insert_def r [] = r ∷ []
insert_def r (x ∷ xs) =
    let rest = insert_def r xs in if comes_first r x then r ∷ x ∷ xs else x ∷ rest

unfoldable pub sort_defs : List NodeDef → List NodeDef
unfolding insert_def
sort_defs [] = []
sort_defs (r ∷ rs) = insert_def r (sort_defs rs)

-- What the loop over the rows collects.
pub record Scan : Type 0 where
  pub api : List ApiInfo
  pub loc : List ApiInfo
  pub total_api : ℕ
  pub total_loc : ℕ
  pub creds : List Credential

abbrev pub nothing_yet : Scan
nothing_yet = record { api = []; loc = []; total_api = 0; total_loc = 0; creds = [] }

abbrev pub bump : Bool → ℕ → ℕ
bump b n = if b then suc n else n

abbrev pub credential_of : NodeDef → Credential
credential_of r = record { node_id = r.node_id; ws_key = r.ws_key; api_key = r.api_key }

-- One round of the loop of reloadNodePools.
unfoldable pub scan_row : Scan → NodeDef → Scan
scan_row s r =
    let in_api = in_pool pool_api r in
    let in_loc = in_pool pool_location r in
    record {
      api = if r.enabled && in_api then s.api ++ (api_item r ∷ []) else s.api;
      loc = if r.enabled && in_loc then s.loc ++ (item_of r ∷ []) else s.loc;
      total_api = bump in_api s.total_api;
      total_loc = bump in_loc s.total_loc;
      creds =
          if not (is_empty r.api_key) || not (is_empty r.ws_key)
          then credential_of r ∷ s.creds
          else s.creds;
    }

unfoldable pub scan_rows : Scan → List NodeDef → Scan
unfolding scan_row
scan_rows s [] = s
scan_rows s (r ∷ rs) = scan_rows (scan_row s r) rs

abbrev pub is_pending : NodeDonation → Bool
is_pending d = elim d.status [ DonationStatus.pending ↦ true | _ ↦ false ]

abbrev pub is_for : Text → Credential → Bool
is_for id c = text_eq c.node_id id

abbrev pub pending_credential : NodeDonation → Credential
pending_credential d = record { node_id = d.node_id; ws_key = d.ws_key; api_key = d.api_key }

-- The loop over the pending donations, whose keys count already.
unfoldable pub add_pending : List NodeDonation → List Credential → List Credential
add_pending [] creds = creds
add_pending (d ∷ ds) creds =
    add_pending ds
      (if is_some (find (is_for d.node_id) creds) then creds else pending_credential d ∷ creds)

-- The loop that copies the labels to the rows of the nodes.
unfoldable pub sync_labels : List NodeDef → List NodeRow → List NodeRow
sync_labels [] nodes = nodes
sync_labels (r ∷ rs) nodes = sync_labels rs (
    if is_empty r.label
    then nodes
    else update (λ n. text_eq n.node_id r.node_id && not (text_eq n.label r.label))
        (λ n. record n { label = r.label }) nodes)

-- reloadNodePools
unfoldable pub reload_node_pools : World → World
reload_node_pools w =
    let rows = sort_defs w.db.node_defs in
    let s = scan_rows nothing_yet rows in
    record w {
      nodes = sync_labels rows w.nodes;
      pools = record (w.pools) {
        api_pool = if ltb 0 s.total_api then s.api else w.pools.setting_api;
        location_pool = if ltb 0 s.total_loc then s.loc else w.pools.setting_loc;
        node_creds = add_pending (where_rows is_pending w.db.donations) s.creds;
      };
    }

abbrev pub key_or : (Credential → Text) → Option Credential → Text
key_or key none = []
key_or key (some c) = key c

-- lookupAPIKey
unfoldable pub lookup_api_key : Pools → Text → Text
lookup_api_key p id =
    let k = key_or (λ c. c.api_key) (find (is_for id) p.node_creds) in
    if is_empty k then key_or (λ c. c.api_key) (find (is_for id) p.api_keys) else k

-- lookupWSKey
unfoldable pub lookup_ws_key : Pools → Text → Text
lookup_ws_key p id =
    let k = key_or (λ c. c.ws_key) (find (is_for id) p.node_creds) in
    if is_empty k then key_or (λ c. c.ws_key) (find (is_for id) p.ws_keys) else k
