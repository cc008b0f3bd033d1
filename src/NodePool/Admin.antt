-- ===== src/NodePool/Admin.antt =====
-- The administration of node definitions (nodepool.go): the check of an input, and the handlers
-- that create, change and delete a definition. Each ends with the reload of the pools. The check
-- of HTTP nodes that it starts besides is left out, as is the binding of the request.
pub mod Laws
use ipw_boce.Donate.{has_node_id}
use ipw_boce.NodePool.{
  World, has_row_id, is_pool, or_api, parse_pools, pool_api, reload_node_pools, stack_dual,
  stack_ipv4, stack_ipv6,
}
use ipw_boce.Prelude.{
  Bool, List, Option, Text, [], codes, contains, delete, false, find, if◌then◌else◌, is_empty,
  is_some, join_commas, none, not, some, split_commas, suc, text_eq, to_lower, trim_space, true,
  update, utf8, ℕ, ◌&&◌, ◌==◌, ◌||◌, ◌∷◌,
}
use ipw_boce.Prelude.Int.{pos, ℤ}
use ipw_boce.Shop.Finish.Laws.{kept}
use ipw_boce.Store.{
  DonationStatus, NodeDef, NodeDonation, Result, bad_pool, bad_stack, empty_node_id, err,
  no_node_def, no_url, node_exists, ok, reserved_node_id, ◌>>=◌,
}

pub record NodeDefInput : Type 0 where
  pub node_id : Text
  pub label : Text
  pub url : Text
  pub ws : Option Bool
  pub pool : Text
  pub pools : List Text
  pub stack : Text
  pub enabled : Option Bool
  pub sort_order : Option ℤ
  pub api_key : Option Text
  pub ws_key : Option Text

-- `v != nil && *v`
abbrev pub is_set : Option Bool → Bool
is_set none = false
is_set (some b) = b

-- `v == nil || *v`
abbrev pub is_not_off : Option Bool → Bool
is_not_off none = true
is_not_off (some b) = b

-- derefInt
abbrev pub deref_int : Option ℤ → ℤ
deref_int none = pos 0
deref_int (some n) = n

abbrev pub given_or {ℓ} : {A : Type ℓ} → Option A → A → A
given_or none a = a
given_or (some b) a = b

-- The test on each part of the text of pools.
unfoldable pub only_pools : List Text → Bool
unfolding to_lower trim_space
only_pools [] = true
only_pools (seg ∷ segs) =
    let rest = only_pools segs in
    let t = to_lower (trim_space seg) in (is_empty t || is_pool t) && rest

abbrev pub raw_pools : NodeDefInput → Text
raw_pools i = elim i.pools [ [] ↦ i.pool | p ∷ ps ↦ join_commas (p ∷ ps) ]

abbrev pub or_pools : List Text → List Text → List Text
or_pools [] qs = qs
or_pools (p ∷ ps) qs = p ∷ ps

-- The pools of an input, from its own text or else from the one to fall back to.
unfoldable pub chosen_pools : NodeDefInput → Text → List Text
unfolding parse_pools join_commas
chosen_pools i fallback = or_api (or_pools (parse_pools (raw_pools i)) (parse_pools fallback))

-- The switch on the stack.
unfoldable pub check_stack : Text → Result Text
unfolding trim_space
check_stack raw =
    let stack = trim_space raw in
    if is_empty stack
    then ok stack_dual
    else if text_eq stack stack_dual || text_eq stack stack_ipv4 || text_eq stack stack_ipv6
    then ok stack
    else err bad_stack

abbrev pub trimmed_input : NodeDefInput → NodeDefInput
trimmed_input i = record i { node_id = trim_space i.node_id; url = trim_space i.url }

-- What normalize returns besides the trimmed input: the text of the pools, and the stack.
unfoldable pub pool_and_stack : List Text → Text → Result (Text × Text)
unfolding check_stack join_commas contains
pool_and_stack pools raw =
    if not (contains pools pool_api)
    then ok (join_commas pools, [])
    else check_stack raw >>= λ stack. ok (join_commas pools, stack)

-- normalize
unfoldable pub normalize_def : NodeDefInput → Text → Result (Text × Text)
unfolding only_pools chosen_pools pool_and_stack split_commas
normalize_def i fallback =
    if is_empty (trim_space i.node_id)
    then err empty_node_id
    else if text_eq (trim_space i.node_id) (codes "global")
    then err reserved_node_id
    else if not (only_pools (split_commas (raw_pools i) []))
    then err bad_pool
    else if not (is_set i.ws) && is_empty (trim_space i.url)
    then err no_url
    else pool_and_stack (chosen_pools i fallback) i.stack

abbrev pub trimmed_key : Option Text → Text
trimmed_key none = []
trimmed_key (some k) = trim_space k

-- The row that the handler builds.
abbrev pub new_def : ℕ → NodeDefInput → Text → Text → NodeDef
new_def id i pool stack = record {
  id = id;
  node_id = trim_space i.node_id;
  label = trim_space i.label;
  ws = is_set i.ws;
  url = trim_space i.url;
  pool = pool;
  stack = stack;
  enabled = is_not_off i.enabled;
  sort_order = deref_int i.sort_order;
  ws_key = trimmed_key i.ws_key;
  api_key = trimmed_key i.api_key;
  donation_id = 0;
  owner_id = 0;
  net_type = [];
}

abbrev pub with_def : NodeDef → World → World
with_def r w = record w {
  db = record (w.db) { next_id = suc w.db.next_id; node_defs = r ∷ w.db.node_defs };
}

-- POST /node-defs
unfoldable pub create_node_def : NodeDefInput → World → Result NodeDef × World
unfolding normalize_def
create_node_def i w = elim (normalize_def i []) [
  | err e ↦ (err e, w)
  | ok (pool, stack) ↦
      let row = new_def w.db.next_id i pool stack in
      if is_some (find (has_node_id row.node_id) w.db.node_defs)
      then (err node_exists, w)
      else (ok row, reload_node_pools (with_def row w))
]

abbrev pub has_def_id : ℕ → NodeDef → Bool
has_def_id id r = r.id == id

abbrev pub or_text : Text → Text → Text
or_text t fallback = if is_empty (trim_space t) then fallback else t

-- What the handler takes from the row where the input says nothing.
abbrev pub filled_input : NodeDefInput → NodeDef → NodeDefInput
filled_input i r = record i {
  node_id = or_text i.node_id r.node_id;
  url = or_text i.url r.url;
  ws = some (given_or i.ws r.ws);
  stack = or_text i.stack r.stack;
  sort_order = some (given_or i.sort_order r.sort_order);
}

abbrev pub key_update : Option Text → Text → Text
key_update none k = k
key_update (some k') k = trim_space k'

-- The updates of the row.
abbrev pub changed_def : NodeDefInput → Text → Text → NodeDef → NodeDef
changed_def i pool stack r = record r {
  node_id = trim_space i.node_id;
  url = trim_space i.url;
  ws = is_set i.ws;
  pool = pool;
  stack = stack;
  sort_order = deref_int i.sort_order;
  api_key = key_update i.api_key r.api_key;
  ws_key = key_update i.ws_key r.ws_key;
  label = if is_empty (trim_space i.label) then r.label else trim_space i.label;
  enabled = given_or i.enabled r.enabled;
}

abbrev pub is_other : ℕ → Text → NodeDef → Bool
is_other id node r = text_eq r.node_id node && not (r.id == id)

abbrev pub with_defs : List NodeDef → World → World
with_defs rows w = record w { db = record (w.db) { node_defs = rows } }

-- PUT /node-defs/:id
unfoldable pub update_node_def : ℕ → NodeDefInput → World → Result NodeDef × World
unfolding normalize_def
update_node_def id raw w = elim (find (has_def_id id) w.db.node_defs) [
  | none ↦ (err no_node_def, w)
  | some r ↦
      let i = filled_input raw r in
      elim (normalize_def i r.pool) [
        | err e ↦ (err e, w)
        | ok (pool, stack) ↦
            if is_some (find (is_other id (trim_space i.node_id)) w.db.node_defs)
            then (err node_exists, w)
            else (
              ok (changed_def i pool stack r),
              reload_node_pools
                  (with_defs (update (has_def_id id) (changed_def i pool stack) w.db.node_defs) w),
            )
      ]
]

abbrev pub is_approved_id : ℕ → NodeDonation → Bool
is_approved_id id d = (d.id == id) && (elim d.status [ DonationStatus.approved ↦ true | _ ↦ false ])

abbrev pub removed_by : Text → NodeDonation → NodeDonation
removed_by operator d = record d {
  status = DonationStatus.disabled;
  review_note = utf8 "管理员从节点池移除";
  reviewed_by = operator;
}

-- A donated node that is taken from the pool: its donation ends.
abbrev pub end_donation : Text → NodeDef → World → World
end_donation operator r w = if r.donation_id == 0 then w else record w {
  db = record (w.db) {
    donations = update (is_approved_id r.donation_id) (removed_by operator) w.db.donations;
  };
}

-- DELETE /node-defs/:id; the value says whether there was such a row.
unfoldable pub delete_node_def : Text → ℕ → World → Bool × World
delete_node_def operator id w =
    let kept = with_defs (delete (has_def_id id) w.db.node_defs) w in
    elim (find (has_def_id id) w.db.node_defs) [
      | none ↦ (false, reload_node_pools kept)
      | some r ↦
          let w' = reload_node_pools (end_donation operator r kept) in
          (true, record w' { nodes = delete (has_row_id r.node_id) w'.nodes })
    ]
