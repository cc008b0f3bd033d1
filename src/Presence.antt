-- ===== src/Presence.antt =====
-- Which nodes are online (presence.go): the rows of the nodes, the events that the uptime reads,
-- and the notices with their grace. A set of the code (sync.Map, a map of timers) is a list of
-- identifiers. A timer that is stopped never fires; one that is left fires as `grace_over`. The
-- texts of the notices and the reason of an event are left out.
pub mod Tests
pub mod Views
pub mod Tracking
pub mod Notices
pub mod Health
use ipw_boce.NodePool.{Pools, has_row_id, pool_label_for}
use ipw_boce.Prelude.{
  Bool, List, Option, Text, [], contains, false, find, if◌then◌else◌, is_empty, is_some,
  join_commas, leb, map, none, not, some, suc, text_eq, to_lower, trim_space, true, update,
  where_rows, ℕ, ◌&&◌, ◌++◌, ◌||◌, ◌∷◌,
}
use ipw_boce.Store.{NodeRow}
use ipw_boce.Uptime.{Event, NodeEvent, up, went_offline, went_online}

pub data Notice : Type 0 where
  node_up node_down : Text → Notice

pub record Watch : Type 0 where
  pub next_id : ℕ
  pub nodes : List NodeRow
  pub events : List NodeEvent
  pub startup_exempt : List Text
  pub ota_exempt : List Text
  pub maint_suppressed : List Text
  pub down_pending : List Text
  pub notices : List Notice

-- The loop of joinCapabilities.
unfoldable pub keep_caps : List Text → List Text → List Text
unfolding contains to_lower trim_space
keep_caps [] out = out
keep_caps (cap ∷ caps) out =
    let c = to_lower (trim_space cap) in
    keep_caps caps (if not (is_empty c) && not (contains out c) then out ++ (c ∷ []) else out)

-- joinCapabilities
unfoldable pub join_capabilities : List Text → Text
unfolding keep_caps join_commas
join_capabilities caps = join_commas (keep_caps caps [])

-- `Delete` and `Store` of a set.
unfoldable pub without : Text → List Text → List Text
without id [] = []
without id (x ∷ xs) = let rest = without id xs in if text_eq x id then rest else x ∷ rest

abbrev pub with_mark : Text → List Text → List Text
with_mark id xs = id ∷ xs

-- nodeSnapshot
abbrev pub node_snapshot : Text → Watch → Option NodeRow
node_snapshot id s = find (has_row_id id) s.nodes

abbrev pub row_online : Option NodeRow → Bool
row_online none = false
row_online (some n) = n.online

-- `prevOK && prev.Online`
abbrev pub is_online : Text → Watch → Bool
is_online id s = row_online (node_snapshot id s)

abbrev pub keep_or : Text → Text → Text
keep_or t old = if is_empty t then old else t

abbrev pub registered_row : Text → ℕ → Text → Text → List Text → NodeRow → NodeRow
registered_row label now remote version caps n = record n {
  online = true;
  last_seen_at = now;
  remote_addr = keep_or remote n.remote_addr;
  version = keep_or (trim_space version) n.version;
  capabilities = keep_or (join_capabilities caps) n.capabilities;
  label = keep_or label n.label;
}

abbrev pub first_row : ℕ → Text → Text → ℕ → Text → Text → List Text → NodeRow
first_row row_id id label now remote version caps = record {
  id = row_id;
  node_id = id;
  label = label;
  online = true;
  remote_addr = remote;
  version = trim_space version;
  capabilities = join_capabilities caps;
  first_seen_at = now;
  last_seen_at = now;
}

abbrev pub event_row : ℕ → Text → Event → ℕ → NodeEvent
event_row row_id id e now = record { id = row_id; node_id = id; event = e; at = now }

abbrev pub is_exempt : Text → Watch → Bool
is_exempt id s =
    contains s.startup_exempt id || contains s.ota_exempt id || contains s.maint_suppressed id

-- `prevOK && !prev.Online && !exempt && !pending`
unfoldable pub recovered : Text → Watch → Bool
recovered id s =
    is_some (node_snapshot id s)
    && not (is_online id s)
    && not (is_exempt id s)
    && not (contains s.down_pending id)

-- The marks of the node are used up, and a timer of it is stopped.
unfoldable pub clear_marks : Text → Watch → Watch
unfolding without
clear_marks id s = record s {
  startup_exempt = without id s.startup_exempt;
  ota_exempt = without id s.ota_exempt;
  maint_suppressed = without id s.maint_suppressed;
  down_pending = without id s.down_pending;
}

-- The insert of the row, or the update of the one that is there.
unfoldable pub upsert_online : Text → ℕ → Text → Text → Text → List Text → Watch → Watch
upsert_online label now id remote version caps s = elim (node_snapshot id s) [
  | none ↦ record s {
    next_id = suc s.next_id;
    nodes = first_row s.next_id id label now remote version caps ∷ s.nodes;
  }
  | some n ↦ record s {
    nodes = update (has_row_id id) (registered_row label now remote version caps) s.nodes;
  }
]

unfoldable pub add_event : Text → Event → ℕ → Watch → Watch
add_event id e now s = record s {
  next_id = suc s.next_id;
  events = event_row s.next_id id e now ∷ s.events;
}

abbrev pub notify : Notice → Watch → Watch
notify n s = record s { notices = n ∷ s.notices }

-- recordNodeOnline
unfoldable pub record_node_online : Pools → ℕ → Text → Text → Text → List Text → Watch → Watch
record_node_online pools now id remote version caps s =
    let up =
      upsert_online (pool_label_for pools id) now id remote version caps (clear_marks id s) in
    let seen = if is_online id s then up else add_event id went_online now up in
    if recovered id s then notify (node_up id) seen else seen

abbrev pub offline_row : ℕ → NodeRow → NodeRow
offline_row now n = record n { online = false; last_seen_at = now }

-- recordNodeOffline; `ota` and `maint` say whether a task is under way and a window is on.
unfoldable pub record_node_offline : Bool → Bool → ℕ → Text → Watch → Watch
record_node_offline ota maint now id s =
    let off = record s { nodes = update (has_row_id id) (offline_row now) s.nodes } in
    let gone = add_event id went_offline now off in
    if not (is_online id s)
    then off
    else if ota
    then record gone { ota_exempt = with_mark id gone.ota_exempt }
    else if maint
    then record gone { maint_suppressed = with_mark id gone.maint_suppressed }
    else record gone { down_pending = with_mark id (without id gone.down_pending) }

-- The function of the timer.
unfoldable pub grace_over : Text → Watch → Watch
grace_over id s =
    let t = record s { down_pending = without id s.down_pending } in
    if not (contains s.down_pending id)
    then s
    else if is_some (node_snapshot id s) && not (is_online id s)
    then notify (node_down id) t
    else t

-- touchNodes
unfoldable pub touch_nodes : ℕ → List Text → Watch → Watch
touch_nodes now ids s = record s {
  nodes = update (λ n. contains ids n.node_id) (λ n. record n { last_seen_at = now }) s.nodes;
}

abbrev pub online_row : NodeRow → Bool
online_row n = n.online

-- markAllNodesOffline
unfoldable pub mark_all_nodes_offline : Watch → Watch
mark_all_nodes_offline s = record s {
  nodes = update online_row (λ n. record n { online = false }) s.nodes;
  startup_exempt =
      map (λ (n : NodeRow). n.node_id) (where_rows online_row s.nodes) ++ s.startup_exempt;
}

-- The consecutive failures of the nodes that are checked over HTTP.
abbrev pub Fails : Type 0
Fails = List (Text × ℕ)

unfoldable pub fails_of : Text → Fails → ℕ
fails_of id [] = 0
fails_of id ((j, n) ∷ rest) = let found = fails_of id rest in if text_eq j id then n else found

unfoldable pub forget_fails : Text → Fails → Fails
forget_fails id [] = []
forget_fails id ((j, n) ∷ rest) =
    let others = forget_fails id rest in if text_eq j id then others else (j, n) ∷ others

-- What one check of a node found: its version and capabilities, or nothing.
pub data Check : Type 0 where
  healthy : Text → Text → List Text → Check
  failed : Check

-- The reaction of checkHTTPNodes to the check of a node.
unfoldable pub on_check : Pools → Bool → Bool → ℕ → Text → Check → Fails × Watch → Fails × Watch
on_check pools ota maint now id (healthy remote version caps) (fails, s) =
    (forget_fails id fails, record_node_online pools now id remote version caps s)
on_check pools ota maint now id failed (fails, s) =
    let n = suc (fails_of id fails) in
    let fails' = (id, n) ∷ forget_fails id fails in
    (fails', (if leb 2 n then record_node_offline ota maint now id s else s))
