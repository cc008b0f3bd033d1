-- ===== src/Ota.antt =====
-- The updates of nodes (ota.go): the check of a request, its dispatch, and what ends a task. What the
-- node answers to the command, and the version that its address reports, are parameters. Rows are
-- listed newest first. Who asked for a task and when its row changed are left out.
pub mod Dispatch
pub mod Changes
pub mod Final
pub mod Single
pub mod Settles
pub mod Tests
use ipw_boce.Calendar.{second_ns}
use ipw_boce.NodePool.{ApiInfo, Pools, all_pool_nodes, find_node, has_row_id}
use ipw_boce.Prelude.{
  Bool, List, Option, Text, [], codes, count, false, find, if◌then◌else◌, is_empty, ltb, none, not,
  reverse, some, take, text_eq, trim_space, true, truncate_str, update, where_rows, ℕ, ◌&&◌, ◌*◌,
  ◌+◌, ◌==◌, ◌∷◌,
}
use ipw_boce.Presence.{Watch, node_down, node_snapshot, notify, without}
use ipw_boce.Store.{NodeRow}

pub data OtaStatus : Type 0 where
  dispatched success ota_failed : OtaStatus

pub record OtaTask : Type 0 where
  pub id : ℕ
  pub node_id : Text
  pub request_id : Text
  pub from_version : Text
  pub target_version : Text
  pub url : Text
  pub sha256 : Text
  pub status : OtaStatus
  pub stage : Text
  pub error : Text
  pub dispatched_at : ℕ
  pub finished_at : Option ℕ

abbrev pub ota_timeout : ℕ
ota_timeout = 15 * 60 * second_ns

abbrev pub is_dispatched : OtaStatus → Bool
is_dispatched dispatched = true
is_dispatched s = false

abbrev pub is_open_task : OtaTask → Bool
is_open_task t = is_dispatched t.status

abbrev pub is_open_of : Text → OtaTask → Bool
is_open_of node t = text_eq t.node_id node && is_open_task t

abbrev pub is_open_request : Text → OtaTask → Bool
is_open_request req t = text_eq t.request_id req && is_open_task t

abbrev pub has_task_id : ℕ → OtaTask → Bool
has_task_id id t = t.id == id

abbrev pub is_open_id : ℕ → OtaTask → Bool
is_open_id id t = t.id == id && is_open_task t

-- otaTaskInFlight
unfoldable pub ota_task_in_flight : Text → List OtaTask → Bool
ota_task_in_flight node tasks = ltb 0 (count (is_open_of node) tasks)

-- strings.TrimPrefix with a `v`
abbrev pub without_v : Text → Text
without_v [] = []
without_v (c ∷ s) = if c == b'v' then s else c ∷ s

-- otaVersionHit
unfoldable pub ota_version_hit : OtaTask → Text → Bool
unfolding trim_space
ota_version_hit t version =
    let v = trim_space version in
    if is_empty v
    then false
    else if not (is_empty t.target_version)
    then text_eq (without_v v) (without_v t.target_version)
    else not (is_empty t.from_version) && not (text_eq v t.from_version)

abbrev pub stage_or : Text → Text → Text
stage_or given old = if is_empty given then old else given

abbrev pub finished_task : ℕ → OtaStatus → Text → Text → OtaTask → OtaTask
finished_task now status stage reason t = record t {
  status = status;
  finished_at = some now;
  stage = stage_or stage t.stage;
  error = if is_empty reason then t.error else truncate_str reason 512;
}

-- finishOTATask
unfoldable pub finish_ota_task : ℕ → ℕ → OtaStatus → Text → Text → List OtaTask → List OtaTask
unfolding truncate_str
finish_ota_task now id status stage reason tasks =
    update (is_open_id id) (finished_task now status stage reason) tasks

abbrev pub registered_task : ℕ → Text → Option OtaTask → List OtaTask → List OtaTask
registered_task now version none tasks = tasks
registered_task now version (some t) tasks =
    if ota_version_hit t version then finish_ota_task now t.id success [] [] tasks else tasks

-- otaOnNodeRegistered
unfoldable pub ota_on_node_registered : ℕ → Text → Text → List OtaTask → List OtaTask
unfolding finish_ota_task ota_version_hit
ota_on_node_registered now node version tasks =
    if is_empty version
    then tasks
    else registered_task now version (find (is_open_of node) tasks) tasks

-- A report of a node on an update.
pub record OtaResult : Type 0 where
  pub request_id : Text
  pub is_good : Bool
  pub stage : Text
  pub error : Text

abbrev pub reported_task : ℕ → OtaResult → OtaTask → OtaTask
reported_task now r t = if r.is_good then record t { stage = r.stage } else record t {
  stage = r.stage;
  status = ota_failed;
  finished_at = some now;
  error = truncate_str r.error 512;
}

-- otaOnNodeResult, for a report that could be read
unfoldable pub ota_on_node_result : ℕ → OtaResult → List OtaTask → List OtaTask
unfolding truncate_str
ota_on_node_result now r tasks =
    if is_empty r.request_id
    then tasks
    else update (is_open_request r.request_id) (reported_task now r) tasks

abbrev pub is_http_only : Option ApiInfo → Bool
is_http_only none = false
is_http_only (some n) = not n.ws

-- otaNodeIsHTTPOnly
unfoldable pub ota_node_is_http_only : Pools → Text → Bool
unfolding all_pool_nodes find_node
ota_node_is_http_only p node = is_http_only (find_node (all_pool_nodes p) node)

-- What a request asks for.
pub record OtaInput : Type 0 where
  pub version : Text
  pub url : Text
  pub sha256 : Text

-- A request that has passed its check, and waits for the node to answer the command.
pub record OtaWaiting : Type 0 where
  pub node_id : Text
  pub request_id : Text
  pub from_version : Text
  pub input : OtaInput
  pub sent_at : ℕ

-- The tasks, the rows of the nodes, and the requests that wait for their nodes.
pub record OtaState : Type 0 where
  pub tasks : List OtaTask
  pub watch : Watch
  pub waiting : List OtaWaiting

abbrev pub version_of : Option NodeRow → Text
version_of none = []
version_of (some n) = n.version

abbrev pub set_version : Text → NodeRow → NodeRow
set_version v n = record n { version = v }

-- The version that is seen of the node, and the rows with it; `live` is otaLiveVersion.
unfoldable pub observe : Pools → (Text → Option Text) → Text → Watch → Text × Watch
unfolding ota_node_is_http_only
observe p live node w =
    if ota_node_is_http_only p node
    then elim (live node) [
      | none ↦ (version_of (node_snapshot node w), w)
      | some v ↦ (v, record w { nodes = update (has_row_id node) (set_version v) w.nodes })
    ]
    else (version_of (node_snapshot node w), w)

abbrev pub is_known_offline : Option NodeRow → Bool
is_known_offline none = false
is_known_offline (some n) = not n.online

-- A task that has timed out: its node is no longer exempt, and the administrators are told, where it
-- has not come back.
unfoldable pub time_out : Text → Watch → Watch
unfolding without
time_out node w =
    if is_known_offline (node_snapshot node w)
    then notify (node_down node) (record w { ota_exempt = without node w.ota_exempt })
    else w

-- One task of a round of otaReconcilerLoop. `expired` is the text of the error.
unfoldable pub reconcile_task :
    Pools → (Text → Option Text) → Text → ℕ → OtaTask → OtaState → OtaState
unfolding observe finish_ota_task ota_version_hit time_out
reconcile_task p live expired now t s =
    let (version, w) = observe p live t.node_id s.watch in
    if ota_version_hit t version
    then record s {
      tasks = finish_ota_task now t.id success (codes "observed") [] s.tasks;
      watch = w;
    }
    else if ltb (t.dispatched_at + ota_timeout) now
    then record s {
      tasks = finish_ota_task now t.id ota_failed [] expired s.tasks;
      watch = time_out t.node_id w;
    }
    else record s { tasks = s.tasks; watch = w }

unfoldable pub reconcile_all :
    Pools → (Text → Option Text) → Text → ℕ → List OtaTask → OtaState → OtaState
unfolding reconcile_task
reconcile_all p live expired now [] s = s
reconcile_all p live expired now (t ∷ ts) s =
    reconcile_all p live expired now ts (reconcile_task p live expired now t s)

-- The open tasks that a round looks at, oldest first.
abbrev pub open_tasks : List OtaTask → List OtaTask
open_tasks tasks = take 100 (reverse (where_rows is_open_task tasks))

-- otaReconcilerLoop, one round
unfoldable pub reconcile_round : Pools → (Text → Option Text) → Text → ℕ → OtaState → OtaState
unfolding reconcile_all
reconcile_round p live expired now s = reconcile_all p live expired now (open_tasks s.tasks) s
