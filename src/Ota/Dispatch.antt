-- ===== src/Ota/Dispatch.antt =====
-- The handler that dispatches an update (ota.go) and what the node reported of itself (node_cmd.go).
use ipw_boce.Captcha.{equal_fold, fold_case}
use ipw_boce.Donate.{has_prefix}
use ipw_boce.NodePool.{Pools}
use ipw_boce.Ota.{
  OtaInput, OtaState, OtaTask, OtaWaiting, dispatched, ota_failed, ota_node_is_http_only,
  ota_task_in_flight, version_of,
}
use ipw_boce.Prelude.{
  Bool, List, Option, Text, [], codes, drop, false, if◌then◌else◌, is_empty, is_some, leb, length,
  none, not, some, split_commas, to_lower, trim_parts, trim_space, true, truncate_str, ℕ, ◌&&◌,
  ◌==◌, ◌||◌, ◌∷◌,
}
use ipw_boce.Presence.{Watch, node_snapshot}
use ipw_boce.Store.{NodeRow}

pub data OtaError : Type 0 where
  nothing_given bad_ota_url bad_sha no_capability in_flight : OtaError
  not_sent : Text → OtaError

-- strings.TrimPrefix
unfoldable pub trim_prefix : Text → Text → Text
unfolding has_prefix
trim_prefix s p = if has_prefix s p then drop (length p) s else s

-- The input as the handler cleans it.
unfoldable pub clean_input : OtaInput → OtaInput
unfolding trim_prefix to_lower trim_space
clean_input i = record {
  version = trim_space i.version;
  url = trim_space i.url;
  sha256 = to_lower (trim_prefix (trim_space i.sha256) (codes "sha256:"));
}

abbrev pub is_hex : ℕ → Bool
is_hex c = (leb b'0' c && leb c b'9') || (leb b'a' c && leb c b'f') || (leb b'A' c && leb c b'F')

unfoldable pub all_hex : Text → Bool
all_hex [] = true
all_hex (c ∷ s) = let rest = all_hex s in is_hex c && rest

-- The checks of a cleaned input.
unfoldable pub input_error : OtaInput → Option OtaError
unfolding has_prefix all_hex
input_error i =
    if is_empty i.version && is_empty i.url
    then some nothing_given
    else if not (is_empty i.url)
        && not (has_prefix i.url (codes "http://"))
        && not (has_prefix i.url (codes "https://"))
    then some bad_ota_url
    else if not (is_empty i.sha256) && (not (all_hex i.sha256) || not (length i.sha256 == 64))
    then some bad_sha
    else none

abbrev pub caps_of : Option NodeRow → List Text
caps_of none = []
caps_of (some n) = trim_parts (split_commas n.capabilities [])

-- nodeReportedInfo
unfoldable pub node_reported_info : Text → Watch → Text × List Text
unfolding split_commas trim_parts trim_space
node_reported_info node w =
    (trim_space (version_of (node_snapshot node w)), caps_of (node_snapshot node w))

unfoldable pub has_capability : Text → List Text → Bool
unfolding fold_case
has_capability cap [] = false
has_capability cap (c ∷ cs) = let rest = has_capability cap cs in equal_fold c cap || rest

abbrev pub allows : Text → List Text → Bool
allows cap [] = true
allows cap (c ∷ cs) = has_capability cap (c ∷ cs)

-- nodeCapabilityGate
unfoldable pub node_capability_gate : Text → Text → Watch → Bool
unfolding node_reported_info has_capability
node_capability_gate node cap w = allows cap (node_reported_info node w).1

-- What lets a request pass, up to the sending of the command.
unfoldable pub ota_check : Text → OtaInput → Watch → List OtaTask → Option OtaError
unfolding input_error node_capability_gate ota_task_in_flight
ota_check node i w tasks = elim (input_error i) [
  | some e ↦ some e
  | none ↦
      if not (node_capability_gate node (codes "ota") w)
      then some no_capability
      else if ota_task_in_flight node tasks
      then some in_flight
      else none
]

abbrev pub live_or : Option Text → Text → Text
live_or none v = v
live_or (some live) v = live

-- The version that the node has at the dispatch.
unfoldable pub from_version_of : Pools → (Text → Option Text) → Text → Watch → Text
unfolding node_reported_info ota_node_is_http_only
from_version_of p live node w =
    let reported = (node_reported_info node w).0 in
    if ota_node_is_http_only p node then live_or (live node) reported else reported

abbrev pub error_text : Option Text → Text
error_text none = []
error_text (some e) = truncate_str e 512

-- The row of a task, once the command was sent: the stage that the node answered, and the error of
-- the sending, which ends at `after`.
unfoldable pub sent_task : ℕ → ℕ → ℕ → Text → Text → Text → OtaInput → Text → Option Text → OtaTask
unfolding truncate_str
sent_task id now after node req from i stage failure = record {
  id = id;
  node_id = node;
  request_id = req;
  from_version = from;
  target_version = i.version;
  url = i.url;
  sha256 = i.sha256;
  status = if is_some failure then ota_failed else dispatched;
  stage = if is_empty stage && not (is_some failure) then codes "accepted" else stage;
  error = error_text failure;
  dispatched_at = now;
  finished_at = if is_some failure then some after else none;
}

abbrev pub sent_answer : Option Text → Option OtaError
sent_answer none = none
sent_answer (some e) = some (not_sent e)

-- The first part of the handler, up to the sending of the command: a request that passes the check
-- waits for its node, while other requests and reports are handled.
unfoldable pub begin_dispatch :
    Pools
    → (Text → Option Text)
    → ℕ
    → Text
    → Text
    → OtaInput
    → OtaState
    → Option OtaError × OtaState
unfolding clean_input ota_check from_version_of
begin_dispatch p live now node req i s =
    let clean = clean_input i in
    elim (ota_check (trim_space node) clean s.watch s.tasks) [
      | some e ↦ (some e, s)
      | none ↦
          let request : OtaWaiting = record {
            node_id = trim_space node;
            request_id = req;
            from_version = from_version_of p live (trim_space node) s.watch;
            input = clean;
            sent_at = now;
          } in
          (none, record s { waiting = request ∷ s.waiting })
    ]

-- The rest of the handler, for a request that waits no more: its row is inserted, whatever has
-- happened since the check.
unfoldable pub end_dispatch :
    ℕ → ℕ → OtaWaiting → Text → Option Text → OtaState → Option OtaError × OtaState
unfolding sent_task
end_dispatch id after w stage failure s = (
  sent_answer failure,
  record s {
    tasks =
        sent_task id w.sent_at after w.node_id w.request_id w.from_version w.input stage failure
        ∷ s.tasks;
  },
)
