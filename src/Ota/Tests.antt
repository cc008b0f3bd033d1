-- ===== src/Ota/Tests.antt =====
-- Runs of the updates on concrete data.
use ipw_boce.NodePool.Tests.{no_pools}
use ipw_boce.Ota.{
  OtaInput, OtaResult, OtaState, OtaTask, OtaWaiting, finished_task, has_task_id,
  ota_on_node_registered, ota_on_node_result, reconcile_round, success,
}
use ipw_boce.Ota.Changes.{OtaSteps, and_then, begins, ends, none_yet, report}
use ipw_boce.Ota.Dispatch.{
  begin_dispatch, clean_input, end_dispatch, from_version_of, in_flight, node_capability_gate,
  ota_check, sent_task,
}
use ipw_boce.Ota.Final.{ended_stays}
use ipw_boce.Ota.Settles.{late_round_ends, open_rows}
use ipw_boce.Ota.Single.{IsSingle, OtaSteps-IsSingle}
use ipw_boce.Prelude.{Option, Text, [], arith, codes, false, find, none, refl, some, ◌∷◌, ◌≡◌}
use ipw_boce.Presence.{join_capabilities}
use ipw_boce.Presence.Tests.{node, online_watch}

abbrev empty_state : OtaState
empty_state = record { tasks = []; watch = online_watch; waiting = [] }

abbrev no_live : Text → Option Text
no_live t = none

abbrev update_input : OtaInput
update_input = record { version = codes " v1.3 "; url = []; sha256 = codes "sha256:" }

abbrev clean_update : OtaInput
clean_update = record { version = codes "v1.3"; url = []; sha256 = [] }

clean_test : clean_input update_input ≡ clean_update
unfolding clean_input
clean_test = refl

-- A request for the node that has passed its check.
abbrev begun_state : OtaState
begun_state = (begin_dispatch no_pools no_live 10 node (codes "o1") update_input empty_state).1

abbrev request : OtaWaiting
request = record {
  node_id = node;
  request_id = codes "o1";
  from_version = codes "1.2";
  input = clean_update;
  sent_at = 10;
}

begun_test : begun_state.waiting ≡ (request ∷ [])
unfolding begin_dispatch join_capabilities
begun_test = refl

-- The state once the update of the node was sent.
abbrev sent_state : OtaState
sent_state = (end_dispatch 7 11 request [] none empty_state).1

abbrev sent_row : OtaTask
sent_row = sent_task 7 10 11 node (codes "o1") (codes "1.2") clean_update [] none

sent_test : sent_state.tasks ≡ (sent_row ∷ [])
unfolding begin_dispatch end_dispatch clean_input ota_check node_capability_gate from_version_of
    join_capabilities
sent_test = refl

second_test :
    (begin_dispatch no_pools no_live 12 node (codes "o2") update_input sent_state).0
    ≡ some in_flight
unfolding begin_dispatch end_dispatch clean_input ota_check node_capability_gate from_version_of
    sent_task join_capabilities
second_test = refl

abbrev done_row : OtaTask
done_row = finished_task 20 success [] [] sent_row

abbrev done_state : OtaState
done_state = record { tasks = done_row ∷ []; watch = online_watch; waiting = [] }

-- The node registers with the new version.
registered_test : ota_on_node_registered 20 node (codes "1.3") (sent_row ∷ []) ≡ (done_row ∷ [])
unfolding ota_on_node_registered sent_task
registered_test = refl

abbrev late_report : OtaResult
late_report = record { request_id = codes "o1"; is_good = false; stage = []; error = codes "x" }

abbrev later_steps :
    OtaSteps done_state
      (record done_state { tasks = ota_on_node_result 30 late_report done_state.tasks })
later_steps = and_then none_yet (report 30 late_report done_state)

ended_stays_example :
    find (has_task_id 7) (ota_on_node_result 30 late_report (done_row ∷ [])) ≡ some done_row
unfolding sent_task
ended_stays_example = ended_stays 7 done_row later_steps (refl, refl)

-- A request for the node is checked and sent, and the node reports a failure.
abbrev whole_update :
    OtaSteps empty_state
      (record sent_state { tasks = ota_on_node_result 30 late_report sent_state.tasks })
unfolding begin_dispatch join_capabilities
whole_update =
    and_then
      (and_then
        (and_then none_yet (begins no_pools no_live 10 node (codes "o1") update_input empty_state))
        (ends 7 11 request [] none [] [] empty_state refl))
      (report 30 late_report sent_state)

OtaSteps-IsSingle_example : IsSingle (ota_on_node_result 30 late_report sent_state.tasks)
unfolding whole_update
OtaSteps-IsSingle_example =
    OtaSteps-IsSingle whole_update (((tt, refl), tt), tt) refl (λ id. ground arith)

late_round_ends_example :
    open_rows 7
      (reconcile_round no_pools no_live
        (codes "late")
        2000000000000
        (record { tasks = sent_row ∷ []; watch = online_watch; waiting = [] })).tasks
    ≡ 0
unfolding sent_task
late_round_ends_example =
    late_round_ends no_pools no_live (codes "late") 2000000000000 sent_row [] []
      (record { tasks = sent_row ∷ []; watch = online_watch; waiting = [] }) refl (ground arith)
