-- ===== src/Presence/Tests.antt =====
-- Runs of the presence code on concrete data.
use ipw_boce.NodePool.{pool_label_for}
use ipw_boce.NodePool.Tests.{no_pools}
use ipw_boce.Prelude.{Text, [], arith, codes, false, refl, ◌∷◌, ◌≡◌}
use ipw_boce.Presence.{
  Watch, add_event, clear_marks, event_row, first_row, is_online, join_capabilities,
  record_node_offline, record_node_online, recovered, upsert_online,
}
use ipw_boce.Presence.Tracking.{
  IsTracked, Steps, Steps-IsTracked, come, here, leave, move_all, move_of, move_view, next,
  view-move_all,
}
use ipw_boce.Store.{NodeRow}
use ipw_boce.Uptime.{went_online}

abbrev pub node : Text
node = codes "d7"

abbrev pub empty_watch : Watch
empty_watch = record {
  next_id = 1;
  nodes = [];
  events = [];
  startup_exempt = [];
  ota_exempt = [];
  maint_suppressed = [];
  down_pending = [];
  notices = [];
}

abbrev pub seen : NodeRow
seen = first_row 1 node [] 5 (codes "10.0.0.1") (codes "1.2") []

abbrev pub online_watch : Watch
online_watch = record empty_watch {
  next_id = 3;
  nodes = seen ∷ [];
  events = event_row 2 node went_online 5 ∷ [];
}

registers :
    record_node_online no_pools 5 node (codes "10.0.0.1") (codes "1.2") [] empty_watch
    ≡ online_watch
unfolding record_node_online upsert_online add_event clear_marks recovered pool_label_for
    join_capabilities
registers = refl

Steps-IsTracked_example : IsTracked (
    record_node_offline false false 9 node
      (record_node_online no_pools 5 node (codes "10.0.0.1") (codes "1.2") [] empty_watch))
Steps-IsTracked_example =
    Steps-IsTracked {pools = no_pools} {s = empty_watch}
      (next (next here (come 5 node (codes "10.0.0.1") (codes "1.2") []))
        (leave false false 9 node))
      (λ id. ((λ e. absurd (ground arith)), tt))

-- The node comes and goes, and the other one comes.
abbrev busy_run : Steps no_pools empty_watch (
    record_node_online no_pools 10 (codes "d8") [] [] [] (
      record_node_offline false false 9 node
        (record_node_online no_pools 5 node (codes "10.0.0.1") (codes "1.2") [] empty_watch)))
busy_run =
    next
      (next (next here (come 5 node (codes "10.0.0.1") (codes "1.2") []))
        (leave false false 9 node))
      (come 10 (codes "d8") [] [] [])

view-move_all_example :
    is_online node (
      record_node_online no_pools 10 (codes "d8") [] [] [] (
        record_node_offline false false 9 node
          (record_node_online no_pools 5 node (codes "10.0.0.1") (codes "1.2") [] empty_watch)))
    ≡ false
unfolding move_all move_of move_view
view-move_all_example = view-move_all busy_run node
