-- ===== src/Ws/Tests.antt =====
-- Runs of the server on concrete data.
use ipw_boce.NodePool.{lookup_ws_key}
use ipw_boce.NodePool.Tests.{no_pools}
use ipw_boce.Prelude.{
  List, Text, [], arith, codes, contains, false, none, refl, some, true, ℕ, ◌∷◌, ◌≡◌,
}
use ipw_boce.Presence.{is_online}
use ipw_boce.Presence.Tests.{empty_watch, node}
use ipw_boce.Waiters.{Waiters, mail_of, take_reply}
use ipw_boce.Waiters.Laws.{deliver_all, take_reply-deliver_all}
use ipw_boce.Ws.{
  Env, Hub, Registration, Session, accept, announce, depart, drop_peer, enter_peer, evict, is_conn,
  leave_peers, on_message, on_register, peer_of, put_peer, register, stamp,
}
use ipw_boce.Ws.Races.{late_departure}
use ipw_boce.Ws.Sync.{HubSteps-IsSynced, IsSynced, at_start, idle, is_connected, message, then_step}

abbrev empty_hub : Hub
empty_hub = record {
  watch = empty_watch;
  peers = [];
  probes = record { waiting = []; mail = [] };
  commands = record { waiting = []; mail = [] };
  total_reqs = 0;
  err_reqs = 0;
}

abbrev here_env : Env
here_env = record { pools = no_pools; require_key = false; now = 7; remote = codes "10.0.0.9" }

abbrev first_session : Session
first_session = record { conn = 1; registered = none; open_now = true }

abbrev second_session : Session
second_session = record { conn = 2; registered = none; open_now = true }

abbrev hello : Registration
hello = record { node_id = node; key = []; version = codes "1.2"; capabilities = [] }

-- The hub once the node has registered, and once it has registered again.
abbrev joined : Hub
joined = (accept here_env first_session hello empty_hub).1

abbrev rejoined : Hub
rejoined = (accept here_env second_session hello joined).1

registers : (on_message here_env first_session (register hello) empty_hub).1 ≡ joined
unfolding on_message on_register lookup_ws_key stamp
registers = refl

old_peer : is_conn 1 (peer_of node rejoined) ≡ false
unfolding accept enter_peer announce put_peer drop_peer
old_peer = refl

new_peer : peer_of node rejoined ≡ some (record { conn = 2; id = node; last = 7 })
unfolding accept enter_peer announce put_peer drop_peer
new_peer = refl

first_peer : is_conn 1 (peer_of node joined) ≡ true
unfolding accept enter_peer announce put_peer drop_peer
first_peer = refl

empty_hub-IsSynced : IsSynced empty_hub
empty_hub-IsSynced id on = absurd (ground arith)

HubSteps-IsSynced_example : IsSynced (
    evict false false 900
      (record { conn = 1; id = node; last = 7 })
      (on_message here_env first_session (register hello) empty_hub).1)
HubSteps-IsSynced_example =
    HubSteps-IsSynced
      (then_step (then_step at_start (message here_env first_session (register hello)))
        (idle false false 900 (record { conn = 1; id = node; last = 7 }) (rw registers first_peer)))
      empty_hub-IsSynced

late_departure_example :
    let back = (accept here_env second_session hello (leave_peers 1 node joined).1).1 in
    let late = depart false false 9 node back in
    (is_connected node late ≡ true) × (is_online node late.watch ≡ false)
late_departure_example =
    late_departure false false 9 here_env 1 second_session hello joined first_peer

abbrev replies : List (Text × ℕ)
replies = (codes "m9", 1) ∷ (codes "m1", 2) ∷ (codes "m1", 3) ∷ []

abbrev one_waits : Waiters ℕ
one_waits = record { waiting = codes "m1" ∷ []; mail = [] }

take_reply-deliver_all_example :
    (take_reply (codes "m1") (deliver_all replies one_waits)).0 ≡ mail_of (codes "m1") replies
unfolding mail_of contains
take_reply-deliver_all_example =
    take_reply-deliver_all (codes "m1") replies one_waits (ground arith) refl
