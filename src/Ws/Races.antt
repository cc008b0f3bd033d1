-- ===== src/Ws/Races.antt =====
-- What happens to a connection that another one of the same node has replaced.
use ipw_boce.Prelude.{
  Bool, Text, ap, arith, false, refl, some, text_eq_self, true, ℕ, ◌∙◌, ◌≡◌, ◌≢◌,
}
use ipw_boce.Presence.{is_online}
use ipw_boce.Presence.Views.{is_online-record_node_offline}
use ipw_boce.Ws.{
  Env, Hub, Peer, Registration, Session, accept, after_leave, depart, evict, is_conn, leave_peers,
  on_read_error, peer_of,
}
use ipw_boce.Ws.Sync.{is_connected, is_connected-accept, leave_peers-replaced}

-- A connection that was replaced ends quietly: neither the register nor what is shown changes.
pub replaced_ends_quietly :
    (ota maint : Bool) (now : ℕ) (c : Session) (id : Text) (h : Hub)
    → c.registered ≡ some id
    → is_conn c.conn (peer_of id h) ≡ false
    → on_read_error ota maint now c h ≡ h
unfolding on_read_error
replaced_ends_quietly ota maint now c id h e old =
    rw e (ap (after_leave ota maint now id) (leave_peers-replaced c.conn id h old))

departed-peers :
    (ota maint : Bool) (now : ℕ) (id j : Text) (h : Hub)
    → is_connected j (depart ota maint now id h) ≡ is_connected j h
unfolding depart
departed-peers ota maint now id j h = refl

departed-online :
    (ota maint : Bool) (now : ℕ) (id : Text) (h : Hub)
    → is_online id (depart ota maint now id h).watch ≡ false
unfolding depart
departed-online ota maint now id h =
    is_online-record_node_offline ota maint now id h.watch id ∙ ground (arith, text_eq_self id)

-- The round drops an idle connection from its list although another one has replaced it by then:
-- the node stays connected, but is shown offline.
pub evict_replaced :
    (ota maint : Bool) (now : ℕ) (p q : Peer) (h : Hub)
    → peer_of p.id h ≡ some q
    → q.conn ≢ p.conn
    → (is_connected p.id (evict ota maint now p h) ≡ true)
      × (is_online p.id (evict ota maint now p h).watch ≡ false)
unfolding evict
evict_replaced ota maint now p q h e ne =
    let old : is_conn p.conn (peer_of p.id h) ≡ false = rw e (ground arith) in
    let same = leave_peers-replaced p.conn p.id h old in
    (
      ap (λ (r : Bool × Hub). is_connected p.id (depart ota maint now p.id r.1)) same
          ∙ departed-peers ota maint now p.id p.id h
          ∙ rw e refl,
      is_online-record_node_offline ota maint now p.id (leave_peers p.conn p.id h).1.watch p.id
          ∙ ground (arith, text_eq_self p.id),
    )

-- Between the two parts of the end of a connection the node can register again. Its new connection
-- then stands for it, but the late second part shows it offline.
pub late_departure :
    (ota maint : Bool) (now : ℕ) (env : Env) (conn : ℕ) (c : Session) (reg : Registration) (h : Hub)
    → is_conn conn (peer_of reg.node_id h) ≡ true
    → let back = (accept env c reg (leave_peers conn reg.node_id h).1).1 in
      let late = depart ota maint now reg.node_id back in
      (is_connected reg.node_id late ≡ true) × (is_online reg.node_id late.watch ≡ false)
late_departure ota maint now env conn c reg h cur =
    let left = (leave_peers conn reg.node_id h).1 in
    let back = (accept env c reg left).1 in
    (
      departed-peers ota maint now reg.node_id reg.node_id back
          ∙ is_connected-accept env c reg left reg.node_id
          ∙ ground (arith, text_eq_self reg.node_id),
      departed-online ota maint now reg.node_id back,
    )
