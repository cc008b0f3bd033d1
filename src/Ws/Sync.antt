-- ===== src/Ws/Sync.antt =====
-- Connected nodes are shown online.
use ipw_boce.Prelude.{
  Bool, Bool-cases, List, Option, Text, [], ap, arith, false, find, if◌then◌else◌, inl, inr,
  is_empty, is_some, none, refl, some, subst, sym, text_eq, text_eq_iff, true, update, ℕ, ◌==◌,
  ◌||◌, ◌∙◌, ◌∷◌, ◌≡◌, ◌⊎◌,
}
use ipw_boce.Presence.{is_online}
use ipw_boce.Presence.Views.{is_online-record_node_offline, is_online-record_node_online, not_both}
use ipw_boce.Ws.{
  Effect, Env, Hub, Message, Peer, Registration, Session, accept, after_leave, announce, bad_key,
  begin_probe, binary, config_result, deliver_command_result, depart, drop_peer, end_probe,
  end_session, enter_peer, evict, garbled, if_registered, is_conn, is_peer, leave_peers, no_key,
  on_message, on_read_error, on_register, on_registered, ota_result, peer_of, ping, pong,
  probe_result, put_peer, register, report, stamp, unknown_type,
}

abbrev pub is_connected : Text → Hub → Bool
is_connected id h = is_some (peer_of id h)

-- A node in the register of connections is shown online.
abbrev pub IsSynced : Hub → Type 0
IsSynced h = (id : Text) → is_connected id h ≡ true → is_online id h.watch ≡ true

find-drop_peer :
    (id j : Text) (ps : List Peer)
    → find (is_peer j) (drop_peer id ps) ≡ (if text_eq id j then none else find (is_peer j) ps)
unfolding drop_peer
find-drop_peer id j [] = ground arith
find-drop_peer id j (p ∷ ps) =
    let ih = find-drop_peer id j ps in
    elim (Bool-cases (text_eq p.id id)) [
      | inl same ↦
          let e : text_eq p.id j ≡ text_eq id j =
            ap (λ x. text_eq x j) ((text_eq_iff p.id id).0 same) in
          ground (arith, ih, same, e)
      | inr differs ↦ elim (Bool-cases (text_eq p.id j)) [
        | inl found ↦
            let e : text_eq id j ≡ false = not_both p.id id j differs found in
            rw (differs, found, e) refl
        | inr misses ↦ rw (differs, misses) ih
      ]
    ]

find-stamp :
    (j : Text) (conn now : ℕ) (ps : List Peer)
    → is_some (find (is_peer j) (update (λ p. p.conn == conn) (λ p. record p { last = now }) ps))
      ≡ is_some (find (is_peer j) ps)
find-stamp j conn now [] = refl
find-stamp j conn now (p ∷ ps) = ground (arith, find-stamp j conn now ps)

pub is_connected-accept :
    (env : Env) (c : Session) (reg : Registration) (h : Hub) (j : Text)
    → is_connected j (accept env c reg h).1 ≡ (text_eq reg.node_id j || is_connected j h)
unfolding accept enter_peer announce put_peer
is_connected-accept env c reg h j = ground (arith, find-drop_peer reg.node_id j h.peers)

is_online-accept :
    (env : Env) (c : Session) (reg : Registration) (h : Hub) (j : Text)
    → is_online j (accept env c reg h).1.watch ≡ (text_eq reg.node_id j || is_online j h.watch)
unfolding accept enter_peer announce
is_online-accept env c reg h j =
    is_online-record_node_online env.pools env.now reg.node_id env.remote reg.version
      reg.capabilities h.watch j

either : (a b c : Bool) → (b ≡ true → c ≡ true) → a || b ≡ true → a || c ≡ true
either true b c keep h = refl
either false b c keep h = keep h

accept-IsSynced :
    (env : Env) (c : Session) (reg : Registration) (h : Hub)
    → IsSynced h
    → IsSynced (accept env c reg h).1
accept-IsSynced env c reg h s j on =
    is_online-accept env c reg h j
    ∙ either (text_eq reg.node_id j) (is_connected j h) (is_online j h.watch) (s j)
        (sym (is_connected-accept env c reg h j) ∙ on)

-- A step that changes neither who is connected nor who is shown online.
sync_by :
    (h h' : Hub)
    → ((j : Text) → is_connected j h' ≡ is_connected j h)
    → ((j : Text) → is_online j h'.watch ≡ is_online j h.watch)
    → IsSynced h
    → IsSynced h'
sync_by h h' same_peers same_watch s j on = same_watch j ∙ s j (sym (same_peers j) ∙ on)

stamp-IsSynced : (conn now : ℕ) (h : Hub) → IsSynced h → IsSynced (stamp conn now h)
unfolding stamp
stamp-IsSynced conn now h s =
    sync_by h (stamp conn now h) (λ j. find-stamp j conn now h.peers) (λ j. refl) s

on_register-cases :
    (env : Env) (c : Session) (reg : Registration) (h : Hub)
    → ((on_register env c reg h).1 ≡ h) ⊎ (on_register env c reg h ≡ accept env c reg h)
unfolding on_register
on_register-cases env c reg h = elim (Bool-cases (is_empty reg.node_id)) [
  | inl a ↦ inl (rw (on_register, a) refl)
  | inr a ↦ elim (Bool-cases (is_some c.registered)) [
    | inl b ↦ inl (rw (on_register, a, b) refl)
    | inr b ↦ elim (Bool-cases (bad_key env reg)) [
      | inl k ↦ inl (rw (on_register, a, b, k) refl)
      | inr k ↦ elim (Bool-cases (no_key env reg)) [
        | inl n ↦ inl (rw (on_register, a, b, k, n) refl)
        | inr n ↦ inr (rw (on_register, a, b, k, n) refl)
      ]
    ]
  ]
]

on_register-IsSynced :
    (env : Env) (c : Session) (reg : Registration) (h : Hub)
    → IsSynced h
    → IsSynced (on_register env c reg h).1
on_register-IsSynced env c reg h s = elim (on_register-cases env c reg h) [
  | inl same ↦ subst IsSynced (sym same) s
  | inr accepted ↦
      subst (λ (r : (Session × List Effect) × Hub). IsSynced r.1) (sym accepted)
        (accept-IsSynced env c reg h s)
]

on_registered-tables :
    (c : Session) (id : Text) (m : Message) (h : Hub)
    → ((on_registered c id m h).1.peers ≡ h.peers) × ((on_registered c id m h).1.watch ≡ h.watch)
unfolding on_registered deliver_command_result
on_registered-tables c id (register reg) h = (refl, refl)
on_registered-tables c id (probe_result req r) h = (refl, refl)
on_registered-tables c id (report content) h = (refl, refl)
on_registered-tables c id (config_result req r) h = (ground arith, ground arith)
on_registered-tables c id (ota_result req r content) h = (ground arith, ground arith)
on_registered-tables c id (binary bytes) h = (refl, refl)
on_registered-tables c id ping h = (refl, refl)
on_registered-tables c id pong h = (refl, refl)
on_registered-tables c id unknown_type h = (refl, refl)
on_registered-tables c id garbled h = (refl, refl)

if_registered-IsSynced :
    (c : Session) (o : Option Text) (m : Message) (h : Hub)
    → IsSynced h
    → IsSynced (if_registered c o m h).1
if_registered-IsSynced c none m h s = s
if_registered-IsSynced c (some id) m h s =
    let (peers, watch) = on_registered-tables c id m h in
    sync_by h (on_registered c id m h).1 (λ j. ap (λ ps. is_some (find (is_peer j) ps)) peers)
      (λ j. ap (is_online j) watch) s

on_message-IsSynced :
    (env : Env) (c : Session) (m : Message) (h : Hub)
    → IsSynced h
    → IsSynced (on_message env c m h).1
unfolding on_message
on_message-IsSynced env c garbled h s = s
on_message-IsSynced env c (register reg) h s =
    on_register-IsSynced env c reg (stamp c.conn env.now h) (stamp-IsSynced c.conn env.now h s)
on_message-IsSynced env c m h s =
    if_registered-IsSynced c c.registered m (stamp c.conn env.now h)
      (stamp-IsSynced c.conn env.now h s)

-- A connection that stands for its node leaves, and the node is shown offline.
depart-IsSynced :
    (ota maint : Bool) (now : ℕ) (id : Text) (h h' : Hub)
    → h'.peers ≡ drop_peer id h.peers
    → h'.watch ≡ h.watch
    → IsSynced h
    → IsSynced (depart ota maint now id h')
unfolding depart
depart-IsSynced ota maint now id h h' peers watch s j on =
    let gone = ap (find (is_peer j)) peers ∙ find-drop_peer id j h.peers in
    is_online-record_node_offline ota maint now id h'.watch j ∙ elim (Bool-cases (text_eq id j)) [
      | inl same ↦ absurd (ground (arith, gone, on, same))
      | inr differs ↦ rw (differs, watch) (s j (ground (arith, gone, on, differs)))
    ]

leave_peers-current :
    (conn : ℕ) (id : Text) (h : Hub)
    → is_conn conn (peer_of id h) ≡ true
    → leave_peers conn id h ≡ (true, record h { peers = drop_peer id h.peers })
unfolding leave_peers
leave_peers-current conn id h cur = rw (leave_peers, cur) refl

pub leave_peers-replaced :
    (conn : ℕ) (id : Text) (h : Hub)
    → is_conn conn (peer_of id h) ≡ false
    → leave_peers conn id h ≡ (false, h)
unfolding leave_peers
leave_peers-replaced conn id h old = rw (leave_peers, old) refl

end_session-IsSynced :
    (ota maint : Bool) (now conn : ℕ) (o : Option Text) (h : Hub)
    → IsSynced h
    → IsSynced (end_session ota maint now conn o h)
end_session-IsSynced ota maint now conn none h s = s
end_session-IsSynced ota maint now conn (some id) h s =
    elim (Bool-cases (is_conn conn (peer_of id h))) [
      | inl cur ↦
          subst (λ r. IsSynced (after_leave ota maint now id r))
            (sym (leave_peers-current conn id h cur))
            (depart-IsSynced ota maint now id h (record h { peers = drop_peer id h.peers }) refl
              refl s)
      | inr old ↦
          subst (λ r. IsSynced (after_leave ota maint now id r))
            (sym (leave_peers-replaced conn id h old)) s
    ]

evict-IsSynced :
    (ota maint : Bool) (now : ℕ) (p : Peer) (h : Hub)
    → is_conn p.conn (peer_of p.id h) ≡ true
    → IsSynced h
    → IsSynced (evict ota maint now p h)
unfolding evict
evict-IsSynced ota maint now p h cur s =
    subst (λ (r : Bool × Hub). IsSynced (depart ota maint now p.id r.1))
      (sym (leave_peers-current p.conn p.id h cur))
      (depart-IsSynced ota maint now p.id h (record h { peers = drop_peer p.id h.peers }) refl refl
        s)

-- What the server does in one go. A connection that is dropped as idle still stands for its node.
pub data HubStep (h : Hub) : Hub → Type 0 where
  message : (env : Env) (c : Session) (m : Message) → HubStep h (on_message env c m h).1
  broken : (ota maint : Bool) (now : ℕ) (c : Session) → HubStep h (on_read_error ota maint now c h)
  idle :
      (ota maint : Bool) (now : ℕ) (p : Peer)
      → is_conn p.conn (peer_of p.id h) ≡ true
      → HubStep h (evict ota maint now p h)
  begins : (id req : Text) (sent : Bool) → HubStep h (begin_probe id req sent h).1
  ends : (unquote : Text → Option Text) (req : Text) → HubStep h (end_probe unquote req h).1

pub data HubSteps (h : Hub) : Hub → Type 0 where
  at_start : HubSteps h h
  then_step : {k l : Hub} → HubSteps h k → HubStep k l → HubSteps h l

HubStep-IsSynced : {h k : Hub} → HubStep h k → IsSynced h → IsSynced k
unfolding on_read_error begin_probe end_probe
HubStep-IsSynced {h} (message env c m) s = on_message-IsSynced env c m h s
HubStep-IsSynced {h} (broken ota maint now c) s =
    end_session-IsSynced ota maint now c.conn c.registered h s
HubStep-IsSynced {h} (idle ota maint now p cur) s = evict-IsSynced ota maint now p h cur s
HubStep-IsSynced {h} (begins id req sent) s =
    sync_by h (begin_probe id req sent h).1 (λ j. ground arith) (λ j. ground arith) s
HubStep-IsSynced {h} (ends unquote req) s =
    sync_by h (end_probe unquote req h).1 (λ j. refl) (λ j. refl) s

-- While each handler runs in one go, every connected node is shown online: whatever messages come,
-- connections break, idle ones are dropped and probes run, in any order.
pub HubSteps-IsSynced : {h k : Hub} → HubSteps h k → IsSynced h → IsSynced k
HubSteps-IsSynced at_start s = s
HubSteps-IsSynced (then_step r st) s = HubStep-IsSynced st (HubSteps-IsSynced r s)
