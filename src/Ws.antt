-- ===== src/Ws.antt =====
-- The WebSocket server (ws.go): the loop of a connection, the register of connected nodes, requests
-- to a node with their answers, and the regular round that drops idle connections. A connection is
-- a number; an open socket, the frames on it and its addresses are not modelled. What a handler
-- sends or passes on is a list of effects. The parts of a handler that run under different locks
-- are functions of their own, so that other connections can come between them.
pub mod Tests
pub mod Sync
pub mod Races
use ipw_boce.Calendar.{second_ns}
use ipw_boce.NodePool.{Pools, lookup_ws_key}
use ipw_boce.Prelude.{
  Bool, List, Option, Text, [], codes, delete, false, find, if◌then◌else◌, is_empty, is_some,
  length, ltb, map, none, not, some, suc, text_eq, true, update, utf8, ℕ, ◌&&◌, ◌*◌, ◌++◌, ◌-◌,
  ◌==◌, ◌∷◌,
}
use ipw_boce.Presence.{Watch, record_node_offline, record_node_online, touch_nodes}
use ipw_boce.Shop.Finish.{closed}
use ipw_boce.Store.{ok}
use ipw_boce.Waiters.{
  Ending, Waiters, answered, await_reply, deliver, not_connected, refused, send_failed, take_reply,
  timed_out,
}

pub record Peer : Type 0 where
  pub conn : ℕ
  pub id : Text
  pub last : ℕ

pub record ProbeReply : Type 0 where
  pub status : ℕ
  pub body : Text
  pub error : Text

pub record CommandReply : Type 0 where
  pub ok : Bool
  pub error : Text

pub record Hub : Type 0 where
  pub watch : Watch
  pub peers : List Peer
  pub probes : Waiters ProbeReply
  pub commands : Waiters CommandReply
  pub total_reqs : ℕ
  pub err_reqs : ℕ

pub data Effect : Type 0 where
  register_error : ℕ → Text → Effect
  register_ok send_ping send_status : ℕ → Effect
  send_pong : ℕ → Text → Effect
  close_conn : ℕ → Text → Effect
  pass_report : Text → Text → Effect
  pass_ota_result : Text → Text → Effect
  pass_frame : Text → Text → Effect
  ota_registered : Text → Text → Effect

pub record Registration : Type 0 where
  pub node_id : Text
  pub key : Text
  pub version : Text
  pub capabilities : List Text

-- The messages of a node, decoded; `garbled` is one that cannot be, the last but one is unknown.
pub data Message : Type 0 where
  register : Registration → Message
  probe_result : Text → ProbeReply → Message
  report : Text → Message
  config_result : Text → CommandReply → Message
  ota_result : Text → CommandReply → Text → Message
  binary : Text → Message
  ping pong unknown_type garbled : Message

-- The state of the loop of one connection.
pub record Session : Type 0 where
  pub conn : ℕ
  pub registered : Option Text
  pub open_now : Bool

-- What the loop reads of its surroundings.
pub record Env : Type 0 where
  pub pools : Pools
  pub require_key : Bool
  pub now : ℕ
  pub remote : Text

abbrev pub is_peer : Text → Peer → Bool
is_peer id p = text_eq p.id id

abbrev pub peer_of : Text → Hub → Option Peer
peer_of id h = find (is_peer id) h.peers

-- NodeConnected
unfoldable pub node_connected : Text → Hub → Bool
node_connected id h = is_some (peer_of id h)

-- PeerIDs
unfoldable pub peer_ids : Hub → List Text
peer_ids h = map (λ (p : Peer). p.id) h.peers

-- PeerCount
unfoldable pub peer_count : Hub → ℕ
peer_count h = length h.peers

unfoldable pub drop_peer : Text → List Peer → List Peer
drop_peer id ps = delete (is_peer id) ps

-- `s.peers[id] = peer`
unfoldable pub put_peer : Peer → List Peer → List Peer
unfolding drop_peer
put_peer p ps = p ∷ drop_peer p.id ps

-- The activity of a connection: `peer.last.Store(now)`.
unfoldable pub stamp : ℕ → ℕ → Hub → Hub
stamp conn now h = record h {
  peers = update (λ p. p.conn == conn) (λ p. record p { last = now }) h.peers;
}

-- The part of the registration under the lock: an older connection of the node is closed.
abbrev pub replaced : Option Peer → List Effect
replaced none = []
replaced (some old) = close_conn old.conn (codes "replaced by new connection") ∷ []

unfoldable pub enter_peer : Env → Session → Registration → Hub → List Effect × Hub
unfolding put_peer
enter_peer env c reg h = (
  replaced (peer_of reg.node_id h),
  record h {
    peers = put_peer (record { conn = c.conn; id = reg.node_id; last = env.now }) h.peers;
  },
)

-- The rest of it: the node is shown online.
unfoldable pub announce : Env → Registration → Hub → Hub
announce env reg h = record h {
  watch =
      record_node_online env.pools env.now reg.node_id env.remote reg.version reg.capabilities
        h.watch;
}

abbrev pub rejected : Session → Text → Text → Hub → (Session × List Effect) × Hub
rejected c reply reason h = (
  (record c { open_now = false }, register_error c.conn reply ∷ close_conn c.conn reason ∷ []),
  h,
)

unfoldable pub accept : Env → Session → Registration → Hub → (Session × List Effect) × Hub
unfolding enter_peer announce
accept env c reg h =
    let (closed, h') = enter_peer env c reg h in
    (
      (
        record c { registered = some reg.node_id },
        closed ++ (ota_registered reg.node_id reg.version ∷ register_ok c.conn ∷ []),
      ),
      announce env reg h',
    )

-- A node with a key must give it; a node without one is turned away where keys are required.
abbrev pub bad_key : Env → Registration → Bool
bad_key env reg =
    not (is_empty (lookup_ws_key env.pools reg.node_id))
    && not (text_eq reg.key (lookup_ws_key env.pools reg.node_id))

abbrev pub no_key : Env → Registration → Bool
no_key env reg = env.require_key && is_empty (lookup_ws_key env.pools reg.node_id)

-- The case "register" of the loop.
unfoldable pub on_register : Env → Session → Registration → Hub → (Session × List Effect) × Hub
unfolding accept
on_register env c reg h =
    if is_empty reg.node_id
    then ((c, register_error c.conn (codes "empty nodeId") ∷ []), h)
    else if is_some c.registered
    then ((c, register_error c.conn (codes "already registered") ∷ []), h)
    else if bad_key env reg
    then rejected c (codes "invalid key") (codes "invalid key") h
    else if no_key env reg
    then rejected c (codes "key required") (codes "key required") h
    else accept env c reg h

-- deliverCommandResult
unfoldable pub deliver_command_result : Text → CommandReply → Hub → Hub
unfolding deliver
deliver_command_result req r h =
    if is_empty req then h else record h { commands = deliver req r h.commands }

-- The other cases, of a connection that is registered as `id`.
unfoldable pub on_registered : Session → Text → Message → Hub → (Session × List Effect) × Hub
unfolding deliver deliver_command_result
on_registered c id (probe_result req r) h = ((c, []), record h { probes = deliver req r h.probes })
on_registered c id (report content) h = ((c, pass_report id content ∷ []), h)
on_registered c id ping h = ((c, send_pong c.conn id ∷ []), h)
on_registered c id (config_result req r) h = ((c, []), deliver_command_result req r h)
on_registered c id (ota_result req r content) h =
    ((c, pass_ota_result id content ∷ []), deliver_command_result req r h)
on_registered c id (binary bytes) h = ((c, pass_frame id bytes ∷ []), h)
on_registered c id m h = ((c, []), h)

abbrev pub if_registered : Session → Option Text → Message → Hub → (Session × List Effect) × Hub
if_registered c none m h = ((c, []), h)
if_registered c (some id) m h = on_registered c id m h

-- One round of the loop of Handler, for a message that was read.
unfoldable pub on_message : Env → Session → Message → Hub → (Session × List Effect) × Hub
unfolding on_register on_registered stamp
on_message env c garbled h = ((c, []), h)
on_message env c (register reg) h = on_register env c reg (stamp c.conn env.now h)
on_message env c m h = if_registered c c.registered m (stamp c.conn env.now h)

abbrev pub is_conn : ℕ → Option Peer → Bool
is_conn conn none = false
is_conn conn (some p) = p.conn == conn

-- The end of a connection, under the lock: it is taken out if it still stands for its node. The
-- value says whether it did.
unfoldable pub leave_peers : ℕ → Text → Hub → Bool × Hub
unfolding drop_peer
leave_peers conn id h =
    if is_conn conn (peer_of id h)
    then (true, record h { peers = drop_peer id h.peers })
    else (false, h)

-- The rest of it: the node is shown offline.
unfoldable pub depart : Bool → Bool → ℕ → Text → Hub → Hub
depart ota maint now id h = record h { watch = record_node_offline ota maint now id h.watch }

abbrev pub after_leave : Bool → Bool → ℕ → Text → Bool × Hub → Hub
after_leave ota maint now id (true, h) = depart ota maint now id h
after_leave ota maint now id (false, h) = h

abbrev pub end_session : Bool → Bool → ℕ → ℕ → Option Text → Hub → Hub
end_session ota maint now conn none h = h
end_session ota maint now conn (some id) h = after_leave ota maint now id (leave_peers conn id h)

-- The branch of a read error.
unfoldable pub on_read_error : Bool → Bool → ℕ → Session → Hub → Hub
unfolding leave_peers depart
on_read_error ota maint now c h = end_session ota maint now c.conn c.registered h

abbrev pub idle_limit : ℕ
idle_limit = 75 * second_ns

abbrev pub is_idle_peer : ℕ → Peer → Bool
is_idle_peer now p = ltb idle_limit (now - p.last)

-- An idle connection of the round's list is dropped.
unfoldable pub evict : Bool → Bool → ℕ → Peer → Hub → Hub
unfolding leave_peers depart
evict ota maint now p h = depart ota maint now p.id (leave_peers p.conn p.id h).1

-- The loop of maintenanceLoop over its list of connections; `alive` collects the others.
unfoldable pub round_loop :
    ℕ
    → (Text → Bool)
    → (Text → Bool)
    → List Peer
    → List Text
    → List Effect
    → Hub
    → (List Text × List Effect) × Hub
unfolding evict
round_loop now ota maint [] alive out h = ((alive, out), h)
round_loop now ota maint (p ∷ ps) alive out h =
    if is_idle_peer now p
    then round_loop now ota maint ps alive (close_conn p.conn (codes "idle timeout") ∷ out)
        (evict (ota p.id) (maint p.id) now p h)
    else round_loop now ota maint ps (alive ++ (p.id ∷ []))
        (send_status p.conn ∷ send_ping p.conn ∷ out) h

-- One round of maintenanceLoop.
unfoldable pub maintenance_round : ℕ → (Text → Bool) → (Text → Bool) → Hub → List Effect × Hub
unfolding round_loop
maintenance_round now ota maint h =
    let ((alive, out), h') = round_loop now ota maint h.peers [] [] h in
    (out, record h' { watch = touch_nodes now alive h'.watch })

-- Kick
unfoldable pub kick : Text → Text → Hub → List Effect
kick id reason h = elim (peer_of id h) [ none ↦ [] | some p ↦ close_conn p.conn reason ∷ [] ]

-- The first part of requestProbe: the channel is entered and the request sent, where `sent` says
-- whether the write worked; an error has taken the channel out again.
unfoldable pub begin_probe : Text → Text → Bool → Hub → Option (Ending ProbeReply) × Hub
begin_probe id req sent h =
    if not (is_some (peer_of id h))
    then (some not_connected, h)
    else if not sent
    then (some send_failed, record h { err_reqs = suc h.err_reqs })
    else (none, record h { probes = await_reply req h.probes; total_reqs = suc h.total_reqs })

-- A body that is a JSON string is passed on as its text; `unquote` is json.Unmarshal into a string.
abbrev pub unquoted : Option Text → Text → Text
unquoted none body = body
unquoted (some t) body = t

unfoldable pub plain_body : (Text → Option Text) → Text → Text
plain_body unquote [] = []
plain_body unquote (c ∷ s) = if c == b'"' then unquoted (unquote (c ∷ s)) (c ∷ s) else c ∷ s

abbrev pub probe_ending : (Text → Option Text) → Option ProbeReply → Ending ProbeReply
probe_ending unquote none = timed_out
probe_ending unquote (some r) =
    if is_empty r.error
    then answered (record r { body = plain_body unquote r.body })
    else refused r.error

abbrev pub is_answer : {A : Type 0} → Ending A → Bool
is_answer (answered a) = true
is_answer e = false

-- The second part: an answer that is there, or else the timeout.
unfoldable pub end_probe : (Text → Option Text) → Text → Hub → Ending ProbeReply × Hub
end_probe unquote req h =
    let (r, w) = take_reply req h.probes in
    let e = probe_ending unquote r in
    (e, record h { probes = w; err_reqs = (if is_answer e then h.err_reqs else suc h.err_reqs) })

abbrev pub no_reason : Text
no_reason = utf8 "节点返回失败但未给出原因"

abbrev pub command_ending : Option CommandReply → Ending CommandReply
command_ending none = timed_out
command_ending (some r) =
    if r.ok then answered r else refused (if is_empty r.error then no_reason else r.error)

-- RequestCommand
unfoldable pub begin_command : Text → Text → Bool → Hub → Option (Ending CommandReply) × Hub
begin_command id req sent h =
    if not (is_some (peer_of id h))
    then (some not_connected, h)
    else if not sent
    then (some send_failed, h)
    else (none, record h { commands = await_reply req h.commands })

unfoldable pub end_command : Text → Hub → Ending CommandReply × Hub
end_command req h =
    let (r, w) = take_reply req h.commands in (command_ending r, record h { commands = w })
