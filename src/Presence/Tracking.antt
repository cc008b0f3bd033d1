-- ===== src/Presence/Tracking.antt =====
-- The events tell which nodes are online.
use ipw_boce.NodePool.{Pools, pool_label_for}
use ipw_boce.Prelude.{
  Bool, Bool-cases, List, Text, [], ap, arith, count, false, if◌then◌else◌, inl, inr, not, refl,
  subst, sym, text_eq, text_eq_iff, true, ℕ, ◌&&◌, ◌+◌, ◌||◌, ◌∙◌, ◌∷◌, ◌≡◌, ◌≤◌,
}
use ipw_boce.Presence.{
  Watch, clear_marks, event_row, grace_over, is_online, mark_all_nodes_offline, record_node_offline,
  record_node_online, touch_nodes, upsert_online,
}
use ipw_boce.Presence.Views.{
  is_online-grace_over, is_online-mark_all, is_online-record_node_offline,
  is_online-record_node_online, is_online-touch_nodes, record_node_offline-tables,
  record_node_online-tables,
}
use ipw_boce.Uptime.{Event, NodeEvent, of_node, went_offline, went_online}

-- One step of the program, in whatever order the connections and the watchdog make them.
pub data Step (pools : Pools) (s : Watch) : Watch → Type 0 where
  come :
      (now : ℕ) (id remote version : Text) (caps : List Text)
      → Step pools s (record_node_online pools now id remote version caps s)
  leave :
      (ota maint : Bool) (now : ℕ) (id : Text)
      → Step pools s (record_node_offline ota maint now id s)
  fire : (id : Text) → Step pools s (grace_over id s)
  touch : (now : ℕ) (ids : List Text) → Step pools s (touch_nodes now ids s)
  restart : Step pools s (mark_all_nodes_offline s)

pub data Steps (pools : Pools) (s : Watch) : Watch → Type 0 where
  here : Steps pools s s
  next : {t u : Watch} → Steps pools s t → Step pools t u → Steps pools s u

abbrev pub is_arrival : Event → Bool
is_arrival went_online = true
is_arrival went_offline = false

-- The state of a node by its newest event.
abbrev pub last_online : Text → List NodeEvent → Bool
last_online id [] = false
last_online id (e ∷ es) = if of_node id e then is_arrival e.event else last_online id es

abbrev pub is_departure : Text → NodeEvent → Bool
is_departure id e = of_node id e && not (is_arrival e.event)

abbrev pub is_arrival_of : Text → NodeEvent → Bool
is_arrival_of id e = of_node id e && is_arrival e.event

-- Every departure of the node follows an arrival of it.
abbrev pub Paired : Text → List NodeEvent → Type 0
Paired id [] = Unit {0}
Paired id (e ∷ es) = (is_departure id e ≡ true → last_online id es ≡ true) × Paired id es

-- What the events say of a node that is shown online or not.
abbrev pub Agrees : Text → Bool → List NodeEvent → Type 0
Agrees id online es = (online ≡ true → last_online id es ≡ true) × Paired id es

-- A node that is shown online has come online by its newest event, and departures follow arrivals.
abbrev pub IsTracked : Watch → Type 0
IsTracked s =
    (id : Text) → (is_online id s ≡ true → last_online id s.events ≡ true) × Paired id s.events

-- A departure is never without its arrival: no node has more of them.
pub Paired-count :
    (id : Text) (es : List NodeEvent)
    → Paired id es
    → count (is_departure id) es + (if last_online id es then 1 else 0)
      ≤ count (is_arrival_of id) es
Paired-count id [] p = omega arith
Paired-count id (e ∷ es) p = let ih = Paired-count id es p.1 in ground (arith, ih)

last_online_same :
    (id j : Text) (es : List NodeEvent)
    → text_eq id j ≡ true
    → last_online id es ≡ true
    → last_online j es ≡ true
last_online_same id j es e h = subst (λ x. last_online x es ≡ true) ((text_eq_iff id j).0 e) h

come-Agrees :
    (id j : Text) (row now : ℕ) (old b : Bool) (es : List NodeEvent)
    → Agrees id old es
    → Agrees j b es
    → Agrees j (text_eq id j || b) (if old then es else event_row row id went_online now ∷ es)
come-Agrees id j row now true b es (here_id, _) (was, pairs) = (
  (λ e. elim (Bool-cases (text_eq id j)) [
    | inl same ↦ last_online_same id j es same (here_id refl)
    | inr other ↦ was (ground arith)
  ]),
  pairs,
)
come-Agrees id j row now false b es _ (was, pairs) = (
  (λ e. elim (Bool-cases (text_eq id j)) [
    | inl same ↦ rw same refl
    | inr differs ↦ rw differs (was (ground arith))
  ]),
  ((λ d. absurd (ground arith)), pairs),
)

leave-Agrees :
    (id j : Text) (row now : ℕ) (old b : Bool) (es : List NodeEvent)
    → Agrees id old es
    → Agrees j b es
    → Agrees j
        (not (text_eq id j) && b)
        (if old then event_row row id went_offline now ∷ es else es)
leave-Agrees id j row now false b es _ (was, pairs) = ((λ e. was (ground arith)), pairs)
leave-Agrees id j row now true b es (here_id, _) (was, pairs) = (
  (λ e. elim (Bool-cases (text_eq id j)) [
    | inl same ↦ absurd (ground arith)
    | inr differs ↦ rw differs (was (ground arith))
  ]),
  ((λ d. last_online_same id j es (ground arith) (here_id refl)), pairs),
)

upsert-events :
    (label : Text) (now : ℕ) (id remote version : Text) (caps : List Text) (s : Watch)
    → (upsert_online label now id remote version caps (clear_marks id s)).events ≡ s.events
unfolding upsert_online clear_marks
upsert-events label now id remote version caps s = ground arith

mark_all-events : (s : Watch) → (mark_all_nodes_offline s).events ≡ s.events
unfolding mark_all_nodes_offline
mark_all-events s = refl

touch_nodes-events :
    (now : ℕ) (ids : List Text) (s : Watch) → (touch_nodes now ids s).events ≡ s.events
unfolding touch_nodes
touch_nodes-events now ids s = refl

grace_over-events : (id : Text) (s : Watch) → (grace_over id s).events ≡ s.events
unfolding grace_over
grace_over-events id s = ground arith

-- A state with the given view and events agrees if these do.
agree_by :
    (j : Text) (t : Watch) (b : Bool) (es : List NodeEvent)
    → is_online j t ≡ b
    → t.events ≡ es
    → Agrees j b es
    → Agrees j (is_online j t) t.events
agree_by j t b es e f h = subst (λ x. Agrees j x t.events) (sym e) (subst (Agrees j b) (sym f) h)

Step-IsTracked : {pools : Pools} {s t : Watch} → Step pools s t → IsTracked s → IsTracked t
Step-IsTracked {pools} {s} (come now id remote version caps) h j =
    let label = pool_label_for pools id in
    let up = upsert_online label now id remote version caps (clear_marks id s) in
    let keeps = upsert-events label now id remote version caps s in
    let events = (record_node_online-tables pools now id remote version caps s).1 in
    agree_by j (record_node_online pools now id remote version caps s)
      (text_eq id j || is_online j s)
      (if is_online id s then s.events else event_row up.next_id id went_online now ∷ s.events)
      (is_online-record_node_online pools now id remote version caps s j)
      (events
        ∙ ap (λ es. if is_online id s then es else event_row up.next_id id went_online now ∷ es)
            keeps)
      (come-Agrees id j up.next_id now (is_online id s) (is_online j s) s.events (h id) (h j))
Step-IsTracked {pools} {s} (leave ota maint now id) h j =
    agree_by j (record_node_offline ota maint now id s) (not (text_eq id j) && is_online j s)
      (if is_online id s then event_row s.next_id id went_offline now ∷ s.events else s.events)
      (is_online-record_node_offline ota maint now id s j)
      (record_node_offline-tables ota maint now id s).1
      (leave-Agrees id j s.next_id now (is_online id s) (is_online j s) s.events (h id) (h j))
Step-IsTracked {pools} {s} (fire id) h j =
    agree_by j (grace_over id s) (is_online j s) s.events (is_online-grace_over id s j)
      (grace_over-events id s) (h j)
Step-IsTracked {pools} {s} (touch now ids) h j =
    agree_by j (touch_nodes now ids s) (is_online j s) s.events (is_online-touch_nodes now ids s j)
      (touch_nodes-events now ids s) (h j)
Step-IsTracked {pools} {s} restart h j =
    agree_by j (mark_all_nodes_offline s) false s.events (is_online-mark_all s j)
      (mark_all-events s) ((λ e. absurd (ground arith)), (h j).1)

-- However the reports of connections and of the watchdog follow one another, restarts included, a
-- node that is shown online has come online by its newest event, and each departure of a node
-- stands right after an arrival of it.
pub Steps-IsTracked : {pools : Pools} {s t : Watch} → Steps pools s t → IsTracked s → IsTracked t
Steps-IsTracked here h = h
Steps-IsTracked (next r st) h = Step-IsTracked st (Steps-IsTracked r h)

-- The abstract view: which nodes are shown online.
abbrev pub View : Type 0
View = Text → Bool

abbrev pub view : Watch → View
view s id = is_online id s

-- What a step means for the view.
pub data Move : Type 0 where
  arrives leaves : Text → Move
  all_leave stays : Move

-- The view after a move: the node that arrives is in, the one that leaves is out, and every other is
-- as before.
unfoldable pub move_view : Move → View → View
move_view (arrives id) v j = text_eq id j || v j
move_view (leaves id) v j = not (text_eq id j) && v j
move_view all_leave v j = false
move_view stays v j = v j

-- The move that each step stands for.
unfoldable pub move_of : {pools : Pools} {s t : Watch} → Step pools s t → Move
move_of (come now id remote version caps) = arrives id
move_of (leave ota maint now id) = leaves id
move_of (fire id) = stays
move_of (touch now ids) = stays
move_of restart = all_leave

-- The moves of a run, made one after the other.
unfoldable pub move_all : {pools : Pools} {s t : Watch} → Steps pools s t → View → View
move_all here v = v
move_all (next r st) v = move_view (move_of st) (move_all r v)

Step-move_view :
    {pools : Pools} {s t : Watch} (st : Step pools s t) (j : Text)
    → view t j ≡ move_view (move_of st) (view s) j
unfolding move_view move_of
Step-move_view {pools} {s} (come now id remote version caps) j =
    is_online-record_node_online pools now id remote version caps s j
Step-move_view {pools} {s} (leave ota maint now id) j =
    is_online-record_node_offline ota maint now id s j
Step-move_view {pools} {s} (fire id) j = is_online-grace_over id s j
Step-move_view {pools} {s} (touch now ids) j = is_online-touch_nodes now ids s j
Step-move_view {pools} {s} restart j = is_online-mark_all s j

move_view-same :
    (m : Move) (v w : View)
    → ((j : Text) → v j ≡ w j)
    → (j : Text) → move_view m v j ≡ move_view m w j
unfolding move_view
move_view-same (arrives id) v w h j = ap (λ b. text_eq id j || b) (h j)
move_view-same (leaves id) v w h j = ap (λ b. not (text_eq id j) && b) (h j)
move_view-same all_leave v w h j = refl
move_view-same stays v w h j = h j

-- The nodes shown online after any run are those of an abstract view that changes so: recordNodeOnline
-- adds its node and no other, recordNodeOffline takes out its node and no other, markAllNodesOffline
-- takes out all, and touchNodes and the timer of a notice change nothing.
pub view-move_all :
    {pools : Pools} {s t : Watch} (r : Steps pools s t) (j : Text)
    → view t j ≡ move_all r (view s) j
unfolding move_all
view-move_all here j = refl
view-move_all {pools} {s} (next {t} {u} r st) j =
    Step-move_view st j
    ∙ move_view-same (move_of st) (view t) (move_all r (view s)) (view-move_all r) j
