-- ===== src/Uptime.antt =====
-- The uptime of a node (uptime.go): loadUptimeEvents, uptimeForNode, overlap, buildUptimeStats,
-- dayBuckets, fillUptimeDaily and nodeOnlineSeconds. Instants are nanoseconds since 1970. An
-- event is `online` or `offline`, which are the only two that presence.go writes. The quotients
-- that the program shows as availability are left out.
mod Tests
pub mod Days
pub mod Totals
pub mod Intervals
use ipw_boce.Calendar.{date_text, day_ns, day_of, second_ns}
use ipw_boce.Prelude.{
  Bool, List, Option, Text, [], count, find, if◌then◌else◌, inl, inr, is_some, leb, length, ltb,
  none, not, refl, reverse, some, suc, text_eq, where_rows, zero, ℕ, ◌&&◌, ◌*◌, ◌+◌, ◌-◌, ◌/◌, ◌∷◌,
  ◌≡◌, ◌⊎◌,
}

pub data Event : Type 0 where
  went_online went_offline : Event

pub Event-cases : (e : Event) → (e ≡ went_online) ⊎ (e ≡ went_offline)
Event-cases went_online = inl refl
Event-cases went_offline = inr refl

pub record NodeEvent : Type 0 where
  pub id : ℕ
  pub node_id : Text
  pub event : Event
  pub at : ℕ

pub record Node : Type 0 where
  pub node_id : Text
  pub online : Bool
  pub first_seen_at : Option ℕ

pub record Interval : Type 0 where
  pub start : ℕ
  pub end : ℕ

-- The state of the scan: the node is not there yet, is online or is offline.
pub data State : Type 0 where
  absent up down : State

abbrev pub before : ℕ → NodeEvent → Bool
before from e = ltb e.at from

abbrev pub of_node : Text → NodeEvent → Bool
of_node id e = text_eq e.node_id id

-- The event with the largest number before the window; the rows are listed newest first.
unfoldable pub prior_event : Text → ℕ → List NodeEvent → Option NodeEvent
prior_event id from rows = find (λ e. of_node id e && before from e) rows

-- `ORDER BY created_at ASC, id ASC`
unfoldable pub insert_event : NodeEvent → List NodeEvent → List NodeEvent
insert_event e [] = e ∷ []
insert_event e (x ∷ xs) =
    let rest = insert_event e xs in if leb e.at x.at then e ∷ x ∷ xs else x ∷ rest

unfoldable pub sort_events : List NodeEvent → List NodeEvent
sort_events [] = []
sort_events (e ∷ es) = insert_event e (sort_events es)

unfoldable pub window_events : Text → ℕ → ℕ → List NodeEvent → List NodeEvent
window_events id from to rows =
    sort_events (reverse (where_rows (λ e. of_node id e && leb from e.at && leb e.at to) rows))

abbrev pub state_after : Event → State
state_after went_online = up
state_after went_offline = down

-- The loop over the events: the offline intervals, and since when the node has been there.
unfoldable pub scan : State → ℕ → Option ℕ → ℕ → List NodeEvent → List Interval × Option ℕ
scan down off exists to [] =
    ((if ltb off to then record { start = off; end = to } ∷ [] else []), exists)
scan absent off exists to [] = ([], exists)
scan up off exists to [] = ([], exists)
scan absent off exists to (e ∷ es) = elim e.event [
  | went_online ↦ scan up off (some e.at) to es
  | went_offline ↦ scan absent off exists to es
]
scan up off exists to (e ∷ es) = elim e.event [
  | went_online ↦ scan up off exists to es
  | went_offline ↦ scan down e.at exists to es
]
scan down off exists to (e ∷ es) = elim e.event [
  | went_online ↦
      let rest = scan up off exists to es in (record { start = off; end = e.at } ∷ rest.0, rest.1)
  | went_offline ↦ scan down off exists to es
]

-- uptimeForNode, for the node's own events.
unfoldable pub uptime_for_node :
    ℕ → ℕ → Option NodeEvent → List NodeEvent → List Interval × Option ℕ
uptime_for_node from to none inside = scan absent 0 none to inside
uptime_for_node from to (some p) inside = scan (state_after p.event) from (some from) to inside

-- int64(d.Seconds()) of the time from a to b, and 0 if b is not later.
unfoldable pub seconds_between : ℕ → ℕ → ℕ
seconds_between a b = (b - a) / second_ns

unfoldable pub overlap : Interval → ℕ → ℕ → ℕ
overlap iv s e =
    let a = if ltb iv.start s then s else iv.start in
    let b = if ltb e iv.end then e else iv.end in if ltb a b then seconds_between a b else 0

abbrev pub later_of : Option ℕ → ℕ → ℕ
later_of none from = from
later_of (some t) from = if ltb from t then t else from

pub record UptimeStats : Type 0 where
  pub from : ℕ
  pub to : ℕ
  pub seconds : ℕ
  pub online_seconds : ℕ
  pub offline_seconds : ℕ
  pub down_count : ℕ

unfoldable pub sum_overlaps : List Interval → ℕ → ℕ → ℕ
sum_overlaps [] s e = 0
sum_overlaps (iv ∷ ivs) s e = overlap iv s e + sum_overlaps ivs s e

-- buildUptimeStats
unfoldable pub build_uptime_stats : Node → ℕ → ℕ → List Interval → Option ℕ → UptimeStats
build_uptime_stats n from to iv exists =
    let start = later_of exists (later_of n.first_seen_at from) in
    let seconds = seconds_between start to in
    let off = sum_overlaps iv start to in
    let offline = if ltb seconds off then seconds else off in
    if not (is_some exists) && not n.online
    then record {
      from = to;
      to = to;
      seconds = 0;
      online_seconds = 0;
      offline_seconds = 0;
      down_count = 0;
    }
    else record {
      from = start;
      to = to;
      seconds = seconds;
      online_seconds = seconds - offline;
      offline_seconds = offline;
      down_count = length iv;
    }

pub record UptimeDaily : Type 0 where
  pub date : Text
  pub seconds : ℕ
  pub offline_seconds : ℕ
  pub down_count : ℕ
  pub start : ℕ
  pub end : ℕ

-- The loop over the local days from `day` on, on local clock readings `f` and `t`. The fuel counts
-- the days that are left.
unfoldable pub day_loop : ℕ → ℕ → ℕ → ℕ → ℕ → List UptimeDaily
day_loop zero zone day f t = []
day_loop (suc fuel) zone day f t =
    let rest = day_loop fuel zone (suc day) f t in
    let s = if ltb (day * day_ns) f then f else day * day_ns in
    let e = if ltb t (suc day * day_ns) then t else suc day * day_ns in
    let bucket : UptimeDaily = record {
      date = date_text day;
      seconds = seconds_between s e;
      offline_seconds = 0;
      down_count = 0;
      start = s - zone;
      end = e - zone;
    } in
    if not (ltb (day * day_ns) t) then [] else if ltb s e then bucket ∷ rest else rest

-- dayBuckets
unfoldable pub day_buckets : ℕ → ℕ → ℕ → List UptimeDaily
day_buckets zone from to =
    day_loop (suc (day_of zone to)) zone (day_of zone from) (from + zone) (to + zone)

abbrev pub starts_in : UptimeDaily → Interval → Bool
starts_in b iv = leb b.start iv.start && ltb iv.start b.end

-- The loop body of fillUptimeDaily.
unfoldable pub fill_day : List Interval → UptimeDaily → UptimeDaily
fill_day iv b =
    let off = b.offline_seconds + sum_overlaps iv b.start b.end in
    record b {
      offline_seconds = if ltb b.seconds off then b.seconds else off;
      down_count = b.down_count + count (starts_in b) iv;
    }

unfoldable pub fill_uptime_daily : List UptimeDaily → List Interval → List UptimeDaily
fill_uptime_daily [] iv = []
fill_uptime_daily (b ∷ bs) iv = fill_day iv b ∷ fill_uptime_daily bs iv

-- nodeOnlineSeconds, where `n` is what nodeSnapshot finds.
unfoldable pub node_online_seconds : Option Node → Text → ℕ → ℕ → List NodeEvent → ℕ
node_online_seconds none id from to rows = 0
node_online_seconds (some n) id from to rows =
    let (iv, exists) =
      uptime_for_node from to (prior_event id from rows) (window_events id from to rows) in
    (build_uptime_stats n from to iv exists).online_seconds
