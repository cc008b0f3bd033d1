-- ===== src/Uptime/Tests.antt =====
-- Runs of the uptime code on concrete data.
use ipw_boce.Calendar.{second_ns}
use ipw_boce.Prelude.{
  All, List, Option, Text, [], arith, codes, refl, some, true, ℕ, ◌*◌, ◌∷◌, ◌≡◌, ◌≤◌,
}
use ipw_boce.Uptime.{
  Event, Node, NodeEvent, day_buckets, scan, uptime_for_node, went_offline, went_online,
}
use ipw_boce.Uptime.Days.{Tiles, day_buckets-Tiles}
use ipw_boce.Uptime.Intervals.{
  IsSorted, begin_state, is_covered_at, is_down, state_at, uptime_for_node-state_at,
}

abbrev node : Text
node = codes "d7-abc"

abbrev event : ℕ → Event → ℕ → NodeEvent
event id e at = record { id = id; node_id = node; event = e; at = at * second_ns }

abbrev events : List NodeEvent
events = event 2 went_offline 10 ∷ event 3 went_online 40 ∷ event 4 went_offline 70 ∷ []

abbrev first_event : Option NodeEvent
first_event = some (event 1 went_online 0)

abbrev machine : Node
machine = record { node_id = node; online = true; first_seen_at = some 0 }

abbrev t0 : ℕ
t0 = 5 * second_ns

abbrev t1 : ℕ
t1 = 100 * second_ns

events-IsSorted : IsSorted t0 events
events-IsSorted = (ground arith, (ground arith, (ground arith, tt)))

events-inside : All (λ e. e.at ≤ t1) events
events-inside = (ground arith, (ground arith, (ground arith, tt)))

uptime_for_node-state_at_example :
    is_covered_at (20 * second_ns) (uptime_for_node t0 t1 first_event events).0
    ≡ is_down (state_at (20 * second_ns) (begin_state first_event) events)
uptime_for_node-state_at_example =
    uptime_for_node-state_at t0 t1 (20 * second_ns) first_event events events-IsSorted
      (ground arith) (ground arith)

-- a day and a half, eight hours east of UTC
day_buckets-Tiles_example :
    Tiles t0 (130_000 * second_ns) (day_buckets (28_800 * second_ns) t0 (130_000 * second_ns))
day_buckets-Tiles_example =
    day_buckets-Tiles (28_800 * second_ns) t0 (130_000 * second_ns) (ground arith)

two_outages :
    (uptime_for_node t0 t1 first_event events).0
    ≡ record { start = 10 * second_ns; end = 40 * second_ns }
      ∷ record { start = 70 * second_ns; end = 100 * second_ns }
      ∷ []
unfolding uptime_for_node scan
two_outages = refl
