-- ===== src/Uptime/Totals.antt =====
-- The totals of buildUptimeStats.
use native.Mathlib.Nat.{le_trans}
use ipw_boce.Prelude.{
  All, Bool, Bool-cases, List, Option, [], arith, false, if◌then◌else◌, inl, inr, is_some, ltb, max,
  none, not, refl, some, true, ℕ, ◌&&◌, ◌∷◌, ◌≡◌, ◌≤◌, ◌⊎◌,
}
use ipw_boce.Uptime.{
  Event-cases, Interval, Node, NodeEvent, State, absent, build_uptime_stats, down, later_of,
  overlap, scan, seconds_between, state_after, sum_overlaps, up, uptime_for_node,
}
use ipw_boce.Uptime.Intervals.{IsSorted, is_down}

-- The intervals follow each other, from `lo` on, and end by `hi`.
abbrev pub AreDisjoint : ℕ → ℕ → List Interval → Type 0
AreDisjoint lo hi [] = Unit {0}
AreDisjoint lo hi (iv ∷ ivs) =
    (lo ≤ iv.start) × (iv.start ≤ iv.end) × (iv.end ≤ hi) × AreDisjoint iv.end hi ivs

-- The overlaps with a window of intervals that follow each other fit into the window.
sum_overlaps-fit :
    (lo hi s e : ℕ) (ivs : List Interval)
    → AreDisjoint lo hi ivs
    → sum_overlaps ivs s e ≤ seconds_between (max lo s) e
unfolding sum_overlaps overlap seconds_between
sum_overlaps-fit lo hi s e [] v = ground arith
sum_overlaps-fit lo hi s e (iv ∷ ivs) v =
    ground (arith, v.0, v.1, sum_overlaps-fit iv.end hi s e ivs v.3)

-- The intervals of the scan follow each other from `base` on and end with the window.
scan-AreDisjoint :
    (s : State) (base off : ℕ) (exists : Option ℕ) (to lo : ℕ) (es : List NodeEvent)
    → IsSorted lo es
    → All (λ e. e.at ≤ to) es
    → base ≤ lo
    → ((base ≤ off) × (off ≤ lo)) ⊎ (is_down s ≡ false)
    → AreDisjoint base to (scan s off exists to es).0
unfolding scan
scan-AreDisjoint absent base off exists to lo [] v w le h = tt
scan-AreDisjoint up base off exists to lo [] v w le h = tt
scan-AreDisjoint down base off exists to lo [] v w le (inr n) = absurd (ground arith)
scan-AreDisjoint down base off exists to lo [] v w le (inl ge) = elim (Bool-cases (ltb off to)) [
  | inl open_end ↦ rw open_end (ge.0, ground arith, ground arith, tt)
  | inr closed_end ↦ rw closed_end tt
]
scan-AreDisjoint absent base off exists to lo (e ∷ es) v w le h = elim (Event-cases e.event) [
  | inl on ↦
      rw on (
        scan-AreDisjoint up base off (some e.at) to e.at es v.1 w.1 (omega (arith, v.0)) (inr refl))
  | inr out ↦
      rw out
        (scan-AreDisjoint absent base off exists to e.at es v.1 w.1 (omega (arith, v.0)) (inr refl))
]
scan-AreDisjoint up base off exists to lo (e ∷ es) v w le h = elim (Event-cases e.event) [
  | inl on ↦
      rw on (scan-AreDisjoint up base off exists to e.at es v.1 w.1 (omega (arith, v.0)) (inr refl))
  | inr out ↦
      let ge : base ≤ e.at = omega (arith, v.0) in
      rw out (scan-AreDisjoint down base e.at exists to e.at es v.1 w.1 ge (inl (ge, omega arith)))
]
scan-AreDisjoint down base off exists to lo (e ∷ es) v w le (inr n) = absurd (ground arith)
scan-AreDisjoint down base off exists to lo (e ∷ es) v w le (inl ge) = elim (Event-cases e.event) [
  | inl on ↦ rw on (
    ge.0,
    omega (arith, v.0, ge.1),
    w.0,
    scan-AreDisjoint up e.at off exists to e.at es v.1 w.1 (omega arith) (inr refl),
  )
  | inr out ↦ rw out (
      scan-AreDisjoint down base off exists to e.at es v.1 w.1 (omega (arith, v.0))
        (inl (ge.0, omega (arith, v.0, ge.1))))
]

uptime_for_node-AreDisjoint :
    (from to : ℕ) (prior : Option NodeEvent) (es : List NodeEvent)
    → IsSorted from es
    → All (λ e. e.at ≤ to) es
    → AreDisjoint from to (uptime_for_node from to prior es).0
unfolding uptime_for_node
uptime_for_node-AreDisjoint from to none es v w =
    scan-AreDisjoint absent from 0 none to from es v w (omega arith) (inr refl)
uptime_for_node-AreDisjoint from to (some p) es v w =
    scan-AreDisjoint (state_after p.event) from from (some from) to from es v w (omega arith)
      (inl (omega arith, omega arith))

and-false : (b : Bool) → b && false ≡ false
and-false true = refl
and-false false = refl

later_of-ge : (t : Option ℕ) (from : ℕ) → from ≤ later_of t from
later_of-ge none from = ground arith
later_of-ge (some t) from = ground arith

max-right : (a b : ℕ) → a ≤ b → max a b ≡ b
max-right a b h = ground arith

unclamped : (x y : ℕ) → x ≤ y → (if ltb y x then y else x) ≡ x
unclamped x y h = ground arith

-- The clamp of the offline seconds to the seconds of the window never acts: for the events of the
-- window in the order of time, the offline seconds of buildUptimeStats are the overlaps of the
-- intervals with the window, unless the node was never seen.
pub build_uptime_stats_unclamped :
    (n : Node) (from to : ℕ) (prior : Option NodeEvent) (es : List NodeEvent)
    → IsSorted from es
    → All (λ e. e.at ≤ to) es
    → n.online ≡ true
    → let r = uptime_for_node from to prior es in
      let s = build_uptime_stats n from to r.0 r.1 in
      s.offline_seconds ≡ sum_overlaps r.0 s.from s.to
unfolding build_uptime_stats
build_uptime_stats_unclamped n from to prior es v w on =
    let r = uptime_for_node from to prior es in
    let d = uptime_for_node-AreDisjoint from to prior es v w in
    let start = later_of r.1 (later_of n.first_seen_at from) in
    let late : from ≤ start =
      le_trans (later_of-ge n.first_seen_at from)
        (later_of-ge r.1 (later_of n.first_seen_at from)) in
    let fits : sum_overlaps r.0 start to ≤ seconds_between start to =
      rw (max-right from start late) at (sum_overlaps-fit from to start to r.0 d) in
    let seen : not (is_some r.1) && not n.online ≡ false = rw on (and-false (not (is_some r.1))) in
    rw seen (unclamped (sum_overlaps r.0 start to) (seconds_between start to) fits)
