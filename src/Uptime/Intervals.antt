-- ===== src/Uptime/Intervals.antt =====
-- The offline intervals of a node, compared with its state at each instant.
use ipw_boce.Prelude.{
  Bool, Bool-cases, List, Option, [], ap, arith, false, if◌then◌else◌, inl, inr, leb, ltb, none,
  refl, some, true, ℕ, ◌&&◌, ◌<◌, ◌||◌, ◌∙◌, ◌∷◌, ◌≡◌, ◌≤◌, ◌⊎◌,
}
use ipw_boce.Uptime.{
  Event, Event-cases, Interval, NodeEvent, State, absent, down, scan, state_after, up,
  uptime_for_node, went_offline, went_online,
}

-- The events are in the order of time, from `lo` on.
abbrev pub IsSorted : ℕ → List NodeEvent → Type 0
IsSorted lo [] = Unit {0}
IsSorted lo (e ∷ es) = (lo ≤ e.at) × IsSorted e.at es

abbrev pub holds : ℕ → Interval → Bool
holds t iv = leb iv.start t && ltb t iv.end

abbrev pub is_covered_at : ℕ → List Interval → Bool
is_covered_at t [] = false
is_covered_at t (iv ∷ ivs) = holds t iv || is_covered_at t ivs

-- One event: a node that has not been seen is not offline.
abbrev pub next_state : State → Event → State
next_state absent went_offline = absent
next_state absent went_online = up
next_state up went_offline = down
next_state up went_online = up
next_state down went_offline = down
next_state down went_online = up

-- The state of the node at the instant t: the events up to t decide.
unfoldable pub state_at : ℕ → State → List NodeEvent → State
state_at t s [] = s
state_at t s (e ∷ es) =
    let rest = state_at t (next_state s e.event) es in if leb e.at t then rest else s

abbrev pub is_down : State → Bool
is_down down = true
is_down s = false

-- Nothing is covered before the first instant at which the node can be offline.
scan-later :
    (s : State) (off : ℕ) (exists : Option ℕ) (to lo t : ℕ) (es : List NodeEvent)
    → IsSorted lo es
    → t < lo
    → t < off ⊎ (is_down s ≡ false)
    → is_covered_at t (scan s off exists to es).0 ≡ false
unfolding scan
scan-later absent off exists to lo t [] v le h = refl
scan-later up off exists to lo t [] v le h = refl
scan-later down off exists to lo t [] v le h = ground arith
scan-later absent off exists to lo t (e ∷ es) v le h = elim (Event-cases e.event) [
  | inl on ↦ rw on (scan-later up off (some e.at) to e.at t es v.1 (omega (arith, v.0)) (inr refl))
  | inr out ↦ rw out (scan-later absent off exists to e.at t es v.1 (omega (arith, v.0)) (inr refl))
]
scan-later up off exists to lo t (e ∷ es) v le h = elim (Event-cases e.event) [
  | inl on ↦ rw on (scan-later up off exists to e.at t es v.1 (omega (arith, v.0)) (inr refl))
  | inr out ↦
      let early : t < e.at = omega (arith, v.0) in
      rw out (scan-later down e.at exists to e.at t es v.1 early (inl early))
]
scan-later down off exists to lo t (e ∷ es) v le (inl early) = elim (Event-cases e.event) [
  | inl on ↦
      let r = scan-later up off exists to e.at t es v.1 (omega (arith, v.0)) (inr refl) in
      rw on (ground (arith, r))
  | inr out ↦ rw out (scan-later down off exists to e.at t es v.1 (omega (arith, v.0)) (inl early))
]
scan-later down off exists to lo t (e ∷ es) v le (inr n) = absurd (ground arith)

-- The events after t do not matter at t.
state_at-early :
    (t lo : ℕ) (s : State) (es : List NodeEvent) → IsSorted lo es → t < lo → state_at t s es ≡ s
unfolding state_at
state_at-early t lo s [] v le = refl
state_at-early t lo s (e ∷ es) v le = ground (arith, v.0)

not_yet : (a t : ℕ) → leb a t ≡ false → t < a
not_yet a t h = ground arith

not-held : (t a b : ℕ) (x : Bool) → b ≤ t → holds t (record { start = a; end = b }) || x ≡ x
not-held t a b x le = ground arith

-- At every instant of the window, the intervals cover exactly the time in which the node is
-- offline by its events.
pub scan-state_at :
    (s : State) (off : ℕ) (exists : Option ℕ) (to lo t : ℕ) (es : List NodeEvent)
    → IsSorted lo es
    → t < to
    → off ≤ t ⊎ (is_down s ≡ false)
    → is_covered_at t (scan s off exists to es).0 ≡ is_down (state_at t s es)
unfolding scan state_at
scan-state_at absent off exists to lo t [] v le h = refl
scan-state_at up off exists to lo t [] v le h = refl
scan-state_at down off exists to lo t [] v le h = ground arith
scan-state_at absent off exists to lo t (e ∷ es) v le h = elim (Bool-cases (leb e.at t)) [
  | inr early ↦ rw early (
      scan-later absent off exists to e.at t (e ∷ es) (ground arith, v.1) (ground arith) (inr refl))
  | inl seen ↦ elim (Event-cases e.event) [
    | inl on ↦ rw (seen, on) (scan-state_at up off (some e.at) to e.at t es v.1 le (inr refl))
    | inr out ↦ rw (seen, out) (scan-state_at absent off exists to e.at t es v.1 le (inr refl))
  ]
]
scan-state_at up off exists to lo t (e ∷ es) v le h = elim (Bool-cases (leb e.at t)) [
  | inr early ↦
      rw early
        (scan-later up off exists to e.at t (e ∷ es) (ground arith, v.1) (ground arith) (inr refl))
  | inl seen ↦ elim (Event-cases e.event) [
    | inl on ↦ rw (seen, on) (scan-state_at up off exists to e.at t es v.1 le (inr refl))
    | inr out ↦
        rw (seen, out) (scan-state_at down e.at exists to e.at t es v.1 le (inl (ground arith)))
  ]
]
scan-state_at down off exists to lo t (e ∷ es) v le (inr n) = absurd (ground arith)
scan-state_at down off exists to lo t (e ∷ es) v le (inl since) = elim (Event-cases e.event) [
  | inl on ↦ elim (Bool-cases (leb e.at t)) [
    | inr early ↦ rw (early, on) (ground arith)
    | inl seen ↦
        let r = scan-state_at up off exists to e.at t es v.1 le (inr refl) in
        let past : e.at ≤ t = ground arith in
        rw (seen, on) (not-held t off e.at (is_covered_at t (scan up off exists to es).0) past ∙ r)
  ]
  | inr out ↦ elim (Bool-cases (leb e.at t)) [
    | inl seen ↦ rw (seen, out) (scan-state_at down off exists to e.at t es v.1 le (inl since))
    | inr early ↦
        let s = state_at-early t e.at down es v.1 (not_yet e.at t early) in
        rw (early, out)
          (scan-state_at down off exists to e.at t es v.1 le (inl since) ∙ ap is_down s)
  ]
]

-- The state at t of a node whose last event before the window is `prior`.
abbrev pub begin_state : Option NodeEvent → State
begin_state none = absent
begin_state (some p) = state_after p.event

-- At every instant t of the window, the offline intervals that uptimeForNode finds cover t exactly
-- if the events up to t leave the node offline, the events being those of the window in the order
-- of time.
pub uptime_for_node-state_at :
    (from to t : ℕ) (prior : Option NodeEvent) (es : List NodeEvent)
    → IsSorted from es
    → from ≤ t
    → t < to
    → is_covered_at t (uptime_for_node from to prior es).0
      ≡ is_down (state_at t (begin_state prior) es)
unfolding uptime_for_node
uptime_for_node-state_at from to t none es v ge le =
    scan-state_at absent 0 none to from t es v le (inr refl)
uptime_for_node-state_at from to t (some p) es v ge le =
    scan-state_at (state_after p.event) from (some from) to from t es v le (inl ge)
