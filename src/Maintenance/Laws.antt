-- ===== src/Maintenance/Laws.antt =====
-- The hours of daily windows, and the clean-up.
use ipw_boce.Maintenance.{
  MaintenanceWindow, any_covers, cleanup_maintenance_windows, covers, covers_clock, is_stale,
  maintenance_hit,
}
use ipw_boce.Prelude.{
  Bool-cases, List, Text, [], arith, false, inl, inr, not, refl, true, ℕ, ◌∷◌, ◌≡◌, ◌≢◌, ◌≤◌,
}

-- Two daily windows with swapped ends share the day: at every minute exactly one of them is on.
pub covers_clock_swapped : (s e cur : ℕ) → s ≢ e → covers_clock e s cur ≡ not (covers_clock s e cur)
unfolding covers_clock
covers_clock_swapped s e cur ne = ground arith

covers_stale :
    (zone now then_ns : ℕ) (w : MaintenanceWindow)
    → is_stale now w ≡ true
    → now ≤ then_ns
    → covers zone w then_ns ≡ false
unfolding covers
covers_stale zone now then_ns w h le = ground arith

-- The clean-up never ends a maintenance: at its time, and at any later one, a node is under
-- maintenance by the remaining windows exactly if it is by all of them.
pub cleanup-maintenance_hit :
    (zone now then_ns : ℕ) (node : Text) (rows : List MaintenanceWindow)
    → now ≤ then_ns
    → maintenance_hit zone node then_ns (cleanup_maintenance_windows now rows)
      ≡ maintenance_hit zone node then_ns rows
unfolding maintenance_hit cleanup_maintenance_windows any_covers covers
cleanup-maintenance_hit zone now then_ns node [] le = refl
cleanup-maintenance_hit zone now then_ns node (w ∷ ws) le =
    let r = cleanup-maintenance_hit zone now then_ns node ws le in
    elim (Bool-cases (is_stale now w)) [
      | inl stale ↦ rw stale (ground (arith, r, covers_stale zone now then_ns w stale le))
      | inr fresh ↦ rw fresh (ground (arith, r))
    ]
