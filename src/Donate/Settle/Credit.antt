-- ===== src/Donate/Settle/Credit.antt =====
-- The sampling loop of maintenanceCredit (donate.go) looks at the whole window.
use ipw_boce.Donate.Settle.{Presence, credit_loop, maintenance_credit, step_ns}
use ipw_boce.Maintenance.{MaintenanceWindow, in_scope}
use ipw_boce.Prelude.{
  List, Text, arith, refl, subst, suc, sym, where_rows, zero, ℕ, ◌*◌, ◌+◌, ◌-◌, ◌/◌, ◌≡◌, ◌≤◌,
}
use ipw_boce.Uptime.{Interval, prior_event, uptime_for_node, window_events}

-- A loop that is past the end adds nothing.
credit_loop-past :
    (fuel zone : ℕ) (ws : List MaintenanceWindow) (iv : List Interval) (end t : ℕ)
    → end ≤ t
    → credit_loop fuel zone ws iv end t ≡ 0
unfolding credit_loop
credit_loop-past zero zone ws iv end t le = refl
credit_loop-past (suc fuel) zone ws iv end t le = ground arith

zero_more : (more : ℕ) → more ≡ zero + more
zero_more more = omega arith

suc_more : (fuel more : ℕ) → suc (fuel + more) ≡ suc fuel + more
suc_more fuel more = omega arith

credit_loop-enough :
    (fuel more zone : ℕ) (ws : List MaintenanceWindow) (iv : List Interval) (end t : ℕ)
    → end ≤ t + fuel * step_ns
    → credit_loop (fuel + more) zone ws iv end t ≡ credit_loop fuel zone ws iv end t
unfolding credit_loop
credit_loop-enough zero more zone ws iv end t le =
    subst (λ n. credit_loop n zone ws iv end t ≡ 0) (zero_more more)
      (credit_loop-past more zone ws iv end t (omega arith))
credit_loop-enough (suc fuel) more zone ws iv end t le =
    let rest = credit_loop-enough fuel more zone ws iv end (t + step_ns) (omega arith) in
    subst (λ n. credit_loop n zone ws iv end t ≡ credit_loop (suc fuel) zone ws iv end t)
      (suc_more fuel more) (rw rest refl)

step_covers : (start end : ℕ) → end ≤ start + suc ((end - start) / step_ns) * step_ns
step_covers start end = omega arith

-- The maintenance credit is what the sampling loop gives with any more fuel: the loop has ended
-- because its instant has passed the end of the window.
maintenance_credit-enough :
    (w : Presence) (node : Text) (start end more : ℕ)
    → maintenance_credit w node start end
      ≡ credit_loop
          (suc ((end - start) / step_ns) + more)
          w.zone
          (where_rows (in_scope node) w.windows)
          (uptime_for_node start end
            (prior_event node start w.events)
            (window_events node start end w.events)).0
          end
          start
unfolding maintenance_credit
maintenance_credit-enough w node start end more = sym (
    credit_loop-enough (suc ((end - start) / step_ns)) more w.zone
      (where_rows (in_scope node) w.windows)
      (uptime_for_node start end (prior_event node start w.events)
        (window_events node start end w.events)).0
      end start (step_covers start end))
