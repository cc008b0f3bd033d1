-- ===== src/Maintenance/Tests.antt =====
-- Runs of the maintenance windows on concrete data.
use ipw_boce.Calendar.{day_ns}
use ipw_boce.Maintenance.{MaintenanceWindow, cleanup_maintenance_windows, maintenance_hit}
use ipw_boce.Maintenance.Laws.{cleanup-maintenance_hit}
use ipw_boce.Prelude.{[], arith, codes, false, ◌*◌, ◌∷◌, ◌≡◌}

abbrev old_window : MaintenanceWindow
old_window = record {
  id = 1;
  scope = codes "global";
  start_at = 0;
  end_at = 60;
  repeat_daily = false;
}

cleanup-maintenance_hit_example :
    maintenance_hit 0
      (codes "n1")
      (40 * day_ns)
      (cleanup_maintenance_windows (39 * day_ns) (old_window ∷ []))
    ≡ maintenance_hit 0 (codes "n1") (40 * day_ns) (old_window ∷ [])
cleanup-maintenance_hit_example =
    cleanup-maintenance_hit 0 (39 * day_ns) (40 * day_ns) (codes "n1") (old_window ∷ [])
      (ground arith)
