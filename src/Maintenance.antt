-- ===== src/Maintenance.antt =====
-- The maintenance windows (maintenance.go): covers and maintenanceHit.
mod Tests
pub mod Laws
use ipw_boce.Calendar.{day_ns, second_ns}
use ipw_boce.Prelude.{
  Bool, List, Text, [], codes, delete, false, if◌then◌else◌, leb, ltb, not, text_eq, where_rows, ℕ,
  ◌%◌, ◌&&◌, ◌*◌, ◌+◌, ◌/◌, ◌==◌, ◌||◌, ◌∷◌,
}

pub record MaintenanceWindow : Type 0 where
  pub id : ℕ
  pub scope : Text
  pub start_at : ℕ
  pub end_at : ℕ
  pub repeat_daily : Bool

abbrev pub minute_ns : ℕ
minute_ns = 60 * second_ns

-- The minute of the local day.
unfoldable pub clock_minutes : ℕ → ℕ → ℕ
clock_minutes zone t = (t + zone) % day_ns / minute_ns

-- The daily window from the minute s to the minute e, which may pass midnight.
unfoldable pub covers_clock : ℕ → ℕ → ℕ → Bool
covers_clock s e cur =
    if s == e then false else if ltb s e then leb s cur && ltb cur e else leb s cur || ltb cur e

-- covers
unfoldable pub covers : ℕ → MaintenanceWindow → ℕ → Bool
covers zone w now =
    if w.repeat_daily
    then covers_clock (clock_minutes zone w.start_at) (clock_minutes zone w.end_at)
        (clock_minutes zone now)
    else leb w.start_at now && ltb now w.end_at

-- `scope IN ("global", node)`
abbrev pub in_scope : Text → MaintenanceWindow → Bool
in_scope node w = text_eq w.scope (codes "global") || text_eq w.scope node

unfoldable pub any_covers : ℕ → ℕ → List MaintenanceWindow → Bool
any_covers zone now [] = false
any_covers zone now (w ∷ ws) = let rest = any_covers zone now ws in covers zone w now || rest

-- maintenanceHit
unfoldable pub maintenance_hit : ℕ → Text → ℕ → List MaintenanceWindow → Bool
maintenance_hit zone node now rows = any_covers zone now (where_rows (in_scope node) rows)

-- cleanupMaintenanceWindows, which deletes what ended more than thirty days ago.
abbrev pub is_stale : ℕ → MaintenanceWindow → Bool
is_stale now w = not w.repeat_daily && ltb (w.end_at + 30 * day_ns) now

unfoldable pub cleanup_maintenance_windows : ℕ → List MaintenanceWindow → List MaintenanceWindow
cleanup_maintenance_windows now rows = delete (is_stale now) rows
