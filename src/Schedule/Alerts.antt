-- ===== src/Schedule/Alerts.antt =====
-- The alerts after a round (task.go): noteRoundOutcome and resetTaskAlerts. A round is the verdicts
-- on its samples. `streaks` counts the rounds in a row in which nothing was up.
pub mod Laws
use ipw_boce.Points.Probe.{user_by_id}
use ipw_boce.Prelude.{
  Bool, List, Option, [], false, if◌then◌else◌, is_some, none, not, some, suc, ℕ, ◌&&◌, ◌==◌, ◌||◌,
  ◌∷◌,
}
use ipw_boce.Prelude.Int.{leb_ℤ, pos, ℤ}
use ipw_boce.Schedule.{Task, drop_id, mem_id}
use ipw_boce.Sla.{SampleEval}
use ipw_boce.Store.{Db, User}
use ipw_boce.Uptime.{up}

pub record AlertState : Type 0 where
  pub streaks : List (ℕ × ℕ)
  pub fired : List ℕ

pub record AlertConf : Type 0 where
  pub enabled : Bool
  pub down_threshold : ℤ

pub data Alert : Type 0 where
  sla_down sla_up : Alert

unfoldable pub any_valid : List SampleEval → Bool
any_valid [] = false
any_valid (e ∷ es) = let rest = any_valid es in not e.invalid || rest

unfoldable pub any_up : List SampleEval → Bool
any_up [] = false
any_up (e ∷ es) = let rest = any_up es in (not e.invalid && e.up) || rest

unfoldable pub rounds_down : ℕ → List (ℕ × ℕ) → ℕ
rounds_down id [] = 0
rounds_down id ((j, n) ∷ rest) = let found = rounds_down id rest in if j == id then n else found

unfoldable pub drop_streak : ℕ → List (ℕ × ℕ) → List (ℕ × ℕ)
drop_streak id [] = []
drop_streak id ((j, n) ∷ rest) =
    let others = drop_streak id rest in if j == id then others else (j, n) ∷ others

-- resetTaskAlerts
unfoldable pub reset_task_alerts : ℕ → AlertState → AlertState
unfolding drop_streak drop_id
reset_task_alerts id a = record { streaks = drop_streak id a.streaks; fired = drop_id id a.fired }

-- A round in which something was up.
unfoldable pub note_up : Task → AlertState → Option Alert × AlertState
unfolding reset_task_alerts mem_id
note_up t a = (
  (if mem_id t.id a.fired && t.notify_recover then some sla_up else none),
  reset_task_alerts t.id a,
)

-- A round in which nothing was up.
unfoldable pub note_down : AlertConf → Task → AlertState → Option Alert × AlertState
unfolding rounds_down drop_streak mem_id
note_down conf t a =
    let streak = suc (rounds_down t.id a.streaks) in
    let streaks = (t.id, streak) ∷ drop_streak t.id a.streaks in
    if leb_ℤ conf.down_threshold (pos streak) && not (mem_id t.id a.fired)
    then (some sla_down, record { streaks = streaks; fired = t.id ∷ a.fired })
    else (none, record a { streaks = streaks })

-- The notice goes to the owner, if alerts are on, the task has an owner, and `userByID` finds the
-- owner.
abbrev pub sent_to_owner : AlertConf → Task → Option User → Option Alert → Option Alert
sent_to_owner conf t owner alert =
    if not conf.enabled || t.owner_id == 0 then none else if is_some owner then alert else none

abbrev pub to_owner :
    AlertConf → Task → Option User → Option Alert × AlertState → Option Alert × AlertState
to_owner conf t owner (alert, a) = (sent_to_owner conf t owner alert, a)

-- noteRoundOutcome; the state changes whether or not the owner is found.
unfoldable pub note_round_outcome :
    AlertConf → Task → Db → List SampleEval → AlertState → Option Alert × AlertState
unfolding any_valid any_up note_up note_down user_by_id
note_round_outcome conf t db evals a =
    let owner = user_by_id t.owner_id db in
    if not (any_valid evals)
    then (none, a)
    else if any_up evals
    then to_owner conf t owner (note_up t a)
    else to_owner conf t owner (note_down conf t a)
