-- ===== src/Schedule/Tests.antt =====
-- Runs of the scheduler and its alerts on concrete data.
-- Numbers are read as their digits.
use ipw_boce.Points.Probe.{user_by_id}
use ipw_boce.Prelude.{
  List, Option, Text, [], arith, codes, count, false, if◌then◌else◌, is_empty, leb, none, refl,
  some, true, ℕ, ◌&&◌, ◌*◌, ◌++◌, ◌+◌, ◌-◌, ◌^◌, ◌∷◌, ◌≡◌,
}
use ipw_boce.Prelude.Int.{negsuc, pos, ℤ, ◌+ℤ◌}
use ipw_boce.Schedule.{
  Task, Timetable, due_after, due_of, in_quiet_hours, mem_id, normalize_task_raw, parse_hm,
  period_ns, set_due, tick,
}
use ipw_boce.Schedule.Alerts.{AlertConf, AlertState, any_up, any_valid, rounds_down}
use ipw_boce.Schedule.Alerts.Laws.{is_down_alert, note_rounds, outage_told_once}
use ipw_boce.Schedule.Due.{due_task_starts}
use ipw_boce.Schedule.Spacing.{has_started, starts, ten_seconds_apart}
use ipw_boce.Schedule.Starts.{Turn, ended, ticked}
use ipw_boce.Sla.{SampleEval}
use ipw_boce.Store.{Db, Role}

unfoldable digits : Text → ℕ → Option ℤ
digits [] n = some (pos n)
digits (c ∷ s) n =
    let rest = digits s (n * 10 + (c - b'0')) in if leb b'0' c && leb c b'9' then rest else none

abbrev atoi_digits : Text → Option ℤ
atoi_digits s = if is_empty s then none else digits s 0

abbrev site_task : Task
site_task = record {
  id = 4;
  name = codes "site";
  owner_id = 9;
  api_type = codes "speed";
  target = codes "example.org";
  stack = [];
  record_type = [];
  node_scope = [];
  node_ids = [];
  interval = pos 3;
  slow_ms = pos 0;
  expect_status = [];
  require_all_stacks = false;
  notify_recover = true;
  quiet_hours = codes " 23:00-07:30";
  tags = codes "a, b";
}

abbrev quick_task : Task
quick_task = record site_task { id = 5; interval = pos 20 }

parse_hm_test : parse_hm atoi_digits (codes "07:30") ≡ some 450
unfolding parse_hm digits
parse_hm_test = refl

parse_hm_late_test : parse_hm atoi_digits (codes "24:00") ≡ none
unfolding parse_hm digits
parse_hm_late_test = refl

quiet_test :
    in_quiet_hours atoi_digits (record site_task { quiet_hours = codes "23:00-07:30" }) 20 ≡ true
unfolding in_quiet_hours digits parse_hm
quiet_test = refl

raw_test : normalize_task_raw site_task ≡ codes "v4/example.org"
unfolding normalize_task_raw
raw_test = refl

empty_table_due_test : due_of 4 (set_due 4 (pos 9) ((4, pos 1) ∷ [])) ≡ some (pos 9)
unfolding set_due due_of
empty_table_due_test = refl

abbrev fresh_table : Timetable
fresh_table = record { due = []; running = [] }

abbrev two_tasks : List Task
two_tasks = site_task ∷ quick_task ∷ []

-- The round ends at once, and the next two ticks find the task waiting.
abbrev quick_turns : List Turn
quick_turns = ended 4 ∷ ticked 1000000000 two_tasks ∷ ticked 9999999999 two_tasks ∷ []

-- At ten seconds it begins again.
tenth_second_test :
    starts 4 (quick_turns ++ (ticked 10000000000 two_tasks ∷ [])) (tick 0 two_tasks fresh_table).1
    ≡ 1
unfolding starts tick due_after
tenth_second_test = refl

-- The period of a very long interval wraps to a negative one.
long_period_test :
    due_after 5 (record site_task { interval = pos (2 ^ 34) }) ≡ pos 5 +ℤ negsuc 1266874889709551615
unfolding due_after period_ns
long_period_test = refl

ten_seconds_apart_example : starts 4 quick_turns (tick 0 two_tasks fresh_table).1 ≡ 0
unfolding mem_id has_started tick
ten_seconds_apart_example =
    ten_seconds_apart 4 0 two_tasks quick_turns fresh_table (ground arith, (ground arith, tt)) refl
      refl (tt, ((refl, ground arith), ((refl, ground arith), tt)))

due_task_starts_example : has_started 5 (tick 0 two_tasks fresh_table).0 ≡ true
unfolding mem_id due_of
due_task_starts_example = due_task_starts 5 0 two_tasks fresh_table refl (refl, refl)

abbrev alerts_on : AlertConf
alerts_on = record { enabled = true; down_threshold = pos 3 }

abbrev quiet_state : AlertState
quiet_state = record { streaks = []; fired = [] }

abbrev down_sample : SampleEval
down_sample = record { up = false; invalid = false; slow = false }

abbrev void_sample : SampleEval
void_sample = record { up = true; invalid = true; slow = false }

abbrev owner_db : Db
owner_db = record {
  next_id = 10;
  users =
      record {
        id = 9;
        username = codes "ann";
        password_hash = [];
        email = [];
        role = Role.user;
        enabled = true;
        email_verified = false;
      }
      ∷ [];
  accounts = [];
  ledger = [];
  checkins = [];
  codes = [];
  uses = [];
  products = [];
  cards = [];
  orders = [];
  donations = [];
  node_defs = [];
}

abbrev outage : List (Db × List SampleEval)
outage =
    (owner_db, down_sample ∷ [])
    ∷ (owner_db, void_sample ∷ down_sample ∷ [])
    ∷ (owner_db, down_sample ∷ [])
    ∷ (owner_db, down_sample ∷ [])
    ∷ []

outage_told_once_example :
    count is_down_alert (note_rounds alerts_on site_task outage quiet_state).0 ≡ 1
unfolding any_valid any_up mem_id rounds_down user_by_id
outage_told_once_example =
    outage_told_once alerts_on site_task 2 outage quiet_state (refl, refl, refl)
      (
        (refl, (refl, refl)),
        ((refl, (refl, refl)), ((refl, (refl, refl)), ((refl, (refl, refl)), tt))),
      )
      refl (ground arith)
