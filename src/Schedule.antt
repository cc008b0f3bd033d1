-- ===== src/Schedule.antt =====
-- The probe tasks (task.go): the check of a task, its quiet hours, the text of its target, the nodes
-- of a round, the scheduler, and the alerts after a round. A task is its columns; `atoi` is
-- strconv.Atoi. Instants are nanoseconds, in a time zone with a fixed offset.
pub mod Tests
pub mod Alerts
pub mod Starts
pub mod Spacing
pub mod Due
pub mod Checks
use ipw_boce.Calendar.{second_ns}
use ipw_boce.Donate.{has_prefix}
use ipw_boce.NodePool.{ApiInfo, Pools, node_pool_for_type, stack_dual, stack_ipv4, stack_ipv6}
use ipw_boce.Prelude.{
  Bool, List, Option, Text, [], codes, contains, false, if◌then◌else◌, inl, inr, is_empty, is_some,
  join_commas, leb, ltb, map, none, not, some, split_commas, text_eq, to_lower, trim_parts,
  trim_space, where_rows, ℕ, ◌&&◌, ◌*◌, ◌++◌, ◌+◌, ◌==◌, ◌||◌, ◌∷◌, ◌⊎◌,
}
use ipw_boce.Prelude.Int.{leb_ℤ, ltb_ℤ, pos, wrap64, ℤ, ◌*ℤ◌, ◌+ℤ◌}
use ipw_boce.Presence.{Watch, is_online}
use ipw_boce.Ws.{Hub, node_connected}

pub record Task : Type 0 where
  pub id : ℕ
  pub name : Text
  pub owner_id : ℕ
  pub api_type : Text
  pub target : Text
  pub stack : Text
  pub record_type : Text
  pub node_scope : Text
  pub node_ids : Text
  pub interval : ℤ
  pub slow_ms : ℤ
  pub expect_status : Text
  pub require_all_stacks : Bool
  pub notify_recover : Bool
  pub quiet_hours : Text
  pub tags : Text

abbrev pub known_task_types : List Text
known_task_types = codes "tcping" ∷ codes "speed" ∷ codes "ssl" ∷ codes "detail" ∷ codes "dns" ∷ []

abbrev pub known_record_types : List Text
known_record_types =
    codes "a"
    ∷ codes "aaaa"
    ∷ codes "cname"
    ∷ codes "mx"
    ∷ codes "ns"
    ∷ codes "ptr"
    ∷ codes "srv"
    ∷ codes "txt"
    ∷ codes "caa"
    ∷ []

pub data TaskError : Type 0 where
  no_task_name bad_task_type no_target bad_record_type no_interval bad_quiet_hours : TaskError

abbrev pub with_head : ℕ → Option (Text × Text) → Option (Text × Text)
with_head c none = none
with_head c (some (a, b)) = some (c ∷ a, b)

-- strings.SplitN at a dash, in two
unfoldable pub split_dash : Text → Option (Text × Text)
split_dash [] = none
split_dash (c ∷ s) =
    let rest = with_head c (split_dash s) in if c == b'-' then some ([], s) else rest

-- The texts of an hour and of a minute, as `HH:MM` has them.
abbrev pub hour_and_minute : Text → Option (Text × Text)
hour_and_minute (a ∷ b ∷ c ∷ d ∷ e ∷ []) = if c == b':' then some (a ∷ b ∷ [], d ∷ e ∷ []) else none
hour_and_minute s = none

abbrev pub at_least_ten : ℤ → ℤ
at_least_ten n = if ltb_ℤ n (pos 10) then pos 10 else n

module _ (atoi : Text → Option ℤ) where
  abbrev pub clock_of : Option ℤ → Option ℤ → Option ℕ
  clock_of (some (pos h)) (some (pos m)) = if ltb 23 h || ltb 59 m then none else some (h * 60 + m)
  clock_of h m = none

  abbrev pub read_clock : Option (Text × Text) → Option ℕ
  read_clock none = none
  read_clock (some (h, m)) = clock_of (atoi h) (atoi m)

  -- parseHM
  unfoldable pub parse_hm : Text → Option ℕ
  parse_hm x = read_clock (hour_and_minute x)

  abbrev pub both_read : Option (Text × Text) → Bool
  both_read none = false
  both_read (some (a, b)) = is_some (parse_hm a) && is_some (parse_hm b)

  -- validQuietHours
  unfoldable pub valid_quiet_hours : Text → Bool
  unfolding split_dash
  valid_quiet_hours s = both_read (split_dash s)

  abbrev pub minutes_or_zero : Option ℕ → ℕ
  minutes_or_zero none = 0
  minutes_or_zero (some m) = m

  abbrev pub is_between : ℕ → ℕ → ℕ → Bool
  is_between s e cur = if leb s e then leb s cur && ltb cur e else leb s cur || ltb cur e

  abbrev pub quiet_at : ℕ → Option (Text × Text) → Bool
  quiet_at cur none = false
  quiet_at cur (some (a, b)) =
      is_between (minutes_or_zero (parse_hm a)) (minutes_or_zero (parse_hm b)) cur

  -- inQuietHours, at the minute `cur` of the local day
  unfoldable pub in_quiet_hours : Task → ℕ → Bool
  unfolding split_dash
  in_quiet_hours t cur = quiet_at cur (split_dash t.quiet_hours)

  abbrev pub record_or_a : Text → Text
  record_or_a r = if is_empty (to_lower (trim_space r)) then codes "a" else to_lower (trim_space r)

  -- The task with the defaults of validateTask.
  abbrev pub with_defaults : Task → Task
  with_defaults t = record t {
    record_type = if text_eq t.api_type (codes "dns") then record_or_a t.record_type else [];
    interval = at_least_ten t.interval;
    node_scope = if text_eq t.node_scope (codes "custom") then t.node_scope else codes "all";
    expect_status = if is_empty t.expect_status then codes "2xx" else t.expect_status;
    slow_ms = if ltb_ℤ t.slow_ms (pos 0) then pos 0 else t.slow_ms;
    quiet_hours =
        if is_empty (trim_space t.quiet_hours) then t.quiet_hours else trim_space t.quiet_hours;
    tags = join_commas (trim_parts (split_commas t.tags []));
  }

  -- validateTask
  unfoldable pub validate_task : Task → TaskError ⊎ Task
  unfolding contains valid_quiet_hours
  validate_task t =
      if is_empty (trim_space t.name)
      then inl no_task_name
      else if not (contains known_task_types t.api_type)
      then inl bad_task_type
      else if is_empty (trim_space t.target)
      then inl no_target
      else if text_eq t.api_type (codes "dns")
          && not (contains known_record_types (record_or_a t.record_type))
      then inl bad_record_type
      else if leb_ℤ t.interval (pos 0)
      then inl no_interval
      else if not (is_empty (trim_space t.quiet_hours))
          && not (valid_quiet_hours (trim_space t.quiet_hours))
      then inl bad_quiet_hours
      else inr (with_defaults t)

abbrev pub drop_prefix_slash : Text → Text
drop_prefix_slash [] = []
drop_prefix_slash (c ∷ s) = if c == b'/' then s else c ∷ s

-- normalizeTaskRaw
unfoldable pub normalize_task_raw : Task → Text
unfolding has_prefix trim_space
normalize_task_raw t =
    let versioned = has_prefix t.target (codes "v4/") || has_prefix t.target (codes "v6/") in
    if text_eq t.api_type (codes "speed") && not versioned
    then (if text_eq t.stack (codes "v4") || text_eq t.stack (codes "v6")
        then t.stack
        else codes "v4")
      ++ (b'/' ∷ t.target)
    else if text_eq t.api_type (codes "dns")
    then (if is_empty t.record_type then codes "a" else t.record_type)
      ++ (b'/' ∷ drop_prefix_slash (trim_space t.target))
    else t.target

abbrev pub stack_or_dual : ApiInfo → Text
stack_or_dual n =
    if not (text_eq n.stack stack_ipv4) && not (text_eq n.stack stack_ipv6)
    then stack_dual
    else n.stack

-- filterStackEligible
unfoldable pub filter_stack_eligible : Task → List ApiInfo → List ApiInfo
unfolding contains
filter_stack_eligible t targets =
    if t.require_all_stacks
    then where_rows (λ n. text_eq (stack_or_dual n) stack_dual) targets
    else if text_eq t.api_type (codes "speed")
    then (let st = if text_eq t.stack (codes "v6") then stack_ipv6 else stack_ipv4 in
        where_rows (λ n. contains (stack_dual ∷ st ∷ []) (stack_or_dual n)) targets)
    else targets

-- onlineNodeSet: the nodes whose rows are online, and those with a connection.
unfoldable pub is_live : Option Hub → Watch → Text → Bool
unfolding node_connected
is_live none w id = is_online id w
is_live (some h) w id = is_online id w || node_connected id h

-- The nodes that a round of the task asks.
unfoldable pub round_nodes : Option Hub → Watch → Pools → Task → List ApiInfo
unfolding node_pool_for_type filter_stack_eligible is_live contains
round_nodes h w p t =
    let pool = node_pool_for_type t.api_type p in
    let wanted = trim_parts (split_commas t.node_ids []) in
    let picked =
      if text_eq t.node_scope (codes "custom") && not (is_empty (trim_space t.node_ids))
      then where_rows (λ n. contains wanted n.id) pool
      else pool in
    where_rows (λ n. is_live h w n.id) (filter_stack_eligible t picked)

-- The state of schedulerLoop: when a task is due, which may be before 1970, and which are running.
pub record Timetable : Type 0 where
  pub due : List (ℕ × ℤ)
  pub running : List ℕ

unfoldable pub due_of : ℕ → List (ℕ × ℤ) → Option ℤ
due_of id [] = none
due_of id ((j, at) ∷ rest) = let found = due_of id rest in if j == id then some at else found

unfoldable pub set_due : ℕ → ℤ → List (ℕ × ℤ) → List (ℕ × ℤ)
set_due id at [] = (id, at) ∷ []
set_due id at ((j, old) ∷ rest) =
    let others = set_due id at rest in if j == id then (j, at) ∷ rest else (j, old) ∷ others

unfoldable pub mem_id : ℕ → List ℕ → Bool
mem_id id [] = false
mem_id id (x ∷ xs) = let rest = mem_id id xs in x == id || rest

-- `now.Before(nxt)`
abbrev pub is_early : ℕ → Option ℤ → Bool
is_early now none = false
is_early now (some at) = ltb_ℤ (pos now) at

-- `time.Duration(t.Interval) * time.Second`, which wraps as an int64
unfoldable pub period_ns : Task → ℤ
unfolding wrap64 ◌*ℤ◌
period_ns t = wrap64 (at_least_ten t.interval *ℤ pos second_ns)

-- `now.Add` of the period
unfoldable pub due_after : ℕ → Task → ℤ
unfolding period_ns ◌+ℤ◌
due_after now t = pos now +ℤ period_ns t

-- One enabled task at a tick of the scheduler; `started` collects the tasks whose round begins.
unfoldable pub tick_task : ℕ → Task → List Task × Timetable → List Task × Timetable
unfolding due_of set_due mem_id
tick_task now t (started, tt') =
    if is_early now (due_of t.id tt'.due)
    then (started, tt')
    else if mem_id t.id tt'.running
    then (started, tt')
    else (
      t ∷ started,
      record tt' { due = set_due t.id (due_after now t) tt'.due; running = t.id ∷ tt'.running },
    )

unfoldable pub tick_tasks : ℕ → List Task → List Task × Timetable → List Task × Timetable
unfolding tick_task
tick_tasks now [] r = r
tick_tasks now (t ∷ ts) r = tick_tasks now ts (tick_task now t r)

abbrev pub ids_of_tasks : List Task → List ℕ
ids_of_tasks ts = map (λ (t : Task). t.id) ts

-- A tick of schedulerLoop: the tasks that are gone are forgotten.
unfoldable pub tick : ℕ → List Task → Timetable → List Task × Timetable
unfolding tick_tasks
tick now tasks table =
    let (started, table') = tick_tasks now tasks ([], table) in
    (
      started,
      record table' {
        due = where_rows (λ (e : ℕ × ℤ). mem_id e.0 (ids_of_tasks tasks)) table'.due;
      },
    )

unfoldable pub drop_id : ℕ → List ℕ → List ℕ
drop_id id [] = []
drop_id id (x ∷ xs) = let rest = drop_id id xs in if x == id then rest else x ∷ rest

-- `taskRun.Delete`, at the end of a round
unfoldable pub end_round : ℕ → Timetable → Timetable
unfolding drop_id
end_round id table = record table { running = drop_id id table.running }
