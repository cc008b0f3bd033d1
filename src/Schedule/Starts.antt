-- ===== src/Schedule/Starts.antt =====
-- When the scheduler starts the rounds of a task.
-- No id stands in the list twice.
use ipw_boce.Prelude.{Bool-cases, List, [], arith, false, inl, inr, ℕ, ◌==◌, ◌∷◌, ◌≡◌}
use ipw_boce.Schedule.{
  Task, Timetable, drop_id, due_of, end_round, is_early, mem_id, tick, tick_task, tick_tasks,
}

abbrev pub DistinctIds : List ℕ → Type 0
DistinctIds [] = Unit {0}
DistinctIds (x ∷ xs) = (mem_id x xs ≡ false) × DistinctIds xs

-- What happens to the timetable, in order: a tick, or the end of a round.
pub data Turn : Type 0 where
  ticked : ℕ → List Task → Turn
  ended : ℕ → Turn

abbrev pub turn : Turn → Timetable → Timetable
turn (ticked now tasks) table = (tick now tasks table).1
turn (ended id) table = end_round id table

abbrev pub turns : List Turn → Timetable → Timetable
turns [] table = table
turns (t ∷ ts) table = turns ts (turn t table)

mem_id-drop_id : (x id : ℕ) (xs : List ℕ) → mem_id x xs ≡ false → mem_id x (drop_id id xs) ≡ false
unfolding mem_id drop_id
mem_id-drop_id x id [] h = h
mem_id-drop_id x id (y ∷ ys) h = ground (arith, h, mem_id-drop_id x id ys)

drop_id-Distinct : (id : ℕ) (xs : List ℕ) → DistinctIds xs → DistinctIds (drop_id id xs)
unfolding drop_id
drop_id-Distinct id [] d = d
drop_id-Distinct id (x ∷ xs) (n, d) =
    let ih = drop_id-Distinct id xs d in
    elim (Bool-cases (x == id)) [
      | inl same ↦ rw same ih
      | inr differs ↦ rw differs (mem_id-drop_id x id xs n, ih)
    ]

tick_task-Distinct :
    (now : ℕ) (t : Task) (started : List Task) (table : Timetable)
    → DistinctIds table.running
    → DistinctIds (tick_task now t (started, table)).1.running
unfolding tick_task
tick_task-Distinct now t started table d =
    elim (Bool-cases (is_early now (due_of t.id table.due))) [
      | inl early ↦ rw early d
      | inr due ↦ elim (Bool-cases (mem_id t.id table.running)) [
        | inl busy ↦ rw (due, busy) d
        | inr unbusy ↦ rw (due, unbusy) (unbusy, d)
      ]
    ]

tick_tasks-Distinct :
    (now : ℕ) (ts started : List Task) (table : Timetable)
    → DistinctIds table.running
    → DistinctIds (tick_tasks now ts (started, table)).1.running
unfolding tick_tasks
tick_tasks-Distinct now [] started table d = d
tick_tasks-Distinct now (t ∷ ts) started table d =
    let next = tick_task now t (started, table) in
    tick_tasks-Distinct now ts next.0 next.1 (tick_task-Distinct now t started table d)

-- After any ticks and ends of rounds, in any order, no task has two rounds at a time.
pub one_round_at_a_time :
    (ts : List Turn) (table : Timetable)
    → DistinctIds table.running
    → DistinctIds (turns ts table).running
unfolding tick tick_tasks end_round drop_id
one_round_at_a_time [] table d = d
one_round_at_a_time (ticked now tasks ∷ ts) table d =
    one_round_at_a_time ts (tick now tasks table).1 (tick_tasks-Distinct now tasks [] table d)
one_round_at_a_time (ended id ∷ ts) table d =
    one_round_at_a_time ts (end_round id table) (drop_id-Distinct id table.running d)
