-- ===== src/Schedule/Due.antt =====
-- A task that is due is started.
-- The task is due, and no round of it is running.
use ipw_boce.Prelude.{
  Bool-cases, List, [], ap, arith, false, inl, inr, subst, sym, true, ℕ, ◌==◌, ◌||◌, ◌∙◌, ◌∷◌, ◌≡◌,
}
use ipw_boce.Schedule.{
  Task, Timetable, due_after, due_of, ids_of_tasks, is_early, mem_id, tick, tick_task, tick_tasks,
}
use ipw_boce.Schedule.Spacing.{due-set_due_other, has_started}

abbrev pub IsReady : ℕ → ℕ → Timetable → Type 0
IsReady id now table =
    (is_early now (due_of id table.due) ≡ false) × (mem_id id table.running ≡ false)

begun-tick_task :
    (id now : ℕ) (t : Task) (begun : List Task) (table : Timetable)
    → has_started id begun ≡ true
    → has_started id (tick_task now t (begun, table)).0 ≡ true
unfolding has_started tick_task
begun-tick_task id now t begun table h = elim (Bool-cases (is_early now (due_of t.id table.due))) [
  | inl early ↦ rw early h
  | inr due ↦ elim (Bool-cases (mem_id t.id table.running)) [
    | inl busy ↦ rw (due, busy) h
    | inr unbusy ↦ rw (due, unbusy) ground (arith, h)
  ]
]

begun-tick_tasks :
    (id now : ℕ) (ts begun : List Task) (table : Timetable)
    → has_started id begun ≡ true
    → has_started id (tick_tasks now ts (begun, table)).0 ≡ true
unfolding tick_tasks
begun-tick_tasks id now [] begun table h = h
begun-tick_tasks id now (t ∷ ts) begun table h =
    let next = tick_task now t (begun, table) in
    begun-tick_tasks id now ts next.0 next.1 (begun-tick_task id now t begun table h)

-- A ready task begins at its turn.
own_turn :
    (id now : ℕ) (t : Task) (begun : List Task) (table : Timetable)
    → t.id == id ≡ true
    → IsReady id now table
    → has_started id (tick_task now t (begun, table)).0 ≡ true
unfolding has_started tick_task
own_turn id now t begun table same ready =
    let t_id : t.id ≡ id = ground (arith, same) in
    let (due, unbusy) = subst (λ j. IsReady j now table) (sym t_id) ready in
    rw (due, unbusy) (ap (λ b. b || has_started id begun) same)

-- The turn of another task leaves it ready.
other_turn :
    (id now : ℕ) (t : Task) (begun : List Task) (table : Timetable)
    → t.id == id ≡ false
    → IsReady id now table
    → IsReady id now (tick_task now t (begun, table)).1
unfolding due_of mem_id tick_task
other_turn id now t begun table differs (ready, free) =
    elim (Bool-cases (is_early now (due_of t.id table.due))) [
      | inl early ↦ rw early (ready, free)
      | inr due ↦ elim (Bool-cases (mem_id t.id table.running)) [
        | inl busy ↦ rw (due, busy) (ready, free)
        | inr unbusy ↦
            rw (due, unbusy)
              (
                ap (is_early now) (due-set_due_other t.id id (due_after now t) table.due differs)
                    ∙ ready,
                ap (λ b. b || mem_id id table.running) differs ∙ free,
              )
      ]
    ]

nothing_there : (id : ℕ) → mem_id id (ids_of_tasks []) ≡ true → ⊥
unfolding mem_id
nothing_there id m = ground (arith, m)

ready-tick_tasks :
    (id now : ℕ) (ts begun : List Task) (table : Timetable)
    → mem_id id (ids_of_tasks ts) ≡ true
    → IsReady id now table
    → has_started id (tick_tasks now ts (begun, table)).0 ≡ true
unfolding has_started mem_id tick_tasks
ready-tick_tasks id now [] begun table m ready = absurd (nothing_there id m)
ready-tick_tasks id now (t ∷ ts) begun table m ready =
    let next = tick_task now t (begun, table) in
    elim (Bool-cases (t.id == id)) [
      | inl same ↦
          begun-tick_tasks id now ts next.0 next.1 (own_turn id now t begun table same ready)
      | inr differs ↦
          ready-tick_tasks id now ts next.0 next.1
            (sym (ap (λ b. b || mem_id id (ids_of_tasks ts)) differs) ∙ m)
            (other_turn id now t begun table differs ready)
    ]

-- A tick starts a round of every task it looks at that is due and has no round running.
pub due_task_starts :
    (id now : ℕ) (tasks : List Task) (table : Timetable)
    → mem_id id (ids_of_tasks tasks) ≡ true
    → IsReady id now table
    → has_started id (tick now tasks table).0 ≡ true
unfolding tick tick_tasks
due_task_starts id now tasks table m ready = ready-tick_tasks id now tasks [] table m ready
