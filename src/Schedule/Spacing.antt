-- ===== src/Schedule/Spacing.antt =====
-- The ten seconds between two rounds of a task.
use ipw_boce.Calendar.{second_ns}
use ipw_boce.Prelude.{
  All, Bool, Bool-cases, List, [], ap, arith, false, if◌then◌else◌, inl, inr, refl, some, subst,
  suc, sym, true, where_rows, ℕ, ◌*◌, ◌+◌, ◌<◌, ◌==◌, ◌^◌, ◌||◌, ◌∙◌, ◌∷◌, ◌≡◌, ◌≤◌,
}
use ipw_boce.Prelude.Int.{
  +ℤ_parts, ltb_ℤ, negsuc, pos, pos-*ℤ, pos_part, wrap64, wrap64-pos, ℤ, ◌*ℤ◌, ◌+ℤ◌, ◌≤ℤ◌,
}
use ipw_boce.Schedule.{
  Task, Timetable, at_least_ten, due_after, due_of, end_round, ids_of_tasks, is_early, mem_id,
  period_ns, set_due, tick, tick_task, tick_tasks,
}
use ipw_boce.Schedule.Starts.{Turn, ended, ticked}

due-set_due_self : (id : ℕ) (at : ℤ) (ds : List (ℕ × ℤ)) → due_of id (set_due id at ds) ≡ some at
unfolding due_of set_due
due-set_due_self id at [] = ground arith
due-set_due_self id at ((j, old) ∷ rest) = ground (arith, due-set_due_self id at rest)

pub due-set_due_other :
    (j id : ℕ) (at : ℤ) (ds : List (ℕ × ℤ))
    → j == id ≡ false
    → due_of id (set_due j at ds) ≡ due_of id ds
unfolding due_of set_due
due-set_due_other j id at [] ne = rw ne refl
due-set_due_other j id at ((k, old) ∷ rest) ne =
    ground (arith, ne, due-set_due_other j id at rest ne)

-- Whether a task is among those whose round begins.
unfoldable pub has_started : ℕ → List Task → Bool
has_started id [] = false
has_started id (t ∷ ts) = let rest = has_started id ts in t.id == id || rest

-- The task is not due before `end`.
abbrev pub WaitsUntil : ℕ → ℕ → Timetable → Type 0
WaitsUntil id end table = (at : ℤ) × (due_of id table.due ≡ some at) × (pos end ≤ℤ at)

-- The tick comes before `end`, and the task is among those it looks at.
abbrev pub KeepsTask : ℕ → ℕ → Turn → Type 0
KeepsTask id end (ticked now tasks) = (mem_id id (ids_of_tasks tasks) ≡ true) × (now < end)
KeepsTask id end (ended j) = Unit {0}

-- How many of the turns start a round of the task.
unfoldable pub starts : ℕ → List Turn → Timetable → ℕ
unfolding tick has_started end_round
starts id [] table = 0
starts id (ticked now tasks ∷ ts) table =
    let (begun, table') = tick now tasks table in
    let rest = starts id ts table' in if has_started id begun then suc rest else rest
starts id (ended j ∷ ts) table = starts id ts (end_round j table)

early_lem :
    (id now end : ℕ) (table : Timetable)
    → WaitsUntil id end table
    → now < end
    → is_early now (due_of id table.due) ≡ true
early_lem id now end table (at, due, le) lt_end = ap (is_early now) due ∙ ground (arith, le, lt_end)

set_due-Waits :
    (id j : ℕ) (new : ℤ) (end : ℕ) (table : Timetable)
    → j == id ≡ false
    → WaitsUntil id end table
    → WaitsUntil id end
        (record table { due = set_due j new table.due; running = j ∷ table.running })
set_due-Waits id j new end table ne (at, due, le) =
    (at, due-set_due_other j id new table.due ne ∙ due, le)

-- A task that waits is not started, and waits on.
tick_task-Waits :
    (id now end : ℕ) (t : Task) (begun : List Task) (table : Timetable)
    → now < end
    → WaitsUntil id end table
    → WaitsUntil id end (tick_task now t (begun, table)).1
      × (has_started id (tick_task now t (begun, table)).0 ≡ has_started id begun)
unfolding due_of has_started tick_task
tick_task-Waits id now end t begun table lt_end w = elim (Bool-cases (t.id == id)) [
  | inl same ↦
      let t_id : t.id ≡ id = ground (arith, same) in
      let early : is_early now (due_of t.id table.due) ≡ true =
        subst (λ j. is_early now (due_of j table.due) ≡ true) (sym t_id)
          (early_lem id now end table w lt_end) in
      rw early (w, refl)
  | inr differs ↦ elim (Bool-cases (is_early now (due_of t.id table.due))) [
    | inl early ↦ rw early (w, refl)
    | inr due ↦ elim (Bool-cases (mem_id t.id table.running)) [
      | inl busy ↦ rw (due, busy) (w, refl)
      | inr unbusy ↦
          rw (due, unbusy)
            (
              set_due-Waits id t.id (due_after now t) end table differs w,
              ap (λ b. b || has_started id begun) differs,
            )
    ]
  ]
]

tick_tasks-Waits :
    (id now end : ℕ) (ts begun : List Task) (table : Timetable)
    → now < end
    → WaitsUntil id end table
    → WaitsUntil id end (tick_tasks now ts (begun, table)).1
      × (has_started id (tick_tasks now ts (begun, table)).0 ≡ has_started id begun)
unfolding tick_tasks
tick_tasks-Waits id now end [] begun table lt_end w = (w, refl)
tick_tasks-Waits id now end (t ∷ ts) begun table lt_end w =
    let next = tick_task now t (begun, table) in
    let (waits, same) = tick_task-Waits id now end t begun table lt_end w in
    let (waits_on, same_on) = tick_tasks-Waits id now end ts next.0 next.1 lt_end waits in
    (waits_on, same_on ∙ same)

-- The entries of the tasks that are there stay.
due-where_rows :
    (id : ℕ) (ids : List ℕ) (ds : List (ℕ × ℤ))
    → mem_id id ids ≡ true
    → due_of id (where_rows (λ (e : ℕ × ℤ). mem_id e.0 ids) ds) ≡ due_of id ds
unfolding due_of
due-where_rows id ids [] m = refl
due-where_rows id ids ((j, at) ∷ ds) m =
    let ih = due-where_rows id ids ds m in
    elim (Bool-cases (j == id)) [
      | inl same ↦
          let j_id : j ≡ id = ground (arith, same) in
          rw (subst (λ k. mem_id k ids ≡ true) (sym j_id) m, same) refl
      | inr differs ↦ elim (Bool-cases (mem_id j ids)) [
        | inl remains ↦ rw (remains, differs) ih
        | inr goes ↦ rw (goes, differs) ih
      ]
    ]

tick-Waits :
    (id now end : ℕ) (tasks : List Task) (table : Timetable)
    → mem_id id (ids_of_tasks tasks) ≡ true
    → WaitsUntil id end (tick_tasks now tasks ([], table)).1
    → WaitsUntil id end (tick now tasks table).1
unfolding tick tick_tasks
tick-Waits id now end tasks table m (at, due, le) =
    let after = (tick_tasks now tasks ([], table)).1 in
    (at, due-where_rows id (ids_of_tasks tasks) after.due m ∙ due, le)

starts-Waits :
    (id end : ℕ) (ts : List Turn) (table : Timetable)
    → All (KeepsTask id end) ts
    → WaitsUntil id end table
    → starts id ts table ≡ 0
unfolding starts
starts-Waits id end [] table ks w = refl
starts-Waits id end (ticked now tasks ∷ ts) table ((m, lt_end), ks) w =
    let (waits, begun) = tick_tasks-Waits id now end tasks [] table lt_end w in
    let ih =
      starts-Waits id end ts (tick now tasks table).1 ks
        (tick-Waits id now end tasks table m waits) in
    ap
      (λ b.
        if b
        then suc (starts id ts (tick now tasks table).1)
        else starts id ts (tick now tasks table).1)
      begun
    ∙ ih
starts-Waits id end (ended j ∷ ts) table (k, ks) w = starts-Waits id end ts (end_round j table) ks w

-- A task whose round begins waits for ten seconds.
abbrev WaitsIfBegun : ℕ → ℕ → List Task × Timetable → Type 0
WaitsIfBegun id now r = has_started id r.0 ≡ true → WaitsUntil id (now + 10 * second_ns) r.1

-- The period of the task is an int64 of nanoseconds: its interval is below 292 years.
abbrev pub IsShort : Task → Type 0
IsShort t = pos_part t.interval * second_ns < 2 ^ 63

clamped :
    (z : ℤ)
    → pos_part z * second_ns < 2 ^ 63
    → (m : ℕ) × (at_least_ten z ≡ pos m) × (10 ≤ m) × (m * second_ns < 2 ^ 63)
clamped z h = elim (Bool-cases (ltb_ℤ z (pos 10))) [
  | inl small ↦ (10, rw small refl, ground arith, ground arith)
  | inr big ↦ (pos_part z, rw big (nonneg z big), ground (arith, big), h)
]
  where
    nonneg : (z : ℤ) → ltb_ℤ z (pos 10) ≡ false → z ≡ pos (pos_part z)
    nonneg (pos n) h = refl
    nonneg (negsuc n) h = absurd (ground (arith, h))

-- The task is due ten seconds later at the earliest.
due_after_lem : (now : ℕ) (t : Task) → IsShort t → pos (now + 10 * second_ns) ≤ℤ due_after now t
unfolding due_after period_ns
due_after_lem now t short =
    let (m, whole, le, lt) = clamped t.interval short in
    let period : period_ns t ≡ pos (m * second_ns) =
      ap (λ z. wrap64 (z *ℤ pos second_ns)) whole
      ∙ ap wrap64 (pos-*ℤ m second_ns)
      ∙ wrap64-pos (m * second_ns) lt in
    subst (λ d. pos (now + 10 * second_ns) ≤ℤ (pos now +ℤ d)) (sym period)
      (omega (arith, +ℤ_parts (pos now) (pos (m * second_ns)), le))

tick_task-begun :
    (id now : ℕ) (t : Task) (begun : List Task) (table : Timetable)
    → IsShort t
    → WaitsIfBegun id now (begun, table)
    → WaitsIfBegun id now (tick_task now t (begun, table))
unfolding has_started due_of tick_task
tick_task-begun id now t begun table short w =
    elim (Bool-cases (is_early now (due_of t.id table.due))) [
      | inl early ↦ rw early w
      | inr due ↦ elim (Bool-cases (mem_id t.id table.running)) [
        | inl busy ↦ rw (due, busy) w
        | inr unbusy ↦ elim (Bool-cases (t.id == id)) [
          | inl same ↦
              rw (due, unbusy)
                (λ h.
                  let t_id : t.id ≡ id = ground (arith, same) in
                  (
                    due_after now t,
                    subst
                        (λ j.
                          due_of j (set_due t.id (due_after now t) table.due)
                          ≡ some (due_after now t))
                        t_id (due-set_due_self t.id (due_after now t) table.due),
                    due_after_lem now t short,
                  ))
          | inr differs ↦
              rw (due, unbusy)
                (λ h.
                  set_due-Waits id t.id (due_after now t) (now + 10 * second_ns) table differs
                    (w (sym (ap (λ b. b || has_started id begun) differs) ∙ h)))
        ]
      ]
    ]

tick_tasks-begun :
    (id now : ℕ) (ts begun : List Task) (table : Timetable)
    → All IsShort ts
    → WaitsIfBegun id now (begun, table)
    → WaitsIfBegun id now (tick_tasks now ts (begun, table))
unfolding tick_tasks
tick_tasks-begun id now [] begun table shorts w = w
tick_tasks-begun id now (t ∷ ts) begun table (short, shorts) w =
    let next = tick_task now t (begun, table) in
    tick_tasks-begun id now ts next.0 next.1 shorts (tick_task-begun id now t begun table short w)

none_begun : (id : ℕ) → has_started id [] ≡ true → ⊥
unfolding has_started
none_begun id h = ground (arith, h)

-- Once a round of a task has begun, no tick in the ten seconds after it begins another one, whenever
-- its round ends, while the task stays among those the ticks look at, if the periods of the tasks of
-- the first tick are int64 numbers of nanoseconds.
pub ten_seconds_apart :
    (id now : ℕ) (tasks : List Task) (ts : List Turn) (table : Timetable)
    → All IsShort tasks
    → mem_id id (ids_of_tasks tasks) ≡ true
    → has_started id (tick now tasks table).0 ≡ true
    → All (KeepsTask id (now + 10 * second_ns)) ts
    → starts id ts (tick now tasks table).1 ≡ 0
unfolding tick_tasks tick
ten_seconds_apart id now tasks ts table shorts m begun ks =
    starts-Waits id (now + 10 * second_ns) ts (tick now tasks table).1 ks (
      tick-Waits id now (now + 10 * second_ns) tasks table m
        (tick_tasks-begun id now tasks [] table shorts (λ h. absurd (none_begun id h)) begun))
