-- ===== src/Schedule/Checks.antt =====
-- What validateTask lets through.
-- What a task must fulfil before it is stored.
use ipw_boce.Prelude.{
  Bool, Bool-cases, Option, Text, [], arith, codes, contains, false, if◌then◌else◌, inl, inr,
  is_empty, not, refl, subst, text_eq, trim_space, true, ◌&&◌, ◌||◌, ◌∷◌, ◌≡◌, ◌⊎◌,
}
use ipw_boce.Prelude.Int.{leb_ℤ, ltb_ℤ, pos, ℤ, ◌≤ℤ◌}
use ipw_boce.Schedule.{
  Task, TaskError, at_least_ten, bad_quiet_hours, bad_record_type, bad_task_type,
  known_record_types, known_task_types, no_interval, no_target, no_task_name, record_or_a,
  valid_quiet_hours, validate_task, with_defaults,
}

abbrev pub IsRunnable : (Text → Option ℤ) → Task → Type 0
IsRunnable atoi t =
    (is_empty (trim_space t.name) ≡ false)
    × (contains known_task_types t.api_type ≡ true)
    × (is_empty (trim_space t.target) ≡ false)
    × (pos 10 ≤ℤ t.interval)
    × (pos 0 ≤ℤ t.slow_ms)
    × (is_empty t.expect_status ≡ false)
    × (is_empty (trim_space t.quiet_hours) || valid_quiet_hours atoi t.quiet_hours ≡ true)

ten_or_more : (z : ℤ) → pos 10 ≤ℤ at_least_ten z
ten_or_more z = elim (Bool-cases (ltb_ℤ z (pos 10))) [
  | inl small ↦ rw small ground arith
  | inr big ↦ rw big ground (arith, big)
]

zero_or_more : (z : ℤ) → pos 0 ≤ℤ (if ltb_ℤ z (pos 0) then pos 0 else z)
zero_or_more z = elim (Bool-cases (ltb_ℤ z (pos 0))) [
  | inl small ↦ rw small ground arith
  | inr big ↦ rw big ground (arith, big)
]

given_status : (s : Text) → is_empty (if is_empty s then codes "2xx" else s) ≡ false
given_status [] = refl
given_status (c ∷ s) = refl

-- The task of a result fulfils `P`, if there is one.
abbrev Grants : (Task → Type 0) → TaskError ⊎ Task → Type 0
Grants P (inl e) = Unit {0}
Grants P (inr t) = P t

guard-Grants :
    (P : Task → Type 0) (b : Bool) (e : TaskError) (r : TaskError ⊎ Task)
    → (b ≡ false → Grants P r)
    → Grants P (if b then inl e else r)
guard-Grants P true e r h = tt
guard-Grants P false e r h = h refl

unnegated : (b : Bool) → not b ≡ false → b ≡ true
unnegated b h = ground (arith, h)

read_hours :
    (atoi : Text → Option ℤ) (q : Text)
    → not (is_empty (trim_space q)) && not (valid_quiet_hours atoi (trim_space q)) ≡ false
    → is_empty (trim_space (if is_empty (trim_space q) then q else trim_space q))
        || valid_quiet_hours atoi (if is_empty (trim_space q) then q else trim_space q)
      ≡ true
read_hours atoi q h = elim (Bool-cases (is_empty (trim_space q))) [
  | inl blank ↦ rw (blank, blank) refl
  | inr given ↦ rw given ground (arith, h, given)
]

checked-Grants :
    (atoi : Text → Option ℤ) (t : Task) → Grants (IsRunnable atoi) (validate_task atoi t)
unfolding validate_task
checked-Grants atoi t =
    let P = IsRunnable atoi in
    let unread =
      not (is_empty (trim_space t.quiet_hours))
      && not (valid_quiet_hours atoi (trim_space t.quiet_hours)) in
    let last : TaskError ⊎ Task =
      if unread then inl bad_quiet_hours else inr (with_defaults atoi t) in
    let timed : TaskError ⊎ Task = if leb_ℤ t.interval (pos 0) then inl no_interval else last in
    let no_record =
      text_eq t.api_type (codes "dns")
      && not (contains known_record_types (record_or_a atoi t.record_type)) in
    guard-Grants P (is_empty (trim_space t.name)) no_task_name _ (λ named.
      guard-Grants P (not (contains known_task_types t.api_type)) bad_task_type _ (λ known.
        guard-Grants P (is_empty (trim_space t.target)) no_target _ (λ aimed.
          guard-Grants P no_record bad_record_type timed (λ record_ok.
            guard-Grants P (leb_ℤ t.interval (pos 0)) no_interval last (λ interval_ok.
              guard-Grants P unread bad_quiet_hours (inr (with_defaults atoi t)) (λ hours. (
                named,
                unnegated (contains known_task_types t.api_type) known,
                aimed,
                ten_or_more t.interval,
                zero_or_more t.slow_ms,
                given_status t.expect_status,
                read_hours atoi t.quiet_hours hours,
              )))))))

-- Every task that validateTask lets through can run: it has a name, a known type, a target, an
-- interval of ten seconds at least, a limit for slow answers that is not negative, a pattern for
-- the status, and quiet hours that are blank or can be read.
pub validate_task-Runnable :
    (atoi : Text → Option ℤ) (t t' : Task) → validate_task atoi t ≡ inr t' → IsRunnable atoi t'
validate_task-Runnable atoi t t' h = subst (Grants (IsRunnable atoi)) h (checked-Grants atoi t)
