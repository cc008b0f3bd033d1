-- ===== src/Ota/Settles.antt =====
-- A task that times out is ended by the next round that looks at it.
-- How many rows of the id are open.
use ipw_boce.NodePool.{Pools}
use ipw_boce.Ota.{
  OtaState, OtaStatus, OtaTask, finish_ota_task, is_dispatched, is_open_id, observe, open_tasks,
  ota_failed, ota_timeout, ota_version_hit, reconcile_all, reconcile_round, reconcile_task, success,
}
use ipw_boce.Prelude.{
  Bool-cases, List, Option, Text, [], arith, codes, count, false, inl, inr, ltb, refl, subst, sym,
  true, ℕ, ◌++◌, ◌+◌, ◌<◌, ◌∷◌, ◌≡◌,
}
use ipw_boce.Uptime.{before}

abbrev pub open_rows : ℕ → List OtaTask → ℕ
open_rows id ts = count (is_open_id id) ts

finish-open_rows :
    (now id : ℕ) (status : OtaStatus) (stage reason : Text) (ts : List OtaTask)
    → is_dispatched status ≡ false
    → open_rows id (finish_ota_task now id status stage reason ts) ≡ 0
unfolding finish_ota_task
finish-open_rows now id status stage reason [] h = refl
finish-open_rows now id status stage reason (t ∷ ts) h =
    ground (arith, finish-open_rows now id status stage reason ts h, h)

still_closed :
    (now id j : ℕ) (status : OtaStatus) (stage reason : Text) (ts : List OtaTask)
    → is_dispatched status ≡ false
    → open_rows id ts ≡ 0
    → open_rows id (finish_ota_task now j status stage reason ts) ≡ 0
unfolding finish_ota_task
still_closed now id j status stage reason [] h z = refl
still_closed now id j status stage reason (t ∷ ts) h z =
    ground (arith, still_closed now id j status stage reason ts h, h, z)

reconcile_task-open_rows :
    (p : Pools) (live : Text → Option Text) (expired : Text) (now id : ℕ) (t : OtaTask)
    (s : OtaState)
    → open_rows id s.tasks ≡ 0
    → open_rows id (reconcile_task p live expired now t s).tasks ≡ 0
unfolding reconcile_task
reconcile_task-open_rows p live expired now id t s z =
    let version = (observe p live t.node_id s.watch).0 in
    elim (Bool-cases (ota_version_hit t version)) [
      | inl hit ↦
          rw (reconcile_task, hit)
            (still_closed now id t.id success (codes "observed") [] s.tasks refl z)
      | inr miss ↦ elim (Bool-cases (ltb (t.dispatched_at + ota_timeout) now)) [
        | inl late ↦
            rw (reconcile_task, miss, late)
              (still_closed now id t.id ota_failed [] expired s.tasks refl z)
        | inr early ↦ rw (reconcile_task, miss, early) z
      ]
    ]

reconcile_all-open_rows :
    (p : Pools) (live : Text → Option Text) (expired : Text) (now id : ℕ) (ts : List OtaTask)
    (s : OtaState)
    → open_rows id s.tasks ≡ 0
    → open_rows id (reconcile_all p live expired now ts s).tasks ≡ 0
unfolding reconcile_all
reconcile_all-open_rows p live expired now id [] s z = z
reconcile_all-open_rows p live expired now id (t ∷ ts) s z =
    reconcile_all-open_rows p live expired now id ts (reconcile_task p live expired now t s)
      (reconcile_task-open_rows p live expired now id t s z)

late_task_ends :
    (p : Pools) (live : Text → Option Text) (expired : Text) (now : ℕ) (t : OtaTask) (s : OtaState)
    → t.dispatched_at + ota_timeout < now
    → open_rows t.id (reconcile_task p live expired now t s).tasks ≡ 0
unfolding reconcile_task
late_task_ends p live expired now t s late =
    let version = (observe p live t.node_id s.watch).0 in
    elim (Bool-cases (ota_version_hit t version)) [
      | inl hit ↦
          rw (reconcile_task, hit)
            (finish-open_rows now t.id success (codes "observed") [] s.tasks refl)
      | inr miss ↦
          let over : ltb (t.dispatched_at + ota_timeout) now ≡ true = ground (arith, late) in
          rw (reconcile_task, miss, over)
            (finish-open_rows now t.id ota_failed [] expired s.tasks refl)
    ]

late_in_list :
    (p : Pools) (live : Text → Option Text) (expired : Text) (now : ℕ) (t : OtaTask)
    (before behind : List OtaTask) (s : OtaState)
    → t.dispatched_at + ota_timeout < now
    → open_rows t.id (reconcile_all p live expired now (before ++ (t ∷ behind)) s).tasks ≡ 0
unfolding reconcile_task reconcile_all
late_in_list p live expired now t [] behind s late =
    reconcile_all-open_rows p live expired now t.id behind (reconcile_task p live expired now t s)
      (late_task_ends p live expired now t s late)
late_in_list p live expired now t (x ∷ before) behind s late =
    late_in_list p live expired now t before behind (reconcile_task p live expired now x s) late

-- A task among the hundred oldest open ones whose fifteen minutes are over is ended by a round,
-- whether its node answers or not.
pub late_round_ends :
    (p : Pools) (live : Text → Option Text) (expired : Text) (now : ℕ) (t : OtaTask)
    (before behind : List OtaTask) (s : OtaState)
    → open_tasks s.tasks ≡ before ++ (t ∷ behind)
    → t.dispatched_at + ota_timeout < now
    → open_rows t.id (reconcile_round p live expired now s).tasks ≡ 0
unfolding reconcile_round reconcile_all
late_round_ends p live expired now t before behind s looked late =
    subst (λ ts. open_rows t.id (reconcile_all p live expired now ts s).tasks ≡ 0) (sym looked)
      (late_in_list p live expired now t before behind s late)
