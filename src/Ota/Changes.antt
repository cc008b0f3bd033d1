-- ===== src/Ota/Changes.antt =====
-- What happens to the update tasks, one step after the other, and how a step changes rows.
-- A step of the tasks. What the presence does to the rows of the nodes is arbitrary.
use ipw_boce.NodePool.{Pools}
use ipw_boce.Ota.{
  OtaInput, OtaResult, OtaState, OtaStatus, OtaTask, OtaWaiting, finish_ota_task, has_task_id,
  is_dispatched, is_open_of, observe, ota_failed, ota_on_node_registered, ota_on_node_result,
  ota_task_in_flight, ota_timeout, ota_version_hit, reconcile_all, reconcile_round, reconcile_task,
  registered_task, success,
}
use ipw_boce.Ota.Dispatch.{begin_dispatch, end_dispatch, ota_check}
use ipw_boce.Prelude.{
  Bool-cases, List, Option, Text, [], arith, codes, false, find, inl, inr, is_empty, ltb, none,
  refl, some, ℕ, ◌++◌, ◌+◌, ◌∙◌, ◌∷◌, ◌≡◌,
}
use ipw_boce.Presence.{Watch}

pub data OtaStep : OtaState → OtaState → Type 0 where
  begins :
      (p : Pools) (live : Text → Option Text) (now : ℕ) (node req : Text) (i : OtaInput)
      (s : OtaState)
      → OtaStep s (begin_dispatch p live now node req i s).1
  ends :
      (id after : ℕ) (w : OtaWaiting) (stage : Text) (failure : Option Text)
      (before behind : List OtaWaiting) (s : OtaState)
      → find (has_task_id id) s.tasks ≡ none
      → OtaStep
          (record s { waiting = before ++ (w ∷ behind) })
          (end_dispatch id after w stage failure (record s { waiting = before ++ behind })).1
  register :
      (now : ℕ) (node version : Text) (s : OtaState)
      → OtaStep s (record s { tasks = ota_on_node_registered now node version s.tasks })
  report :
      (now : ℕ) (r : OtaResult) (s : OtaState)
      → OtaStep s (record s { tasks = ota_on_node_result now r s.tasks })
  reconcile :
      (p : Pools) (live : Text → Option Text) (expired : Text) (now : ℕ) (s : OtaState)
      → OtaStep s (reconcile_round p live expired now s)
  presence : (w : Watch) (s : OtaState) → OtaStep s (record s { watch = w })

pub data OtaSteps (s : OtaState) : OtaState → Type 0 where
  none_yet : OtaSteps s s
  and_then : {a b : OtaState} → OtaSteps s a → OtaStep a b → OtaSteps s b

-- The changes that the steps make to the rows that are there: open rows are finished or reported.
pub data Change : List OtaTask → List OtaTask → Type 0 where
  same : (ts : List OtaTask) → Change ts ts
  finishes :
      (now id : ℕ) (status : OtaStatus) (stage reason : Text) (ts : List OtaTask)
      → is_dispatched status ≡ false
      → Change ts (finish_ota_task now id status stage reason ts)
  reports : (now : ℕ) (r : OtaResult) (ts : List OtaTask) → Change ts (ota_on_node_result now r ts)
  chain : {a b c : List OtaTask} → Change a b → Change b c → Change a c

registered_task-Change :
    (now : ℕ) (version : Text) (t : Option OtaTask) (ts : List OtaTask)
    → Change ts (registered_task now version t ts)
registered_task-Change now version none ts = same ts
registered_task-Change now version (some t) ts = elim (Bool-cases (ota_version_hit t version)) [
  | inl hit ↦ rw hit (finishes now t.id success [] [] ts refl)
  | inr miss ↦ rw miss (same ts)
]

pub registered-Change :
    (now : ℕ) (node version : Text) (ts : List OtaTask)
    → Change ts (ota_on_node_registered now node version ts)
unfolding ota_on_node_registered
registered-Change now node version ts = elim (Bool-cases (is_empty version)) [
  | inl empty ↦ rw (ota_on_node_registered, empty) (same ts)
  | inr given ↦
      rw (ota_on_node_registered, given)
        (registered_task-Change now version (find (is_open_of node) ts) ts)
]

reconcile_task-Change :
    (p : Pools) (live : Text → Option Text) (expired : Text) (now : ℕ) (t : OtaTask) (s : OtaState)
    → Change s.tasks (reconcile_task p live expired now t s).tasks
unfolding reconcile_task
reconcile_task-Change p live expired now t s =
    let version = (observe p live t.node_id s.watch).0 in
    elim (Bool-cases (ota_version_hit t version)) [
      | inl hit ↦
          rw (reconcile_task, hit) (finishes now t.id success (codes "observed") [] s.tasks refl)
      | inr miss ↦ elim (Bool-cases (ltb (t.dispatched_at + ota_timeout) now)) [
        | inl late ↦
            rw (reconcile_task, miss, late) (finishes now t.id ota_failed [] expired s.tasks refl)
        | inr early ↦ rw (reconcile_task, miss, early) (same s.tasks)
      ]
    ]

pub reconcile_all-Change :
    (p : Pools) (live : Text → Option Text) (expired : Text) (now : ℕ) (ts : List OtaTask)
    (s : OtaState)
    → Change s.tasks (reconcile_all p live expired now ts s).tasks
unfolding reconcile_all
reconcile_all-Change p live expired now [] s = same s.tasks
reconcile_all-Change p live expired now (t ∷ ts) s =
    chain (reconcile_task-Change p live expired now t s)
      (reconcile_all-Change p live expired now ts (reconcile_task p live expired now t s))

-- The check lets a request pass only when no task of the node is open.
pub check_passed :
    (node : Text) (i : OtaInput) (w : Watch) (ts : List OtaTask)
    → ota_check node i w ts ≡ none
    → ota_task_in_flight node ts ≡ false
unfolding ota_check
check_passed node i w ts h = elim (Bool-cases (ota_task_in_flight node ts)) [
  | inr free ↦ free
  | inl busy ↦ absurd (ground (arith, h, busy))
]

reconcile_task-waiting :
    (p : Pools) (live : Text → Option Text) (expired : Text) (now : ℕ) (t : OtaTask) (s : OtaState)
    → (reconcile_task p live expired now t s).waiting ≡ s.waiting
unfolding reconcile_task
reconcile_task-waiting p live expired now t s =
    let version = (observe p live t.node_id s.watch).0 in
    elim (Bool-cases (ota_version_hit t version)) [
      | inl hit ↦ rw (reconcile_task, hit) refl
      | inr miss ↦ elim (Bool-cases (ltb (t.dispatched_at + ota_timeout) now)) [
        | inl late ↦ rw (reconcile_task, miss, late) refl
        | inr early ↦ rw (reconcile_task, miss, early) refl
      ]
    ]

pub reconcile_all-waiting :
    (p : Pools) (live : Text → Option Text) (expired : Text) (now : ℕ) (ts : List OtaTask)
    (s : OtaState)
    → (reconcile_all p live expired now ts s).waiting ≡ s.waiting
unfolding reconcile_all
reconcile_all-waiting p live expired now [] s = refl
reconcile_all-waiting p live expired now (t ∷ ts) s =
    reconcile_all-waiting p live expired now ts (reconcile_task p live expired now t s)
    ∙ reconcile_task-waiting p live expired now t s
