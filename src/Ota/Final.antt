-- ===== src/Ota/Final.antt =====
-- The outcome of an update task is final.
-- The row of the task is found under its id, and is no longer open.
use ipw_boce.NodePool.{Pools}
use ipw_boce.Ota.{
  OtaInput, OtaResult, OtaState, OtaTask, finish_ota_task, finished_task, has_task_id, is_open_id,
  is_open_request, is_open_task, open_tasks, ota_on_node_result, reconcile_round, reported_task,
}
use ipw_boce.Ota.Changes.{
  Change, OtaStep, OtaSteps, and_then, begins, chain, ends, finishes, none_yet, presence, reconcile,
  reconcile_all-Change, register, registered-Change, report, reports, same,
}
use ipw_boce.Ota.Dispatch.{begin_dispatch, clean_input, end_dispatch, ota_check, sent_task}
use ipw_boce.Prelude.{
  Bool, Bool-cases, List, Option, Option-cases, Text, [], ap, arith, false, find, if◌then◌else◌,
  inl, inr, is_empty, is_some, none, refl, some, subst, sym, trim_space, true, update, ℕ, ◌==◌, ◌∙◌,
  ◌∷◌, ◌≡◌,
}
use ipw_boce.Shop.Finish.{closed}
use ipw_boce.Uptime.{before}

abbrev pub HasEnded : ℕ → OtaTask → List OtaTask → Type 0
HasEnded id t ts = (find (has_task_id id) ts ≡ some t) × (is_open_task t ≡ false)

abbrev open_of : Option OtaTask → Bool
open_of none = false
open_of (some t) = is_open_task t

-- An update that only touches open rows, and keeps their ids.
find-update_open :
    (id : ℕ) (q : OtaTask → Bool) (f : OtaTask → OtaTask) (t : OtaTask) (ts : List OtaTask)
    → ((x : OtaTask) → q x ≡ true → is_open_task x ≡ true)
    → ((x : OtaTask) → (f x).id ≡ x.id)
    → HasEnded id t ts
    → find (has_task_id id) (update q f ts) ≡ some t
find-update_open id q f t [] opens keeps (h, closed) = h
find-update_open id q f t (x ∷ ts) opens keeps (h, closed) = elim (Bool-cases (has_task_id id x)) [
  | inl own ↦
      let is_t : some x ≡ some t =
        sym (ap (λ b. if b then some x else find (has_task_id id) ts) own) ∙ h in
      elim (Bool-cases (q x)) [
        | inl touched ↦ absurd (ground (arith, ap open_of is_t, opens x touched, closed))
        | inr untouched ↦ rw (untouched, own) is_t
      ]
  | inr foreign ↦
      let rest : find (has_task_id id) ts ≡ some t =
        sym (ap (λ b. if b then some x else find (has_task_id id) ts) foreign) ∙ h in
      let ih = find-update_open id q f t ts opens keeps (rest, closed) in
      let still : has_task_id id (if q x then f x else x) ≡ false = elim (Bool-cases (q x)) [
        | inl touched ↦ rw touched (ap (λ n. n == id) (keeps x) ∙ foreign)
        | inr untouched ↦ rw untouched foreign
      ] in
      rw still ih
]

reported_id : (now : ℕ) (r : OtaResult) (t : OtaTask) → (reported_task now r t).id ≡ t.id
reported_id now r t = elim (Bool-cases r.is_good) [
  | inl good ↦ rw good refl
  | inr bad ↦ rw bad refl
]

result-HasEnded :
    (now id : ℕ) (r : OtaResult) (t : OtaTask) (ts : List OtaTask)
    → HasEnded id t ts
    → find (has_task_id id) (ota_on_node_result now r ts) ≡ some t
unfolding ota_on_node_result
result-HasEnded now id r t ts (h, closed) = elim (Bool-cases (is_empty r.request_id)) [
  | inl empty ↦ rw (ota_on_node_result, empty) h
  | inr given ↦
      rw (ota_on_node_result, given)
        (find-update_open id (is_open_request r.request_id) (reported_task now r) t ts
          (λ x q. ground (arith, q)) (reported_id now r) (h, closed))
]

new-HasEnded :
    (id : ℕ) (n t : OtaTask) (ts : List OtaTask)
    → find (has_task_id n.id) ts ≡ none
    → HasEnded id t ts
    → find (has_task_id id) (n ∷ ts) ≡ some t
new-HasEnded id n t ts fresh (h, closed) = elim (Bool-cases (has_task_id id n)) [
  | inr other_id ↦ rw other_id h
  | inl own ↦
      let n_id : n.id ≡ id = ground (arith, own) in
      let missing : find (has_task_id id) ts ≡ none =
        subst (λ j. find (has_task_id j) ts ≡ none) n_id fresh in
      absurd (ground (arith, ap is_some (sym missing ∙ h)))
]

Change-HasEnded :
    {a b : List OtaTask} (id : ℕ) (t : OtaTask)
    → Change a b
    → HasEnded id t a
    → find (has_task_id id) b ≡ some t
unfolding finish_ota_task
Change-HasEnded id t (same ts) (h, closed) = h
Change-HasEnded id t (finishes now j status stage reason ts is_end) (h, closed) =
    find-update_open id (is_open_id j) (finished_task now status stage reason) t ts
      (λ x q. ground (arith, q)) (λ x. refl) (h, closed)
Change-HasEnded id t (reports now r ts) (h, closed) = result-HasEnded now id r t ts (h, closed)
Change-HasEnded id t (chain c d) (h, closed) =
    Change-HasEnded id t d (Change-HasEnded id t c (h, closed), closed)

begin-tasks :
    (p : Pools) (live : Text → Option Text) (now : ℕ) (node req : Text) (i : OtaInput)
    (s : OtaState)
    → (begin_dispatch p live now node req i s).1.tasks ≡ s.tasks
unfolding begin_dispatch
begin-tasks p live now node req i s =
    elim (Option-cases (ota_check (trim_space node) (clean_input i) s.watch s.tasks)) [
      | inl passed ↦ rw (begin_dispatch, passed) refl
      | inr (e, found) ↦ rw (begin_dispatch, found) refl
    ]

step-HasEnded :
    {a b : OtaState} (id : ℕ) (t : OtaTask)
    → OtaStep a b
    → HasEnded id t a.tasks
    → find (has_task_id id) b.tasks ≡ some t
unfolding end_dispatch sent_task reconcile_round
step-HasEnded id t (begins p live now node req i s) (h, closed) =
    ap (find (has_task_id id)) (begin-tasks p live now node req i s) ∙ h
step-HasEnded id t (ends j after w stage failure before behind s fresh) (h, closed) =
    new-HasEnded id
      (sent_task j w.sent_at after w.node_id w.request_id w.from_version w.input stage failure) t
      s.tasks fresh (h, closed)
step-HasEnded id t (register now node version s) e =
    Change-HasEnded id t (registered-Change now node version s.tasks) e
step-HasEnded id t (report now r s) e = result-HasEnded now id r t s.tasks e
step-HasEnded id t (reconcile p live expired now s) e =
    Change-HasEnded id t (reconcile_all-Change p live expired now (open_tasks s.tasks) s) e
step-HasEnded id t (presence w s) (h, closed) = h

-- Once a task has succeeded or failed, its row stays as it is, whatever steps follow.
pub ended_stays :
    {a b : OtaState} (id : ℕ) (t : OtaTask)
    → OtaSteps a b
    → HasEnded id t a.tasks
    → find (has_task_id id) b.tasks ≡ some t
ended_stays id t none_yet (h, closed) = h
ended_stays id t (and_then steps step) (h, closed) =
    step-HasEnded id t step (ended_stays id t steps (h, closed), closed)
