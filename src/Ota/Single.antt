-- ===== src/Ota/Single.antt =====
-- A node has one open update task at most, when no two requests for it overlap.
use ipw_boce.NodePool.{Pools}
use ipw_boce.Ota.{
  OtaInput, OtaResult, OtaState, OtaTask, OtaWaiting, finish_ota_task, finished_task, is_open_id,
  is_open_of, is_open_request, open_tasks, ota_on_node_result, ota_task_in_flight, reconcile_round,
  reported_task,
}
use ipw_boce.Ota.Changes.{
  Change, OtaStep, OtaSteps, and_then, begins, chain, check_passed, ends, finishes, none_yet,
  presence, reconcile, reconcile_all-Change, reconcile_all-waiting, register, registered-Change,
  report, reports, same,
}
use ipw_boce.Ota.Dispatch.{begin_dispatch, clean_input, end_dispatch, ota_check, sent_task}
use ipw_boce.Prelude.{
  Bool, Bool-cases, List, Option, Option-cases, Text, [], ap, arith, count, false, inl, inr,
  is_empty, subst, text_eq, text_eq_iff, trim_space, true, update, ℕ, ◌++◌, ◌+◌, ◌∷◌, ◌≡◌, ◌≤◌,
}
use ipw_boce.Uptime.{before}

abbrev pub IsSingle : List OtaTask → Type 0
IsSingle ts = (node : Text) → count (is_open_of node) ts ≤ 1

abbrev pub waits_for : Text → OtaWaiting → Bool
waits_for node w = text_eq w.node_id node

count-update_le :
    (p q : OtaTask → Bool) (f : OtaTask → OtaTask) (ts : List OtaTask)
    → ((x : OtaTask) → p (f x) ≡ true → p x ≡ true)
    → count p (update q f ts) ≤ count p ts
count-update_le p q f [] keeps = omega arith
count-update_le p q f (x ∷ ts) keeps = ground (arith, count-update_le p q f ts keeps, keeps x)

count-append :
    (p : OtaWaiting → Bool) (xs ys : List OtaWaiting) → count p (xs ++ ys) ≡ count p xs + count p ys
count-append p [] ys = omega arith
count-append p (x ∷ xs) ys = ground (arith, count-append p xs ys)

reported_open :
    (now : ℕ) (r : OtaResult) (node : Text) (t : OtaTask)
    → is_open_of node (reported_task now r t) ≡ true
    → is_open_of node t ≡ true
reported_open now r node t = elim (Bool-cases r.is_good) [
  | inl good ↦ rw good (λ h. h)
  | inr bad ↦ rw bad (λ h. absurd (ground (arith, h)))
]

-- Finishing and reporting open no task.
open-Change :
    {a b : List OtaTask} (node : Text)
    → Change a b
    → count (is_open_of node) b ≤ count (is_open_of node) a
unfolding finish_ota_task ota_on_node_result
open-Change node (same ts) = omega arith
open-Change node (finishes now id status stage reason ts is_end) =
    count-update_le (is_open_of node) (is_open_id id) (finished_task now status stage reason) ts
      (λ x yes. absurd (ground (arith, yes, is_end)))
open-Change node (reports now r ts) = elim (Bool-cases (is_empty r.request_id)) [
  | inl empty ↦ rw (ota_on_node_result, empty) (omega arith)
  | inr given ↦
      rw (ota_on_node_result, given)
        (count-update_le (is_open_of node) (is_open_request r.request_id) (reported_task now r) ts
          (reported_open now r node))
]
open-Change node (chain c d) = omega (arith, open-Change node c, open-Change node d)

-- The open tasks of a node, and the requests for it that wait.
abbrev taken : Text → OtaState → ℕ
taken node s = count (is_open_of node) s.tasks + count (waits_for node) s.waiting

-- A request begins only when none for its node waits.
abbrev pub IsAlone : {a b : OtaState} → OtaStep a b → Type 0
IsAlone (begins p live now node req i s) = count (waits_for (trim_space node)) s.waiting ≡ 0
IsAlone (ends id after w stage failure before behind s fresh) = Unit {0}
IsAlone (register now node version s) = Unit {0}
IsAlone (report now r s) = Unit {0}
IsAlone (reconcile p live expired now s) = Unit {0}
IsAlone (presence w s) = Unit {0}

abbrev pub AreAlone : {a b : OtaState} → OtaSteps a b → Type 0
AreAlone none_yet = Unit {0}
AreAlone (and_then steps step) = AreAlone steps × IsAlone step

none_open :
    (node : Text) (ts : List OtaTask)
    → ota_task_in_flight node ts ≡ false
    → count (is_open_of node) ts ≡ 0
unfolding ota_task_in_flight
none_open node ts free = ground (arith, free)

begin_taken :
    (p : Pools) (live : Text → Option Text) (now : ℕ) (node req : Text) (i : OtaInput)
    (s : OtaState)
    → count (waits_for (trim_space node)) s.waiting ≡ 0
    → ((n : Text) → taken n s ≤ 1)
    → (n : Text) → taken n (begin_dispatch p live now node req i s).1 ≤ 1
unfolding begin_dispatch
begin_taken p live now node req i s alone h n =
    elim (Option-cases (ota_check (trim_space node) (clean_input i) s.watch s.tasks)) [
      | inr (e, found) ↦ rw (begin_dispatch, found) (h n)
      | inl passed ↦ elim (Bool-cases (text_eq (trim_space node) n)) [
        | inr foreign ↦ rw (begin_dispatch, passed, foreign) (h n)
        | inl own ↦
            let at_node = (text_eq_iff (trim_space node) n).0 own in
            let none_here =
              subst (λ x. count (is_open_of x) s.tasks ≡ 0) at_node
                (none_open (trim_space node) s.tasks
                  (check_passed (trim_space node) (clean_input i) s.watch s.tasks passed)) in
            let none_waits = subst (λ x. count (waits_for x) s.waiting ≡ 0) at_node alone in
            rw (begin_dispatch, passed, own) (omega (arith, none_here, none_waits))
      ]
    ]

end_taken :
    (id after : ℕ) (w : OtaWaiting) (stage : Text) (failure : Option Text)
    (before behind : List OtaWaiting) (s : OtaState) (n : Text)
    → taken n (end_dispatch id after w stage failure (record s { waiting = before ++ behind })).1
      ≤ taken n (record s { waiting = before ++ (w ∷ behind) })
unfolding end_dispatch sent_task
end_taken id after w stage failure before behind s n = ground (
  arith,
  count-append (waits_for n) before behind,
  count-append (waits_for n) before (w ∷ behind),
)

step_taken :
    {a b : OtaState} (st : OtaStep a b)
    → IsAlone st
    → ((n : Text) → taken n a ≤ 1)
    → (n : Text) → taken n b ≤ 1
unfolding reconcile_round
step_taken (begins p live now node req i s) alone h n =
    begin_taken p live now node req i s alone h n
step_taken (ends id after w stage failure before behind s fresh) alone h n =
    omega (arith, h n, end_taken id after w stage failure before behind s n)
step_taken (register now node version s) alone h n =
    omega (arith, h n, open-Change n (registered-Change now node version s.tasks))
step_taken (report now r s) alone h n = omega (arith, h n, open-Change n (reports now r s.tasks))
step_taken (reconcile p live expired now s) alone h n =
    let looked = open_tasks s.tasks in
    omega (
      arith,
      h n,
      open-Change n (reconcile_all-Change p live expired now looked s),
      ap (count (waits_for n)) (reconcile_all-waiting p live expired now looked s),
    )
step_taken (presence w s) alone h n = h n

steps_taken :
    {a b : OtaState} (steps : OtaSteps a b)
    → AreAlone steps
    → ((n : Text) → taken n a ≤ 1)
    → (n : Text) → taken n b ≤ 1
steps_taken none_yet alone h = h
steps_taken (and_then steps step) (alones, alone) h =
    step_taken step alone (steps_taken steps alones h)

-- No node has two open tasks, if none has at the start, no request waits at the start, and no request
-- for a node is checked while another one for it waits for the node; whatever else happens between the
-- check of a request and the insert of its row.
pub OtaSteps-IsSingle :
    {a b : OtaState} (steps : OtaSteps a b)
    → AreAlone steps
    → a.waiting ≡ []
    → IsSingle a.tasks
    → IsSingle b.tasks
OtaSteps-IsSingle steps alones idle_start h n = omega (
  arith,
  steps_taken steps alones (λ m. omega (arith, h m, ap (count (waits_for m)) idle_start)) n,
)
