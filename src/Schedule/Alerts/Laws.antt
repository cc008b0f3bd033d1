-- ===== src/Schedule/Alerts/Laws.antt =====
-- How often an outage is told.
use ipw_boce.Points.Probe.{user_by_id}
use ipw_boce.Prelude.{
  All, Bool, Bool-cases, List, Option, [], ap, arith, count, false, if◌then◌else◌, inl, inr,
  is_some, leb, length, none, not, refl, some, subst, suc, sym, true, ℕ, ◌&&◌, ◌+◌, ◌==◌, ◌||◌, ◌∙◌,
  ◌∷◌, ◌≡◌, ◌≤◌,
}
use ipw_boce.Prelude.Int.{leb_ℤ, pos}
use ipw_boce.Schedule.{Task, mem_id}
use ipw_boce.Schedule.Alerts.{
  Alert, AlertConf, AlertState, any_up, any_valid, drop_streak, note_down, note_round_outcome,
  rounds_down, sent_to_owner, sla_down, to_owner,
}
use ipw_boce.Sla.{SampleEval, reached}
use ipw_boce.Store.{Db, User}

-- The alerts of a sequence of rounds, oldest first, each with the users of its time, and the state
-- after them.
unfoldable pub note_rounds :
    AlertConf → Task → List (Db × List SampleEval) → AlertState → List (Option Alert) × AlertState
unfolding note_round_outcome
note_rounds conf t [] a = ([], a)
note_rounds conf t ((db, r) ∷ rs) a =
    let (alert, a') = note_round_outcome conf t db r a in
    let (alerts, end) = note_rounds conf t rs a' in (alert ∷ alerts, end)

abbrev pub is_down_alert : Option Alert → Bool
is_down_alert (some sla_down) = true
is_down_alert x = false

-- A round in which some sample counts and none is up.
abbrev pub IsOutage : List SampleEval → Type 0
IsOutage r = (any_valid r ≡ true) × (any_up r ≡ false)

-- A round of an outage in which the owner of the task is found among the users.
abbrev pub IsSeen : Task → Db × List SampleEval → Type 0
IsSeen t (db, r) = (is_some (user_by_id t.owner_id db) ≡ true) × IsOutage r

-- The alerts of the task reach somebody, from the threshold `suc k` on.
abbrev pub Reaches : AlertConf → Task → ℕ → Type 0
Reaches conf t k =
    (conf.enabled ≡ true) × ((t.owner_id == 0) ≡ false) × (conf.down_threshold ≡ pos (suc k))

rounds_down-note : (id n : ℕ) (ss : List (ℕ × ℕ)) → rounds_down id ((id, n) ∷ ss) ≡ n
unfolding rounds_down
rounds_down-note id n ss = ground arith

mem_id-head : (id : ℕ) (xs : List ℕ) → mem_id id (id ∷ xs) ≡ true
unfolding mem_id
mem_id-head id xs = ground arith

outage_noted :
    (conf : AlertConf) (t : Task) (db : Db) (r : List SampleEval) (a : AlertState)
    → IsOutage r
    → note_round_outcome conf t db r a
      ≡ to_owner conf t (user_by_id t.owner_id db) (note_down conf t a)
unfolding note_round_outcome
outage_noted conf t db r a (valid, none_up) = rw (note_round_outcome, valid) (rw none_up refl)

sent_to_owner_lem :
    (conf : AlertConf) (t : Task) (k : ℕ) (owner : Option User) (x : Option Alert)
    → Reaches conf t k
    → is_some owner ≡ true
    → sent_to_owner conf t owner x ≡ x
sent_to_owner_lem conf t k owner x (on, has_owner, limit) known = rw (on, has_owner, known) refl

abbrev next_streak_of : Task → AlertState → ℕ
next_streak_of t a = suc (rounds_down t.id a.streaks)

-- Whether a round of an outage is told.
abbrev fires : ℕ → Task → AlertState → Bool
fires k t a = leb (suc k) (next_streak_of t a) && not (mem_id t.id a.fired)

fires_lem :
    (conf : AlertConf) (t : Task) (k : ℕ) (a : AlertState)
    → Reaches conf t k
    → leb_ℤ conf.down_threshold (pos (next_streak_of t a)) && not (mem_id t.id a.fired)
      ≡ fires k t a
fires_lem conf t k a (on, owner, limit) =
    ap (λ d. leb_ℤ d (pos (next_streak_of t a)) && not (mem_id t.id a.fired)) limit ∙ ground arith

-- The parts of the outcome of one round of an outage.
abbrev Noted : ℕ → Task → AlertState → Option Alert × AlertState → Type 0
Noted k t a (alert, a') =
    (is_down_alert alert ≡ fires k t a)
    × (rounds_down t.id a'.streaks ≡ next_streak_of t a)
    × (mem_id t.id a'.fired ≡ (fires k t a || mem_id t.id a.fired))

note_down-Noted :
    (conf : AlertConf) (t : Task) (k : ℕ) (owner : Option User) (a : AlertState)
    → Reaches conf t k
    → is_some owner ≡ true
    → Noted k t a (to_owner conf t owner (note_down conf t a))
unfolding note_down
note_down-Noted conf t k owner a reaches known =
    let told = sent_to_owner_lem conf t k owner (some sla_down) reaches known in
    let untold = sent_to_owner_lem conf t k owner none reaches known in
    let test = fires_lem conf t k a reaches in
    let head = rounds_down-note t.id (next_streak_of t a) (drop_streak t.id a.streaks) in
    elim (Bool-cases (fires k t a)) [
      | inl yes_fires ↦
          rw (note_down, test ∙ yes_fires, told)
            (
              sym yes_fires,
              head,
              mem_id-head t.id a.fired ∙ sym (ap (λ b. b || mem_id t.id a.fired) yes_fires),
            )
      | inr no_fires ↦
          rw (note_down, test ∙ no_fires, untold)
            (sym no_fires, head, sym (ap (λ b. b || mem_id t.id a.fired) no_fires))
    ]

outage_round :
    (conf : AlertConf) (t : Task) (k : ℕ) (db : Db) (r : List SampleEval) (a : AlertState)
    → Reaches conf t k
    → IsSeen t (db, r)
    → Noted k t a (note_round_outcome conf t db r a)
outage_round conf t k db r a reaches (known, outage) =
    subst (Noted k t a) (sym (outage_noted conf t db r a outage))
      (note_down-Noted conf t k (user_by_id t.owner_id db) a reaches known)

-- An outage that was told is not told again.
told_once :
    (conf : AlertConf) (t : Task) (k : ℕ) (rs : List (Db × List SampleEval)) (a : AlertState)
    → Reaches conf t k
    → All (IsSeen t) rs
    → mem_id t.id a.fired ≡ true
    → count is_down_alert (note_rounds conf t rs a).0 ≡ 0
unfolding note_rounds
told_once conf t k [] a c o f = refl
told_once conf t k ((db, r) ∷ rs) a c (o, os) f =
    let (alert, streak, fired) = outage_round conf t k db r a c o in
    let rest =
      told_once conf t k rs (note_round_outcome conf t db r a).1 c os (ground (arith, fired, f)) in
    ground (arith, rest, alert, f)

-- In an outage of any number of rounds, each with a sample that counts and none that is up, the owner
-- is told once if the outage lasts for the threshold and not at all if it is shorter, from a state in
-- which no outage of the task has been told and the streak is below the threshold, if alerts are on,
-- the threshold is at least 1, the task has an owner, and the owner is found among the users in every
-- round.
pub outage_told_once :
    (conf : AlertConf) (t : Task) (k : ℕ) (rs : List (Db × List SampleEval)) (a : AlertState)
    → Reaches conf t k
    → All (IsSeen t) rs
    → mem_id t.id a.fired ≡ false
    → rounds_down t.id a.streaks ≤ k
    → count is_down_alert (note_rounds conf t rs a).0
      ≡ (if leb (suc k) (rounds_down t.id a.streaks + length rs) then 1 else 0)
unfolding note_rounds
outage_told_once conf t k [] a c o f s = ground arith
outage_told_once conf t k ((db, r) ∷ rs) a c (o, os) f s =
    let (alert, streak, fired) = outage_round conf t k db r a c o in
    let a' = (note_round_outcome conf t db r a).1 in
    elim (Bool-cases (leb (suc k) (next_streak_of t a))) [
      | inl reached ↦
          let rest = told_once conf t k rs a' c os (ground (arith, fired, f)) in
          ground (arith, rest, alert, f, reached)
      | inr short ↦
          let rest =
            outage_told_once conf t k rs a' c os (ground (arith, fired, f))
              (ground (arith, streak)) in
          ground (arith, rest, alert, streak, f, short)
    ]
