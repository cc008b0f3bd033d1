-- ===== src/Points/Checkin/Laws.antt =====
-- At most one check-in a day, and what a check-in does.
use ipw_boce.Points.{apply_points, balance_of}
use ipw_boce.Points.Apply.{Applied, apply_points-Applied}
use ipw_boce.Points.Checkin.{
  checkin_body, checkin_op, checkin_points, checkin_row, do_checkin, is_on, last_checkin,
  next_streak, same_slot, with_row,
}
use ipw_boce.Points.Invariant.{Applied-IsConsistent, Applied-balance, IsConsistent}
use ipw_boce.Prelude.{
  All, Bool-cases, List, Option-cases, [], arith, find, if◌then◌else◌, inl, inr, none, not, some,
  suc, true, ℕ, ◌+◌, ◌==◌, ◌||◌, ◌∷◌, ◌≡◌, ◌≢◌, ◌≤◌,
}
use ipw_boce.Prelude.Int.{IsAmount, pos, ◌+ℤ◌}
use ipw_boce.Store.{
  Db, Error, PointCheckin, PointLedger, PointsConfig, Result, checked_in, err, ok, transaction-ok,
}

-- What holds when a check-in has succeeded, `l` being its ledger row.
pub record CheckedIn (cfg : PointsConfig) (today u : ℕ) (db : Db) (row : PointCheckin)
    (l : PointLedger) (db' : Db) : Type 0 where
  pub open_today : find (same_slot u today) db.checkins ≡ none
  pub row_lem : row ≡ checkin_row cfg today u (last_checkin u db.checkins)
  pub paid :
      Applied
        (checkin_op u today row.points)
        (record db { next_id = suc db.next_id; checkins = row ∷ db.checkins })
        l
        db'

paid-ok :
    (row : PointCheckin) (r : Result (PointLedger × Db)) {row' : PointCheckin} {l : PointLedger}
    {db' : Db}
    → with_row row r ≡ ok ((row', l), db')
    → (row' ≡ row) × (r ≡ ok (l, db'))
paid-ok row (ok (l', db'')) h = ground arith
paid-ok row (err Error.duplicate) h = (absurd (ground arith), absurd (ground arith))
paid-ok row (err e) h = (absurd (ground arith), absurd (ground arith))

checkin_body-pays :
    (cfg : PointsConfig) (today u : ℕ) (db : Db) {row : PointCheckin} {l : PointLedger} {db' : Db}
    → checkin_body cfg today u db ≡ ok ((row, l), db')
    → (find (same_slot u today) db.checkins ≡ none)
      × (row ≡ checkin_row cfg today u (last_checkin u db.checkins))
      × (apply_points
            (checkin_op u today row.points)
            (record db { next_id = suc db.next_id; checkins = row ∷ db.checkins })
          ≡ ok (l, db'))
unfolding checkin_body
checkin_body-pays cfg today u db {row} {l} {db'} h =
    elim (Bool-cases (is_on today (last_checkin u db.checkins))) [
      | inl done ↦ absurd (ground arith)
      | inr open_yet ↦ elim (Option-cases (find (same_slot u today) db.checkins)) [
        | inl free ↦
            let p =
              paid-ok (checkin_row cfg today u (last_checkin u db.checkins)) (apply_points _ _)
                (rw (open_yet, free) at h) in
            (free, p.0, rw p.0 p.1)
        | inr (c, e) ↦ absurd (ground arith)
      ]
    ]

checkin_body-CheckedIn :
    (cfg : PointsConfig) (today u : ℕ) (db : Db) {row : PointCheckin} {l : PointLedger} {db' : Db}
    → checkin_body cfg today u db ≡ ok ((row, l), db')
    → CheckedIn cfg today u db row l db'
checkin_body-CheckedIn cfg today u db h =
    let p = checkin_body-pays cfg today u db h in
    record { open_today = p.0; row_lem = p.1; paid = apply_points-Applied _ _ p.2 }

-- A user who has checked in on a day is refused on that day, and nothing changes.
pub do_checkin_again :
    (cfg : PointsConfig) (today u : ℕ) (db : Db) (c : PointCheckin)
    → find (same_slot u today) db.checkins ≡ some c
    → cfg.enabled ≡ true
    → cfg.checkin_enabled ≡ true
    → do_checkin cfg today u db ≡ (err checked_in, db)
unfolding do_checkin
do_checkin_again cfg today u db c h e e' = ground arith

pub do_checkin-CheckedIn :
    (cfg : PointsConfig) (today u : ℕ) (db db' : Db) (row : PointCheckin) (l : PointLedger)
    → do_checkin cfg today u db ≡ (ok (row, l), db')
    → CheckedIn cfg today u db row l db'
unfolding do_checkin
do_checkin-CheckedIn cfg today u db db' row l h =
    elim (Bool-cases (not cfg.enabled || not cfg.checkin_enabled)) [
      | inl off ↦ absurd (ground arith)
      | inr on ↦
          checkin_body-CheckedIn cfg today u db
            (transaction-ok db (checkin_body cfg today u db) (rw on at h))
    ]

same_slot_own :
    (today u : ℕ) (c : PointCheckin) → c.user_id ≡ u → c.day ≡ today → same_slot u today c ≡ true
same_slot_own today u c e e' = ground arith

-- After a check-in, a second one by the same user on the same day is refused, under any rules that
-- leave check-in open, and nothing changes.
pub do_checkin_once :
    (cfg cfg' : PointsConfig) (today u : ℕ) (db db' : Db) (row : PointCheckin) (l : PointLedger)
    → do_checkin cfg today u db ≡ (ok (row, l), db')
    → cfg'.enabled ≡ true
    → cfg'.checkin_enabled ≡ true
    → do_checkin cfg' today u db' ≡ (err checked_in, db')
do_checkin_once cfg cfg' today u db db' row l h e e' =
    let r = do_checkin-CheckedIn cfg today u db db' row l h in
    do_checkin_again cfg' today u db' row (ground (arith, r.row_lem, r.paid.result)) e e'

-- A check-in keeps the books consistent, and raises the user's balance, and no other, by the award,
-- if the award is an int64 above the least one.
pub do_checkin_pays :
    (cfg : PointsConfig) (today u : ℕ) (db db' : Db) (row : PointCheckin) (l : PointLedger)
    → IsConsistent db
    → do_checkin cfg today u db ≡ (ok (row, l), db')
    → IsAmount row.points
    → IsConsistent db'
      × ((w : ℕ)
          → balance_of w db' ≡ (if w == u then balance_of w db +ℤ row.points else balance_of w db))
unfolding balance_of checkin_op
do_checkin_pays cfg today u db db' row l v h d =
    let r = do_checkin-CheckedIn cfg today u db db' row l h in
    let mid : IsConsistent (record db { next_id = suc db.next_id; checkins = row ∷ db.checkins }) =
      record {
        accounts_unique = v.accounts_unique;
        balanced = v.balanced;
        nonneg = v.nonneg;
        snapshots = v.snapshots;
        keys_unique = v.keys_unique;
      } in
    (Applied-IsConsistent _ _ r.paid mid d, λ w. Applied-balance _ _ r.paid mid w)

-- An award of 0, which the rules allow, is refused by applyPoints: nobody can check in.
pub do_checkin_zero_award :
    (cfg : PointsConfig) (today u : ℕ) (db : Db)
    → checkin_points cfg (next_streak today (last_checkin u db.checkins)) ≡ pos 0
    → (r : PointCheckin × PointLedger) (db' : Db) → do_checkin cfg today u db ≢ (ok r, db')
unfolding checkin_op
do_checkin_zero_award cfg today u db z (row, l) db' h =
    let r = do_checkin-CheckedIn cfg today u db db' row l h in
    r.paid.amount (ground (arith, r.row_lem))

-- All days of the list come before a day, or are that day.
abbrev pub AllUpTo : ℕ → List PointCheckin → Type 0
AllUpTo today cs = All (λ c. c.day ≤ today) cs

last_checkin-le :
    (today u : ℕ) (cs : List PointCheckin) (c : PointCheckin)
    → AllUpTo today cs
    → last_checkin u cs ≡ some c
    → c.day ≤ today
unfolding last_checkin
last_checkin-le today u [] c before e = absurd (ground arith)
last_checkin-le today u (x ∷ cs) c before e = elim (Option-cases (last_checkin u cs)) [
  | inl unseen ↦ ground arith
  | inr (d, f) ↦ ground (arith, last_checkin-le today u cs d before.1 f)
]

-- The newest row is the last check-in, if no row is dated later.
last_checkin-newest :
    (today u : ℕ) (c : PointCheckin) (cs : List PointCheckin)
    → c.user_id ≡ u
    → c.day ≡ today
    → AllUpTo today cs
    → last_checkin u (c ∷ cs) ≡ some c
unfolding last_checkin
last_checkin-newest today u c cs own e before = elim (Option-cases (last_checkin u cs)) [
  | inl unseen ↦ ground arith
  | inr (d, f) ↦ ground (arith, last_checkin-le today u cs d before f)
]

-- The streak: a user who checks in on a day and on the next one has a streak that is longer by one,
-- if no check-in is dated later than the first of the two days.
pub do_checkin_streak :
    (cfg : PointsConfig) (today u : ℕ) (db db' db'' : Db) (row row' : PointCheckin)
    (l l' : PointLedger)
    → AllUpTo today db.checkins
    → do_checkin cfg today u db ≡ (ok (row, l), db')
    → do_checkin cfg (suc today) u db' ≡ (ok (row', l'), db'')
    → row'.streak ≡ row.streak + 1
do_checkin_streak cfg today u db db' db'' row row' l l' before h h' =
    let r = do_checkin-CheckedIn cfg today u db db' row l h in
    let r' = do_checkin-CheckedIn cfg (suc today) u db' db'' row' l' h' in
    let own : row.user_id ≡ u = ground (arith, r.row_lem) in
    let day : row.day ≡ today = ground (arith, r.row_lem) in
    let newest : last_checkin u db'.checkins ≡ some row =
      rw r.paid.result (last_checkin-newest today u row db.checkins own day before) in
    ground (arith, newest, r'.row_lem, day)
