-- ===== src/Points/Checkin.antt =====
-- The daily check-in (points_core.go).
pub mod Laws
pub mod Award
use ipw_boce.Calendar.{date_text}
use ipw_boce.Points.{PointOp, apply_points}
use ipw_boce.Prelude.{
  Bool, List, Option, Text, [], codes, decimal, false, find, if◌then◌else◌, is_some, ltb, none, not,
  some, suc, true, ℕ, ◌&&◌, ◌++◌, ◌+◌, ◌==◌, ◌||◌, ◌∷◌,
}
use ipw_boce.Prelude.Int.{ltb_ℤ, pos, wrap64, ℤ, ◌*ℤ◌, ◌+ℤ◌, ◌-ℤ◌}
use ipw_boce.Store.{
  Db, Error, Kind, PointCheckin, PointLedger, PointsConfig, Result, checked_in, checkin_closed,
  duplicate, err, ok, transaction,
}

-- checkinPoints: the award for the streak's day, with the arithmetic of int64. The number of extra
-- days is small, so only the product and the sum wrap.
unfoldable pub capped_extra : PointsConfig → ℕ → ℤ
capped_extra cfg streak =
    let extra = pos streak -ℤ pos 1 in
    let top = cfg.checkin_streak_max -ℤ pos 1 in
    let capped = if ltb_ℤ (pos 0) cfg.checkin_streak_max && ltb_ℤ top extra then top else extra in
    if ltb_ℤ capped (pos 0) then pos 0 else capped

unfoldable pub checkin_points : PointsConfig → ℕ → ℤ
checkin_points cfg streak =
    wrap64 (cfg.checkin_base +ℤ wrap64 (capped_extra cfg streak *ℤ cfg.checkin_streak_bonus))

abbrev pub later : PointCheckin → Option PointCheckin → PointCheckin
later c none = c
later c (some d) = if ltb c.day d.day then d else c

-- `ORDER BY day DESC LIMIT 1`
unfoldable pub last_checkin : ℕ → List PointCheckin → Option PointCheckin
last_checkin u [] = none
last_checkin u (c ∷ cs) =
    let rest = last_checkin u cs in if c.user_id == u then some (later c rest) else rest

abbrev pub is_on : ℕ → Option PointCheckin → Bool
is_on today none = false
is_on today (some c) = c.day == today

abbrev pub is_on_eve : ℕ → Option PointCheckin → Bool
is_on_eve today none = false
is_on_eve today (some c) = suc c.day == today

abbrev pub streak_of : Option PointCheckin → ℕ
streak_of none = 0
streak_of (some c) = c.streak

-- checkinState: whether today is done, the streak, and the next award.
unfoldable pub checkin_state : PointsConfig → ℕ → ℕ → Db → Bool × ℕ × ℤ
checkin_state cfg today u db =
    let last = last_checkin u db.checkins in
    if is_on today last
    then (true, streak_of last, checkin_points cfg (streak_of last + 1))
    else if is_on_eve today last
    then (false, streak_of last, checkin_points cfg (streak_of last + 1))
    else (false, 0, checkin_points cfg 1)

-- The streak that a check-in of today has.
abbrev pub next_streak : ℕ → Option PointCheckin → ℕ
next_streak today last = if is_on_eve today last then streak_of last + 1 else 1

abbrev pub same_slot : ℕ → ℕ → PointCheckin → Bool
same_slot u today c = (c.user_id == u) && (c.day == today)

unfoldable pub checkin_key : ℕ → ℕ → Text
checkin_key u today = codes "checkin:" ++ decimal u ++ (b':' ∷ date_text today)

unfoldable pub checkin_op : ℕ → ℕ → ℤ → PointOp
checkin_op u today points = record {
  user_id = u;
  delta = points;
  kind = Kind.checkin;
  ref_type = codes "checkin";
  ref_id = date_text today;
  operator = [];
  idem_key = checkin_key u today;
}

-- The result of the check-in, in which a taken idempotency key counts as checked in.
abbrev pub with_row :
    PointCheckin → Result (PointLedger × Db) → Result ((PointCheckin × PointLedger) × Db)
with_row row (ok (l, db)) = ok ((row, l), db)
with_row row (err Error.duplicate) = err checked_in
with_row row (err e) = err e

abbrev pub checkin_row : PointsConfig → ℕ → ℕ → Option PointCheckin → PointCheckin
checkin_row cfg today u last = record {
  user_id = u;
  day = today;
  streak = next_streak today last;
  points = checkin_points cfg (next_streak today last);
}

-- The body of the transaction of doCheckin; the unique index on user and day is the second guard.
unfoldable pub checkin_body : PointsConfig → ℕ → ℕ → Db → Result ((PointCheckin × PointLedger) × Db)
checkin_body cfg today u db =
    let last = last_checkin u db.checkins in
    let row = checkin_row cfg today u last in
    if is_on today last
    then err checked_in
    else if is_some (find (same_slot u today) db.checkins)
    then err checked_in
    else with_row row (
        apply_points (checkin_op u today row.points)
          (record db { next_id = suc db.next_id; checkins = row ∷ db.checkins }))

-- doCheckin
unfoldable pub do_checkin : PointsConfig → ℕ → ℕ → Db → Result (PointCheckin × PointLedger) × Db
unfolding checkin_body
do_checkin cfg today u db =
    if not cfg.enabled || not cfg.checkin_enabled
    then (err checkin_closed, db)
    else transaction db (checkin_body cfg today u db)
