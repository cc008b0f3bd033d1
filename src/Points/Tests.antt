-- ===== src/Points/Tests.antt =====
-- Runs of the points code on concrete data.
use ipw_boce.Calendar.{date_text}
use ipw_boce.Points.{
  PointOp, apply_points, balance_in, change_points, ensure_account, entry, is_covered,
  ledger_by_idem_key, left_by_duplicate, post, post_entry, record_entry,
}
use ipw_boce.Points.Api.{
  GrantInput, api_op, change_for, changed, points_change, prefixed, resolve_user,
}
use ipw_boce.Points.Checkin.{
  capped_extra, checkin_key, checkin_op, checkin_points, do_checkin, last_checkin, next_streak,
}
use ipw_boce.Points.Checkin.Laws.{do_checkin_once}
use ipw_boce.Points.Idempotence.{change_points_once, key_limit}
use ipw_boce.Points.Invariant.{IsConsistent, apply_points-IsConsistent}
use ipw_boce.Points.Outcome.{Covers, IsAccepted, apply_points-ok_iff}
use ipw_boce.Prelude.{
  Text, [], arith, codes, decimal, false, is_empty, length, refl, some, trim_space, true,
  truncate_str, ◌∷◌, ◌≡◌, ◌≤◌,
}
use ipw_boce.Prelude.Int.{negsuc, pos, wrap64, ℤ, ◌*ℤ◌, ◌+ℤ◌, ◌-ℤ◌}
use ipw_boce.Store.{
  Db, Kind, PointAccount, PointCheckin, PointLedger, PointsConfig, Role, User, checked_in,
  duplicate, err, kind_text, ok,
}

abbrev pub rules : PointsConfig
rules = record {
  enabled = true;
  checkin_enabled = true;
  checkin_base = pos 10;
  checkin_streak_bonus = pos 2;
  checkin_streak_max = pos 7;
  signup_bonus = pos 100;
  probe_cost = pos 3;
  donate_enabled = true;
  donate_bonus_idc = pos 500;
  donate_bonus_home = pos 800;
  donate_daily_idc = pos 20;
  donate_daily_home = pos 30;
  donate_min_seconds = pos 43200;
  donate_max_per_user = pos 1;
}

abbrev pub start : Db
start = record {
  next_id = 1;
  users = [];
  accounts = [];
  ledger = [];
  checkins = [];
  codes = [];
  uses = [];
  products = [];
  cards = [];
  orders = [];
  donations = [];
  node_defs = [];
}

pub start-IsConsistent : IsConsistent start
unfolding balance_in
start-IsConsistent = record {
  accounts_unique = tt;
  balanced = λ u. refl;
  nonneg = λ u. ground arith;
  snapshots = tt;
  keys_unique = tt;
}

abbrev pub give : PointOp
give = record {
  user_id = 7;
  delta = pos 50;
  kind = Kind.api_grant;
  ref_type = codes "api";
  ref_id = [];
  operator = [];
  idem_key = codes "k1";
}

abbrev pub account : ℤ → ℤ → ℤ → PointAccount
account b e s = record { user_id = 7; balance = b; total_earned = e; total_spent = s }

abbrev pub give_row : PointLedger
give_row = entry 1 give (account (pos 50) (pos 50) (pos 0))

abbrev pub funded : Db
funded = record start {
  next_id = 2;
  accounts = account (pos 50) (pos 50) (pos 0) ∷ [];
  ledger = give_row ∷ [];
}

pub give_runs : change_points give start ≡ (ok give_row, funded)
unfolding change_points apply_points post_entry record_entry ensure_account is_covered post ◌+ℤ◌
give_runs = refl

pub give_applies : apply_points give start ≡ ok (give_row, funded)
unfolding apply_points post_entry record_entry ensure_account is_covered post ◌+ℤ◌
give_applies = refl

pub funded-IsConsistent : IsConsistent funded
funded-IsConsistent =
    apply_points-IsConsistent give start start-IsConsistent (ground arith) give_applies

apply_points-IsConsistent_example : IsConsistent funded
apply_points-IsConsistent_example =
    apply_points-IsConsistent give start start-IsConsistent (ground arith) give_applies

change_points_once_example :
    (ledger_by_idem_key (codes "k1") funded ≡ some give_row)
    × (change_points give funded ≡ (err duplicate, funded))
change_points_once_example =
    change_points_once give give start funded give_row give_runs refl (ground arith) refl
      (ground arith) (ground arith)

apply_points-ok_iff_example : IsAccepted give start
apply_points-ok_iff_example =
    (apply_points-ok_iff give start start-IsConsistent (ground arith)).0
      (give_row, funded, give_applies)

abbrev take_away : PointOp
take_away = record give { delta = negsuc 79; kind = Kind.api_deduct; idem_key = codes "k2" }

take_away_uncovered : ¬ Covers take_away funded
unfolding balance_in ◌+ℤ◌
take_away_uncovered = ground arith

abbrev long_key : Text
long_key =
    codes
      "0123456789abcdef0123456789abcdef0123456789abcdef0123456789abcdef0123456789abcdef0123456789abcdef0123456789abcdef0123456789abcdef+"

abbrev long_give : PointOp
long_give = record give { idem_key = long_key }

abbrev long_row : PointLedger
long_row = entry 1 long_give (account (pos 50) (pos 50) (pos 0))

long_give_runs :
    change_points long_give start ≡ (ok long_row, record funded { ledger = long_row ∷ [] })
unfolding change_points apply_points post_entry record_entry ensure_account is_covered post ◌+ℤ◌
long_give_runs = refl

abbrev long_funded : Db
long_funded = record funded { ledger = long_row ∷ [] }

-- A repetition of the long key is refused by the index alone, after the update of the account.
long_give_repeats :
    (apply_points long_give long_funded ≡ err duplicate)
    × (balance_in 7 (left_by_duplicate long_give long_funded).accounts ≡ pos 100)
unfolding apply_points post_entry record_entry ensure_account is_covered post ◌+ℤ◌ balance_in
    left_by_duplicate truncate_str
long_give_repeats = (refl, refl)

-- A repetition of a short key is refused at once.
give_repeats : (apply_points give funded ≡ err duplicate) × (left_by_duplicate give funded ≡ funded)
unfolding apply_points left_by_duplicate truncate_str
give_repeats = (refl, refl)

abbrev day_one : PointCheckin
day_one = record { user_id = 7; day = 100; streak = 1; points = pos 10 }

abbrev day_two : PointCheckin
day_two = record { user_id = 7; day = 101; streak = 2; points = pos 12 }

abbrev row_one : PointLedger
row_one = entry 2 (checkin_op 7 100 (pos 10)) (account (pos 10) (pos 10) (pos 0))

abbrev row_two : PointLedger
row_two = entry 4 (checkin_op 7 101 (pos 12)) (account (pos 22) (pos 22) (pos 0))

abbrev after_one : Db
after_one = record start {
  next_id = 3;
  accounts = account (pos 10) (pos 10) (pos 0) ∷ [];
  ledger = row_one ∷ [];
  checkins = day_one ∷ [];
}

abbrev after_two : Db
after_two = record start {
  next_id = 5;
  accounts = account (pos 22) (pos 22) (pos 0) ∷ [];
  ledger = row_two ∷ row_one ∷ [];
  checkins = day_two ∷ day_one ∷ [];
}

checkin_one_runs : do_checkin rules 100 7 start ≡ (ok (day_one, row_one), after_one)
unfolding do_checkin apply_points last_checkin checkin_op checkin_points wrap64 ◌+ℤ◌ ◌*ℤ◌
    capped_extra ◌-ℤ◌ checkin_key ensure_account is_covered post
checkin_one_runs = refl

checkin_two_runs : do_checkin rules 101 7 after_one ≡ (ok (day_two, row_two), after_two)
unfolding do_checkin apply_points last_checkin checkin_op checkin_points wrap64 ◌+ℤ◌ ◌*ℤ◌
    capped_extra ◌-ℤ◌ checkin_key truncate_str decimal date_text ensure_account is_covered post
checkin_two_runs = refl

do_checkin_once_example : do_checkin rules 100 7 after_one ≡ (err checked_in, after_one)
do_checkin_once_example =
    do_checkin_once rules rules 100 7 start after_one day_one row_one checkin_one_runs refl refl

abbrev dull : PointsConfig
dull = record rules { checkin_base = pos 0 }

dull_award : checkin_points dull (next_streak 100 (last_checkin 7 start.checkins)) ≡ pos 0
unfolding checkin_points last_checkin capped_extra wrap64 ◌+ℤ◌ ◌*ℤ◌ ◌-ℤ◌
dull_award = refl

abbrev alice : User
alice = record {
  id = 7;
  username = codes "alice";
  password_hash = [];
  email = codes "a@b.c";
  role = Role.user;
  enabled = true;
  email_verified = true;
}

abbrev with_users : Db
with_users = record start { users = alice ∷ [] }

abbrev request : GrantInput
request = record {
  user_id = 0;
  username = codes " alice";
  email = [];
  delta = pos 50;
  points = pos 0;
}

abbrev api_row : PointLedger
api_row =
    entry 1 (api_op Kind.api_grant (pos 50) 7 [] (prefixed Kind.api_grant (codes "r1")))
      (account (pos 50) (pos 50) (pos 0))

abbrev granted : Db
granted = record with_users {
  next_id = 2;
  accounts = account (pos 50) (pos 50) (pos 0) ∷ [];
  ledger = api_row ∷ [];
}

grant_runs :
    points_change false Kind.api_grant request (codes "r1") [] with_users
    ≡ (changed false api_row (pos 50), granted)
unfolding points_change change_for change_points resolve_user trim_space api_op kind_text
    ensure_account is_covered post ◌+ℤ◌
grant_runs = refl

key_fits : length (prefixed Kind.api_grant (codes "r1")) ≤ key_limit
unfolding kind_text trim_space
key_fits = ground arith

key_given : is_empty (trim_space (codes "r1")) ≡ false
unfolding trim_space
key_given = refl
