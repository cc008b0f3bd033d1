-- ===== src/Points/Probe.antt =====
-- The cost of a manual probe and its refund, and the bonus for a new account (points_core.go).
pub mod Laws
use ipw_boce.Points.{PointOp, change_points}
use ipw_boce.Prelude.{
  Bool, Option, Text, [], codes, decimal, false, find, if◌then◌else◌, none, not, some, true, ℕ,
  ◌&&◌, ◌++◌, ◌==◌, ◌||◌,
}
use ipw_boce.Prelude.Int.{leb_ℤ, neg64, pos, ℤ}
use ipw_boce.Store.{Db, Error, Kind, PointLedger, PointsConfig, Result, Role, User, err, ok}

-- userByID (users.go)
unfoldable pub user_by_id : ℕ → Db → Option User
user_by_id u db = find (λ x. (x.id == u) && not (x.id == 0)) db.users

abbrev pub plain_op : ℕ → ℤ → Kind → Text → PointOp
plain_op u delta kind key = record {
  user_id = u;
  delta = delta;
  kind = kind;
  ref_type = [];
  ref_id = [];
  operator = [];
  idem_key = key;
}

abbrev pub is_admin : Role → Bool
is_admin Role.admin = true
is_admin Role.user = false

-- The user pays, unless there is no such user or it is an administrator.
abbrev pub pays : Option User → Bool
pays none = false
pays (some x) = not (is_admin x.role)

abbrev charged : ℤ → Result PointLedger × Db → (ℤ × Option Error) × Db
charged cost (ok l, db) = ((cost, none), db)
charged cost (err e, db) = ((pos 0, some e), db)

-- chargeProbeCost: the amount that was taken, and the reason of a refusal.
unfoldable pub charge_probe_cost : PointsConfig → ℕ → Db → (ℤ × Option Error) × Db
charge_probe_cost cfg u db =
    if not cfg.enabled || leb_ℤ cfg.probe_cost (pos 0) || u == 0
    then ((pos 0, none), db)
    else if pays (user_by_id u db)
    then charged cfg.probe_cost (change_points (plain_op u (neg64 cfg.probe_cost) Kind.probe []) db)
    else ((pos 0, none), db)

-- refundProbeCost
unfoldable pub refund_probe_cost : ℕ → ℤ → Db → Db
refund_probe_cost u cost db =
    if leb_ℤ cost (pos 0) then db else (change_points (plain_op u cost Kind.probe_back []) db).1

abbrev pub signup_key : ℕ → Text
signup_key u = codes "signup:" ++ decimal u

-- grantSignupBonus, whose errors are only logged.
unfoldable pub grant_signup_bonus : PointsConfig → ℕ → Db → Db
grant_signup_bonus cfg u db =
    if not cfg.enabled || leb_ℤ cfg.signup_bonus (pos 0)
    then db
    else (change_points (plain_op u cfg.signup_bonus Kind.signup (signup_key u)) db).1
