-- ===== src/Store/Points.antt =====
-- The rows and the rules of the points system (points_core.go).
use ipw_boce.Prelude.{ℕ, Bool, Option, Text, codes}
use ipw_boce.Prelude.Int.{ℤ}

pub record PointAccount : Type 0 where
  pub user_id : ℕ
  pub balance : ℤ
  pub total_earned : ℤ
  pub total_spent : ℤ

pub data Kind : Type 0 where
  checkin signup redeem_code admin api_grant api_deduct : Kind
  order refund probe probe_back donate donate_day : Kind

-- The text that the `kind` column holds.
unfoldable pub kind_text : Kind → Text
kind_text Kind.checkin = codes "checkin"
kind_text Kind.signup = codes "signup"
kind_text Kind.redeem_code = codes "redeem_code"
kind_text Kind.admin = codes "admin"
kind_text Kind.api_grant = codes "api_grant"
kind_text Kind.api_deduct = codes "api_deduct"
kind_text Kind.order = codes "order"
kind_text Kind.refund = codes "refund"
kind_text Kind.probe = codes "probe"
kind_text Kind.probe_back = codes "probe_back"
kind_text Kind.donate = codes "donate"
kind_text Kind.donate_day = codes "donate_day"

-- The remark, which is text for people to read, is left out.
pub record PointLedger : Type 0 where
  pub id : ℕ
  pub user_id : ℕ
  pub delta : ℤ
  pub balance_after : ℤ
  pub kind : Kind
  pub ref_type : Text
  pub ref_id : Text
  pub operator : Text
  pub idem_key : Option Text

-- `day` is the number of the local calendar day, whose text is the column `day`.
pub record PointCheckin : Type 0 where
  pub user_id : ℕ
  pub day : ℕ
  pub streak : ℕ
  pub points : ℤ

-- `donate_min_seconds` is the whole number of seconds in `donateMinOnlineHours`.
pub record PointsConfig : Type 0 where
  pub enabled : Bool
  pub checkin_enabled : Bool
  pub checkin_base : ℤ
  pub checkin_streak_bonus : ℤ
  pub checkin_streak_max : ℤ
  pub signup_bonus : ℤ
  pub probe_cost : ℤ
  pub donate_enabled : Bool
  pub donate_bonus_idc : ℤ
  pub donate_bonus_home : ℤ
  pub donate_daily_idc : ℤ
  pub donate_daily_home : ℤ
  pub donate_min_seconds : ℤ
  pub donate_max_per_user : ℤ
