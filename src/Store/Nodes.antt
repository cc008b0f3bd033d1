-- ===== src/Store/Nodes.antt =====
-- The rows of users, donated nodes and the node pool (users.go, donate.go, db.go).
use ipw_boce.Prelude.{ℕ, Bool, Option, Text}
use ipw_boce.Prelude.Int.{ℤ}

pub data Role : Type 0 where
  admin user : Role

pub record User : Type 0 where
  pub id : ℕ
  pub username : Text
  pub password_hash : Text
  pub email : Text
  pub role : Role
  pub enabled : Bool
  pub email_verified : Bool

pub data NetType : Type 0 where
  idc home : NetType

pub data DonationStatus : Type 0 where
  pending approved rejected disabled withdrawn : DonationStatus

pub record NodeDonation : Type 0 where
  pub id : ℕ
  pub user_id : ℕ
  pub node_id : Text
  pub label : Text
  pub net_type : NetType
  pub stack : Text
  pub is_ws : Bool
  pub url : Text
  pub ws_key : Text
  pub api_key : Text
  pub status : DonationStatus
  pub review_note : Text
  pub reviewed_by : Text
  pub reviewed_at : Option ℕ
  pub bonus_paid : ℤ
  pub daily_earned : ℤ
  pub reward_days : ℕ
  pub last_settled : Option ℕ

pub record NodeDef : Type 0 where
  pub id : ℕ
  pub node_id : Text
  pub label : Text
  pub ws : Bool
  pub url : Text
  pub pool : Text
  pub stack : Text
  pub enabled : Bool
  pub sort_order : ℤ
  pub ws_key : Text
  pub api_key : Text
  pub donation_id : ℕ
  pub owner_id : ℕ
  pub net_type : Text

-- A node as it was last seen (db.go), with the instants in nanoseconds.
pub record NodeRow : Type 0 where
  pub id : ℕ
  pub node_id : Text
  pub label : Text
  pub online : Bool
  pub remote_addr : Text
  pub version : Text
  pub capabilities : Text
  pub first_seen_at : ℕ
  pub last_seen_at : ℕ
