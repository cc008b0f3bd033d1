-- ===== src/Store/Shop.antt =====
-- The rows of redeem codes and of the shop (shop_core.go).
use ipw_boce.Prelude.{ℕ, Bool, Option, Text}
use ipw_boce.Prelude.Int.{ℤ}

pub record RedeemCode : Type 0 where
  pub id : ℕ
  pub code : Text
  pub points : ℤ
  pub max_uses : ℤ
  pub used_count : ℤ
  pub expires_at : Option ℕ
  pub enabled : Bool

pub record RedeemCodeUse : Type 0 where
  pub code_id : ℕ
  pub user_id : ℕ
  pub points : ℤ

pub data Delivery : Type 0 where
  cdk webhook manual : Delivery

pub record Product : Type 0 where
  pub id : ℕ
  pub name : Text
  pub price : ℤ
  pub delivery : Delivery
  pub stock : ℤ
  pub per_user_limit : ℤ
  pub sold : ℤ
  pub enabled : Bool
  pub delivery_url : Text

pub record ProductCard : Type 0 where
  pub id : ℕ
  pub product_id : ℕ
  pub order_id : ℕ
  pub content : Text

pub data Status : Type 0 where
  pending processing delivered failed canceled : Status

pub record ShopOrder : Type 0 where
  pub id : ℕ
  pub order_no : Text
  pub user_id : ℕ
  pub product_id : ℕ
  pub delivery : Delivery
  pub quantity : ℕ
  pub unit_price : ℤ
  pub total_points : ℤ
  pub status : Status
  pub content : Text
  pub last_error : Text
  pub admin_remark : Text
  pub delivered_at : Option ℕ
