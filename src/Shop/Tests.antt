-- ===== src/Shop/Tests.antt =====
-- Runs of the shop's code on concrete data.
use ipw_boce.Points.{apply_points, balance_of, ensure_account, entry, is_covered, post}
use ipw_boce.Points.Invariant.{IsConsistent, same_books}
use ipw_boce.Points.Tests.{account, funded, funded-IsConsistent, give_row, rules, start}
use ipw_boce.Prelude.{
  Text, [], arith, codes, count, find, if◌then◌else◌, none, refl, some, to_upper, trim_space, true,
  ℕ, ◌*◌, ◌++◌, ◌==◌, ◌∷◌, ◌≡◌, ◌≢◌,
}
use ipw_boce.Prelude.Int.{neg64, pos, wrap64, ◌*ℤ◌, ◌+ℤ◌, ◌-ℤ◌, ◌≤ℤ◌}
use ipw_boce.Shop.Orders.{
  OrderInput, bought, by_product, candidates, clamp_quantity, join_lines, new_order, order_body,
  order_op, order_product, order_total, pick_cards, place_order, reserve, settle_order,
}
use ipw_boce.Shop.Orders.Payment.{place_order_pays}
use ipw_boce.Shop.Orders.Stock.{held_by, place_order_cards, place_order_stock}
use ipw_boce.Shop.Redeem.{normalize_code, redeem_body, redeem_code, redeem_found, redeem_op}
use ipw_boce.Shop.Redeem.Capacity.{CodesCapped, redeem_code-CodesCapped}
use ipw_boce.Shop.Redeem.Laws.{redeem_code_once}
use ipw_boce.Store.{
  Db, Delivery, PointLedger, Product, ProductCard, RedeemCode, ShopOrder, Status, ok,
}

abbrev voucher : RedeemCode
voucher = record {
  id = 40;
  code = codes "GIFT-1";
  points = pos 25;
  max_uses = pos 2;
  used_count = pos 0;
  expires_at = none;
  enabled = true;
}

abbrev with_voucher : Db
with_voucher = record start { codes = voucher ∷ [] }

abbrev voucher_row : PointLedger
voucher_row = entry 2 (redeem_op 7 voucher) (account (pos 25) (pos 25) (pos 0))

abbrev redeemed : Db
redeemed = record start {
  next_id = 3;
  accounts = account (pos 25) (pos 25) (pos 0) ∷ [];
  ledger = voucher_row ∷ [];
  codes = record voucher { used_count = pos 1 } ∷ [];
  uses = record { code_id = 40; user_id = 7; points = pos 25 } ∷ [];
}

redeem_runs :
    redeem_code rules 9 7 (codes " gift-1") with_voucher ≡ (ok (voucher, voucher_row), redeemed)
unfolding redeem_code redeem_body redeem_found normalize_code to_upper trim_space apply_points
    redeem_op ensure_account is_covered post ◌+ℤ◌
redeem_runs = refl

redeem_code_once_example :
    redeem_code rules 10 7 (codes "GIFT-1") redeemed ≢ (ok (voucher, voucher_row), redeemed)
unfolding normalize_code trim_space to_upper
redeem_code_once_example =
    redeem_code_once rules rules 9 10 7 (codes " gift-1") (codes "GIFT-1") with_voucher redeemed
      voucher voucher_row redeem_runs refl (voucher, voucher_row) redeemed

with_voucher-CodesCapped : CodesCapped with_voucher
with_voucher-CodesCapped = record { unique = (refl, tt); capped = ((refl, ground arith), tt) }

redeem_code-CodesCapped_example :
    CodesCapped (redeem_code rules 9 7 (codes " gift-1") with_voucher).1
redeem_code-CodesCapped_example =
    redeem_code-CodesCapped rules 9 7 (codes " gift-1") with_voucher with_voucher-CodesCapped

abbrev pub mug : Product
mug = record {
  id = 30;
  name = codes "mug";
  price = pos 10;
  delivery = Delivery.manual;
  stock = pos 3;
  per_user_limit = pos 2;
  sold = pos 0;
  enabled = true;
  delivery_url = [];
}

abbrev pub shop : Db
shop = record funded { products = mug ∷ [] }

pub shop-IsConsistent : IsConsistent shop
shop-IsConsistent = same_books funded shop funded-IsConsistent refl refl

abbrev pub two_mugs : OrderInput
two_mugs = record { product_id = 30; quantity = pos 2 }

abbrev pub order_row : ShopOrder
order_row = record {
  id = 2;
  order_no = codes "S1";
  user_id = 7;
  product_id = 30;
  delivery = Delivery.manual;
  quantity = 2;
  unit_price = pos 10;
  total_points = pos 20;
  status = Status.pending;
  content = [];
  last_error = [];
  admin_remark = [];
  delivered_at = none;
}

abbrev pub pay_row : PointLedger
pay_row = entry 3 (order_op 7 order_row) (account (pos 30) (pos 50) (pos 20))

abbrev pub ordered : Db
ordered = record shop {
  next_id = 4;
  accounts = account (pos 30) (pos 50) (pos 20) ∷ [];
  ledger = pay_row ∷ give_row ∷ [];
  products = record mug { stock = pos 1; sold = pos 2 } ∷ [];
  orders = order_row ∷ [];
}

pub order_runs : place_order rules 9 (codes "S1") 7 two_mugs shop ≡ (ok order_row, ordered)
unfolding place_order order_body order_product settle_order clamp_quantity bought reserve
    apply_points order_op new_order neg64 wrap64 order_total ◌*ℤ◌ ensure_account is_covered post
    ◌+ℤ◌
order_runs = refl

place_order_pays_example :
    IsConsistent ordered
    × ((w : ℕ)
        → balance_of w ordered ≡ (
            if w == 7
            then balance_of w shop -ℤ pos (10 * clamp_quantity (pos 2))
            else balance_of w shop))
place_order_pays_example =
    place_order_pays rules 9 (codes "S1") 7 two_mugs shop ordered order_row mug 10 shop-IsConsistent
      order_runs refl refl (ground arith)

place_order_stock_example :
    (p' : Product) × (find (by_product 30) ordered.products ≡ some p')
    × (p'.stock +ℤ pos 2 ≡ pos 3)
    × (pos 0 ≤ℤ p'.stock)
place_order_stock_example =
    place_order_stock rules 9 (codes "S1") 7 two_mugs shop ordered order_row mug order_runs refl
      refl (ground arith) (ground arith)

abbrev free_mug : Product
free_mug = record mug { price = pos 0 }

abbrev free_shop : Db
free_shop = record funded { products = free_mug ∷ [] }

abbrev pass : Product
pass = record mug { delivery = Delivery.cdk }

abbrev card : ℕ → Text → ProductCard
card id t = record { id = id; product_id = 30; order_id = 0; content = t }

abbrev card_shop : Db
card_shop = record funded {
  products = pass ∷ [];
  cards = card 52 (codes "C") ∷ card 51 (codes "B") ∷ card 50 (codes "A") ∷ [];
}

abbrev card_order : ShopOrder
card_order = record order_row {
  delivery = Delivery.cdk;
  status = Status.delivered;
  content = codes "A" ++ (10 ∷ codes "B");
  delivered_at = some 9;
}

abbrev card_ordered : Db
card_ordered = record card_shop {
  next_id = 4;
  accounts = account (pos 30) (pos 50) (pos 20) ∷ [];
  ledger = pay_row ∷ give_row ∷ [];
  products = record pass { sold = pos 2 } ∷ [];
  cards =
      card 52 (codes "C")
      ∷ record (card 51 (codes "B")) { order_id = 2 }
      ∷ record (card 50 (codes "A")) { order_id = 2 }
      ∷ [];
  orders = card_order ∷ [];
}

card_order_runs :
    place_order rules 9 (codes "S1") 7 two_mugs card_shop ≡ (ok card_order, card_ordered)
unfolding place_order order_body order_product settle_order clamp_quantity bought reserve pick_cards
    candidates apply_points order_op new_order neg64 wrap64 order_total ◌*ℤ◌ ensure_account
    is_covered post join_lines ◌+ℤ◌
card_order_runs = refl

place_order_cards_example : count (held_by 2) card_ordered.cards ≡ 2
place_order_cards_example =
    place_order_cards rules 9 (codes "S1") 7 two_mugs card_shop card_ordered card_order pass
      card_order_runs refl refl (ground arith) refl
