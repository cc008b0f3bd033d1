-- ===== src/Shop/Finish/Tests.antt =====
-- Runs of the end of an order on concrete data.
use ipw_boce.Points.{apply_points, balance_of, ensure_account, entry, is_covered, post}
use ipw_boce.Points.Invariant.{IsConsistent}
use ipw_boce.Points.Outcome.{IsFresh}
use ipw_boce.Points.Tests.{account, give_row, rules}
use ipw_boce.Prelude.{
  Text, [], arith, codes, if◌then◌else◌, inr, refl, some, trim_space, truncate_str, ℕ, ◌==◌, ◌∷◌,
  ◌≡◌,
}
use ipw_boce.Prelude.Int.{pos, ◌+ℤ◌, ◌-ℤ◌}
use ipw_boce.Shop.Finish.{
  deliver_callback, finish_body, finish_open, finish_order, finish_row, finished_order, order_by_no,
  refund_key, refund_op, unsell,
}
use ipw_boce.Shop.Finish.Refund.{finish_order_once, finish_order_refunds}
use ipw_boce.Shop.Finish.RoundTrip.{finish_order-place_order}
use ipw_boce.Shop.Orders.{order_op}
use ipw_boce.Shop.Orders.Payment.{place_order_pays}
use ipw_boce.Shop.Tests.{
  mug, order_row, order_runs, ordered, pay_row, shop, shop-IsConsistent, two_mugs,
}
use ipw_boce.Store.{Db, PointLedger, ShopOrder, Status, err, ok, status_final}

abbrev no_text : Text
no_text = []

abbrev canceled_order : ShopOrder
canceled_order = record order_row { status = Status.canceled; last_error = codes "no" }

abbrev canceled_view : ShopOrder
canceled_view = record order_row { status = Status.canceled }

abbrev back_row : PointLedger
back_row = entry 4 (refund_op order_row no_text) (account (pos 50) (pos 70) (pos 20))

abbrev canceled_db : Db
canceled_db = record ordered {
  next_id = 5;
  accounts = account (pos 50) (pos 70) (pos 20) ∷ [];
  ledger = back_row ∷ pay_row ∷ give_row ∷ [];
  products = record mug { stock = pos 3; sold = pos 0 } ∷ [];
  orders = canceled_order ∷ [];
}

cancel_runs :
    finish_order 11 2 Status.canceled [] (codes "no") [] ordered ≡ (ok canceled_view, canceled_db)
unfolding finish_order finish_body finish_open apply_points refund_op order_op truncate_str
    ensure_account is_covered post finish_row ◌+ℤ◌ unsell ◌-ℤ◌ finished_order
cancel_runs = refl

finish_order_once_example :
    finish_order 12 2 Status.failed [] [] [] canceled_db ≡ (err status_final, canceled_db)
finish_order_once_example =
    finish_order_once 11 12 2 Status.canceled Status.failed [] [] (codes "no") [] [] [] ordered
      canceled_db canceled_view cancel_runs refl

ordered-IsConsistent : IsConsistent ordered
ordered-IsConsistent =
    (place_order_pays rules 9 (codes "S1") 7 two_mugs shop ordered order_row mug 10
      shop-IsConsistent order_runs refl refl (ground arith)).0

ordered-IsFresh : IsFresh (refund_key (codes "S1")) ordered
unfolding order_op truncate_str
ordered-IsFresh = inr (refl, refl)

finish_order_refunds_example :
    IsConsistent canceled_db
    × ((w : ℕ)
        → balance_of w canceled_db
          ≡ (if w == 7 then balance_of w ordered +ℤ pos 20 else balance_of w ordered))
finish_order_refunds_example =
    finish_order_refunds 11 2 Status.canceled [] (codes "no") [] ordered canceled_db canceled_view
      order_row ordered-IsConsistent refl cancel_runs refl (ground arith) ordered-IsFresh

shop-IsFresh : IsFresh (refund_key (codes "S1")) shop
unfolding truncate_str
shop-IsFresh = inr (refl, refl)

finish_order-place_order_example : balance_of 7 canceled_db ≡ balance_of 7 shop
finish_order-place_order_example =
    finish_order-place_order rules 9 11 (codes "S1") 7 two_mugs Status.canceled [] (codes "no") []
      shop ordered canceled_db order_row canceled_view mug 10 shop-IsConsistent order_runs refl refl
      (ground arith) shop-IsFresh refl cancel_runs 7

abbrev sent_order : ShopOrder
sent_order = record order_row {
  status = Status.delivered;
  content = codes "key";
  delivered_at = some 11;
}

abbrev sent_db : Db
sent_db = record ordered { orders = sent_order ∷ [] }

deliver_runs : deliver_callback 11 (codes "S1") (codes "key") [] ordered ≡ (ok sent_order, sent_db)
unfolding deliver_callback finish_order finish_body finish_open order_by_no finish_row trim_space
    finished_order
deliver_runs = refl

found_by_no : order_by_no (codes "S1") ordered ≡ some order_row
unfolding order_by_no
found_by_no = refl
