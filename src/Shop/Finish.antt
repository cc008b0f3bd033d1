-- ===== src/Shop/Finish.antt =====
-- The end of an order (shop_core.go): finishOrder, dispatchWebhookOrder, and the handlers that
-- deliver, cancel and fail orders (points_routes.go).
mod Tests
pub mod RoundTrip
pub mod Refund
pub mod Laws
use ipw_boce.Points.{PointOp, apply_points, left_by_duplicate}
use ipw_boce.Prelude.{
  Bool, List, Option, Text, [], codes, count, false, find, if◌then◌else◌, is_empty, is_some, none,
  not, some, text_eq, trim_space, true, truncate_str, update, utf8, ℕ, ◌&&◌, ◌++◌, ◌==◌,
}
use ipw_boce.Prelude.Int.{leb_ℤ, pos, ◌+ℤ◌, ◌-ℤ◌}
use ipw_boce.Shop.Orders.{by_order, by_product, has_order_no, is_void}
use ipw_boce.Store.{
  Db, Delivery, Error, Kind, PointLedger, Product, Result, ShopOrder, Status, duplicate, err,
  no_order, ok, status_changed, status_final, transaction,
}

abbrev pub is_open : Status → Bool
is_open Status.pending = true
is_open Status.processing = true
is_open s = false

-- `id = ? AND status IN (pending, processing)`
abbrev pub is_open_row : ℕ → ShopOrder → Bool
is_open_row id o = (o.id == id) && is_open o.status

-- The columns that the update writes when the order is refunded.
abbrev void_row : Status → Text → Text → ShopOrder → ShopOrder
void_row s reason operator o = record o {
  status = s;
  last_error = truncate_str reason 512;
  admin_remark = if is_empty operator then o.admin_remark else truncate_str reason 512;
}

-- The columns that the update writes for each new status.
unfoldable pub finish_row : ℕ → Status → Text → Text → Text → ShopOrder → ShopOrder
finish_row now Status.delivered content reason operator o = record o {
  status = Status.delivered;
  content = content;
  delivered_at = some now;
}
finish_row now Status.failed content reason operator o = void_row Status.failed reason operator o
finish_row now Status.canceled content reason operator o =
    void_row Status.canceled reason operator o
finish_row now Status.pending content reason operator o = record o { status = Status.pending }
finish_row now Status.processing content reason operator o = record o { status = Status.processing }

-- The order that finishOrder returns, in which the reason is not filled in.
unfoldable pub finished_order : ℕ → Status → Text → ShopOrder → ShopOrder
finished_order now Status.delivered content o = record o {
  status = Status.delivered;
  content = content;
  delivered_at = some now;
}
finished_order now status content o = record o { status = status }

abbrev is_cdk : Delivery → Bool
is_cdk Delivery.cdk = true
is_cdk d = false

abbrev restocks : Option Product → Bool
restocks none = false
restocks (some p) = not (is_cdk p.delivery) && leb_ℤ (pos 0) p.stock

abbrev give_back : ℕ → Product → Product
give_back q p = record p { stock = p.stock +ℤ pos q }

abbrev drop_sold : ℕ → Product → Product
drop_sold q p = record p { sold = p.sold -ℤ pos q }

abbrev has_sold : ℕ → ℕ → Product → Bool
has_sold id q p = (p.id == id) && leb_ℤ (pos q) p.sold

-- The stock goes back, if it is limited, and the sale is no longer counted.
unfoldable pub unsell : ShopOrder → List Product → List Product
unsell o products =
    let products' =
      if restocks (find (by_product o.product_id) products)
      then update (by_product o.product_id) (give_back o.quantity) products
      else products in
    update (has_sold o.product_id o.quantity) (drop_sold o.quantity) products'

abbrev pub refund_key : Text → Text
refund_key num = codes "refund:" ++ num

unfoldable pub refund_op : ShopOrder → Text → PointOp
refund_op o operator = record {
  user_id = o.user_id;
  delta = o.total_points;
  kind = Kind.refund;
  ref_type = codes "order";
  ref_id = o.order_no;
  operator = operator;
  idem_key = refund_key o.order_no;
}

-- A refund that was booked before counts as done; the transaction goes on with what it has.
abbrev pub refunded : PointOp → Db → Result (PointLedger × Db) → Result Db
refunded op db (ok (l, db')) = ok db'
refunded op db (err Error.duplicate) = ok (left_by_duplicate op db)
refunded op db (err e) = err e

-- The database after the update of the order's row.
abbrev pub closed : ℕ → Status → Text → Text → Text → ShopOrder → Db → Db
closed now status content reason operator o db = record db {
  orders = update (is_open_row o.id) (finish_row now status content reason operator) db.orders;
}

abbrev pub with_order : ShopOrder → Result Db → Result (ShopOrder × Db)
with_order o (ok db) = ok (o, db)
with_order o (err e) = err e

-- The database that the refund is booked in.
abbrev pub unsold : ℕ → Status → Text → Text → Text → ShopOrder → Db → Db
unsold now status content reason operator o db =
    let db' = closed now status content reason operator o db in
    record db' { products = unsell o db'.products }

unfoldable pub finish_open :
    ℕ → Status → Text → Text → Text → ShopOrder → Db → Result (ShopOrder × Db)
finish_open now status content reason operator o db =
    let db' = closed now status content reason operator o db in
    let o' = finished_order now status content o in
    let db'' = unsold now status content reason operator o db in
    let op = refund_op o operator in
    if count (is_open_row o.id) db.orders == 0
    then err status_changed
    else if is_void status
    then with_order o' (refunded op db'' (apply_points op db''))
    else ok (o', db')

unfoldable pub finish_body : ℕ → ℕ → Status → Text → Text → Text → Db → Result (ShopOrder × Db)
finish_body now id status content reason operator db = elim (find (by_order id) db.orders) [
  | none ↦ err no_order
  | some o ↦
      if is_open o.status
      then finish_open now status content reason operator o db
      else err status_final
]

-- finishOrder
unfoldable pub finish_order : ℕ → ℕ → Status → Text → Text → Text → Db → Result ShopOrder × Db
finish_order now id status content reason operator db =
    transaction db (finish_body now id status content reason operator db)

-- webhookReply, or the error of the call.
pub data Reply : Type 0 where
  call_failed : Text → Reply
  replied : (status content message : Text) → Reply

abbrev pub done_text : Text
done_text = utf8 "已由发放接口完成发货"

abbrev refused_text : Text
refused_text = utf8 "发放接口拒绝："

abbrev clear_error : ShopOrder → ShopOrder
clear_error o = record o { last_error = [] }

-- The reaction to the reply of the delivery interface.
unfoldable pub on_reply : ℕ → ShopOrder → Reply → Db → Db
on_reply now o (call_failed e) db = (finish_order now o.id Status.failed [] e [] db).1
on_reply now o (replied status content message) db =
    if text_eq status (codes "failed")
    then (finish_order now o.id Status.failed [] (refused_text ++ message) [] db).1
    else if text_eq status (codes "pending")
    then record db { orders = update (by_order o.id) clear_error db.orders }
    else (finish_order now o.id Status.delivered (if is_empty content then done_text else content)
        [] [] db).1

abbrev is_processing : Status → Bool
is_processing Status.processing = true
is_processing s = false

-- dispatchWebhookOrder, where `reply` is what the delivery interface answers.
unfoldable pub dispatch_webhook_order : ℕ → ℕ → Reply → Db → Db
dispatch_webhook_order now id reply db = elim (find (by_order id) db.orders) [
  | none ↦ db
  | some o ↦
      if is_some (find (by_product o.product_id) db.products) && is_processing o.status
      then on_reply now o reply db
      else db
]

-- orderByNo
unfoldable pub order_by_no : Text → Db → Option ShopOrder
order_by_no num db = find (λ o. has_order_no num o && not (o.id == 0)) db.orders

abbrev pub is_delivered : Status → Bool
is_delivered Status.delivered = true
is_delivered s = false

-- The callback that reports a delivery; a repetition returns the order.
unfoldable pub deliver_callback : ℕ → Text → Text → Text → Db → Result ShopOrder × Db
deliver_callback now num content operator db = elim (order_by_no num db) [
  | none ↦ (err no_order, db)
  | some o ↦
      if is_delivered o.status
      then (ok o, db)
      else finish_order now o.id Status.delivered
          (if is_empty (trim_space content) then done_text else content) [] operator db
]
