-- ===== src/Shop/Orders.antt =====
-- Orders (shop_core.go): placeOrder.
pub mod Stock
pub mod Payment
pub mod Laws
use ipw_boce.Points.{PointOp, apply_points}
use ipw_boce.Prelude.{
  Bool, List, Option, Text, [], codes, count, false, find, if◌then◌else◌, is_some, length, ltb,
  none, not, reverse, some, suc, take, text_eq, true, update, where_rows, ℕ, ◌&&◌, ◌*◌, ◌++◌, ◌+◌,
  ◌==◌, ◌∷◌,
}
use ipw_boce.Prelude.Int.{leb_ℤ, ltb_ℤ, neg64, pos, pos_part, wrap64, ℤ, ◌*ℤ◌, ◌+ℤ◌, ◌-ℤ◌}
use ipw_boce.Store.{
  Db, Delivery, Kind, PointsConfig, Product, ProductCard, Result, ShopOrder, Status, err,
  no_product, ok, out_of_stock, over_limit, points_closed, too_many_items, transaction,
  unique_violation, ◌>>=◌,
}

pub record OrderInput : Type 0 where
  pub product_id : ℕ
  pub quantity : ℤ

-- A quantity that is not positive means one item.
unfoldable pub clamp_quantity : ℤ → ℕ
clamp_quantity q = if leb_ℤ q (pos 0) then 1 else pos_part q

abbrev pub is_void : Status → Bool
is_void Status.failed = true
is_void Status.canceled = true
is_void s = false

-- The orders that count towards the limit of a user.
abbrev pub counts_for : ℕ → ℕ → ShopOrder → Bool
counts_for u p o = (o.user_id == u) && (o.product_id == p) && not (is_void o.status)

-- `COALESCE(SUM(quantity), 0)`
unfoldable pub bought : ℕ → ℕ → List ShopOrder → ℕ
bought u p [] = 0
bought u p (o ∷ os) =
    let rest = bought u p os in if counts_for u p o then o.quantity + rest else rest

-- `p.Price * int64(in.Quantity)`
unfoldable pub order_total : Product → ℕ → ℤ
order_total p q = wrap64 (p.price *ℤ pos q)

abbrev pub initial_status : Delivery → Status
initial_status Delivery.cdk = Status.delivered
initial_status Delivery.webhook = Status.processing
initial_status Delivery.manual = Status.pending

unfoldable pub new_order : ℕ → Text → ℕ → Product → ℕ → ShopOrder
new_order id num u p q = record {
  id = id;
  order_no = num;
  user_id = u;
  product_id = p.id;
  delivery = p.delivery;
  quantity = q;
  unit_price = p.price;
  total_points = order_total p q;
  status = initial_status p.delivery;
  content = [];
  last_error = [];
  admin_remark = [];
  delivered_at = none;
}

abbrev pub by_product : ℕ → Product → Bool
by_product id p = p.id == id

abbrev pub by_order : ℕ → ShopOrder → Bool
by_order id o = o.id == id

abbrev pub has_order_no : Text → ShopOrder → Bool
has_order_no num o = text_eq o.order_no num

-- `product_id = ? AND order_id = 0`
abbrev pub is_stock : ℕ → ProductCard → Bool
is_stock p c = (c.product_id == p) && (c.order_id == 0)

-- `id = ? AND order_id = 0`
abbrev pub is_free : ℕ → ProductCard → Bool
is_free id c = (c.id == id) && (c.order_id == 0)

abbrev pub assign : ℕ → ProductCard → ProductCard
assign order c = record c { order_id = order }

-- The loop over the candidates, which stops once enough cards are picked.
unfoldable pub pick_cards :
    ℕ → ℕ → List ProductCard → List ProductCard → List Text → List Text × List ProductCard
pick_cards order q [] cards picked = (picked, cards)
pick_cards order q (c ∷ cs) cards picked =
    let taken =
      pick_cards order q cs (update (is_free c.id) (assign order) cards)
        (picked ++ (c.content ∷ [])) in
    let passed = pick_cards order q cs cards picked in
    if length picked == q
    then (picked, cards)
    else if count (is_free c.id) cards == 1
    then taken
    else passed

-- `ORDER BY id ASC LIMIT 3 * quantity`: the rows are listed newest first.
unfoldable pub candidates : ℕ → ℕ → List ProductCard → List ProductCard
candidates p q cards = take (q * 3) (reverse (where_rows (is_stock p) cards))

-- strings.Join(picked, "\n")
unfoldable pub join_lines : List Text → Text
join_lines [] = []
join_lines (t ∷ []) = t
join_lines (t ∷ u ∷ ts) = t ++ (10 ∷ join_lines (u ∷ ts))

-- `id = ? AND stock >= ?`
abbrev pub in_stock : ℕ → ℕ → Product → Bool
in_stock id q p = (p.id == id) && leb_ℤ (pos q) p.stock

abbrev pub take_stock : ℕ → Product → Product
take_stock q p = record p { stock = p.stock -ℤ pos q }

abbrev pub add_sold : ℕ → Product → Product
add_sold q p = record p { sold = p.sold +ℤ pos q }

-- The delivery of the goods: cards are assigned, or a limited stock is reduced. The result is the
-- order's content and delivery time.
unfoldable pub reserve : ℕ → ℕ → Product → ℕ → Db → Result ((Text × Option ℕ) × Db)
reserve now order p q db = elim p.delivery [
  | Delivery.cdk ↦
      let (picked, cards) = pick_cards order q (candidates p.id q db.cards) db.cards [] in
      if ltb (length picked) q
      then err out_of_stock
      else ok ((join_lines picked, some now), record db { cards = cards })
  | _ ↦
      if leb_ℤ (pos 0) p.stock
      then (if count (in_stock p.id q) db.products == 0
          then err out_of_stock
          else ok (
            ([], none),
            record db { products = update (in_stock p.id q) (take_stock q) db.products },
          ))
      else ok (([], none), db)
]

unfoldable pub order_op : ℕ → ShopOrder → PointOp
order_op u o = record {
  user_id = u;
  delta = neg64 o.total_points;
  kind = Kind.order;
  ref_type = codes "order";
  ref_id = o.order_no;
  operator = [];
  idem_key = [];
}

abbrev pub fill : Text → Option ℕ → ShopOrder → ShopOrder
fill content at o = record o { content = content; delivered_at = at }

-- The last two steps: the sale is counted and paid, and the order gets its content.
unfoldable pub settle_order : ShopOrder → (Text × Option ℕ) × Db → Result (ShopOrder × Db)
settle_order o (goods, db) =
    apply_points (order_op o.user_id o)
      (record db { products = update (by_product o.product_id) (add_sold o.quantity) db.products })
    >>= λ r. ok (
      fill goods.0 goods.1 o,
      record (r.1) { orders = update (by_order o.id) (fill goods.0 goods.1) (r.1).orders },
    )

abbrev pub insert_order : ShopOrder → Db → Db
insert_order o db = record db { next_id = suc db.next_id; orders = o ∷ db.orders }

-- The transaction once the product has been found.
unfoldable pub order_product : ℕ → Text → ℕ → ℕ → Product → Db → Result (ShopOrder × Db)
order_product now num u q p db =
    if not p.enabled
    then err no_product
    else if ltb_ℤ (pos 0) p.per_user_limit
        && ltb_ℤ p.per_user_limit (pos (bought u p.id db.orders + q))
    then err over_limit
    else if is_some (find (has_order_no num) db.orders)
    then err unique_violation
    else (let o = new_order db.next_id num u p q in
        reserve now o.id p q (insert_order o db) >>= settle_order o)

unfoldable pub order_body : ℕ → Text → ℕ → ℕ → ℕ → Db → Result (ShopOrder × Db)
order_body now num u q product db = elim (find (by_product product) db.products) [
  | none ↦ err no_product
  | some p ↦ order_product now num u q p db
]

-- placeOrder, at the time `now` and with the generated order number `num`.
unfoldable pub place_order : PointsConfig → ℕ → Text → ℕ → OrderInput → Db → Result ShopOrder × Db
place_order cfg now num u i db =
    if not cfg.enabled
    then (err points_closed, db)
    else if ltb 20 (clamp_quantity i.quantity)
    then (err too_many_items, db)
    else transaction db (order_body now num u (clamp_quantity i.quantity) i.product_id db)
