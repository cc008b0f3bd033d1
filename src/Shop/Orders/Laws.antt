-- ===== src/Shop/Orders/Laws.antt =====
-- What a successful order has done.
use ipw_boce.Points.{apply_points}
use ipw_boce.Points.Apply.{Applied, apply_points-Applied}
use ipw_boce.Prelude.{
  Bool-cases, Option, Option-cases, Text, arith, false, find, inl, inr, leb, ltb, none, some, true,
  update, ℕ, ◌&&◌, ◌+◌, ◌≡◌,
}
use ipw_boce.Prelude.Int.{ltb_ℤ, pos}
use ipw_boce.Shop.Orders.{
  OrderInput, add_sold, bought, by_order, by_product, clamp_quantity, fill, has_order_no,
  insert_order, new_order, order_body, order_op, order_product, order_total, place_order, reserve,
  settle_order,
}
use ipw_boce.Store.{
  >>=-eq-ok, Db, PointLedger, PointsConfig, Product, ShopOrder, ok, transaction-ok, ◌>>=◌,
}

-- The database when the order is paid: the goods are reserved and the sale is counted.
abbrev pub sold_out : ℕ → ℕ → Db → Db
sold_out p q db = record db { products = update (by_product p) (add_sold q) db.products }

-- What holds when `q` items of the product `pid` have been ordered.
pub record Placed (now : ℕ) (num : Text) (u q pid : ℕ) (db : Db) (o : ShopOrder) (db' : Db)
    : Type 0 where
  pub p : Product
  pub found : find (by_product pid) db.products ≡ some p
  pub enabled : p.enabled ≡ true
  pub within :
      ltb_ℤ (pos 0) p.per_user_limit && ltb_ℤ p.per_user_limit (pos (bought u p.id db.orders + q))
      ≡ false
  pub unused : find (has_order_no num) db.orders ≡ none
  pub goods : Text × Option ℕ
  pub stocked : Db
  pub reserved :
      reserve now db.next_id p q (insert_order (new_order db.next_id num u p q) db)
      ≡ ok (goods, stocked)
  pub l : PointLedger
  pub paid_db : Db
  pub paid :
      Applied (order_op u (new_order db.next_id num u p q)) (sold_out p.id q stocked) l paid_db
  pub filled : o ≡ fill goods.0 goods.1 (new_order db.next_id num u p q)
  pub result : db' ≡ record paid_db {
    orders = update (by_order db.next_id) (fill goods.0 goods.1) paid_db.orders;
  }

settle_order-ok :
    (o : ShopOrder) (goods : Text × Option ℕ) (db : Db) {o' : ShopOrder} {db' : Db}
    → settle_order o (goods, db) ≡ ok (o', db')
    → (l : PointLedger) × (d : Db) × (apply_points
          (order_op o.user_id o)
          (sold_out o.product_id o.quantity db)
        ≡ ok (l, d))
      × (o' ≡ fill goods.0 goods.1 o)
      × (db' ≡ record d { orders = update (by_order o.id) (fill goods.0 goods.1) d.orders })
unfolding settle_order
settle_order-ok o goods db h =
    let r =
      >>=-eq-ok (apply_points (order_op o.user_id o) (sold_out o.product_id o.quantity db)) _ h in
    (r.0.0, r.0.1, r.1, ground arith, ground arith)

order_product-ok :
    (now : ℕ) (num : Text) (u q : ℕ) (p : Product) (db : Db) {o : ShopOrder} {db' : Db}
    → order_product now num u q p db ≡ ok (o, db')
    → (p.enabled ≡ true)
      × (ltb_ℤ (pos 0) p.per_user_limit
            && ltb_ℤ p.per_user_limit (pos (bought u p.id db.orders + q))
          ≡ false)
      × (find (has_order_no num) db.orders ≡ none)
      × ((reserve now db.next_id p q (insert_order (new_order db.next_id num u p q) db)
            >>= settle_order (new_order db.next_id num u p q))
          ≡ ok (o, db'))
unfolding order_product new_order order_total reserve
order_product-ok now num u q p db {o} {db'} h =
    let e : p.enabled ≡ true = ground arith in
    let w : ltb_ℤ (pos 0) p.per_user_limit
          && ltb_ℤ p.per_user_limit (pos (bought u p.id db.orders + q))
        ≡ false =
      ground arith in
    let f : find (has_order_no num) db.orders ≡ none = ground arith in (e, w, f, rw (e, w, f) at h)

order_body-Placed :
    (now : ℕ) (num : Text) (u q pid : ℕ) (db : Db) {o : ShopOrder} {db' : Db}
    → order_body now num u q pid db ≡ ok (o, db')
    → Placed now num u q pid db o db'
unfolding order_body new_order
order_body-Placed now num u q pid db {o} {db'} h =
    elim (Option-cases (find (by_product pid) db.products)) [
      | inl missing ↦ absurd (ground arith)
      | inr (x, e) ↦
          let f = order_product-ok now num u q x db {o = o} {db' = db'} (ground arith) in
          let b =
            >>=-eq-ok
              (reserve now db.next_id x q (insert_order (new_order db.next_id num u x q) db)) _
              f.3 in
          let s = settle_order-ok (new_order db.next_id num u x q) b.0.0 b.0.1 b.2 in
          record {
            p = x;
            found = e;
            enabled = f.0;
            within = f.1;
            unused = f.2;
            goods = b.0.0;
            stocked = b.0.1;
            reserved = b.1;
            l = s.0;
            paid_db = s.1;
            paid = apply_points-Applied _ _ s.2;
            filled = s.3;
            result = s.4;
          }
    ]

pub place_order-Placed :
    (cfg : PointsConfig) (now : ℕ) (num : Text) (u : ℕ) (i : OrderInput) (db db' : Db)
    (o : ShopOrder)
    → place_order cfg now num u i db ≡ (ok o, db')
    → (leb (clamp_quantity i.quantity) 20 ≡ true)
      × Placed now num u (clamp_quantity i.quantity) i.product_id db o db'
unfolding place_order
place_order-Placed cfg now num u i db db' o h = elim (Bool-cases cfg.enabled) [
  | inr off ↦ absurd (ground arith)
  | inl on ↦ elim (Bool-cases (ltb 20 (clamp_quantity i.quantity))) [
    | inl many ↦ absurd (ground arith)
    | inr few ↦ (
      ground (arith, leb, ltb),
      order_body-Placed now num u (clamp_quantity i.quantity) i.product_id db (
          transaction-ok db (order_body now num u (clamp_quantity i.quantity) i.product_id db)
            (rw (on, few) at h)),
    )
  ]
]
