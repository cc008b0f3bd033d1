-- ===== src/Shop/Orders/Payment.antt =====
-- What an order costs its buyer, and that a user's limit for a product holds.
use native.Mathlib.Nat.{lt_of_le_of_lt, mul-le-mul_left}
use ipw_boce.Points.{balance_in, balance_of}
use ipw_boce.Points.Invariant.{Applied-IsConsistent, Applied-balance, IsConsistent, same_books}
use ipw_boce.Prelude.{
  List, Option, Text, [], ap, arith, find, if◌then◌else◌, leb, refl, some, update, ℕ, ◌*◌, ◌+◌, ◌<◌,
  ◌==◌, ◌^◌, ◌∙◌, ◌∷◌, ◌≡◌, ◌≢◌, ◌≤◌,
}
use ipw_boce.Prelude.Int.{
  IsAmount, int_laws, neg64, neg64_lem, pos, pos-*ℤ, wrap64-pos, ℤ, ◌+ℤ◌, ◌-ℤ◌, ◌≤ℤ◌, -ℤ_parts,
}
use ipw_boce.Shop.Orders.{
  OrderInput, bought, by_order, by_product, clamp_quantity, fill, initial_status, new_order,
  order_op, order_total, place_order, reserve,
}
use ipw_boce.Shop.Orders.Laws.{Placed, place_order-Placed, sold_out}
use ipw_boce.Store.{Db, PointsConfig, Product, ShopOrder, ok}

reserve-books :
    (now order : ℕ) (p : Product) (q : ℕ) (db : Db) {g : Text × Option ℕ} {d : Db}
    → reserve now order p q db ≡ ok (g, d)
    → (d.accounts ≡ db.accounts) × (d.ledger ≡ db.ledger) × (d.orders ≡ db.orders)
unfolding reserve
reserve-books now order p q db h = (ground arith, ground arith, ground arith)

neg-IsAmount : (m : ℕ) → m < 2 ^ 63 → IsAmount (pos 0 -ℤ pos m)
neg-IsAmount m h = ground (arith, -ℤ_parts (pos 0) (pos m))

+ℤ-negative : (a b : ℤ) → a +ℤ (pos 0 -ℤ b) ≡ a -ℤ b
+ℤ-negative a b = omega int_laws

-- The amount that an order of q items at the price n books.
pub order_total_lem :
    (p : Product) (n q : ℕ)
    → p.price ≡ pos n
    → q ≤ 20
    → n * 20 < 2 ^ 63
    → (order_total p q ≡ pos (n * q)) × IsAmount (pos (n * q))
unfolding order_total
order_total_lem p n q e le lt =
    let small = lt_of_le_of_lt (mul-le-mul_left n le) lt in
    (rw (e, pos-*ℤ n q) (wrap64-pos (n * q) small), ((small, ground arith), ground arith))

order_delta :
    (p : Product) (n q : ℕ)
    → p.price ≡ pos n
    → q ≤ 20
    → n * 20 < 2 ^ 63
    → (neg64 (order_total p q) ≡ pos 0 -ℤ pos (n * q)) × IsAmount (pos 0 -ℤ pos (n * q))
order_delta p n q e le lt =
    let t = order_total_lem p n q e le lt in
    (rw t.0 (neg64_lem (pos (n * q)) t.1.0 (ground arith)), neg-IsAmount (n * q) t.1.0.0)

module _ {now : ℕ} {num : Text} {u q pid : ℕ} {db db' : Db} {o : ShopOrder}
    (r : Placed now num u q pid db o db') where
  pub Placed-same : {p : Product} → find (by_product pid) db.products ≡ some p → r.p ≡ p
  Placed-same f = ground (arith, r.found, f)

  pub Placed-books :
      (r.stocked.accounts ≡ db.accounts)
      × (r.stocked.ledger ≡ db.ledger)
      × (r.stocked.orders ≡ new_order db.next_id num u r.p q ∷ db.orders)
  Placed-books = reserve-books now db.next_id r.p q _ r.reserved

  pub Placed-pays :
      (n : ℕ)
      → IsConsistent db
      → r.p.price ≡ pos n
      → q ≤ 20
      → n * 20 < 2 ^ 63
      → IsConsistent db'
        × ((w : ℕ)
            → balance_in w db'.accounts ≡ (
                if w == u
                then balance_in w db.accounts -ℤ pos (n * q)
                else balance_in w db.accounts))
  unfolding order_op new_order
  Placed-pays n v e le lt =
      let t = order_delta r.p n q e le lt in
      let mid = same_books db (sold_out r.p.id q r.stocked) v Placed-books.0 Placed-books.1 in
      (
        same_books r.paid_db db' (Applied-IsConsistent _ _ r.paid mid (rw t.0 t.1))
            (ap (λ d. d.accounts) r.result) (ap (λ d. d.ledger) r.result),
        λ w. ground (
          arith,
          r.result,
          Applied-balance _ _ r.paid mid w,
          Placed-books.0,
          t.0,
          +ℤ-negative (balance_in w db.accounts) (pos (n * q)),
        ),
      )

  Placed-nonzero : neg64 (order_total r.p q) ≢ pos 0
  unfolding order_op new_order
  Placed-nonzero = r.paid.amount

  pub Placed-orders :
      db'.orders
      ≡ update
          (by_order db.next_id)
          (fill r.goods.0 r.goods.1)
          (new_order db.next_id num u r.p q ∷ db.orders)
  Placed-orders = ground (arith, r.result, r.paid.result, Placed-books.2)

zero_cost : (q : ℕ) → pos 0 -ℤ pos (0 * q) ≡ pos 0
zero_cost q = omega (arith, int_laws)

-- A successful order takes the price of its items from the buyer, and nothing from anybody else,
-- and keeps the books consistent, if the price is not negative and twenty times the price is an
-- int64.
pub place_order_pays :
    (cfg : PointsConfig) (now : ℕ) (num : Text) (u : ℕ) (i : OrderInput) (db db' : Db)
    (o : ShopOrder) (p : Product) (n : ℕ)
    → IsConsistent db
    → place_order cfg now num u i db ≡ (ok o, db')
    → find (by_product i.product_id) db.products ≡ some p
    → p.price ≡ pos n
    → n * 20 < 2 ^ 63
    → IsConsistent db'
      × ((w : ℕ)
          → balance_of w db' ≡ (
              if w == u
              then balance_of w db -ℤ pos (n * clamp_quantity i.quantity)
              else balance_of w db))
unfolding balance_of
place_order_pays cfg now num u i db db' o p n v h f e b =
    let r = place_order-Placed cfg now num u i db db' o h in
    Placed-pays r.1 n v (rw (Placed-same r.1 f) e) (ground (arith, leb, r.0)) b

-- A product whose price is 0 cannot be ordered: the point change refuses an amount of 0.
pub place_order_free :
    (cfg : PointsConfig) (now : ℕ) (num : Text) (u : ℕ) (i : OrderInput) (db db' : Db)
    (o : ShopOrder) (p : Product)
    → find (by_product i.product_id) db.products ≡ some p
    → p.price ≡ pos 0
    → place_order cfg now num u i db ≢ (ok o, db')
place_order_free cfg now num u i db db' o p f e h =
    let r = place_order-Placed cfg now num u i db db' o h in
    let t =
      order_delta p 0 (clamp_quantity i.quantity) e (ground (arith, leb, r.0)) (ground arith) in
    let nz = Placed-nonzero r.1 in
    nz (rw (Placed-same r.1 f) (t.0 ∙ zero_cost (clamp_quantity i.quantity)))

bought-fill :
    (u p id : ℕ) (content : Text) (at : Option ℕ) (os : List ShopOrder)
    → bought u p (update (by_order id) (fill content at) os) ≡ bought u p os
unfolding bought
bought-fill u p id content at [] = refl
bought-fill u p id content at (o ∷ os) = ground (arith, bought-fill u p id content at os)

bought_new :
    (id : ℕ) (num : Text) (u : ℕ) (p : Product) (q : ℕ) (os : List ShopOrder)
    → bought u p.id (new_order id num u p q ∷ os) ≡ q + bought u p.id os
unfolding bought new_order
bought_new id num u p q os = ground (arith, initial_status)

-- After a successful order of a product with a limit, the buyer's orders of the product that are
-- not failed or canceled stay within the limit.
pub place_order_within_limit :
    (cfg : PointsConfig) (now : ℕ) (num : Text) (u : ℕ) (i : OrderInput) (db db' : Db)
    (o : ShopOrder) (p : Product)
    → place_order cfg now num u i db ≡ (ok o, db')
    → find (by_product i.product_id) db.products ≡ some p
    → pos 1 ≤ℤ p.per_user_limit
    → pos (bought u p.id db'.orders) ≤ℤ p.per_user_limit
place_order_within_limit cfg now num u i db db' o p h f pl =
    let r = place_order-Placed cfg now num u i db db' o h in
    rw (Placed-orders r.1, Placed-same r.1 f)
      (rw
        (
          bought-fill u p.id db.next_id r.1.goods.0 r.1.goods.1
              (new_order db.next_id num u p (clamp_quantity i.quantity) ∷ db.orders),
          bought_new db.next_id num u p (clamp_quantity i.quantity) db.orders,
        )
        (ground (arith, r.1.within, Placed-same r.1 f)))
