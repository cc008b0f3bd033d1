-- ===== src/Shop/Finish/RoundTrip.antt =====
-- An order and its refund, and a delivery that is reported twice.
use ipw_boce.Points.{balance_of, conflicts, key_column}
use ipw_boce.Points.Invariant.{IsConsistent}
use ipw_boce.Points.Outcome.{IsFresh}
use ipw_boce.Prelude.{
  Bool-cases, List, Option, Text, [], ap, arith, false, find, if◌then◌else◌, inl, inr, is_empty,
  leb, none, not, refl, some, trim_space, true, update, ℕ, ◌&&◌, ◌*◌, ◌<◌, ◌==◌, ◌^◌, ◌∙◌, ◌∷◌, ◌≡◌,
  ◌≤◌,
}
use ipw_boce.Prelude.Int.{int_laws, pos, ℤ, ◌+ℤ◌, ◌-ℤ◌}
use ipw_boce.Shop.Finish.{
  deliver_callback, done_text, finish_order, finish_row, finished_order, is_delivered, is_open,
  is_open_row, order_by_no, refund_key,
}
use ipw_boce.Shop.Finish.Laws.{finish_order-Finished}
use ipw_boce.Shop.Finish.Refund.{Finished-orders, finish_order_refunds}
use ipw_boce.Shop.Orders.{
  OrderInput, by_order, by_product, clamp_quantity, has_order_no, is_void, new_order, order_op,
  order_total, place_order,
}
use ipw_boce.Shop.Orders.Laws.{Placed, place_order-Placed}
use ipw_boce.Shop.Orders.Payment.{
  Placed-books, Placed-orders, Placed-pays, Placed-same, order_total_lem,
}
use ipw_boce.Store.{Db, PointLedger, PointsConfig, Product, ShopOrder, Status, ok}

-- A row without a key meets no key.
none-conflicts :
    (l : PointLedger) (ls : List PointLedger) (k : Option Text)
    → l.idem_key ≡ none
    → conflicts k ls ≡ false
    → conflicts k (l ∷ ls) ≡ false
none-conflicts l ls none e h = refl
none-conflicts l ls (some k) e h = ground arith

module _ {now : ℕ} {num : Text} {u q pid : ℕ} {db db' : Db} {o : ShopOrder}
    (r : Placed now num u q pid db o db') where
  Placed-found : find (by_order o.id) db'.orders ≡ some o
  unfolding new_order
  Placed-found = ground (arith, Placed-orders r, r.filled)

  Placed-row : (o.total_points ≡ order_total r.p q) × (o.user_id ≡ u) × (o.order_no ≡ num)
  unfolding new_order
  Placed-row = (
    ap (λ o. o.total_points) r.filled,
    ap (λ o. o.user_id) r.filled,
    ap (λ o. o.order_no) r.filled,
  )

  Placed-ledger : (l : PointLedger) × (db'.ledger ≡ l ∷ db.ledger) × (l.idem_key ≡ none)
  unfolding order_op
  Placed-ledger = (
    r.l,
    ground (arith, r.result, r.paid.result, Placed-books r),
    ap (λ l. l.idem_key) r.paid.row,
  )

  -- The order's ledger row has no key.
  Placed-IsFresh : (k : Text) → IsFresh k db → IsFresh k db'
  Placed-IsFresh k (inl none_given) = inl none_given
  Placed-IsFresh k (inr new) =
      let e = Placed-ledger in
      inr (
        rw (e.1) (ground (arith, e.2, new)),
        rw (e.1) (none-conflicts e.0 db.ledger (key_column k) e.2 new.1),
      )

restored : (a b : ℤ) → a -ℤ b +ℤ b ≡ a
restored a b = omega int_laws

-- In consistent books, an order that is placed and then closed as failed or canceled leaves every
-- balance as it was, if the price is not negative, twenty times the price is an int64 and the ledger
-- has no refund of the order number.
pub finish_order-place_order :
    (cfg : PointsConfig) (now now' : ℕ) (num : Text) (u : ℕ) (i : OrderInput) (status : Status)
    (content reason operator : Text) (db db' db'' : Db) (o x : ShopOrder) (p : Product) (n : ℕ)
    → IsConsistent db
    → place_order cfg now num u i db ≡ (ok o, db')
    → find (by_product i.product_id) db.products ≡ some p
    → p.price ≡ pos n
    → n * 20 < 2 ^ 63
    → IsFresh (refund_key num) db
    → is_void status ≡ true
    → finish_order now' o.id status content reason operator db' ≡ (ok x, db'')
    → (w : ℕ) → balance_of w db'' ≡ balance_of w db
unfolding balance_of
finish_order-place_order cfg now now' num u i status content reason operator db db' db'' o x p n v h
      f e b new s back w =
    let r = place_order-Placed cfg now num u i db db' o h in
    let q = clamp_quantity i.quantity in
    let few : q ≤ 20 = ground (arith, leb, r.0) in
    let price : r.1.p.price ≡ pos n = rw (Placed-same r.1 f) e in
    let t = order_total_lem r.1.p n q price few b in
    let paid = Placed-pays r.1 n v price few b in
    let row = Placed-row r.1 in
    let total : o.total_points ≡ pos (n * q) = row.0 ∙ t.0 in
    let g =
      finish_order_refunds now' o.id status content reason operator db' db'' x o paid.0 s back
        (Placed-found r.1) (rw total t.1) (rw row.2 (Placed-IsFresh r.1 (refund_key num) new)) in
    ground (arith, g.1 w, paid.1 w, row, total, restored (balance_of w db) (pos (n * q)))

find-delivered :
    (now : ℕ) (content reason operator num : Text) (rows : List ShopOrder) (o : ShopOrder)
    → find (λ o. has_order_no num o && not (o.id == 0)) rows ≡ some o
    → is_open o.status ≡ true
    → find
        (λ o. has_order_no num o && not (o.id == 0))
        (update (is_open_row o.id) (finish_row now Status.delivered content reason operator) rows)
      ≡ some (finish_row now Status.delivered content reason operator o)
unfolding finish_row
find-delivered now content reason operator num [] o f v = absurd (ground arith)
find-delivered now content reason operator num (x ∷ rows) o f v =
    elim (Bool-cases (has_order_no num x && not (x.id == 0))) [
      | inl hit ↦ ground arith
      | inr miss ↦
          let r = find-delivered now content reason operator num rows o (ground arith) v in
          ground (arith, r)
    ]

finished-delivered :
    (now : ℕ) (content reason operator : Text) (o : ShopOrder)
    → finished_order now Status.delivered content o
      ≡ finish_row now Status.delivered content reason operator o
unfolding finish_row finished_order
finished-delivered now content reason operator o = refl

finished_order-delivered :
    (now : ℕ) (content : Text) (o : ShopOrder)
    → (finished_order now Status.delivered content o).status ≡ Status.delivered
unfolding finished_order
finished_order-delivered now content o = refl

-- A delivery that the interface reports again returns the order as the first report left it and
-- changes nothing, if the order with the number is the one with its id.
pub deliver_callback_again :
    (now now' : ℕ) (num content content' operator operator' : Text) (db db' : Db) (o x : ShopOrder)
    → order_by_no num db ≡ some o
    → find (by_order o.id) db.orders ≡ some o
    → deliver_callback now num content operator db ≡ (ok x, db')
    → deliver_callback now' num content' operator' db' ≡ (ok x, db')
unfolding deliver_callback
deliver_callback_again now now' num content content' operator operator' db db' o x f same h =
    elim (Bool-cases (is_delivered o.status)) [
      | inl done ↦ ground (arith, f, h)
      | inr open_order ↦
          let text = if is_empty (trim_space content) then done_text else content in
          let h' : finish_order now o.id Status.delivered text [] operator db ≡ (ok x, db') =
            ground (arith, f, h) in
          let r =
            finish_order-Finished now o.id Status.delivered text [] operator db db' x o h' same in
          let e = Finished-orders now Status.delivered text [] operator o db db' r.2 in
          let g : order_by_no num db' ≡ some x =
            unfold order_by_no in
            rw (e, r.1 ∙ finished-delivered now text [] operator o)
              (find-delivered now text [] operator num db.orders o f r.0) in
          let s : x.status ≡ Status.delivered = rw r.1 (finished_order-delivered now text o) in
          ground (arith, g, s)
    ]
