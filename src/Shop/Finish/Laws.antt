-- ===== src/Shop/Finish/Laws.antt =====
-- What a successful finishOrder has done.
use ipw_boce.Points.{PointOp, apply_points, left_by_duplicate}
use ipw_boce.Points.Apply.{Applied, apply_points-Applied}
use ipw_boce.Prelude.{
  Bool-cases, Text, arith, false, find, inl, inr, refl, some, subst, true, ℕ, ◌≡◌,
}
use ipw_boce.Shop.Finish.{
  closed, finish_body, finish_open, finish_order, finished_order, is_open, refund_op, refunded,
  unsold, with_order,
}
use ipw_boce.Shop.Orders.{by_order, is_void}
use ipw_boce.Store.{
  Db, Error, PointLedger, Result, ShopOrder, Status, duplicate, err, ok, transaction-ok,
}

-- How an order that was open has ended: without a refund, with one, or with one that had been
-- booked before.
pub data Finished (now : ℕ) (status : Status) (content reason operator : Text) (o : ShopOrder)
    (db : Db) (db' : Db) : Type 0 where
  kept :
      is_void status ≡ false
      → db' ≡ closed now status content reason operator o db
      → Finished now status content reason operator o db db'
  paid_back :
      (l : PointLedger) (d : Db)
      → is_void status ≡ true
      → d ≡ unsold now status content reason operator o db
      → Applied (refund_op o operator) d l db'
      → Finished now status content reason operator o db db'
  was_paid_back :
      is_void status ≡ true
      → apply_points (refund_op o operator) (unsold now status content reason operator o db)
        ≡ err duplicate
      → db'
        ≡ left_by_duplicate (refund_op o operator) (unsold now status content reason operator o db)
      → Finished now status content reason operator o db db'

refunded-err :
    (op : PointOp) (d : Db) (f : Error) {y : Db}
    → refunded op d (err f) ≡ ok y
    → (f ≡ duplicate) × (y ≡ left_by_duplicate op d)
refunded-err op d f h = (ground arith, ground arith)

with_order-ok :
    (o' : ShopOrder) (r : Result Db) {x : ShopOrder} {d : Db}
    → with_order o' r ≡ ok (x, d)
    → (x ≡ o') × (r ≡ ok d)
with_order-ok o' (ok d) h = (ground arith, ground arith)
with_order-ok o' (err e) h = (absurd (ground arith), absurd (ground arith))

refunded-Finished :
    (now : ℕ) (status : Status) (content reason operator : Text) (o o' : ShopOrder) (db db' : Db)
    (x : ShopOrder) (r : Result (PointLedger × Db))
    → apply_points (refund_op o operator) (unsold now status content reason operator o db) ≡ r
    → is_void status ≡ true
    → with_order o'
        (refunded (refund_op o operator) (unsold now status content reason operator o db) r)
      ≡ ok (x, db')
    → (x ≡ o') × Finished now status content reason operator o db db'
refunded-Finished now status content reason operator o o' db db' x (ok (l, d)) e v h =
    let r =
      with_order-ok o'
        (refunded (refund_op o operator) (unsold now status content reason operator o db)
          (ok (l, d)))
        h in
    let s : d ≡ db' = ground (arith, r.1) in
    (
      r.0,
      paid_back l (unsold now status content reason operator o db) v refl
          (subst (Applied (refund_op o operator) _ l) s (apply_points-Applied _ _ e)),
    )
refunded-Finished now status content reason operator o o' db db' x (err f) e v h =
    let r =
      with_order-ok o'
        (refunded (refund_op o operator) (unsold now status content reason operator o db) (err f))
        h in
    let s = refunded-err _ _ f r.1 in (r.0, was_paid_back v (rw s.0 at e) s.1)

finish_open-Finished :
    (now : ℕ) (status : Status) (content reason operator : Text) (o x : ShopOrder) (db db' : Db)
    → finish_open now status content reason operator o db ≡ ok (x, db')
    → (x ≡ finished_order now status content o)
      × Finished now status content reason operator o db db'
unfolding finish_open
finish_open-Finished now status content reason operator o x db db' h =
    elim (Bool-cases (is_void status)) [
      | inl v ↦
          refunded-Finished now status content reason operator o
            (finished_order now status content o) db db' x _ refl v (ground arith)
      | inr k ↦ (ground arith, kept k (ground arith))
    ]

pub finish_order-Finished :
    (now id : ℕ) (status : Status) (content reason operator : Text) (db db' : Db) (x o : ShopOrder)
    → finish_order now id status content reason operator db ≡ (ok x, db')
    → find (by_order id) db.orders ≡ some o
    → (is_open o.status ≡ true)
      × (x ≡ finished_order now status content o)
      × Finished now status content reason operator o db db'
unfolding finish_order finish_body
finish_order-Finished now id status content reason operator db db' x o h f =
    let b = transaction-ok db (finish_body now id status content reason operator db) h in
    let c = finish_open-Finished now status content reason operator o x db db' (ground arith) in
    (ground arith, c.0, c.1)
