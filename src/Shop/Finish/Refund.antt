-- ===== src/Shop/Finish/Refund.antt =====
-- An order ends once, and a failed or canceled order gives the points back.
use ipw_boce.Points.{PointOp, balance_of, left_by_duplicate}
use ipw_boce.Points.Invariant.{Applied-IsConsistent, Applied-balance, IsConsistent, same_books}
use ipw_boce.Points.Outcome.{IsFresh, apply_points-fresh}
use ipw_boce.Prelude.{
  List, Option-cases, Text, [], ap, arith, false, find, if◌then◌else◌, inl, inr, refl, some, true,
  update, ℕ, ◌==◌, ◌∙◌, ◌∷◌, ◌≡◌,
}
use ipw_boce.Prelude.Int.{IsAmount, ◌+ℤ◌}
use ipw_boce.Shop.Finish.{
  finish_body, finish_order, finish_row, is_open, is_open_row, refund_key, refund_op, unsold,
}
use ipw_boce.Shop.Finish.Laws.{Finished, finish_order-Finished, kept, paid_back, was_paid_back}
use ipw_boce.Shop.Orders.{by_order, is_void}
use ipw_boce.Store.{Db, ShopOrder, Status, err, ok, status_final}

left_by_duplicate_lem : (op : PointOp) (db : Db) → (left_by_duplicate op db).orders ≡ db.orders
unfolding left_by_duplicate
left_by_duplicate_lem op db = ground arith

pub Finished-orders :
    (now : ℕ) (status : Status) (content reason operator : Text) (o : ShopOrder) (db db' : Db)
    → Finished now status content reason operator o db db'
    → db'.orders
      ≡ update (is_open_row o.id) (finish_row now status content reason operator) db.orders
Finished-orders now status content reason operator o db db' (kept v r) = ap (λ d. d.orders) r
Finished-orders now status content reason operator o db db' (paid_back l d v e r) =
    ap (λ d. d.orders) r.result ∙ ap (λ d. d.orders) e
Finished-orders now status content reason operator o db db' (was_paid_back v h r) =
    ap (λ d. d.orders) r ∙ left_by_duplicate_lem _ _

-- The update keeps an order's numbers, its amount and its owner, and sets the status.
finish_row_lem :
    (now : ℕ) (status : Status) (content reason operator : Text) (o : ShopOrder)
    → let o' = finish_row now status content reason operator o in
      (o'.id ≡ o.id) × (o'.status ≡ status) × (o'.order_no ≡ o.order_no)
unfolding finish_row
finish_row_lem now Status.pending content reason operator o = (refl, refl, refl)
finish_row_lem now Status.processing content reason operator o = (refl, refl, refl)
finish_row_lem now Status.delivered content reason operator o = (refl, refl, refl)
finish_row_lem now Status.failed content reason operator o = (refl, refl, refl)
finish_row_lem now Status.canceled content reason operator o = (refl, refl, refl)

find-closed :
    (now id : ℕ) (status : Status) (content reason operator : Text) (rows : List ShopOrder)
    (o : ShopOrder)
    → find (by_order id) rows ≡ some o
    → is_open o.status ≡ true
    → find
        (by_order id)
        (update (is_open_row o.id) (finish_row now status content reason operator) rows)
      ≡ some (finish_row now status content reason operator o)
find-closed now id status content reason operator [] o f v = absurd (ground arith)
find-closed now id status content reason operator (x ∷ rows) o f v =
    let k = finish_row_lem now status content reason operator x in
    ground (arith, k, find-closed now id status content reason operator rows o)

-- An order that has ended is not ended again: once a call has set a status other than pending and
-- processing, every later call for the order is refused and changes nothing.
pub finish_order_once :
    (now now' id : ℕ) (status status' : Status)
    (content content' reason reason' operator operator' : Text) (db db' : Db) (x : ShopOrder)
    → finish_order now id status content reason operator db ≡ (ok x, db')
    → is_open status ≡ false
    → finish_order now' id status' content' reason' operator' db' ≡ (err status_final, db')
unfolding finish_order finish_body
finish_order_once now now' id status status' content content' reason reason' operator operator' db
      db' x h final =
    elim (Option-cases (find (by_order id) db.orders)) [
      | inl missing ↦ absurd (ground arith)
      | inr (o, f) ↦
          let r = finish_order-Finished now id status content reason operator db db' x o h f in
          let e = Finished-orders now status content reason operator o db db' r.2 in
          let g = find-closed now id status content reason operator db.orders o f r.0 in
          let k = finish_row_lem now status content reason operator o in
          ground (arith, e, g, k, final)
    ]

module _ (now : ℕ) (status : Status) (content reason operator : Text) (o : ShopOrder) (db : Db)
    {db' : Db} (v : IsConsistent db) (void_status : is_void status ≡ true)
    (amount : IsAmount o.total_points) (new : IsFresh (refund_key o.order_no) db) where
  Finished-pays :
      Finished now status content reason operator o db db'
      → IsConsistent db'
        × ((w : ℕ)
            → balance_of w db'
              ≡ (if w == o.user_id then balance_of w db +ℤ o.total_points else balance_of w db))
  unfolding balance_of refund_op
  Finished-pays (kept k r) = absurd (ground arith)
  Finished-pays (paid_back l d k e r) =
      let mid = same_books db d v (ap (λ d. d.accounts) e) (ap (λ d. d.ledger) e) in
      (Applied-IsConsistent _ _ r mid amount, λ w. rw (Applied-balance _ _ r mid w, e) refl)
  Finished-pays (was_paid_back k h r) = absurd (
      apply_points-fresh (refund_op o operator) (unsold now status content reason operator o db) new
        h)

-- An order that is closed as failed or canceled gives its points back to the buyer and to nobody
-- else, and keeps the books consistent, if the ledger has no refund of the order yet and the
-- points are an int64 above the least one.
pub finish_order_refunds :
    (now id : ℕ) (status : Status) (content reason operator : Text) (db db' : Db) (x o : ShopOrder)
    → IsConsistent db
    → is_void status ≡ true
    → finish_order now id status content reason operator db ≡ (ok x, db')
    → find (by_order id) db.orders ≡ some o
    → IsAmount o.total_points
    → IsFresh (refund_key o.order_no) db
    → IsConsistent db'
      × ((w : ℕ)
          → balance_of w db'
            ≡ (if w == o.user_id then balance_of w db +ℤ o.total_points else balance_of w db))
finish_order_refunds now id status content reason operator db db' x o v s h f d new =
    let r = finish_order-Finished now id status content reason operator db db' x o h f in
    Finished-pays now status content reason operator o db v s d new r.2
