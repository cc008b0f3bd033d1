-- ===== src/Shop/Orders/Stock.antt =====
-- The goods of an order: the cards it is given and the stock it takes.
use ipw_boce.Prelude.{
  Bool, Bool-cases, List, Option, Text, [], ap, arith, count, find, inl, inr, length, length-append,
  refl, some, update, ℕ, ◌++◌, ◌+◌, ◌==◌, ◌∙◌, ◌∷◌, ◌≡◌, ◌≢◌, ◌≤◌,
}
use ipw_boce.Prelude.Int.{+ℤ_parts, eq_of_parts, pos, ◌+ℤ◌, ◌-ℤ◌, ◌≤ℤ◌, -ℤ_parts}
use ipw_boce.Shop.Orders.{
  OrderInput, add_sold, assign, by_product, candidates, clamp_quantity, in_stock, is_free,
  new_order, pick_cards, place_order, reserve, take_stock,
}
use ipw_boce.Shop.Orders.Laws.{Placed, place_order-Placed}
use ipw_boce.Store.{Db, Delivery, PointsConfig, Product, ProductCard, ShopOrder, ok}

abbrev pub held_by : ℕ → ProductCard → Bool
held_by order c = c.order_id == order

-- An assigned card counts for its order.
count-assign :
    (order id : ℕ) (cards : List ProductCard)
    → order ≢ 0
    → count (held_by order) (update (is_free id) (assign order) cards)
      ≡ count (held_by order) cards + count (is_free id) cards
count-assign order id [] nz = refl
count-assign order id (c ∷ cs) nz = ground (arith, count-assign order id cs nz)

-- The loop counts its cards rightly and does not pick too many.
pick_cards-count :
    (order q : ℕ) (cs cards : List ProductCard) (picked : List Text)
    → order ≢ 0
    → length picked ≤ q
    → let (ts, cards') = pick_cards order q cs cards picked in
      (length ts ≤ q)
      × (count (held_by order) cards' + length picked ≡ count (held_by order) cards + length ts)
unfolding pick_cards
pick_cards-count order q [] cards picked nz le = (le, refl)
pick_cards-count order q (c ∷ cs) cards picked nz le = elim (Bool-cases (length picked == q)) [
  | inl full ↦ (ground arith, ground arith)
  | inr more ↦ elim (Bool-cases (count (is_free c.id) cards == 1)) [
    | inl taken ↦
        let l = length-append picked (c.content ∷ []) in
        let r =
          pick_cards-count order q cs (update (is_free c.id) (assign order) cards)
            (picked ++ (c.content ∷ [])) nz (ground (arith, more, l)) in
        rw (more, taken) (r.0, ground (arith, r.1, l, count-assign order c.id cards nz))
    | inr passed ↦ rw (more, passed) (pick_cards-count order q cs cards picked nz le)
  ]
]

reserve-cards :
    (now order : ℕ) (p : Product) (q : ℕ) (db : Db) {g : Text × Option ℕ} {d : Db}
    → reserve now order p q db ≡ ok (g, d)
    → p.delivery ≡ Delivery.cdk
    → order ≢ 0
    → count (held_by order) d.cards ≡ count (held_by order) db.cards + q
unfolding reserve
reserve-cards now order p q db h e nz =
    let r = pick_cards-count order q (candidates p.id q db.cards) db.cards [] nz (ground arith) in
    ground (arith, r)

-- A successful order of a product with card delivery holds as many cards as it has items, if no
-- card held its number before and the number is not 0.
pub place_order_cards :
    (cfg : PointsConfig) (now : ℕ) (num : Text) (u : ℕ) (i : OrderInput) (db db' : Db)
    (o : ShopOrder) (p : Product)
    → place_order cfg now num u i db ≡ (ok o, db')
    → find (by_product i.product_id) db.products ≡ some p
    → p.delivery ≡ Delivery.cdk
    → db.next_id ≢ 0
    → count (held_by db.next_id) db.cards ≡ 0
    → count (held_by o.id) db'.cards ≡ o.quantity
unfolding new_order
place_order_cards cfg now num u i db db' o p h f e nz none_held =
    let r = (place_order-Placed cfg now num u i db db' o h).1 in
    let same : r.p ≡ p = ground (arith, r.found, f) in
    let c =
      reserve-cards now db.next_id r.p (clamp_quantity i.quantity) _ r.reserved (rw same e) nz in
    ground (arith, c, r.filled, r.result, r.paid.result, none_held)

count-in_stock :
    (id q : ℕ) (rows : List Product) → count (in_stock id q) rows ≤ count (by_product id) rows
count-in_stock id q [] = ground arith
count-in_stock id q (x ∷ rows) = ground (arith, count-in_stock id q rows)

-- With one row for the product, the update that takes from the stock takes from this row.
find-take_stock :
    (id q : ℕ) (rows : List Product) (p : Product)
    → find (by_product id) rows ≡ some p
    → count (by_product id) rows ≡ 1
    → count (in_stock id q) rows ≢ 0
    → (p' : Product) × (find (by_product id) (update (in_stock id q) (take_stock q) rows) ≡ some p')
      × (p'.stock +ℤ pos q ≡ p.stock)
      × (pos 0 ≤ℤ p'.stock)
find-take_stock id q [] p f one some_left = absurd (ground arith)
find-take_stock id q (x ∷ rows) p f one some_left = elim (Bool-cases (x.id == id)) [
  | inl own ↦
      let l = count-in_stock id q rows in
      let parts = -ℤ_parts x.stock (pos q) in
      (
        take_stock q x,
        ground (arith, l),
        ground (
          arith,
          l,
          parts,
          +ℤ_parts (x.stock -ℤ pos q) (pos q),
          eq_of_parts (x.stock -ℤ pos q +ℤ pos q) p.stock,
        ),
        ground (arith, l, parts),
      )
  | inr other ↦
      let r = find-take_stock id q rows p (ground arith) (ground arith) (ground arith) in
      (r.0, ground (arith, r.1), r.2, r.3)
]

find-add_sold :
    (id q : ℕ) (rows : List Product) (p : Product)
    → find (by_product id) rows ≡ some p
    → find (by_product id) (update (by_product id) (add_sold q) rows) ≡ some (add_sold q p)
find-add_sold id q [] p f = absurd (ground arith)
find-add_sold id q (x ∷ rows) p f = elim (Bool-cases (x.id == id)) [
  | inl own ↦ ground arith
  | inr other ↦ let r = find-add_sold id q rows p (ground arith) in ground (arith, r)
]

find-product_id :
    (id : ℕ) (rows : List Product) {p : Product} → find (by_product id) rows ≡ some p → p.id ≡ id
find-product_id id [] f = absurd (ground arith)
find-product_id id (x ∷ rows) {p} f = elim (Bool-cases (x.id == id)) [
  | inl own ↦ ground arith
  | inr other ↦ find-product_id id rows {p = p} (ground arith)
]

reserve-stock :
    (now order : ℕ) (p : Product) (q : ℕ) (db : Db) {g : Text × Option ℕ} {d : Db}
    → reserve now order p q db ≡ ok (g, d)
    → p.delivery ≢ Delivery.cdk
    → pos 0 ≤ℤ p.stock
    → (count (in_stock p.id q) db.products ≢ 0)
      × (d.products ≡ update (in_stock p.id q) (take_stock q) db.products)
unfolding reserve
reserve-stock now order p q db h e le = (ground arith, ground arith)

Placed-stock :
    {now : ℕ} {num : Text} {u q pid : ℕ} {db db' : Db} {o : ShopOrder}
    (r : Placed now num u q pid db o db') (p : Product)
    → find (by_product pid) db.products ≡ some p
    → count (by_product pid) db.products ≡ 1
    → p.delivery ≢ Delivery.cdk
    → pos 0 ≤ℤ p.stock
    → (p' : Product) × (find (by_product pid) db'.products ≡ some p')
      × (p'.stock +ℤ pos q ≡ p.stock)
      × (pos 0 ≤ℤ p'.stock)
Placed-stock {now} {num} {u} {q} {pid} {db} {db'} {o} r p f one e le =
    let same : r.p ≡ p = ground (arith, r.found, f) in
    let id : r.p.id ≡ pid = find-product_id pid db.products {p = r.p} r.found in
    let s = reserve-stock now db.next_id r.p q _ r.reserved (rw same e) (rw same le) in
    let t = find-take_stock pid q db.products p f one (rw id at s.0) in
    let there : find (by_product pid) r.stocked.products ≡ some t.0 = rw (s.1, id) t.1 in
    let sold = find-add_sold pid q r.stocked.products t.0 there in
    let done : db'.products ≡ update (by_product pid) (add_sold q) r.stocked.products =
      ground (arith, r.result, r.paid.result, id) in
    (add_sold q t.0, ap (find (by_product pid)) done ∙ sold, t.2, t.3)

-- A successful order of a product with a limited stock, which is no card product and whose number
-- one row has, takes its items from the stock, and the stock does not fall below 0.
pub place_order_stock :
    (cfg : PointsConfig) (now : ℕ) (num : Text) (u : ℕ) (i : OrderInput) (db db' : Db)
    (o : ShopOrder) (p : Product)
    → place_order cfg now num u i db ≡ (ok o, db')
    → find (by_product i.product_id) db.products ≡ some p
    → count (by_product i.product_id) db.products ≡ 1
    → p.delivery ≢ Delivery.cdk
    → pos 0 ≤ℤ p.stock
    → (p' : Product) × (find (by_product i.product_id) db'.products ≡ some p')
      × (p'.stock +ℤ pos o.quantity ≡ p.stock)
      × (pos 0 ≤ℤ p'.stock)
unfolding new_order
place_order_stock cfg now num u i db db' o p h f one e le =
    let r = (place_order-Placed cfg now num u i db db' o h).1 in
    let s = Placed-stock r p f one e le in
    let q : o.quantity ≡ clamp_quantity i.quantity = ap (λ o. o.quantity) r.filled in
    (s.0, s.1, ap (λ q. s.0.stock +ℤ pos q) q ∙ s.2, s.3)
