-- ===== src/Shop/Catalog/Laws.antt =====
-- Checked products, and the stock after an import.
use ipw_boce.Prelude.{
  List, Option, Text, [], arith, false, if◌then◌else◌, is_empty, length, none, some, subst, suc, ℕ,
  ◌+◌, ◌==◌, ◌∷◌, ◌≡◌,
}
use ipw_boce.Prelude.Int.{ltb_ℤ, negsuc, pos, ◌≤ℤ◌}
use ipw_boce.Shop.Catalog.{
  ProductInput, add_cards, apply_input, assigned, card_stock, check_delivery, check_product,
  delivery_text, given_text, import_cards, parse_delivery, split_cards,
}
use ipw_boce.Store.{Db, Delivery, Product, ok}

check_product-ok :
    (p q : Product)
    → check_product p ≡ ok q
    → (p ≡ q) × (negsuc 0 ≤ℤ p.stock) × (pos 0 ≤ℤ p.per_user_limit)
unfolding check_product
check_product-ok p q h = (ground arith, ground arith, ground arith)

-- The settings of a product that pass the check have a name, a price and a limit that are not
-- negative, and a stock of -1 or more.
apply_input_checks :
    (i : ProductInput) (p q : Product)
    → apply_input i p ≡ ok q
    → (is_empty q.name ≡ false)
      × (pos 0 ≤ℤ q.price)
      × (negsuc 0 ≤ℤ q.stock)
      × (pos 0 ≤ℤ q.per_user_limit)
unfolding apply_input check_delivery
apply_input_checks i p q h =
    let named : is_empty (assigned i p).name ≡ false = ground arith in
    let priced : ltb_ℤ (assigned i p).price (pos 0) ≡ false = ground arith in
    checked named priced (parse_delivery (given_text i.delivery (delivery_text p.delivery)))
      (ground (arith, named, priced))
  where
    checked :
        is_empty (assigned i p).name ≡ false
        → ltb_ℤ (assigned i p).price (pos 0) ≡ false
        → (d : Option Delivery) → check_delivery d (assigned i p) ≡ ok q
        → (is_empty q.name ≡ false)
          × (pos 0 ≤ℤ q.price)
          × (negsuc 0 ≤ℤ q.stock)
          × (pos 0 ≤ℤ q.per_user_limit)
    checked named priced none e = absurd (ground arith)
    checked named priced (some d) e =
        let r = check_product-ok (record (assigned i p) { delivery = d }) q e in
        subst
          (λ q.
            (is_empty q.name ≡ false)
            × (pos 0 ≤ℤ q.price)
            × (negsuc 0 ≤ℤ q.stock)
            × (pos 0 ≤ℤ q.per_user_limit))
          r.0 (named, ground arith, r.1, r.2)

add_cards-card_stock :
    (p r : ℕ) (ts : List Text) (db : Db)
    → card_stock r (add_cards p ts db)
      ≡ (if r == p then card_stock r db + length ts else card_stock r db)
unfolding add_cards card_stock
add_cards-card_stock p r [] db = ground arith
add_cards-card_stock p r (t ∷ ts) db =
    let more : Db = record db {
      next_id = suc db.next_id;
      cards = record { id = db.next_id; product_id = p; order_id = 0; content = t } ∷ db.cards;
    } in
    let r' = add_cards-card_stock p r ts more in ground (arith, r')

-- An import raises the stock of its product by the number of cards that it reports, and leaves the
-- stock of every other product as it was.
pub import_cards-card_stock :
    (p r : ℕ) (raw : Text) (db db' : Db) (n : ℕ)
    → import_cards p raw db ≡ ok (n, db')
    → card_stock r db' ≡ (if r == p then card_stock r db + n else card_stock r db)
unfolding import_cards
import_cards-card_stock p r raw db db' n h =
    ground (arith, add_cards-card_stock p r (split_cards raw) db)
