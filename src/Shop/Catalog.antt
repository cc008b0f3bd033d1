-- ===== src/Shop/Catalog.antt =====
-- The goods on offer: the check of a product's settings and the import of cards
-- (points_routes.go), and the number of items that can be had (shop_core.go).
mod Tests
pub mod Laws
use ipw_boce.Prelude.{
  Bool, List, Option, Text, [], codes, count, false, if◌then◌else◌, is_empty, length, ltb, none,
  not, some, suc, text_eq, trim_space, true, truncate_str, ℕ, ◌&&◌, ◌++◌, ◌==◌, ◌||◌, ◌∷◌,
}
use ipw_boce.Prelude.Int.{ltb_ℤ, negsuc, pos, ℤ}
use ipw_boce.Shop.Finish.Laws.{kept}
use ipw_boce.Shop.Orders.{is_stock}
use ipw_boce.Store.{
  Db, Delivery, Product, Result, bad_delivery, bad_delivery_url, bad_limit, bad_name, bad_price,
  bad_stock, err, ok, too_many_cards,
}

-- productInput; a field that the request leaves out is none.
pub record ProductInput : Type 0 where
  pub name : Option Text
  pub price : Option ℤ
  pub delivery : Option Text
  pub stock : Option ℤ
  pub per_user_limit : Option ℤ
  pub enabled : Option Bool
  pub delivery_url : Option Text

abbrev given {ℓ} : {A : Type ℓ} → Option A → A → A
given none old = old
given (some new) old = new

abbrev given_text : Option Text → Text → Text
given_text none old = old
given_text (some new) old = trim_space new

abbrev delivery_text : Delivery → Text
delivery_text Delivery.cdk = codes "cdk"
delivery_text Delivery.webhook = codes "webhook"
delivery_text Delivery.manual = codes "manual"

unfoldable pub parse_delivery : Text → Option Delivery
parse_delivery t =
    if text_eq t (codes "cdk")
    then some Delivery.cdk
    else if text_eq t (codes "webhook")
    then some Delivery.webhook
    else if text_eq t (codes "manual")
    then some Delivery.manual
    else none

-- strings.HasPrefix
unfoldable pub starts_with : Text → Text → Bool
starts_with s [] = true
starts_with [] (c ∷ p) = false
starts_with (a ∷ s) (c ∷ p) = let rest = starts_with s p in a == c && rest

abbrev is_url : Text → Bool
is_url u = starts_with u (codes "http://") || starts_with u (codes "https://")

abbrev is_webhook : Delivery → Bool
is_webhook Delivery.webhook = true
is_webhook d = false

-- The tests after the delivery is known, on the product as it would be saved.
unfoldable pub check_product : Product → Result Product
check_product p =
    if is_webhook p.delivery && not (is_url p.delivery_url)
    then err bad_delivery_url
    else if ltb_ℤ p.stock (negsuc 0)
    then err bad_stock
    else if ltb_ℤ p.per_user_limit (pos 0)
    then err bad_limit
    else ok p

-- The fields that are assigned before the tests, apart from the delivery.
unfoldable pub assigned : ProductInput → Product → Product
assigned i p = record p {
  name = given_text i.name p.name;
  price = given i.price p.price;
  stock = given i.stock p.stock;
  per_user_limit = given i.per_user_limit p.per_user_limit;
  enabled = given i.enabled p.enabled;
  delivery_url = given_text i.delivery_url p.delivery_url;
}

unfoldable pub check_delivery : Option Delivery → Product → Result Product
check_delivery none p = err bad_delivery
check_delivery (some d) p = check_product (record p { delivery = d })

-- apply
unfoldable pub apply_input : ProductInput → Product → Result Product
apply_input i p =
    let q = assigned i p in
    if is_empty q.name
    then err bad_name
    else if ltb_ℤ q.price (pos 0)
    then err bad_price
    else check_delivery (parse_delivery (given_text i.delivery (delivery_text p.delivery))) q

-- strings.ReplaceAll(raw, "\r\n", "\n")
unfoldable pub unix_lines : Text → Text
unix_lines [] = []
unix_lines (c ∷ []) = c ∷ []
unix_lines (c ∷ d ∷ s) =
    let joined = unix_lines s in
    let kept = unix_lines (d ∷ s) in if c == 13 && d == 10 then 10 ∷ joined else c ∷ kept

-- strings.Split(raw, "\n"), where `part` is the line so far.
unfoldable pub split_lines : Text → Text → List Text
split_lines [] part = part ∷ []
split_lines (c ∷ s) part =
    let ended = split_lines s [] in
    let going = split_lines s (part ++ (c ∷ [])) in if c == 10 then part ∷ ended else going

unfoldable pub clean_lines : List Text → List Text
clean_lines [] = []
clean_lines (line ∷ rest) =
    let others = clean_lines rest in
    let t = trim_space line in if is_empty t then others else truncate_str t 4096 ∷ others

-- splitCards
unfoldable pub split_cards : Text → List Text
split_cards raw = clean_lines (split_lines (unix_lines raw) [])

-- The insertion of the cards, one row after the other.
unfoldable pub add_cards : ℕ → List Text → Db → Db
add_cards p [] db = db
add_cards p (t ∷ ts) db = add_cards p ts (record db {
  next_id = suc db.next_id;
  cards = record { id = db.next_id; product_id = p; order_id = 0; content = t } ∷ db.cards;
})

-- importCards
unfoldable pub import_cards : ℕ → Text → Db → Result (ℕ × Db)
import_cards p raw db =
    let cards = split_cards raw in
    if length cards == 0
    then ok (0, db)
    else if ltb 5000 (length cards)
    then err too_many_cards
    else ok (length cards, add_cards p cards db)

-- cardStock, for one product.
unfoldable pub card_stock : ℕ → Db → ℕ
card_stock p db = count (is_stock p) db.cards

-- What fillAvailability shows for a product.
unfoldable pub available : Db → Product → ℤ
available db p = elim p.delivery [ Delivery.cdk ↦ pos (card_stock p.id db) | _ ↦ p.stock ]
