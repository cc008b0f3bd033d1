-- ===== src/Shop/Catalog/Tests.antt =====
-- Runs of the catalog on concrete data.
use ipw_boce.Points.Tests.{start}
use ipw_boce.Prelude.{[], codes, none, refl, some, trim_space, truncate_str, ◌∷◌, ◌≡◌}
use ipw_boce.Prelude.Int.{pos}
use ipw_boce.Shop.Catalog.{
  ProductInput, add_cards, apply_input, assigned, check_delivery, check_product, clean_lines,
  import_cards, parse_delivery, split_cards, split_lines, unix_lines,
}
use ipw_boce.Shop.Tests.{mug}
use ipw_boce.Store.{Db, ok}

abbrev settings : ProductInput
settings = record {
  name = some (codes " Mug ");
  price = some (pos 10);
  delivery = some (codes "manual");
  stock = none;
  per_user_limit = none;
  enabled = none;
  delivery_url = none;
}

settings_run : apply_input settings mug ≡ ok (record mug { name = codes "Mug" })
unfolding apply_input assigned trim_space check_delivery check_product parse_delivery
settings_run = refl

abbrev stocked_db : Db
stocked_db = record start {
  next_id = 3;
  cards =
      record { id = 2; product_id = 30; order_id = 0; content = codes "B" }
      ∷ record { id = 1; product_id = 30; order_id = 0; content = codes "A" }
      ∷ [];
}

import_runs : import_cards 30 (codes "A\n\n B") start ≡ ok (2, stocked_db)
unfolding import_cards split_cards clean_lines split_lines unix_lines trim_space add_cards
    truncate_str
import_runs = refl
