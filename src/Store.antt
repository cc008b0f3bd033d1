-- ===== src/Store.antt =====
-- The database of the program (db.go) as one record of tables, the errors that its transactions
-- return, and the transaction wrapper. Rows are listed newest first. Primary keys come from one
-- sequence, `next_id`: the code relies only on a new key being fresh and not 0. A database call
-- fails only where a constraint or a missing row makes it fail.
mod Points
mod Shop
mod Nodes
unfoldable pub use Points.*
pub use Shop.*
pub use Nodes.*
use ipw_boce.Prelude.{Bool, List, arith, codes, false, inl, inr, refl, true, ℕ, ◌*◌, ◌≡◌, ◌⊎◌}

pub record Db : Type 0 where
  pub next_id : ℕ
  pub users : List User
  pub accounts : List PointAccount
  pub ledger : List PointLedger
  pub checkins : List PointCheckin
  pub codes : List RedeemCode
  pub uses : List RedeemCodeUse
  pub products : List Product
  pub cards : List ProductCard
  pub orders : List ShopOrder
  pub donations : List NodeDonation
  pub node_defs : List NodeDef

pub data Error : Type 0 where
  invalid_user zero_delta insufficient duplicate : Error
  checkin_closed checked_in : Error
  points_closed empty_code invalid_code code_expired code_used code_exhausted : Error
  too_many_items no_product over_limit out_of_stock : Error
  no_order status_final status_changed : Error
  node_taken : Error
  bad_name bad_price bad_delivery bad_delivery_url bad_stock bad_limit too_many_cards : Error
  bad_place bad_net_type bad_stack bad_channel bad_url : Error
  no_identity no_user bad_amount : Error
  not_found unique_violation : Error
  empty_node_id reserved_node_id bad_pool no_url no_node_def node_exists : Error

pub data Result {ℓ} (A : Type ℓ) : Type ℓ where
  ok : A → Result A
  err : Error → Result A

infixl 5 ◌>>=◌
abbrev pub ◌>>=◌ {ℓ κ} : {A : Type ℓ} {B : Type κ} → Result A → (A → Result B) → Result B
err reason >>= k = err reason
ok done >>= k = k done

-- `db.Transaction`: an error rolls the database back.
abbrev pub transaction {ℓ} : {A : Type ℓ} → Db → Result (A × Db) → Result A × Db
transaction db (ok (a, db')) = (ok a, db')
transaction db (err e) = (err e, db)

-- A chain that succeeds has succeeded in its first step and in the rest.
pub >>=-eq-ok {ℓ κ} :
    {A : Type ℓ} {B : Type κ} (first : Result A) (rest : A → Result B) {b : B}
    → (first >>= rest) ≡ ok b
    → (a : A) × (first ≡ ok a) × (rest a ≡ ok b)
>>=-eq-ok (err reason) rest h = cc
>>=-eq-ok (ok done) rest h = (done, refl, h)

-- A transaction that returns a value has committed it.
pub transaction-ok {ℓ} :
    {A : Type ℓ} (db : Db) (m : Result (A × Db)) {a : A} {db' : Db}
    → transaction db m ≡ (ok a, db')
    → m ≡ ok (a, db')
transaction-ok db (ok (a, db')) h = ground arith
transaction-ok db (err e) h = absurd (ground arith)

-- A transaction that returns an error has left the database as it was.
pub transaction-err {ℓ} :
    {A : Type ℓ} (db : Db) (m : Result (A × Db)) {e : Error}
    → (transaction db m).0 ≡ err e
    → (transaction db m).1 ≡ db
transaction-err db (ok (a, db')) h = absurd (ground arith)
transaction-err db (err e) h = refl

pub Result-cases {ℓ} :
    {A : Type ℓ} (r : Result A) → ((a : A) × (r ≡ ok a)) ⊎ ((e : Error) × (r ≡ err e))
Result-cases (ok a) = inl (a, refl)
Result-cases (err e) = inr (e, refl)
