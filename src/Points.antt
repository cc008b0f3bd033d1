-- ===== src/Points.antt =====
-- Account balances and their ledger (points_core.go): one change of a balance inside a
-- transaction, and the queries on both tables.
pub mod Tests
pub mod Accounts
pub mod Apply
pub mod Invariant
pub mod Outcome
pub mod Idempotence
pub mod Checkin
pub mod Probe
pub mod Api
use ipw_boce.Prelude.{
  Bool, List, Option, Text, [], count, false, find, if◌then◌else◌, is_empty, is_some, none, not,
  some, suc, text_eq, truncate_str, update, ℕ, ◌&&◌, ◌==◌, ◌∷◌,
}
use ipw_boce.Prelude.Int.{leb_ℤ, ltb_ℤ, neg64, pos, ℤ, ◌+ℤ◌}
use ipw_boce.Store.{
  Db, Kind, PointAccount, PointLedger, Result, duplicate, err, insufficient, invalid_user,
  not_found, ok, transaction, zero_delta,
}

-- pointOp: one change of a balance.
pub record PointOp : Type 0 where
  pub user_id : ℕ
  pub delta : ℤ
  pub kind : Kind
  pub ref_type : Text
  pub ref_id : Text
  pub operator : Text
  pub idem_key : Text

abbrev pub owned_by : ℕ → PointAccount → Bool
owned_by u a = a.user_id == u

-- A row that is not there reads as the zero value of the struct.
abbrev pub balance_or_zero : Option PointAccount → ℤ
balance_or_zero none = pos 0
balance_or_zero (some a) = a.balance

-- balanceOf, on the table.
unfoldable pub balance_in : ℕ → List PointAccount → ℤ
balance_in u accounts = balance_or_zero (find (owned_by u) accounts)

unfoldable pub balance_of : ℕ → Db → ℤ
balance_of u db = balance_in u db.accounts

abbrev pub has_key : Text → PointLedger → Bool
has_key k l = elim l.idem_key [ none ↦ false | some j ↦ text_eq j k ]

-- ledgerByIdemKey
unfoldable pub ledger_by_idem_key : Text → Db → Option PointLedger
ledger_by_idem_key k db = find (has_key k) db.ledger

-- `INSERT ... ON CONFLICT DO NOTHING` of an empty account.
unfoldable pub ensure_account : ℕ → List PointAccount → List PointAccount
ensure_account u accounts =
    if is_some (find (owned_by u) accounts)
    then accounts
    else record { user_id = u; balance = pos 0; total_earned = pos 0; total_spent = pos 0 }
      ∷ accounts

-- The WHERE clause of the update: a deduction wants a balance that covers it.
unfoldable pub is_covered : PointOp → PointAccount → Bool
is_covered op a =
    if ltb_ℤ (pos 0) op.delta
    then owned_by op.user_id a
    else owned_by op.user_id a && leb_ℤ (neg64 op.delta) a.balance

-- The SET clause of the update.
unfoldable pub post : PointOp → PointAccount → PointAccount
post op a =
    if ltb_ℤ (pos 0) op.delta
    then record a { balance = a.balance +ℤ op.delta; total_earned = a.total_earned +ℤ op.delta }
    else record a { balance = a.balance +ℤ op.delta; total_spent = a.total_spent +ℤ neg64 op.delta }

abbrev pub key_column : Text → Option Text
key_column [] = none
key_column (c ∷ k) = some (truncate_str (c ∷ k) 128)

abbrev pub entry : ℕ → PointOp → PointAccount → PointLedger
entry id op acc = record {
  id = id;
  user_id = op.user_id;
  delta = op.delta;
  balance_after = acc.balance;
  kind = op.kind;
  ref_type = op.ref_type;
  ref_id = truncate_str op.ref_id 64;
  operator = truncate_str op.operator 64;
  idem_key = key_column op.idem_key;
}

-- The unique index on `idem_key`, which lets any number of rows have none.
abbrev pub conflicts : Option Text → List PointLedger → Bool
conflicts none ledger = false
conflicts (some k) ledger = is_some (find (has_key k) ledger)

-- The insertion of the ledger row, after the account has been updated.
unfoldable pub record_entry : PointOp → PointAccount → Db → Result (PointLedger × Db)
record_entry op acc db =
    let row = entry db.next_id op acc in
    if conflicts row.idem_key db.ledger
    then err duplicate
    else ok (row, record db { next_id = suc db.next_id; ledger = row ∷ db.ledger })

-- The update of the account and what follows it.
unfoldable pub post_entry : PointOp → Db → Result (PointLedger × Db)
unfolding record_entry
post_entry op db =
    let accounts = ensure_account op.user_id db.accounts in
    let accounts' = update (is_covered op) (post op) accounts in
    if count (is_covered op) accounts == 0
    then err insufficient
    else elim (find (owned_by op.user_id) accounts') [
      | none ↦ err not_found
      | some acc ↦ record_entry op acc (record db { accounts = accounts' })
    ]

-- applyPoints
unfoldable pub apply_points : PointOp → Db → Result (PointLedger × Db)
unfolding post_entry
apply_points op db =
    if op.user_id == 0
    then err invalid_user
    else if (leb_ℤ op.delta (pos 0) && leb_ℤ (pos 0) op.delta)
    then err zero_delta
    else if (not (is_empty op.idem_key) && is_some (find (has_key op.idem_key) db.ledger))
    then err duplicate
    else post_entry op db

-- What a transaction is left with if applyPoints ends with errDuplicate: the update of the account
-- is done if the unique index refuses the row, and nothing if the key was found at once.
unfoldable pub left_by_duplicate : PointOp → Db → Db
left_by_duplicate op db =
    let accounts = ensure_account op.user_id db.accounts in
    if not (is_empty op.idem_key) && is_some (find (has_key op.idem_key) db.ledger)
    then db
    else record db { accounts = update (is_covered op) (post op) accounts }

-- changePoints
unfoldable pub change_points : PointOp → Db → Result PointLedger × Db
unfolding apply_points
change_points op db = transaction db (apply_points op db)
