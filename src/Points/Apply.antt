-- ===== src/Points/Apply.antt =====
-- What a successful applyPoints has done to the database.
use ipw_boce.Points.{
  PointOp, apply_points, balance_in, conflicts, ensure_account, entry, is_covered, owned_by, post,
  post_entry,
}
use ipw_boce.Points.Accounts.{
  UniqueAccounts, balance_in-ensure_account, ensure_account-UniqueAccounts, find-update_other,
  find-update_own, post-balance, post-nonneg,
}
use ipw_boce.Prelude.{
  Bool-cases, List, Option-cases, arith, count, false, find, if◌then◌else◌, inl, inr, some, suc,
  update, ℕ, ◌==◌, ◌∷◌, ◌≡◌, ◌≢◌,
}
use ipw_boce.Prelude.Int.{IsAmount, pos, ◌+ℤ◌, ◌≤ℤ◌}
use ipw_boce.Store.{Db, PointAccount, PointLedger, ok}

-- The account table after a change.
abbrev pub posted : PointOp → List PointAccount → List PointAccount
posted op rows = update (is_covered op) (post op) (ensure_account op.user_id rows)

-- The database after a change that wrote the ledger row `l`.
abbrev pub applied : PointOp → Db → PointLedger → Db
applied op db l = record db {
  next_id = suc db.next_id;
  accounts = posted op db.accounts;
  ledger = l ∷ db.ledger;
}

-- What holds when a change has succeeded.
pub record Applied (op : PointOp) (db : Db) (l : PointLedger) (db' : Db) : Type 0 where
  pub acc : PointAccount
  pub user : op.user_id ≢ 0
  pub amount : op.delta ≢ pos 0
  pub found : find (owned_by op.user_id) (posted op db.accounts) ≡ some acc
  pub touched : count (is_covered op) (ensure_account op.user_id db.accounts) ≢ 0
  pub row : l ≡ entry db.next_id op acc
  pub fresh : conflicts l.idem_key db.ledger ≡ false
  pub result : db' ≡ applied op db l

post_entry-Applied :
    (op : PointOp) (db : Db) {l : PointLedger} {db' : Db}
    → op.user_id ≢ 0
    → op.delta ≢ pos 0
    → post_entry op db ≡ ok (l, db')
    → Applied op db l db'
unfolding post_entry
post_entry-Applied op db u z h =
    elim (Option-cases (find (owned_by op.user_id) (posted op db.accounts))) [
      | inl missing ↦ absurd (ground arith)
      | inr (acc, e) ↦ record {
        acc = acc;
        user = u;
        amount = z;
        found = e;
        touched = ground arith;
        row = ground arith;
        fresh = ground arith;
        result = ground arith;
      }
    ]

pub apply_points-Applied :
    (op : PointOp) (db : Db) {l : PointLedger} {db' : Db}
    → apply_points op db ≡ ok (l, db')
    → Applied op db l db'
unfolding apply_points
apply_points-Applied op db h = post_entry-Applied op db (ground arith) (ground arith) (ground arith)

-- The user's balance moves by the amount; no other balance moves.
pub balance_in-posted :
    (op : PointOp) (rows : List PointAccount) (u : ℕ)
    → UniqueAccounts rows
    → count (is_covered op) (ensure_account op.user_id rows) ≢ 0
    → balance_in u (posted op rows)
      ≡ (if u == op.user_id then balance_in u rows +ℤ op.delta else balance_in u rows)
unfolding balance_in
balance_in-posted op rows u v h = elim (Bool-cases (u == op.user_id)) [
  | inl own ↦
      let r =
        find-update_own op (ensure_account op.user_id rows)
          (ensure_account-UniqueAccounts op.user_id rows v) h in
      ground (arith, r.1, r.3, post-balance op r.0, balance_in-ensure_account op.user_id u rows)
  | inr other ↦ ground (
    arith,
    find-update_other op u (ensure_account op.user_id rows),
    balance_in-ensure_account op.user_id u rows,
  )
]

-- No balance is negative afterwards if none was before.
pub balance_in-posted_nonneg :
    (op : PointOp) (rows : List PointAccount)
    → IsAmount op.delta
    → UniqueAccounts rows
    → count (is_covered op) (ensure_account op.user_id rows) ≢ 0
    → ((u : ℕ) → pos 0 ≤ℤ balance_in u rows)
    → (u : ℕ) → pos 0 ≤ℤ balance_in u (posted op rows)
unfolding balance_in
balance_in-posted_nonneg op rows d v h nn u = elim (Bool-cases (u == op.user_id)) [
  | inl own ↦
      let r =
        find-update_own op (ensure_account op.user_id rows)
          (ensure_account-UniqueAccounts op.user_id rows v) h in
      let before : pos 0 ≤ℤ r.0.balance =
        ground (arith, nn op.user_id, balance_in-ensure_account op.user_id op.user_id rows, r.1) in
      ground (arith, r.3, post-nonneg op r.0 d.0 d.1 before r.2)
  | inr other ↦ ground (
    arith,
    nn u,
    find-update_other op u (ensure_account op.user_id rows),
    balance_in-ensure_account op.user_id u rows,
  )
]
