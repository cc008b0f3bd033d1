-- ===== src/Points/Invariant.antt =====
-- The invariant of the points tables, which every change of a balance keeps.
use ipw_boce.Points.{PointOp, apply_points, balance_in, conflicts}
use ipw_boce.Points.Accounts.{UniqueAccounts, ensure_account-UniqueAccounts, update-UniqueAccounts}
use ipw_boce.Points.Apply.{
  Applied, apply_points-Applied, balance_in-posted, balance_in-posted_nonneg,
}
use ipw_boce.Prelude.{List, [], arith, false, if◌then◌else◌, ℕ, ◌==◌, ◌∷◌, ◌≡◌}
use ipw_boce.Prelude.Int.{IsAmount, pos, ℤ, ◌+ℤ◌, ◌≤ℤ◌}
use ipw_boce.Store.{Db, PointLedger, ok}

-- The sum of the ledger's amounts for a user.
abbrev pub sum_deltas : ℕ → List PointLedger → ℤ
sum_deltas u [] = pos 0
sum_deltas u (l ∷ ls) = if u == l.user_id then sum_deltas u ls +ℤ l.delta else sum_deltas u ls

-- Each row's `balance_after` is the sum of the user's rows up to it.
abbrev pub IsSnapshot : List PointLedger → Type 0
IsSnapshot [] = Unit {0}
IsSnapshot (l ∷ ls) = (l.balance_after ≡ sum_deltas l.user_id (l ∷ ls)) × IsSnapshot ls

-- No two rows have the same idempotency key.
abbrev pub UniqueKeys : List PointLedger → Type 0
UniqueKeys [] = Unit {0}
UniqueKeys (l ∷ ls) = (conflicts l.idem_key ls ≡ false) × UniqueKeys ls

pub record IsConsistent (db : Db) : Type 0 where
  pub accounts_unique : UniqueAccounts db.accounts
  pub balanced : (u : ℕ) → balance_in u db.accounts ≡ sum_deltas u db.ledger
  pub nonneg : (u : ℕ) → pos 0 ≤ℤ balance_in u db.accounts
  pub snapshots : IsSnapshot db.ledger
  pub keys_unique : UniqueKeys db.ledger

module _ (op : PointOp) (db : Db) {l : PointLedger} {db' : Db} (r : Applied op db l db')
    (v : IsConsistent db) where
  pub Applied-balance :
      (u : ℕ)
      → balance_in u db'.accounts ≡ (
          if u == op.user_id
          then balance_in u db.accounts +ℤ op.delta
          else balance_in u db.accounts)
  Applied-balance u = rw r.result (balance_in-posted op db.accounts u v.accounts_unique r.touched)

  pub Applied-IsConsistent : IsAmount op.delta → IsConsistent db'
  unfolding balance_in
  Applied-IsConsistent d = rw r.result (record {
    accounts_unique =
        update-UniqueAccounts op _
          (ensure_account-UniqueAccounts op.user_id db.accounts v.accounts_unique);
    balanced = λ u. ground (
      arith,
      balance_in-posted op db.accounts u v.accounts_unique r.touched,
      v.balanced u,
      r.row,
    );
    nonneg = balance_in-posted_nonneg op db.accounts d v.accounts_unique r.touched v.nonneg;
    snapshots = (
      ground (
        arith,
        balance_in-posted op db.accounts op.user_id v.accounts_unique r.touched,
        v.balanced op.user_id,
        r.row,
        r.found,
      ),
      v.snapshots,
    );
    keys_unique = (r.fresh, v.keys_unique);
  })

-- Every change keeps the books consistent: one account for a user, every balance the sum of the
-- user's ledger and not negative, every `balance_after` the balance of its moment, and no
-- idempotency key twice, provided the amount is an int64 above the least one.
pub apply_points-IsConsistent :
    (op : PointOp) (db : Db) {l : PointLedger} {db' : Db}
    → IsConsistent db
    → IsAmount op.delta
    → apply_points op db ≡ ok (l, db')
    → IsConsistent db'
apply_points-IsConsistent op db v d h =
    Applied-IsConsistent op db (apply_points-Applied op db h) v d

-- The invariant speaks of two tables only.
pub same_books :
    (db db' : Db)
    → IsConsistent db
    → db'.accounts ≡ db.accounts
    → db'.ledger ≡ db.ledger
    → IsConsistent db'
same_books db db' v ea el = record {
  accounts_unique = rw ea v.accounts_unique;
  balanced = rw (ea, el) v.balanced;
  nonneg = rw ea v.nonneg;
  snapshots = rw el v.snapshots;
  keys_unique = rw el v.keys_unique;
}
