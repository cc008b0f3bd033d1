-- ===== src/Points/Outcome.antt =====
-- When a change of a balance goes through, and how it fails.
use ipw_boce.Points.{
  PointOp, apply_points, balance_in, change_points, conflicts, ensure_account, entry, has_key,
  is_covered, key_column, owned_by, post, post_entry, record_entry,
}
use ipw_boce.Points.Accounts.{
  balance_in-ensure_account, ensure_account-UniqueAccounts, find-update_own,
}
use ipw_boce.Points.Apply.{applied, apply_points-Applied, posted}
use ipw_boce.Points.Invariant.{IsConsistent}
use ipw_boce.Prelude.{
  Bool-cases, List, Option-cases, Text, [], arith, count, false, find, inl, inr, is_empty, is_some,
  none, not, refl, some, true, ℕ, ◌&&◌, ◌==◌, ◌↔◌, ◌∷◌, ◌≡◌, ◌≢◌, ◌⊎◌,
}
use ipw_boce.Prelude.Int.{+ℤ_parts, IsAmount, ltb_ℤ, neg64_lem, pos, ◌+ℤ◌, ◌≤ℤ◌, -ℤ_parts}
use ipw_boce.Store.{Db, PointAccount, PointLedger, duplicate, err, insufficient, ok}

-- The user's funds cover the change.
abbrev pub Covers : PointOp → Db → Type 0
Covers op db = pos 0 ≤ℤ balance_in op.user_id db.accounts +ℤ op.delta

-- No row of the ledger has the key, neither as it was given nor as it is stored.
abbrev pub IsFresh : Text → Db → Type 0
IsFresh k db =
    (is_empty k ≡ true)
    ⊎ ((find (has_key k) db.ledger ≡ none) × (conflicts (key_column k) db.ledger ≡ false))

-- What applyPoints asks of an operation.
abbrev pub IsAccepted : PointOp → Db → Type 0
IsAccepted op db = (op.user_id ≢ 0) × (op.delta ≢ pos 0) × IsFresh op.idem_key db × Covers op db

ensure_account-finds :
    (u : ℕ) (rows : List PointAccount)
    → (a : PointAccount) × (find (owned_by u) (ensure_account u rows) ≡ some a)
unfolding ensure_account
ensure_account-finds u rows = elim (Option-cases (find (owned_by u) rows)) [
  | inl missing ↦ (
    record { user_id = u; balance = pos 0; total_earned = pos 0; total_spent = pos 0 },
    ground arith,
  )
  | inr (a, e) ↦ (a, ground arith)
]

count-found :
    (op : PointOp) (a : PointAccount) (rows : List PointAccount)
    → find (owned_by op.user_id) rows ≡ some a
    → is_covered op a ≡ true
    → count (is_covered op) rows ≢ 0
count-found op a [] e c = cc
count-found op a (x ∷ rows) e c = ground (arith, count-found op a rows)

-- The guard of the update asks that the account covers the change.
is_covered_lem :
    (op : PointOp) (a : PointAccount)
    → IsAmount op.delta
    → pos 0 ≤ℤ a.balance
    → owned_by op.user_id a ≡ true
    → (is_covered op a ≡ true) ↔ (pos 0 ≤ℤ a.balance +ℤ op.delta)
unfolding is_covered
is_covered_lem op a d nn own = elim (Bool-cases (ltb_ℤ (pos 0) op.delta)) [
  | inl gain ↦ ground (arith, +ℤ_parts a.balance op.delta)
  | inr loss ↦
      ground
        (arith, neg64_lem op.delta d.0 d.1, +ℤ_parts a.balance op.delta, -ℤ_parts (pos 0) op.delta)
]

find-owned :
    (u : ℕ) (a : PointAccount) (rows : List PointAccount)
    → find (owned_by u) rows ≡ some a
    → owned_by u a ≡ true
find-owned u a [] e = cc
find-owned u a (x ∷ rows) e = ground (arith, find-owned u a rows)

module _ (op : PointOp) (db : Db) (v : IsConsistent db) (d : IsAmount op.delta) where
  abbrev opened : List PointAccount
  opened = ensure_account op.user_id db.accounts

  opened-balance :
      (a : PointAccount)
      → find (owned_by op.user_id) opened ≡ some a
      → a.balance ≡ balance_in op.user_id db.accounts
  unfolding balance_in
  opened-balance a e = ground (arith, balance_in-ensure_account op.user_id op.user_id db.accounts)

  -- The update touches a row exactly when the user's funds cover the change.
  covered_iff :
      (a : PointAccount)
      → find (owned_by op.user_id) opened ≡ some a
      → (is_covered op a ≡ true) ↔ Covers op db
  covered_iff a e = rw (← opened-balance a e) (
      is_covered_lem op a d (rw (opened-balance a e) (v.nonneg op.user_id))
        (find-owned _ a opened e))

  -- An operation that meets the conditions goes through, and writes its row.
  pub apply_points-accepts :
      IsAccepted op db → (l : PointLedger) × (apply_points op db ≡ ok (l, applied op db l))
  unfolding apply_points
  apply_points-accepts h =
      let a = ensure_account-finds op.user_id db.accounts in
      let c = (covered_iff a.0 a.1).1 h.3 in
      let n = count-found op a.0 opened a.1 c in
      let r =
        find-update_own op opened
          (ensure_account-UniqueAccounts op.user_id db.accounts v.accounts_unique) n in
      (entry db.next_id op (post op r.0), ground (arith, r.3))

  pub apply_points-IsAccepted :
      (l : PointLedger) (db' : Db) → apply_points op db ≡ ok (l, db') → IsAccepted op db
  unfolding apply_points
  apply_points-IsAccepted l db' h =
      let r = apply_points-Applied op db h in
      let s =
        find-update_own op opened
          (ensure_account-UniqueAccounts op.user_id db.accounts v.accounts_unique) r.touched in
      (r.user, ground arith, ground arith, (covered_iff s.0 s.1).0 s.2)

-- A change goes through exactly when the user is given, the amount is not 0, its idempotency key is
-- new (as given and as truncated) and the balance covers it, in consistent books and for an amount
-- that is an int64 above the least one.
pub apply_points-ok_iff :
    (op : PointOp) (db : Db)
    → IsConsistent db
    → IsAmount op.delta
    → ((l : PointLedger) × (db' : Db) × (apply_points op db ≡ ok (l, db'))) ↔ IsAccepted op db
apply_points-ok_iff op db v d = (
  λ r. apply_points-IsAccepted op db v d r.0 r.1 r.2,
  λ h. let r = apply_points-accepts op db v d h in (r.0, applied op db r.0, r.1),
)

uncovered :
    (op : PointOp) (db : Db)
    → IsConsistent db
    → IsAmount op.delta
    → ¬ Covers op db
    → post_entry op db ≡ err insufficient
unfolding post_entry
uncovered op db v d short =
    elim (Bool-cases (count (is_covered op) (ensure_account op.user_id db.accounts) == 0)) [
      | inl none_touched ↦ ground arith
      | inr touched ↦
          let own = ensure_account-UniqueAccounts op.user_id db.accounts v.accounts_unique in
          let r = find-update_own op _ own (ground arith) in
          absurd (short ((covered_iff op db v d r.0 r.1).0 r.2))
    ]

-- A change that the balance does not cover, and that has no other fault, is refused as
-- insufficient, and the database stays as it was.
pub change_points-insufficient :
    (op : PointOp) (db : Db)
    → IsConsistent db
    → IsAmount op.delta
    → op.user_id ≢ 0
    → op.delta ≢ pos 0
    → IsFresh op.idem_key db
    → ¬ Covers op db
    → change_points op db ≡ (err insufficient, db)
unfolding change_points
change_points-insufficient op db v d u z f short = ground (arith, uncovered op db v d short)

IsFresh-conflicts : (k : Text) (db : Db) → IsFresh k db → conflicts (key_column k) db.ledger ≡ false
IsFresh-conflicts [] db h = refl
IsFresh-conflicts (c ∷ k) db (inl none_given) = absurd (ground arith)
IsFresh-conflicts (c ∷ k) db (inr new) = new.1

IsFresh-unknown :
    (k : Text) (db : Db)
    → IsFresh k db
    → not (is_empty k) && is_some (find (has_key k) db.ledger) ≡ false
IsFresh-unknown [] db h = refl
IsFresh-unknown (c ∷ k) db (inl none_given) = absurd (ground arith)
IsFresh-unknown (c ∷ k) db (inr new) = rw new.0 refl

post_entry-fresh :
    (op : PointOp) (db : Db)
    → conflicts (key_column op.idem_key) db.ledger ≡ false
    → post_entry op db ≢ err duplicate
unfolding post_entry record_entry
post_entry-fresh op db k h =
    elim (Option-cases (find (owned_by op.user_id) (posted op db.accounts))) [
      | inl missing ↦ ground arith
      | inr found ↦ ground arith
    ]

-- A change with a new key is not refused as a repetition.
pub apply_points-fresh :
    (op : PointOp) (db : Db) → IsFresh op.idem_key db → apply_points op db ≢ err duplicate
unfolding apply_points
apply_points-fresh op db new h =
    let known = IsFresh-unknown op.idem_key db new in
    post_entry-fresh op db (IsFresh-conflicts op.idem_key db new) (ground arith)
