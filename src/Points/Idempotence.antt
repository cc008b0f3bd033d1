-- ===== src/Points/Idempotence.antt =====
-- Idempotency keys: what a second change with the same key does.
use ipw_boce.Points.{
  PointOp, apply_points, change_points, conflicts, has_key, key_column, ledger_by_idem_key,
}
use ipw_boce.Points.Apply.{Applied, apply_points-Applied}
use ipw_boce.Prelude.{
  Bool-cases, List, Text, [], ap, arith, false, find, inl, inr, is_empty, length, none, refl, some,
  text_eq, text_eq_iff, text_eq_self, truncate_str, truncate_str_lem, ℕ, ◌<◌, ◌∙◌, ◌∷◌, ◌≡◌, ◌≢◌,
  ◌≤◌,
}
use ipw_boce.Prelude.Int.{pos}
use ipw_boce.Store.{Db, PointLedger, duplicate, err, ok, transaction-ok}

abbrev pub key_limit : ℕ
key_limit = 128

pub key_column_short :
    (k : Text) → is_empty k ≡ false → length k ≤ key_limit → key_column k ≡ some k
key_column_short [] e h = cc
key_column_short (c ∷ k) e h = ap some ((truncate_str_lem (c ∷ k) 128).1 h)

key_taken :
    (op : PointOp) (db : Db) (l : PointLedger)
    → find (has_key op.idem_key) db.ledger ≡ some l
    → is_empty op.idem_key ≡ false
    → op.user_id ≢ 0
    → op.delta ≢ pos 0
    → change_points op db ≡ (err duplicate, db)
unfolding change_points
key_taken op db l e ne u z = ground arith

key_found :
    (k : Text) (l : PointLedger) (ls : List PointLedger)
    → l.idem_key ≡ some k
    → find (has_key k) (l ∷ ls) ≡ some l
key_found k l ls e = ground (arith, text_eq_self k)

-- A key that the ledger has is refused.
pub apply_points-known :
    (op : PointOp) (db : Db) (l : PointLedger)
    → find (has_key op.idem_key) db.ledger ≡ some l
    → is_empty op.idem_key ≡ false
    → op.user_id ≢ 0
    → op.delta ≢ pos 0
    → apply_points op db ≡ err duplicate
unfolding apply_points
apply_points-known op db l e ne u z = ground arith

-- A change finds its key in the ledger afterwards.
pub Applied-written :
    (op : PointOp) (db db' : Db) (l : PointLedger)
    → Applied op db l db'
    → is_empty op.idem_key ≡ false
    → length op.idem_key ≤ key_limit
    → find (has_key op.idem_key) db'.ledger ≡ some l
Applied-written op db db' l r ne short =
    let k : l.idem_key ≡ some op.idem_key =
      ap (λ l. l.idem_key) r.row ∙ key_column_short op.idem_key ne short in
    ap (λ d. find (has_key op.idem_key) d.ledger) r.result ∙ key_found op.idem_key l db.ledger k

none-found :
    (k : Text) (ls : List PointLedger) → conflicts (some k) ls ≡ false → find (has_key k) ls ≡ none
none-found k ls h = ground arith

-- A change that went through did not find its key.
pub Applied-new :
    (op : PointOp) (db db' : Db) (l : PointLedger)
    → Applied op db l db'
    → is_empty op.idem_key ≡ false
    → length op.idem_key ≤ key_limit
    → find (has_key op.idem_key) db.ledger ≡ none
Applied-new op db db' l r ne short =
    let k : l.idem_key ≡ some op.idem_key =
      ap (λ l. l.idem_key) r.row ∙ key_column_short op.idem_key ne short in
    none-found op.idem_key db.ledger (rw k at r.fresh)

module _ (op : PointOp) (db db' : Db) (l : PointLedger)
    (h : change_points op db ≡ (ok l, db')) where
  pub change_points-Applied : Applied op db l db'
  unfolding change_points
  change_points-Applied = apply_points-Applied op db (transaction-ok db (apply_points op db) h)

  stored_key :
      is_empty op.idem_key ≡ false → length op.idem_key ≤ key_limit → l.idem_key ≡ some op.idem_key
  stored_key ne short =
      ground (arith, change_points-Applied.row, key_column_short op.idem_key ne short)

  written :
      is_empty op.idem_key ≡ false
      → length op.idem_key ≤ key_limit
      → find (has_key op.idem_key) db'.ledger ≡ some l
  written ne short =
      rw (change_points-Applied.result) (key_found op.idem_key l db.ledger (stored_key ne short))

-- After a change with a key that is not empty and has at most 128 bytes, the key finds the row that
-- it wrote, and every further change with that key, for a user other than 0 and an amount other than
-- 0, is refused as a duplicate and leaves the database as it is.
pub change_points_once :
    (op op' : PointOp) (db db' : Db) (l : PointLedger)
    → change_points op db ≡ (ok l, db')
    → is_empty op.idem_key ≡ false
    → length op.idem_key ≤ key_limit
    → op'.idem_key ≡ op.idem_key
    → op'.user_id ≢ 0
    → op'.delta ≢ pos 0
    → (ledger_by_idem_key op.idem_key db' ≡ some l) × (change_points op' db' ≡ (err duplicate, db'))
unfolding ledger_by_idem_key
change_points_once op op' db db' l h ne short same u z =
    let w = written op db db' l h ne short in (w, key_taken op' db' l (rw same w) (rw same ne) u z)

missed :
    (k : Text) (l : PointLedger) (ls : List PointLedger)
    → l.idem_key ≡ some (truncate_str k key_limit)
    → key_limit < length k
    → find (has_key k) ls ≡ none
    → find (has_key k) (l ∷ ls) ≡ none
missed k l ls e long none_yet = elim (Bool-cases (text_eq (truncate_str k key_limit) k)) [
  | inl same ↦ absurd (
      omega (
        arith,
        (truncate_str_lem k key_limit).0,
        ap length ((text_eq_iff (truncate_str k key_limit) k).0 same),
      ))
  | inr other ↦ ground arith
]

key_column_long : (k : Text) → key_limit < length k → key_column k ≡ some (truncate_str k key_limit)
key_column_long [] h = absurd (omega arith)
key_column_long (c ∷ k) h = refl

module _ (op : PointOp) (db db' : Db) (l : PointLedger)
    (h : change_points op db ≡ (ok l, db')) where
  stored_long :
      key_limit < length op.idem_key → l.idem_key ≡ some (truncate_str op.idem_key key_limit)
  stored_long long =
      ground (arith, (change_points-Applied op db db' l h).row, key_column_long op.idem_key long)

  repeated :
      (l' : PointLedger) (db'' : Db)
      → change_points op db' ≡ (ok l', db'')
      → l.idem_key ≡ some (truncate_str op.idem_key key_limit)
      → ⊥
  repeated l' db'' h' e =
      let r = change_points-Applied op db db' l h in
      let r' = change_points-Applied op db' db'' l' h' in
      let f = r'.fresh in
      ground (
        arith,
        r.row,
        r'.row,
        r.result,
        key_found (truncate_str op.idem_key key_limit) l db.ledger e,
      )

-- A longer key is stored by its first 128 bytes only. So a change that went through with such a key
-- cannot be found again by the key: a repetition of the change, on the same database, is not
-- answered by the row that it wrote (provided that no older row had the key).
pub long_key_lost :
    (op : PointOp) (db db' : Db) (l : PointLedger)
    → change_points op db ≡ (ok l, db')
    → key_limit < length op.idem_key
    → ledger_by_idem_key op.idem_key db ≡ none
    → (ledger_by_idem_key op.idem_key db' ≡ none)
      × ((l' : PointLedger) (db'' : Db) → change_points op db' ≢ (ok l', db''))
unfolding ledger_by_idem_key
long_key_lost op db db' l h long unseen = (
  rw (change_points-Applied op db db' l h).result
      (missed op.idem_key l db.ledger (stored_long op db db' l h long) long unseen),
  λ l' db'' h'. repeated op db db' l h l' db'' h' (stored_long op db db' l h long),
)
