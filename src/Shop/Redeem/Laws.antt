-- ===== src/Shop/Redeem/Laws.antt =====
-- What a successful redemption has done, and that a user redeems a code once.
use ipw_boce.Points.{apply_points, balance_of}
use ipw_boce.Points.Apply.{Applied, apply_points-Applied}
use ipw_boce.Points.Invariant.{Applied-IsConsistent, Applied-balance, IsConsistent, same_books}
use ipw_boce.Prelude.{
  Bool-cases, List, Option-cases, Text, [], arith, count, find, if◌then◌else◌, inl, inr, is_empty,
  refl, some, text_eq, update, ℕ, ◌==◌, ◌∷◌, ◌≡◌, ◌≢◌,
}
use ipw_boce.Prelude.Int.{IsAmount, ◌+ℤ◌}
use ipw_boce.Shop.Redeem.{
  counted, has_code, is_left, normalize_code, redeem_body, redeem_code, redeem_found, redeem_op,
  use_up, used_by, with_code,
}
use ipw_boce.Store.{
  Db, Error, PointLedger, PointsConfig, RedeemCode, Result, err, ok, transaction-err,
  transaction-ok,
}

-- What holds when a redemption of the code with the text `code` has succeeded.
pub record Redeemed (u : ℕ) (code : Text) (db : Db) (rc : RedeemCode) (l : PointLedger) (db' : Db)
    : Type 0 where
  pub found : find (has_code code) db.codes ≡ some rc
  pub left : count (is_left rc.id) db.codes ≢ 0
  pub unused : count (used_by rc.id u) db.uses ≡ 0
  pub paid : Applied (redeem_op u rc) (counted u rc db) l db'

with_code-ok :
    (rc : RedeemCode) (r : Result (PointLedger × Db)) {rc' : RedeemCode} {l : PointLedger}
    {db' : Db}
    → with_code rc r ≡ ok ((rc', l), db')
    → (rc' ≡ rc) × (r ≡ ok (l, db'))
with_code-ok rc (ok (l', db'')) h = ground arith
with_code-ok rc (err e) h = (absurd (ground arith), absurd (ground arith))

redeem_found-ok :
    (now u : ℕ) (rc : RedeemCode) (db : Db) {rc' : RedeemCode} {l : PointLedger} {db' : Db}
    → redeem_found now u rc db ≡ ok ((rc', l), db')
    → (count (is_left rc.id) db.codes ≢ 0)
      × (count (used_by rc.id u) db.uses ≡ 0)
      × (with_code rc (apply_points (redeem_op u rc) (counted u rc db)) ≡ ok ((rc', l), db'))
unfolding redeem_found
redeem_found-ok now u rc db h = (ground arith, ground arith, ground arith)

redeem_body-Redeemed :
    (now u : ℕ) (code : Text) (db : Db) {rc : RedeemCode} {l : PointLedger} {db' : Db}
    → redeem_body now u code db ≡ ok ((rc, l), db')
    → Redeemed u code db rc l db'
unfolding redeem_body
redeem_body-Redeemed now u code db {rc} {l} {db'} h =
    elim (Option-cases (find (has_code code) db.codes)) [
      | inl missing ↦ absurd (ground arith)
      | inr (x, e) ↦
          let f = redeem_found-ok now u x db {rc' = rc} {l = l} {db' = db'} (ground arith) in
          let p = with_code-ok x _ f.2 in
          rw p.0
            (record { found = e; left = f.0; unused = f.1; paid = apply_points-Applied _ _ p.1 })
    ]

pub redeem_code-Redeemed :
    (cfg : PointsConfig) (now u : ℕ) (raw : Text) (db db' : Db) (rc : RedeemCode) (l : PointLedger)
    → redeem_code cfg now u raw db ≡ (ok (rc, l), db')
    → Redeemed u (normalize_code raw) db rc l db'
unfolding redeem_code
redeem_code-Redeemed cfg now u raw db db' rc l h = elim (Bool-cases cfg.enabled) [
  | inr off ↦ absurd (ground arith)
  | inl on ↦ elim (Bool-cases (is_empty (normalize_code raw))) [
    | inl none_given ↦ absurd (ground arith)
    | inr given ↦
        redeem_body-Redeemed now u (normalize_code raw) db
          (transaction-ok db (redeem_body now u (normalize_code raw) db) (rw (on, given) at h))
  ]
]

-- The update of the counter changes no code and no number.
find-use_up :
    (code : Text) (id : ℕ) (rows : List RedeemCode) (rc : RedeemCode)
    → find (has_code code) rows ≡ some rc
    → (rc' : RedeemCode) × (find (has_code code) (update (is_left id) use_up rows) ≡ some rc')
      × (rc'.id ≡ rc.id)
find-use_up code id [] rc e = absurd (ground arith)
find-use_up code id (x ∷ rows) rc e = elim (Bool-cases (text_eq x.code code)) [
  | inl hit ↦ ((if is_left id x then use_up x else x), ground arith, ground arith)
  | inr miss ↦ let r = find-use_up code id rows rc (ground arith) in (r.0, ground (arith, r.1), r.2)
]

-- A user who has redeemed a code does not redeem it again, at whatever time and by whatever
-- spelling that normalizeCode takes to the same code.
pub redeem_code_once :
    (cfg cfg' : PointsConfig) (now now' u : ℕ) (raw raw' : Text) (db db' : Db) (rc : RedeemCode)
    (l : PointLedger)
    → redeem_code cfg now u raw db ≡ (ok (rc, l), db')
    → normalize_code raw' ≡ normalize_code raw
    → (x : RedeemCode × PointLedger) (db'' : Db) → redeem_code cfg' now' u raw' db' ≢ (ok x, db'')
redeem_code_once cfg cfg' now now' u raw raw' db db' rc l h same (rc', l') db'' h' =
    let r = redeem_code-Redeemed cfg now u raw db db' rc l h in
    let r' = redeem_code-Redeemed cfg' now' u raw' db' db'' rc' l' h' in
    let s = find-use_up (normalize_code raw) rc.id db.codes rc r.found in
    let f : find (has_code (normalize_code raw')) db'.codes ≡ some s.0 =
      rw (r.paid.result, same) s.1 in
    let seen : count (used_by rc.id u) db'.uses ≢ 0 = ground (arith, r.paid.result) in
    ground (arith, r'.unused, r'.found, f, s.2, seen)

-- A redemption keeps the books consistent and pays the code's points to the user and to nobody
-- else, if they are an int64 above the least one.
pub redeem_code_pays :
    (cfg : PointsConfig) (now u : ℕ) (raw : Text) (db db' : Db) (rc : RedeemCode) (l : PointLedger)
    → IsConsistent db
    → redeem_code cfg now u raw db ≡ (ok (rc, l), db')
    → IsAmount rc.points
    → IsConsistent db'
      × ((w : ℕ)
          → balance_of w db' ≡ (if w == u then balance_of w db +ℤ rc.points else balance_of w db))
unfolding balance_of redeem_op
redeem_code_pays cfg now u raw db db' rc l v h d =
    let r = redeem_code-Redeemed cfg now u raw db db' rc l h in
    let mid = same_books db (counted u rc db) v refl refl in
    (Applied-IsConsistent _ _ r.paid mid d, λ w. Applied-balance _ _ r.paid mid w)

-- A redemption that is refused leaves the database as it was.
pub redeem_code-refused :
    (cfg : PointsConfig) (now u : ℕ) (raw : Text) (db : Db) (e : Error)
    → (redeem_code cfg now u raw db).0 ≡ err e
    → (redeem_code cfg now u raw db).1 ≡ db
unfolding redeem_code
redeem_code-refused cfg now u raw db e h =
    ground (arith, transaction-err db (redeem_body now u (normalize_code raw) db) {e = e})
