-- ===== src/Shop/Redeem.antt =====
-- Redeem codes (shop_core.go): normalizeCode, maskCode, redeemCode.
pub mod Laws
pub mod Capacity
use ipw_boce.Points.{PointOp, apply_points}
use ipw_boce.Prelude.{
  Bool, Option, Text, [], codes, count, decimal, drop, false, find, if◌then◌else◌, is_empty,
  is_some, leb, length, ltb, none, not, some, suc, take, text_eq, to_upper, trim_space, update, ℕ,
  ◌&&◌, ◌++◌, ◌-◌, ◌==◌, ◌||◌, ◌∷◌,
}
use ipw_boce.Prelude.Int.{ltb_ℤ, pos, ◌+ℤ◌}
use ipw_boce.Store.{
  Db, Kind, PointLedger, PointsConfig, RedeemCode, RedeemCodeUse, Result, code_exhausted,
  code_expired, code_used, empty_code, err, invalid_code, ok, points_closed, transaction,
}

unfoldable pub normalize_code : Text → Text
normalize_code s = to_upper (trim_space s)

-- maskCode: the first and the last four bytes of a longer code.
unfoldable pub mask_code : Text → Text
mask_code c = if leb (length c) 8 then c else take 4 c ++ codes "****" ++ drop (length c - 4) c

abbrev pub has_code : Text → RedeemCode → Bool
has_code code rc = text_eq rc.code code

abbrev pub used_by : ℕ → ℕ → RedeemCodeUse → Bool
used_by id u x = (x.code_id == id) && (x.user_id == u)

-- `id = ? AND used_count < max_uses`
abbrev pub is_left : ℕ → RedeemCode → Bool
is_left id rc = (rc.id == id) && ltb_ℤ rc.used_count rc.max_uses

abbrev pub use_up : RedeemCode → RedeemCode
use_up rc = record rc { used_count = rc.used_count +ℤ pos 1 }

abbrev pub is_past : Option ℕ → ℕ → Bool
is_past none now = false
is_past (some t) now = ltb t now

unfoldable pub redeem_op : ℕ → RedeemCode → PointOp
redeem_op u rc = record {
  user_id = u;
  delta = rc.points;
  kind = Kind.redeem_code;
  ref_type = codes "redeem_code";
  ref_id = decimal rc.id;
  operator = [];
  idem_key = [];
}

abbrev use_row : ℕ → RedeemCode → RedeemCodeUse
use_row u rc = record { code_id = rc.id; user_id = u; points = rc.points }

-- The database after the use has been counted and recorded.
abbrev pub counted : ℕ → RedeemCode → Db → Db
counted u rc db = record db {
  next_id = suc db.next_id;
  codes = update (is_left rc.id) use_up db.codes;
  uses = use_row u rc ∷ db.uses;
}

abbrev pub with_code :
    RedeemCode → Result (PointLedger × Db) → Result ((RedeemCode × PointLedger) × Db)
with_code rc (ok (l, db)) = ok ((rc, l), db)
with_code rc (err e) = err e

-- What follows once the code has been found. The unique index on code and user guards the insertion
-- once more.
unfoldable pub redeem_found : ℕ → ℕ → RedeemCode → Db → Result ((RedeemCode × PointLedger) × Db)
redeem_found now u rc db =
    if rc.id == 0 || not rc.enabled
    then err invalid_code
    else if is_past rc.expires_at now
    then err code_expired
    else if ltb 0 (count (used_by rc.id u) db.uses)
    then err code_used
    else if count (is_left rc.id) db.codes == 0
    then err code_exhausted
    else if is_some (find (used_by rc.id u) db.uses)
    then err code_used
    else with_code rc (apply_points (redeem_op u rc) (counted u rc db))

unfoldable pub redeem_body : ℕ → ℕ → Text → Db → Result ((RedeemCode × PointLedger) × Db)
redeem_body now u code db = elim (find (has_code code) db.codes) [
  | none ↦ err invalid_code
  | some rc ↦ redeem_found now u rc db
]

-- redeemCode
unfoldable pub redeem_code :
    PointsConfig → ℕ → ℕ → Text → Db → Result (RedeemCode × PointLedger) × Db
redeem_code cfg now u raw db =
    if not cfg.enabled
    then (err points_closed, db)
    else if is_empty (normalize_code raw)
    then (err empty_code, db)
    else transaction db (redeem_body now u (normalize_code raw) db)
