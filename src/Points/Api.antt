-- ===== src/Points/Api.antt =====
-- The handlers of the open interface that grant and deduct points, and the manual adjustment
-- (points_routes.go), with the lookup of the user that they name.
pub mod Laws
use ipw_boce.Points.{PointOp, balance_of, change_points, ledger_by_idem_key}
use ipw_boce.Prelude.{
  Bool, Option, Text, [], codes, false, find, if◌then◌else◌, is_empty, ltb, none, not, some,
  text_eq, to_lower, trim_space, true, ℕ, ◌&&◌, ◌++◌, ◌==◌, ◌||◌, ◌∷◌,
}
use ipw_boce.Prelude.Int.{leb_ℤ, ltb_ℤ, neg64, negsuc, pos, ℤ}
use ipw_boce.Store.{
  Db, Error, Kind, PointLedger, Result, User, bad_amount, duplicate, err, insufficient, kind_text,
  no_identity, no_user, ok,
}

pub record GrantInput : Type 0 where
  pub user_id : ℕ
  pub username : Text
  pub email : Text
  pub delta : ℤ
  pub points : ℤ

abbrev or_fail {ℓ} : {A : Type ℓ} → Option A → Error → Result A
or_fail none e = err e
or_fail (some a) e = ok a

-- resolveUser: by number, else by name, else by address.
unfoldable pub resolve_user : ℕ → Text → Text → Db → Result User
resolve_user id username email db =
    let name = trim_space username in
    let address = to_lower (trim_space email) in
    if ltb 0 id
    then or_fail (find (λ x. (x.id == id) && not (x.id == 0)) db.users) no_user
    else if not (is_empty name)
    then or_fail (find (λ x. text_eq x.username name && not (x.id == 0)) db.users) no_user
    else if not (is_empty (trim_space email))
    then or_fail (find (λ x. text_eq x.email address && not (x.id == 0)) db.users) no_user
    else err no_identity

-- What the handler answers.
pub data Response : Type 0 where
  bad_request : Response
  no_such_user : Response
  changed : (replayed : Bool) → PointLedger → ℤ → Response
  conflict : Response
  payment_required : Response
  internal : Error → Response

abbrev amount_of : GrantInput → ℤ
amount_of b = if (leb_ℤ b.points (pos 0) && leb_ℤ (pos 0) b.points) then b.delta else b.points

-- The header's key, with the kind as a prefix, so that grants and deductions do not share keys.
abbrev pub prefixed : Kind → Text → Text
prefixed kind header =
    let key = trim_space header in if is_empty key then [] else kind_text kind ++ (b':' ∷ key)

abbrev pub max_points : ℤ
max_points = pos 1_000_000_000

abbrev replay : Text → Db → Response
replay key db = elim (ledger_by_idem_key key db) [
  | none ↦ conflict
  | some l ↦ changed true l (balance_of l.user_id db)
]

abbrev answer : Text → Result PointLedger × Db → Response
answer key (ok l, db) = changed false l l.balance_after
answer key (err Error.duplicate, db) = replay key db
answer key (err Error.insufficient, db) = payment_required
answer key (err e, db) = internal e

unfoldable pub api_op : Kind → ℤ → ℕ → Text → Text → PointOp
api_op kind delta u operator key = record {
  user_id = u;
  delta = delta;
  kind = kind;
  ref_type = codes "api";
  ref_id = [];
  operator = operator;
  idem_key = key;
}

-- The change for a user that was found.
unfoldable pub change_for : Kind → ℤ → Text → Text → User → Db → Response × Db
change_for kind delta operator key x db =
    let r = change_points (api_op kind delta x.id operator key) db in (answer key r, r.1)

-- pointsChange(sign, kind); `sign * amount` is the amount or its opposite.
unfoldable pub points_change : Bool → Kind → GrantInput → Text → Text → Db → Response × Db
points_change deducts kind body header operator db =
    let amount = amount_of body in
    if leb_ℤ amount (pos 0) || ltb_ℤ max_points amount
    then (bad_request, db)
    else elim (resolve_user body.user_id body.username body.email db) [
      | err e ↦ (no_such_user, db)
      | ok x ↦
          change_for kind (if deducts then neg64 amount else amount) operator (prefixed kind header)
            x db
    ]

abbrev pub is_zero : ℤ → Bool
is_zero d = leb_ℤ d (pos 0) && leb_ℤ (pos 0) d

unfoldable pub admin_op : ℤ → ℕ → Text → PointOp
admin_op delta u operator = record {
  user_id = u;
  delta = delta;
  kind = Kind.admin;
  ref_type = [];
  ref_id = [];
  operator = operator;
  idem_key = [];
}

-- The handler of /points/admin/adjust.
unfoldable pub adjust : GrantInput → Text → Db → Result PointLedger × Db
adjust body operator db = elim (resolve_user body.user_id body.username body.email db) [
  | err e ↦ (err e, db)
  | ok x ↦
      if is_zero body.delta || ltb_ℤ max_points body.delta || ltb_ℤ body.delta (negsuc 999_999_999)
      then (err bad_amount, db)
      else change_points (admin_op body.delta x.id operator) db
]
