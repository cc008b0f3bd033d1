-- ===== src/Points/Api/Laws.antt =====
-- Grants and deductions are idempotent by their key.
use ipw_boce.Points.{balance_of, change_points, ledger_by_idem_key}
use ipw_boce.Points.Api.{
  GrantInput, Response, amount_of, answer, api_op, change_for, changed, max_points, points_change,
  prefixed, resolve_user,
}
use ipw_boce.Points.Idempotence.{change_points-Applied, change_points_once, key_limit}
use ipw_boce.Prelude.{
  Bool, Bool-cases, Option-cases, Text, [], ap, arith, false, if◌then◌else◌, inl, inr, is_empty,
  length, refl, some, trim_space, true, ℕ, ◌++◌, ◌||◌, ◌∙◌, ◌∷◌, ◌≡◌, ◌≤◌,
}
use ipw_boce.Prelude.Int.{leb_ℤ, ltb_ℤ, neg64, pos, ℤ}
use ipw_boce.Store.{
  Db, Error, Kind, PointLedger, Result, Result-cases, User, duplicate, err, kind_text, ok,
}

-- The user that a request names depends on the table of users alone.
resolve_user-users :
    (id : ℕ) (name email : Text) (db db' : Db)
    → db'.users ≡ db.users
    → resolve_user id name email db' ≡ resolve_user id name email db
unfolding resolve_user
resolve_user-users id name email db db' e = rw e refl

answer-ok :
    (key : Text) (r : Result PointLedger × Db) (l : PointLedger) (b : ℤ)
    → answer key r ≡ changed false l b
    → (r ≡ (ok l, r.1)) × (b ≡ l.balance_after)
answer-ok key (ok l', db) l b h = ground arith
answer-ok key (err Error.duplicate, db) l b h = elim (Option-cases (ledger_by_idem_key key db)) [
  | inl e ↦ (absurd (ground arith), absurd (ground arith))
  | inr (l', e) ↦ (absurd (ground arith), absurd (ground arith))
]
answer-ok key (err Error.insufficient, db) l b h = (absurd (ground arith), absurd (ground arith))
answer-ok key (err e, db) l b h = (absurd (ground arith), absurd (ground arith))

answer_found :
    (key : Text) (l : PointLedger) (db : Db)
    → ledger_by_idem_key key db ≡ some l
    → answer key (err duplicate, db) ≡ changed true l (balance_of l.user_id db)
answer_found key l db e = ground arith

module _ (kind : Kind) (delta : ℤ) (operator key : Text) (x : User) (db db' : Db) (l : PointLedger)
    (b : ℤ) (h : change_for kind delta operator key x db ≡ (changed false l b, db')) where
  change_for-ok :
      (change_points (api_op kind delta x.id operator key) db ≡ (ok l, db')) × (b ≡ l.balance_after)
  unfolding change_for
  change_for-ok =
      let a =
        answer-ok key (change_points (api_op kind delta x.id operator key) db) l b
          (ap (λ p. p.0) h) in
      (
        a.0 ∙ ap (λ (d : Db). let p : Result PointLedger × Db = (ok l, d) in p) (ap (λ p. p.1) h),
        a.1,
      )

  change_for_replayed :
      is_empty key ≡ false
      → length key ≤ key_limit
      → change_for kind delta operator key x db' ≡ (changed true l (balance_of l.user_id db'), db')
  unfolding change_for api_op
  change_for_replayed ne short =
      let op = api_op kind delta x.id operator key in
      let r = change_points-Applied op db db' l change_for-ok.0 in
      let o = change_points_once op op db db' l change_for-ok.0 ne short refl r.user r.amount in
      rw o.1 (ap (λ a. let p : Response × Db = (a, db') in p) (answer_found key l db' o.0))

append-nonempty : (s : Text) (c : ℕ) (t : Text) → is_empty (s ++ (c ∷ t)) ≡ false
append-nonempty [] c t = refl
append-nonempty (x ∷ s) c t = refl

prefixed-nonempty :
    (kind : Kind) (header : Text)
    → is_empty (trim_space header) ≡ false
    → is_empty (prefixed kind header) ≡ false
prefixed-nonempty kind header ne = rw ne (append-nonempty (kind_text kind) b':' (trim_space header))

-- A grant or deduction that went through is answered, when the request comes again with the same
-- header, by the row that it wrote and the present balance, marked as replayed, and the database
-- stays as it is. This needs a header that is not blank and a key of at most 128 bytes.
pub points_change_replayed :
    (deducts : Bool) (kind : Kind) (body : GrantInput) (header operator : Text) (db db' : Db)
    (l : PointLedger) (b : ℤ)
    → points_change deducts kind body header operator db ≡ (changed false l b, db')
    → is_empty (trim_space header) ≡ false
    → length (prefixed kind header) ≤ key_limit
    → points_change deducts kind body header operator db'
      ≡ (changed true l (balance_of l.user_id db'), db')
unfolding points_change
points_change_replayed deducts kind body header operator db db' l b h ne short =
    elim (Bool-cases (leb_ℤ (amount_of body) (pos 0) || ltb_ℤ max_points (amount_of body))) [
      | inl bad ↦ absurd (ground arith)
      | inr good ↦ elim (Result-cases (resolve_user body.user_id body.username body.email db)) [
        | inr (e, missing) ↦ absurd (ground arith)
        | inl (x, found) ↦
            let delta = if deducts then neg64 (amount_of body) else amount_of body in
            let c : change_for kind delta operator (prefixed kind header) x db
                ≡ (changed false l b, db') =
              rw (good, found) at h in
            let r =
              change_points-Applied _ db db' l
                (change_for-ok kind delta operator (prefixed kind header) x db db' l b c).0 in
            let same =
              resolve_user-users body.user_id body.username body.email db db'
                (ap (λ d. d.users) r.result) in
            rw (good, same, found)
              (change_for_replayed kind delta operator (prefixed kind header) x db db' l b c
                (prefixed-nonempty kind header ne) short)
      ]
    ]
