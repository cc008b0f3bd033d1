-- ===== src/Donate/Settle/Laws.antt =====
-- The daily reward is paid once for a donation and a day.
use ipw_boce.Calendar.{day_ns}
use ipw_boce.Donate.{by_donation, donate_rates}
use ipw_boce.Donate.Settle.{
  Presence, day_key, day_op, earns, reward_row, settle_body, settle_donation_day, settle_loop,
  settle_one,
}
use ipw_boce.Points.{apply_points, has_key}
use ipw_boce.Points.Apply.{Applied, apply_points-Applied}
use ipw_boce.Points.Idempotence.{Applied-written, apply_points-known, key_limit}
use ipw_boce.Points.Invariant.{Applied-IsConsistent, IsConsistent, same_books}
use ipw_boce.Prelude.{
  Bool-cases, List, [], ap, arith, find, inl, inr, length, not, refl, some, subst, update, ℕ, ◌*◌,
  ◌-◌, ◌||◌, ◌∷◌, ◌≡◌, ◌≢◌, ◌≤◌,
}
use ipw_boce.Prelude.Int.{IsAmount, pos}
use ipw_boce.Store.{
  >>=-eq-ok, Db, Error, NetType, NodeDonation, PointLedger, PointsConfig, Result-cases, duplicate,
  err, ok, transaction-err, transaction-ok,
}

pub record Settled (cfg : PointsConfig) (day : ℕ) (d : NodeDonation) (db : Db) (l : PointLedger)
    (db' : Db) : Type 0 where
  pub paid_db : Db
  pub paid : Applied (day_op cfg day d) db l paid_db
  pub result : db' ≡ record paid_db {
    donations =
        update
          (by_donation d.id)
          (reward_row (donate_rates cfg d.net_type).1 day)
          paid_db.donations;
  }

pub settle_one-Settled :
    (cfg : PointsConfig) (day : ℕ) (d : NodeDonation) (db db' : Db) (l : PointLedger)
    → settle_one cfg day d db ≡ (ok l, db')
    → Settled cfg day d db l db'
unfolding settle_one settle_body
settle_one-Settled cfg day d db db' l h =
    let t = transaction-ok db (settle_body cfg day d db) h in
    let p = >>=-eq-ok (apply_points (day_op cfg day d) db) _ t in
    let e : p.0.0 ≡ l = ground (arith, p.2) in
    record {
      paid_db = p.0.1;
      paid = subst (λ l. Applied (day_op cfg day d) db l p.0.1) e (apply_points-Applied _ _ p.1);
      result = ground (arith, p.2);
    }

pub settle_one-refused :
    (cfg : PointsConfig) (day : ℕ) (d : NodeDonation) (db : Db) (e : Error)
    → (settle_one cfg day d db).0 ≡ err e
    → (settle_one cfg day d db).1 ≡ db
unfolding settle_one
settle_one-refused cfg day d db e h = transaction-err db (settle_body cfg day d db) {e = e} h

pub settle_one-IsConsistent :
    (cfg : PointsConfig) (day : ℕ) (d : NodeDonation) (db : Db)
    → IsConsistent db
    → IsAmount (donate_rates cfg d.net_type).1
    → IsConsistent (settle_one cfg day d db).1
unfolding day_op
settle_one-IsConsistent cfg day d db v a = elim (Result-cases (settle_one cfg day d db).0) [
  | inr (e, refused) ↦ rw (settle_one-refused cfg day d db e refused) v
  | inl (l, done) ↦
      let r =
        settle_one-Settled cfg day d db (settle_one cfg day d db).1 l (ground (arith, done)) in
      let w = Applied-IsConsistent _ _ r.paid v a in
      same_books r.paid_db _ w (ap (λ d. d.accounts) r.result) (ap (λ d. d.ledger) r.result)
]

pub rate-IsAmount :
    (cfg : PointsConfig) (t : NetType)
    → IsAmount cfg.donate_daily_idc
    → IsAmount cfg.donate_daily_home
    → IsAmount (donate_rates cfg t).1
unfolding donate_rates
rate-IsAmount cfg NetType.idc a b = a
rate-IsAmount cfg NetType.home a b = b

pub settle_loop-IsConsistent :
    (cfg : PointsConfig) (w : Presence) (day : ℕ) (ds : List NodeDonation) (db : Db)
    → IsAmount cfg.donate_daily_idc
    → IsAmount cfg.donate_daily_home
    → IsConsistent db
    → IsConsistent (settle_loop cfg w day ds db).1
unfolding settle_loop
settle_loop-IsConsistent cfg w day [] db a b v = v
settle_loop-IsConsistent cfg w day (d ∷ ds) db a b v =
    elim (Bool-cases (earns cfg w (day * day_ns - w.zone) d)) [
      | inr passed ↦ rw passed (settle_loop-IsConsistent cfg w day ds db a b v)
      | inl due ↦ rw due (
          settle_loop-IsConsistent cfg w day ds (settle_one cfg day d db).1 a b
            (settle_one-IsConsistent cfg day d db v (rate-IsAmount cfg d.net_type a b)))
    ]

-- The settlement of a day keeps the books consistent, if the two daily rates are int64 above the
-- least one.
pub settle_donation_day-IsConsistent :
    (cfg : PointsConfig) (w : Presence) (day : ℕ) (db : Db)
    → IsAmount cfg.donate_daily_idc
    → IsAmount cfg.donate_daily_home
    → IsConsistent db
    → IsConsistent (settle_donation_day cfg w day db).1
unfolding settle_donation_day
settle_donation_day-IsConsistent cfg w day db a b v =
    elim (Bool-cases (not cfg.enabled || not cfg.donate_enabled)) [
      | inl off ↦ rw off v
      | inr on ↦ rw on (settle_loop-IsConsistent cfg w day _ db a b v)
    ]

-- The reward of a donation for a day is paid once: after it was paid, a further settlement of the
-- same day is refused as a duplicate and changes nothing, under any rules with another rate than
-- 0, provided that the key has at most 128 bytes.
pub settle_one_again :
    (cfg cfg' : PointsConfig) (day : ℕ) (d d' : NodeDonation) (db db' : Db) (l : PointLedger)
    → settle_one cfg day d db ≡ (ok l, db')
    → d'.id ≡ d.id
    → d'.user_id ≢ 0
    → (donate_rates cfg' d'.net_type).1 ≢ pos 0
    → length (day_key d.id day) ≤ key_limit
    → settle_one cfg' day d' db' ≡ (err duplicate, db')
unfolding day_op settle_one settle_body
settle_one_again cfg cfg' day d d' db db' l h same u z short =
    let r = settle_one-Settled cfg day d db db' l h in
    let w = Applied-written (day_op cfg day d) db r.paid_db l r.paid refl short in
    let found : find (has_key (day_key d'.id day)) db'.ledger ≡ some l = rw (same, r.result) w in
    let k = apply_points-known (day_op cfg' day d') db' l found refl u z in rw k refl
