-- ===== src/Points/Probe/Laws.antt =====
-- What a charge and a refund do to the balance.
use ipw_boce.Points.{PointOp, balance_in, balance_of, change_points}
use ipw_boce.Points.Apply.{applied}
use ipw_boce.Points.Idempotence.{change_points-Applied}
use ipw_boce.Points.Invariant.{Applied-IsConsistent, Applied-balance, IsConsistent}
use ipw_boce.Points.Outcome.{Covers, apply_points-accepts}
use ipw_boce.Points.Probe.{
  charge_probe_cost, charged, pays, plain_op, refund_probe_cost, user_by_id,
}
use ipw_boce.Prelude.{
  Bool-cases, Option, [], ap, arith, if◌then◌else◌, inl, inr, is_some, not, refl, sym, true, ℕ,
  ◌==◌, ◌||◌, ◌∙◌, ◌≡◌, ◌≢◌,
}
use ipw_boce.Prelude.Int.{
  +ℤ_parts, InRange, IsAmount, eq_of_parts, leb_ℤ, neg64, neg64_lem, pos, ℤ, ◌+ℤ◌, ◌-ℤ◌, ◌≤ℤ◌,
  -ℤ_parts,
}
use ipw_boce.Store.{Db, Error, Kind, PointLedger, PointsConfig, Result, err, ok, transaction-err}

change_points-balance :
    (op : PointOp) (db db' : Db) (l : PointLedger)
    → IsConsistent db
    → change_points op db ≡ (ok l, db')
    → (w : ℕ)
    → balance_of w db' ≡ (if w == op.user_id then balance_of w db +ℤ op.delta else balance_of w db)
unfolding balance_of
change_points-balance op db db' l v h w =
    Applied-balance op db (change_points-Applied op db db' l h) v w

-- A refund always goes through.
refund_probe_cost-balance :
    (u : ℕ) (cost : ℤ) (db : Db)
    → IsConsistent db
    → InRange cost
    → pos 1 ≤ℤ cost
    → u ≢ 0
    → (w : ℕ)
    → balance_of w (refund_probe_cost u cost db)
      ≡ (if w == u then balance_of w db +ℤ cost else balance_of w db)
unfolding refund_probe_cost
refund_probe_cost-balance u cost db v d p nz w =
    let op = plain_op u cost Kind.probe_back [] in
    let covers : Covers op db =
      ground (arith, +ℤ_parts (balance_in u db.accounts) cost, v.nonneg u) in
    let r = apply_points-accepts op db v (d, ground arith) (nz, ground arith, inl refl, covers) in
    let done : change_points op db ≡ (ok r.0, applied op db r.0) = unfold change_points in rw r.1 in
    ground (arith, done, change_points-balance op db (applied op db r.0) r.0 v done w)

-- How a charge ends: nothing was taken and nothing changed, or the cost was posted.
data Charged (cfg : PointsConfig) (u : ℕ) (db : Db) (r : (ℤ × Option Error) × Db) : Type 0 where
  free : r.0.0 ≡ pos 0 → r.1 ≡ db → Charged cfg u db r
  posted :
      (l : PointLedger)
      → u ≢ 0
      → pos 1 ≤ℤ cfg.probe_cost
      → r.0.0 ≡ cfg.probe_cost
      → change_points (plain_op u (neg64 cfg.probe_cost) Kind.probe []) db ≡ (ok l, r.1)
      → Charged cfg u db r

charged-Charged :
    (cfg : PointsConfig) (u : ℕ) (db : Db) (r : Result PointLedger × Db)
    → u ≢ 0
    → pos 1 ≤ℤ cfg.probe_cost
    → change_points (plain_op u (neg64 cfg.probe_cost) Kind.probe []) db ≡ r
    → Charged cfg u db (charged cfg.probe_cost r)
unfolding change_points
charged-Charged cfg u db (ok l, db') nz p h = posted l nz p refl h
charged-Charged cfg u db (err e, db') nz p h =
    free refl (sym (ap (λ q. q.1) h) ∙ transaction-err db _ (ap (λ q. q.0) h))

pub refund_probe_cost-none : (u : ℕ) (db : Db) → refund_probe_cost u (pos 0) db ≡ db
unfolding refund_probe_cost
refund_probe_cost-none u db = refl

charged_refused :
    (cost : ℤ) (r : Result PointLedger × Db)
    → is_some (charged cost r).0.1 ≡ true
    → (charged cost r).0.0 ≡ pos 0
charged_refused cost (ok l, db) h = absurd (ground arith)
charged_refused cost (err e, db) h = refl

-- A charge that is refused takes nothing.
pub charge_refused :
    (cfg : PointsConfig) (u : ℕ) (db : Db)
    → is_some (charge_probe_cost cfg u db).0.1 ≡ true
    → (charge_probe_cost cfg u db).0.0 ≡ pos 0
unfolding charge_probe_cost
charge_refused cfg u db h =
    elim (Bool-cases (not cfg.enabled || leb_ℤ cfg.probe_cost (pos 0) || u == 0)) [
      | inl off ↦ rw off refl
      | inr on ↦ elim (Bool-cases (pays (user_by_id u db))) [
        | inr free_user ↦ rw (on, free_user) refl
        | inl payer ↦
            rw (on, payer)
              (charged_refused cfg.probe_cost
                (change_points (plain_op u (neg64 cfg.probe_cost) Kind.probe []) db)
                (rw (charge_probe_cost, on, payer) at h))
      ]
    ]

opposite-IsAmount : (c : ℤ) → InRange c → pos 1 ≤ℤ c → IsAmount (neg64 c) × (neg64 c ≡ pos 0 -ℤ c)
opposite-IsAmount c d p = ground (arith, neg64_lem c d, -ℤ_parts (pos 0) c)

charge_probe_cost-Charged :
    (cfg : PointsConfig) (u : ℕ) (db : Db) → Charged cfg u db (charge_probe_cost cfg u db)
unfolding charge_probe_cost
charge_probe_cost-Charged cfg u db =
    elim (Bool-cases (not cfg.enabled || leb_ℤ cfg.probe_cost (pos 0) || u == 0)) [
      | inl off ↦ rw off (free refl refl)
      | inr on ↦ rw on (elim (Bool-cases (pays (user_by_id u db))) [
        | inl payer ↦ rw payer (charged-Charged cfg u db _ (ground arith) (ground arith) refl)
        | inr other ↦ rw other (free refl refl)
      ])
    ]

-- A charge that is not refused takes the cost from a paying user, and from nobody else; a refund of
-- what was taken brings every balance back to what it was. This needs consistent books and a cost
-- that is an int64.
pub refund-charge :
    (cfg : PointsConfig) (u : ℕ) (db : Db)
    → IsConsistent db
    → InRange cfg.probe_cost
    → let ((cost, refusal), db') = charge_probe_cost cfg u db in
      (w : ℕ) → balance_of w (refund_probe_cost u cost db') ≡ balance_of w db
refund-charge cfg u db v d w =
    refunded (charge_probe_cost cfg u db) (charge_probe_cost-Charged cfg u db)
  where
    refunded :
        (r : (ℤ × Option Error) × Db)
        → Charged cfg u db r
        → balance_of w (refund_probe_cost u r.0.0 r.1) ≡ balance_of w db
    refunded r (free e e') = rw (e, e') (ap (balance_of w) (refund_probe_cost-none u db))
    refunded r (posted l nz p e h) =
        let o = opposite-IsAmount cfg.probe_cost d p in
        let op = plain_op u (neg64 cfg.probe_cost) Kind.probe [] in
        let mid = Applied-IsConsistent op db (change_points-Applied op db r.1 l h) v o.0 in
        let back = refund_probe_cost-balance u cfg.probe_cost r.1 mid d p nz w in
        let taken = change_points-balance op db r.1 l v h w in
        rw e (
          ground (
            arith,
            back,
            taken,
            o.1,
            +ℤ_parts (balance_of w db) (neg64 cfg.probe_cost),
            -ℤ_parts (pos 0) cfg.probe_cost,
            +ℤ_parts (balance_of w db +ℤ neg64 cfg.probe_cost) cfg.probe_cost,
            eq_of_parts (balance_of w db +ℤ neg64 cfg.probe_cost +ℤ cfg.probe_cost)
                (balance_of w db),
          ))
