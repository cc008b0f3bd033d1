-- ===== src/Donate/Settle/Once.antt =====
-- A day that is settled again pays nothing.
use ipw_boce.Calendar.{day_ns}
use ipw_boce.Donate.{donate_rates}
use ipw_boce.Donate.Settle.{Presence, day_key, day_op, earns, settle_body, settle_loop, settle_one}
use ipw_boce.Donate.Settle.Laws.{
  rate-IsAmount, settle_one-IsConsistent, settle_one-Settled, settle_one-refused,
}
use ipw_boce.Points.{PointOp, apply_points, balance_in, conflicts, has_key, key_column}
use ipw_boce.Points.Idempotence.{Applied-written, apply_points-known, key_column_short, key_limit}
use ipw_boce.Points.Invariant.{IsConsistent}
use ipw_boce.Points.Outcome.{Covers, apply_points-ok_iff}
use ipw_boce.Prelude.{
  All, Bool-cases, List, Option-cases, Text, [], ap, arith, false, find, inl, inr, is_some, length,
  none, refl, some, subst, sym, true, ℕ, ◌*◌, ◌-◌, ◌==◌, ◌∙◌, ◌∷◌, ◌≡◌, ◌≢◌, ◌≤◌, ◌⊎◌,
}
use ipw_boce.Prelude.Int.{+ℤ_parts, IsAmount, pos, ℤ, ◌≤ℤ◌}
use ipw_boce.Store.{
  Db, Error, NodeDonation, PointLedger, PointsConfig, Result-cases, duplicate, err, invalid_user,
  ok,
}

-- Nothing more can be paid for the donation and the day: it has no owner, or the ledger has the key.
abbrev IsSettled : ℕ → NodeDonation → Db → Type 0
IsSettled day d db =
    (d.user_id ≡ 0) ⊎ ((l : PointLedger) × (find (has_key (day_key d.id day)) db.ledger ≡ some l))

-- The keys of the day fit into the column.
abbrev pub KeyFits : ℕ → NodeDonation → Type 0
KeyFits day d = length (day_key d.id day) ≤ key_limit

find-cons :
    (k : Text) (x : PointLedger) (ls : List PointLedger)
    → (l : PointLedger) × (find (has_key k) ls ≡ some l)
    → (l : PointLedger) × (find (has_key k) (x ∷ ls) ≡ some l)
find-cons k x ls (l, e) = elim (Bool-cases (has_key k x)) [
  | inl hit ↦ (x, rw hit refl)
  | inr miss ↦ (l, rw miss e)
]

-- A settled donation stays settled.
settle_one-keeps :
    (cfg : PointsConfig) (day : ℕ) (d c : NodeDonation) (db : Db)
    → IsSettled day c db
    → IsSettled day c (settle_one cfg day d db).1
settle_one-keeps cfg day d c db (inl none_owns) = inl none_owns
settle_one-keeps cfg day d c db (inr known) = elim (Result-cases (settle_one cfg day d db).0) [
  | inr (e, refused) ↦ inr (rw (settle_one-refused cfg day d db e refused) known)
  | inl (l, done) ↦
      let r =
        settle_one-Settled cfg day d db (settle_one cfg day d db).1 l (ground (arith, done)) in
      let grown : (settle_one cfg day d db).1.ledger ≡ l ∷ db.ledger =
        ap (λ d. d.ledger) r.result ∙ ap (λ d. d.ledger) r.paid.result in
      inr (rw grown (find-cons (day_key c.id day) l db.ledger known))
]

settle_loop-keeps :
    (cfg : PointsConfig) (w : Presence) (day : ℕ) (ds : List NodeDonation) (c : NodeDonation)
    (db : Db)
    → IsSettled day c db
    → IsSettled day c (settle_loop cfg w day ds db).1
unfolding settle_loop
settle_loop-keeps cfg w day [] c db s = s
settle_loop-keeps cfg w day (d ∷ ds) c db s =
    elim (Bool-cases (earns cfg w (day * day_ns - w.zone) d)) [
      | inr passed ↦ rw passed (settle_loop-keeps cfg w day ds c db s)
      | inl due ↦ rw due (
          settle_loop-keeps cfg w day ds c (settle_one cfg day d db).1
            (settle_one-keeps cfg day d c db s))
    ]

positive-nonzero : (a : ℤ) → pos 1 ≤ℤ a → a ≢ pos 0
positive-nonzero a h = ground arith

apply_points-no_user :
    (op : PointOp) (db : Db) → op.user_id ≡ 0 → apply_points op db ≡ err invalid_user
unfolding apply_points
apply_points-no_user op db h = ground arith

settle_one-runs :
    (cfg : PointsConfig) (day : ℕ) (d : NodeDonation) (db : Db) (l : PointLedger) (d' : Db)
    → apply_points (day_op cfg day d) db ≡ ok (l, d')
    → (settle_one cfg day d db).0 ≡ ok l
unfolding settle_one settle_body
settle_one-runs cfg day d db l d' h = rw h refl

-- A payment with a new key goes through.
day_op-accepted :
    (cfg : PointsConfig) (day : ℕ) (d : NodeDonation) (db : Db)
    → IsConsistent db
    → IsAmount (donate_rates cfg d.net_type).1
    → pos 1 ≤ℤ (donate_rates cfg d.net_type).1
    → KeyFits day d
    → d.user_id ≢ 0
    → find (has_key (day_key d.id day)) db.ledger ≡ none
    → (l : PointLedger) × ((settle_one cfg day d db).0 ≡ ok l)
unfolding day_op
day_op-accepted cfg day d db v a positive fits owner unknown =
    let rate = (donate_rates cfg d.net_type).1 in
    let k = key_column_short (day_key d.id day) refl fits in
    let new : conflicts (key_column (day_key d.id day)) db.ledger ≡ false =
      ap (λ k. conflicts k db.ledger) k ∙ ap (λ o. is_some o) unknown in
    let covers : Covers (day_op cfg day d) db =
      ground
        (arith, positive, +ℤ_parts (balance_in d.user_id db.accounts) rate, v.nonneg d.user_id) in
    let r =
      (apply_points-ok_iff (day_op cfg day d) db v a).1
        (owner, positive-nonzero rate positive, inr (unknown, new), covers) in
    (r.0, settle_one-runs cfg day d db r.0 r.1 r.2)

ok-not-err : {A : Type 0} (a : A) (e : Error) → ok a ≢ err e
ok-not-err a e h = cc

-- A donation that earns is settled after its turn.
settle_one-IsSettled :
    (cfg : PointsConfig) (day : ℕ) (d : NodeDonation) (db : Db)
    → IsConsistent db
    → IsAmount (donate_rates cfg d.net_type).1
    → pos 1 ≤ℤ (donate_rates cfg d.net_type).1
    → KeyFits day d
    → IsSettled day d (settle_one cfg day d db).1
unfolding day_op
settle_one-IsSettled cfg day d db v a positive fits =
    elim (Result-cases (settle_one cfg day d db).0) [
      | inl (l, done) ↦
          let r =
            settle_one-Settled cfg day d db (settle_one cfg day d db).1 l (ground (arith, done)) in
          let w = Applied-written (day_op cfg day d) db r.paid_db l r.paid refl fits in
          inr (l, ap (λ d'. find (has_key (day_key d.id day)) d'.ledger) r.result ∙ w)
      | inr (e, refused) ↦
          rw (settle_one-refused cfg day d db e refused) (elim (Bool-cases (d.user_id == 0)) [
            | inl nobody ↦ inl (ground (arith, nobody))
            | inr owned ↦ elim (Option-cases (find (has_key (day_key d.id day)) db.ledger)) [
              | inr known ↦ inr known
              | inl unknown ↦
                  let r =
                    day_op-accepted cfg day d db v a positive fits (ground (arith, owned))
                      unknown in
                  absurd (ok-not-err r.0 e (sym r.1 ∙ refused))
            ]
          ])
    ]

-- A settled donation is not paid again.
settle_one-settled :
    (cfg : PointsConfig) (day : ℕ) (d : NodeDonation) (db : Db)
    → pos 1 ≤ℤ (donate_rates cfg d.net_type).1
    → IsSettled day d db
    → (e : Error) × (settle_one cfg day d db ≡ (err e, db))
unfolding day_op settle_one settle_body
settle_one-settled cfg day d db positive (inl none_owns) =
    (invalid_user, rw (apply_points-no_user (day_op cfg day d) db none_owns) refl)
settle_one-settled cfg day d db positive (inr (l, known)) = elim (Bool-cases (d.user_id == 0)) [
  | inl nobody ↦
      (invalid_user, rw (apply_points-no_user (day_op cfg day d) db (ground (arith, nobody))) refl)
  | inr owned ↦
      let k =
        apply_points-known (day_op cfg day d) db l known refl (ground (arith, owned))
          (positive-nonzero (donate_rates cfg d.net_type).1 positive) in
      (duplicate, rw k refl)
]

earns-positive :
    (cfg : PointsConfig) (w : Presence) (start : ℕ) (d : NodeDonation)
    → earns cfg w start d ≡ true
    → pos 1 ≤ℤ (donate_rates cfg d.net_type).1
unfolding earns
earns-positive cfg w start d h = ground arith

-- Every donation of the list that earns is settled.
abbrev AllSettled : PointsConfig → Presence → ℕ → List NodeDonation → Db → Type 0
AllSettled cfg w day ds db =
    All (λ d. (earns cfg w (day * day_ns - w.zone) d ≡ false) ⊎ IsSettled day d db) ds

loop_due :
    (cfg : PointsConfig) (w : Presence) (day : ℕ) (d : NodeDonation) (ds : List NodeDonation)
    (db : Db)
    → earns cfg w (day * day_ns - w.zone) d ≡ true
    → (settle_loop cfg w day (d ∷ ds) db).1
      ≡ (settle_loop cfg w day ds (settle_one cfg day d db).1).1
unfolding settle_loop
loop_due cfg w day d ds db due = rw due refl

loop_passed :
    (cfg : PointsConfig) (w : Presence) (day : ℕ) (d : NodeDonation) (ds : List NodeDonation)
    (db : Db)
    → earns cfg w (day * day_ns - w.zone) d ≡ false
    → (settle_loop cfg w day (d ∷ ds) db).1 ≡ (settle_loop cfg w day ds db).1
unfolding settle_loop
loop_passed cfg w day d ds db passed = rw passed refl

settle_loop-AllSettled :
    (cfg : PointsConfig) (w : Presence) (day : ℕ) (ds : List NodeDonation) (db : Db)
    → IsAmount cfg.donate_daily_idc
    → IsAmount cfg.donate_daily_home
    → IsConsistent db
    → All (KeyFits day) ds
    → AllSettled cfg w day ds (settle_loop cfg w day ds db).1
settle_loop-AllSettled cfg w day [] db a b v fits = tt
settle_loop-AllSettled cfg w day (d ∷ ds) db a b v fits =
    elim (Bool-cases (earns cfg w (day * day_ns - w.zone) d)) [
      | inr passed ↦
          subst (AllSettled cfg w day (d ∷ ds)) (sym (loop_passed cfg w day d ds db passed))
            (inl passed, settle_loop-AllSettled cfg w day ds db a b v fits.1)
      | inl due ↦
          let rate = rate-IsAmount cfg d.net_type a b in
          let s = settle_one-IsSettled cfg day d db v rate (earns-positive cfg w _ d due) fits.0 in
          let v' = settle_one-IsConsistent cfg day d db v rate in
          subst (AllSettled cfg w day (d ∷ ds)) (sym (loop_due cfg w day d ds db due)) (
            inr (settle_loop-keeps cfg w day ds d (settle_one cfg day d db).1 s),
            settle_loop-AllSettled cfg w day ds (settle_one cfg day d db).1 a b v' fits.1,
          )
    ]

settle_loop-idle :
    (cfg : PointsConfig) (w : Presence) (day : ℕ) (ds : List NodeDonation) (db : Db)
    → AllSettled cfg w day ds db
    → settle_loop cfg w day ds db ≡ (0, db)
unfolding settle_loop
settle_loop-idle cfg w day [] db s = refl
settle_loop-idle cfg w day (d ∷ ds) db s =
    elim (Bool-cases (earns cfg w (day * day_ns - w.zone) d)) [
      | inr passed ↦ rw passed (settle_loop-idle cfg w day ds db s.1)
      | inl due ↦ elim s.0 [
        | inl passed ↦ absurd (ground (arith, due, passed))
        | inr settled ↦
            let r = settle_one-settled cfg day d db (earns-positive cfg w _ d due) settled in
            let rest = settle_loop-idle cfg w day ds db s.1 in rw (due, r.1) (ground (arith, rest))
      ]
    ]

-- The settlement of a day over a list of donations is idempotent: run again over the list, it pays
-- nobody and changes nothing, in books that were consistent, for daily rates that are int64 above
-- the least one, and keys of at most 128 bytes.
pub settle_loop_again :
    (cfg : PointsConfig) (w : Presence) (day : ℕ) (ds : List NodeDonation) (db : Db)
    → IsAmount cfg.donate_daily_idc
    → IsAmount cfg.donate_daily_home
    → IsConsistent db
    → All (KeyFits day) ds
    → let db' = (settle_loop cfg w day ds db).1 in settle_loop cfg w day ds db' ≡ (0, db')
settle_loop_again cfg w day ds db a b v fits =
    settle_loop-idle cfg w day ds (settle_loop cfg w day ds db).1
      (settle_loop-AllSettled cfg w day ds db a b v fits)
