-- ===== src/Donate/Laws.antt =====
-- The checks of an application, and the bonus of an approval.
use ipw_boce.Donate.{
  DonationInput, approve_body, approve_donation, approve_row, bonus_key, bonus_op, bonus_result,
  by_donation, check_input, default_label, donate_rates, has_node_id, known_channel, known_net,
  known_stack, normalize, or_else, pay_bonus, save_def, trimmed,
}
use ipw_boce.Points.{apply_points}
use ipw_boce.Points.Api.{is_zero}
use ipw_boce.Points.Apply.{Applied, apply_points-Applied}
use ipw_boce.Points.Idempotence.{Applied-new, Applied-written, key_limit}
use ipw_boce.Points.Invariant.{Applied-IsConsistent, IsConsistent, same_books}
use ipw_boce.Prelude.{
  Bool, Bool-cases, Option, Option-cases, Text, [], ap, arith, false, find, if◌then◌else◌, inl, inr,
  is_empty, length, none, not, refl, some, subst, sym, true, update, ℕ, ◌&&◌, ◌||◌, ◌∙◌, ◌∷◌, ◌≡◌,
  ◌≢◌, ◌≤◌, ◌⊎◌,
}
use ipw_boce.Prelude.Int.{IsAmount, ltb_ℤ, pos, ℤ}
use ipw_boce.Store.{
  >>=-eq-ok, Db, Error, NodeDonation, PointLedger, PointsConfig, Result, Result-cases, bad_channel,
  bad_net_type, bad_place, bad_stack, bad_url, err, ok, transaction-err, transaction-ok,
}

or_else-given : (s t : Text) → is_empty t ≡ false → is_empty (or_else s t) ≡ false
or_else-given [] t h = h
or_else-given (c ∷ s) t h = refl

default_label-given :
    (i : DonationInput) → is_empty i.region ≡ false → is_empty (default_label i) ≡ false
default_label-given i h = ground arith

-- The tests of check_input, for any outcome of them.
chain-ok :
    (place net stack channel url : Bool) (x o : DonationInput)
    → (if place
        then err bad_place
        else if not net
        then err bad_net_type
        else if not stack
        then err bad_stack
        else if not channel
        then err bad_channel
        else if url
        then err bad_url
        else ok x)
      ≡ ok o
    → (place ≡ false) × (net ≡ true) × (stack ≡ true) × (channel ≡ true) × (x ≡ o)
chain-ok place net stack channel url x o h =
    (ground arith, ground arith, ground arith, ground arith, ground arith)

or-false : (a b : Bool) → a || b ≡ false → (a ≡ false) × (b ≡ false)
or-false a b h = (ground arith, ground arith)

check_input_checks :
    (t o : DonationInput)
    → check_input t ≡ ok o
    → (is_empty o.region ≡ false)
      × (is_empty o.isp ≡ false)
      × (is_empty o.label ≡ false)
      × (known_net o.net_type ≡ true)
      × (known_stack o.stack ≡ true)
      × (known_channel o.channel ≡ true)
unfolding check_input
check_input_checks t o h =
    let c = chain-ok _ _ _ _ _ _ o h in
    let p = or-false (is_empty t.region) (is_empty t.isp) c.0 in
    let l = or_else-given t.label (default_label t) (default_label-given t p.0) in
    subst
      (λ o.
        (is_empty o.region ≡ false)
        × (is_empty o.isp ≡ false)
        × (is_empty o.label ≡ false)
        × (known_net o.net_type ≡ true)
        × (known_stack o.stack ≡ true)
        × (known_channel o.channel ≡ true))
      c.4 (p.0, p.1, l, c.1, c.2, c.3)

-- An application that passes has a place and a label, and a network type, a stack and a channel
-- that the program knows.
pub normalize_checks :
    (raw i : DonationInput)
    → normalize raw ≡ ok i
    → (is_empty i.region ≡ false)
      × (is_empty i.isp ≡ false)
      × (is_empty i.label ≡ false)
      × (known_net i.net_type ≡ true)
      × (known_stack i.stack ≡ true)
      × (known_channel i.channel ≡ true)
unfolding normalize
normalize_checks raw i h = check_input_checks (trimmed raw) i h

save_def-books :
    (d : NodeDonation) (db db' : Db)
    → save_def d db ≡ ok db'
    → (db'.accounts ≡ db.accounts) × (db'.ledger ≡ db.ledger)
unfolding save_def
save_def-books d db db' h = elim (Option-cases (find (has_node_id d.node_id) db.node_defs)) [
  | inl missing ↦ (ground arith, ground arith)
  | inr found ↦ (ground arith, ground arith)
]

-- How the bonus of an approval ends.
abbrev BonusPaid : PointsConfig → Text → NodeDonation → Db → Option ℤ → Db → Type 0
BonusPaid cfg operator d db b db' =
    ((b ≡ none) × (db' ≡ db))
    ⊎ ((l : PointLedger) × (b ≡ some (donate_rates cfg d.net_type).0)
        × Applied (bonus_op cfg operator d) db l db')

bonus_result-ok :
    (bonus : ℤ) (db : Db) (r : Result (PointLedger × Db)) {b : Option ℤ} {db' : Db}
    → bonus_result bonus db r ≡ ok (b, db')
    → ((b ≡ none) × (db' ≡ db)) ⊎ ((l : PointLedger) × (b ≡ some bonus) × (r ≡ ok (l, db')))
bonus_result-ok bonus db (ok (l, d)) h = inr (l, ground arith, ground arith)
bonus_result-ok bonus db (err e) h = inl (ground arith, ground arith)

pay_bonus-BonusPaid :
    (cfg : PointsConfig) (operator : Text) (d : NodeDonation) (db : Db) {b : Option ℤ} {db' : Db}
    → pay_bonus cfg operator d db ≡ ok (b, db')
    → BonusPaid cfg operator d db b db'
unfolding pay_bonus
pay_bonus-BonusPaid cfg operator d db {b} {db'} h =
    let bonus = (donate_rates cfg d.net_type).0 in
    elim (Bool-cases (is_zero d.bonus_paid && ltb_ℤ (pos 0) bonus && cfg.enabled)) [
      | inr unpaid ↦ inl (ground (arith, unpaid, h), ground (arith, unpaid, h))
      | inl due ↦
          elim (bonus_result-ok bonus db (apply_points (bonus_op cfg operator d) db) {b = b}
            {db' = db'} (ground (arith, due, h))) [
              | inl same ↦ inl same
              | inr (l, e, r) ↦ inr (l, e, apply_points-Applied _ _ r)
            ]
    ]

-- What a successful approval has done.
record Approved (cfg : PointsConfig) (now : ℕ) (d : NodeDonation) (operator note : Text) (db : Db)
    (b : Option ℤ) (db' : Db) : Type 0 where
  saved : Db
  saved_lem : save_def d db ≡ ok saved
  paid_db : Db
  bonus : BonusPaid cfg operator d saved b paid_db
  result : db' ≡ record paid_db {
    donations = update (by_donation d.id) (approve_row now operator note b) paid_db.donations;
  }

approve_donation-Approved :
    (cfg : PointsConfig) (now : ℕ) (d : NodeDonation) (operator note : Text) (db db' : Db)
    (b : Option ℤ)
    → approve_donation cfg now d operator note db ≡ (ok b, db')
    → Approved cfg now d operator note db b db'
unfolding approve_donation approve_body
approve_donation-Approved cfg now d operator note db db' b h =
    let t = transaction-ok db (approve_body cfg now d operator note db) h in
    let s = >>=-eq-ok (save_def d db) _ t in
    let p = >>=-eq-ok (pay_bonus cfg operator d s.0) _ s.2 in
    let e : p.0.0 ≡ b = ground (arith, p.2) in
    record {
      saved = s.0;
      saved_lem = s.1;
      paid_db = p.0.1;
      bonus =
          subst (λ b. BonusPaid cfg operator d s.0 b p.0.1) e
            (pay_bonus-BonusPaid cfg operator d s.0 p.1);
      result = ground (arith, p.2);
    }

BonusPaid-IsConsistent :
    (cfg : PointsConfig) (operator : Text) (d : NodeDonation) (db : Db) (b : Option ℤ) (db' : Db)
    → IsConsistent db
    → IsAmount (donate_rates cfg d.net_type).0
    → BonusPaid cfg operator d db b db'
    → IsConsistent db'
unfolding bonus_op
BonusPaid-IsConsistent cfg operator d db b db' v a (inl (e, same)) = rw same v
BonusPaid-IsConsistent cfg operator d db b db' v a (inr (l, e, r)) = Applied-IsConsistent _ _ r v a

approve_donation-refused :
    (cfg : PointsConfig) (now : ℕ) (d : NodeDonation) (operator note : Text) (db : Db) (e : Error)
    → (approve_donation cfg now d operator note db).0 ≡ err e
    → (approve_donation cfg now d operator note db).1 ≡ db
unfolding approve_donation
approve_donation-refused cfg now d operator note db e h =
    transaction-err db (approve_body cfg now d operator note db) {e = e} h

-- An approval keeps the books consistent, if the bonus is an int64 above the least one.
pub approve_donation-IsConsistent :
    (cfg : PointsConfig) (now : ℕ) (d : NodeDonation) (operator note : Text) (db : Db)
    → IsConsistent db
    → IsAmount (donate_rates cfg d.net_type).0
    → IsConsistent (approve_donation cfg now d operator note db).1
approve_donation-IsConsistent cfg now d operator note db v a =
    elim (Result-cases (approve_donation cfg now d operator note db).0) [
      | inr (e, refused) ↦ rw (approve_donation-refused cfg now d operator note db e refused) v
      | inl (b, done) ↦
          let r =
            approve_donation-Approved cfg now d operator note db
              (approve_donation cfg now d operator note db).1 b (ground (arith, done)) in
          let books = save_def-books d db r.saved r.saved_lem in
          let w =
            BonusPaid-IsConsistent cfg operator d r.saved b r.paid_db
              (same_books db r.saved v books.0 books.1) a r.bonus in
          same_books r.paid_db _ w (ap (λ d. d.accounts) r.result) (ap (λ d. d.ledger) r.result)
    ]

some-none : {l : PointLedger} → ¬ (none ≡ some l)
some-none h = ground arith

-- The bonus of a donation is paid once: after an approval that paid it, no approval of the
-- donation, of whatever row with its number, pays it again,
-- provided that the key of the bonus has at most 128 bytes.
pub approve_donation_once :
    (cfg cfg' : PointsConfig) (now now' : ℕ) (d d' : NodeDonation)
    (operator operator' note note' : Text) (db db' : Db) (b : ℤ)
    → approve_donation cfg now d operator note db ≡ (ok (some b), db')
    → d'.id ≡ d.id
    → length (bonus_key d.id) ≤ key_limit
    → (b' : ℤ) (db'' : Db)
    → approve_donation cfg' now' d' operator' note' db' ≢ (ok (some b'), db'')
unfolding bonus_op
approve_donation_once cfg cfg' now now' d d' operator operator' note note' db db' b h same short b'
      db'' h' =
    let r = approve_donation-Approved cfg now d operator note db db' (some b) h in
    let r' = approve_donation-Approved cfg' now' d' operator' note' db' db'' (some b') h' in
    paid_twice r r' r.bonus r'.bonus
  where
    paid_twice :
        (r : Approved cfg now d operator note db (some b) db')
        (r' : Approved cfg' now' d' operator' note' db' (some b') db'')
        → BonusPaid cfg operator d r.saved (some b) r.paid_db
        → BonusPaid cfg' operator' d' r'.saved (some b') r'.paid_db
        → ⊥
    paid_twice r r' (inl (e, s)) p' = absurd (ground arith)
    paid_twice r r' p (inl (e, s)) = absurd (ground arith)
    paid_twice r r' (inr (l, e, p)) (inr (l', e', p')) =
        let w = Applied-written (bonus_op cfg operator d) r.saved r.paid_db l p refl short in
        let same_ledger : r'.saved.ledger ≡ r.paid_db.ledger =
          (save_def-books d' db' r'.saved r'.saved_lem).1 ∙ ap (λ d. d.ledger) r.result in
        let n =
          Applied-new (bonus_op cfg' operator' d') r'.saved r'.paid_db l' p' refl (rw same short) in
        absurd (some-none (sym (rw (same, same_ledger) at n) ∙ w))
