-- ===== src/Donate/Capped.antt =====
-- The limit on the donations of a user.
use ipw_boce.Donate.{DonationInput, by_donation, has_node_id, normalize}
use ipw_boce.Donate.Applications.{
  Application, ApplicationError, active_count, at_limit, bad_input, bad_node_id, create_donation,
  donated_id, donates_node, donation_row, donations_closed, edit_donation, edited_row, id_taken,
  insert_donation, is_active, is_active_of, is_editable, is_node_id, limit_reached, normalized,
}
use ipw_boce.Prelude.{
  Bool, Bool-cases, List, Option, Text, [], ap, arith, codes, count, false, find, if◌then◌else◌,
  inl, inr, is_some, ltb, none, not, refl, some, subst, suc, sym, text_eq, true, update, ℕ, ◌==◌,
  ◌||◌, ◌∙◌, ◌∷◌, ◌≡◌,
}
use ipw_boce.Prelude.Int.{ltb_ℤ, pos, ◌≤ℤ◌}
use ipw_boce.Store.{Db, DonationStatus, NodeDonation, PointsConfig, Result, err, ok}

count-update_absent :
    (id : ℕ) (p : NodeDonation → Bool) (f : NodeDonation → NodeDonation) (ds : List NodeDonation)
    → count (by_donation id) ds ≡ 0
    → count p (update (by_donation id) f ds) ≡ count p ds
count-update_absent id p f [] z = refl
count-update_absent id p f (x ∷ ds) z = ground (arith, count-update_absent id p f ds, z)

abbrev holds_of : (NodeDonation → Bool) → Option NodeDonation → Bool
holds_of p none = false
holds_of p (some d) = p d

-- A row that is not counted, and is changed to one that is.
count-update_one :
    (id : ℕ) (p : NodeDonation → Bool) (f : NodeDonation → NodeDonation) (d : NodeDonation)
    (ds : List NodeDonation)
    → find (by_donation id) ds ≡ some d
    → count (by_donation id) ds ≡ 1
    → p d ≡ false
    → p (f d) ≡ true
    → count p (update (by_donation id) f ds) ≡ suc (count p ds)
count-update_one id p f d [] h one old new = absurd (ground (arith, ap is_some h))
count-update_one id p f d (x ∷ ds) h one old new = elim (Bool-cases (by_donation id x)) [
  | inl own ↦
      let is_d : some x ≡ some d =
        sym (ap (λ b. if b then some x else find (by_donation id) ds) own) ∙ h in
      let old_x : p x ≡ false = ap (holds_of p) is_d ∙ old in
      let new_x : p (f x) ≡ true = ap (holds_of (λ y. p (f y))) is_d ∙ new in
      let rest = count-update_absent id p f ds (ground (arith, one, own)) in
      rw (own, old_x, new_x) (ap suc rest)
  | inr foreign ↦
      let later : find (by_donation id) ds ≡ some d =
        sym (ap (λ b. if b then some x else find (by_donation id) ds) foreign) ∙ h in
      let ih = count-update_one id p f d ds later (ground (arith, one, foreign)) old new in
      rw foreign ground (arith, ih)
]

-- A rejected donation that its owner edits becomes pending, whether the owner has reached the limit
-- or not, so that the number of active donations grows by one.
pub edit_over_limit :
    (u id : ℕ) (a : Application) (i : DonationInput) (d : NodeDonation) (db : Db)
    → normalize a.input ≡ ok i
    → find (by_donation id) db.donations ≡ some d
    → count (by_donation id) db.donations ≡ 1
    → d.id ≡ id
    → d.user_id == u ≡ true
    → d.status ≡ DonationStatus.rejected
    → active_count u (edit_donation false u id a db).1 ≡ suc (active_count u db)
unfolding edit_donation active_count
edit_over_limit u id a i d db good found one own mine rejected =
    let editable : is_editable d.status ≡ true = ap is_editable rejected in
    let inactive : is_active_of u d ≡ false = ground (arith, ap is_active rejected) in
    let key : count (by_donation d.id) db.donations ≡ 1 =
      subst (λ j. count (by_donation j) db.donations ≡ 1) (sym own) one in
    let row : find (by_donation d.id) db.donations ≡ some d =
      subst (λ j. find (by_donation j) db.donations ≡ some d) (sym own) found in
    rw (edit_donation, found, mine, editable, good)
      (count-update_one d.id (is_active_of u) (edited_row a i) d db.donations row key inactive
        (ground (arith, mine)))

-- An outcome that is no error keeps the user within the limit.
abbrev StaysCapped : PointsConfig → ℕ → Option ApplicationError × Db → Type 0
StaysCapped cfg u (outcome, db) =
    outcome ≡ none → pos (active_count u db) ≤ℤ cfg.donate_max_per_user

refused_stays :
    (cfg : PointsConfig) (u : ℕ) (e : ApplicationError) (db : Db) → StaysCapped cfg u (some e, db)
refused_stays cfg u e db h = absurd (ground (arith, ap is_some h))

guard-StaysCapped :
    (cfg : PointsConfig) (u : ℕ) (b : Bool) (e : ApplicationError) (db : Db)
    (r : Option ApplicationError × Db)
    → (b ≡ false → StaysCapped cfg u r)
    → StaysCapped cfg u (if b then (some e, db) else r)
guard-StaysCapped cfg u true e db r h = refused_stays cfg u e db
guard-StaysCapped cfg u false e db r h = h refl

insert-StaysCapped :
    (cfg : PointsConfig) (u : ℕ) (drawn key : Text) (a : Application) (i : DonationInput) (db : Db)
    → ltb_ℤ (pos 0) cfg.donate_max_per_user ≡ true
    → StaysCapped cfg u (insert_donation cfg u drawn key a i db)
unfolding insert_donation
insert-StaysCapped cfg u drawn key a i db limited =
    let node = donated_id u drawn a.node_id in
    let row = donation_row db.next_id u node key a i in
    let done : Option ApplicationError × Db =
      (none, record db { next_id = suc db.next_id; donations = row ∷ db.donations }) in
    let taken =
      ltb 0 (count (has_node_id node) db.node_defs)
      || ltb 0 (count (donates_node node) db.donations) in
    let named : Option ApplicationError × Db = if taken then (some id_taken, db) else done in
    guard-StaysCapped cfg u (at_limit cfg u db) limit_reached db _ (λ room.
      guard-StaysCapped cfg u (not (is_node_id node) || text_eq node (codes "global")) bad_node_id
        db named
        (λ shaped.
          guard-StaysCapped cfg u taken id_taken db done
            (λ free created. ground (arith, room, limited))))

normalized-StaysCapped :
    (cfg : PointsConfig) (u : ℕ) (drawn key : Text) (a : Application) (r : Result DonationInput)
    (db : Db)
    → ltb_ℤ (pos 0) cfg.donate_max_per_user ≡ true
    → StaysCapped cfg u (normalized db r (λ i. insert_donation cfg u drawn key a i db))
normalized-StaysCapped cfg u drawn key a (err e) db limited = refused_stays cfg u (bad_input e) db
normalized-StaysCapped cfg u drawn key a (ok i) db limited =
    insert-StaysCapped cfg u drawn key a i db limited

-- A donation that is created keeps its user within the limit, where there is one.
pub create_donation_capped :
    (cfg : PointsConfig) (u : ℕ) (drawn key : Text) (a : Application) (db : Db)
    → ltb_ℤ (pos 0) cfg.donate_max_per_user ≡ true
    → (create_donation cfg u drawn key a db).0 ≡ none
    → pos (active_count u (create_donation cfg u drawn key a db).1) ≤ℤ cfg.donate_max_per_user
unfolding create_donation
create_donation_capped cfg u drawn key a db limited =
    guard-StaysCapped cfg u (not cfg.enabled || not cfg.donate_enabled) donations_closed db
      (normalized db (normalize a.input) (λ i. insert_donation cfg u drawn key a i db))
      (λ opened. normalized-StaysCapped cfg u drawn key a (normalize a.input) db limited)
