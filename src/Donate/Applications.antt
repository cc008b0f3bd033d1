-- ===== src/Donate/Applications.antt =====
-- The handlers of donate.go that create, edit, withdraw and review a donation, and give it another
-- key. `drawn` is what the random source gives for a name or a key. The reload of the pool and the
-- notices are left out.
use ipw_boce.Donate.{
  DonationInput, approve_donation, by_donation, has_node_id, normalize, set_donation_off_pool,
}
use ipw_boce.Prelude.{
  Bool, Option, Text, [], codes, count, decimal, false, find, if◌then◌else◌, is_empty, leb, length,
  ltb, none, not, some, suc, text_eq, to_lower, trim_space, true, truncate_str, update, ℕ, ◌&&◌,
  ◌++◌, ◌==◌, ◌||◌, ◌∷◌,
}
use ipw_boce.Prelude.Int.{leb_ℤ, ltb_ℤ, pos, ℤ}
use ipw_boce.Store.{
  Db, DonationStatus, Error, NetType, NodeDef, NodeDonation, PointsConfig, Result, err, ok,
}

pub data ApplicationError : Type 0 where
  donations_closed limit_reached bad_node_id id_taken unknown_donation : ApplicationError
  foreign_donation not_editable is_withdrawn bad_action : ApplicationError
  bad_input : Error → ApplicationError

-- What a user asks for, beside the input that normalize checks.
pub record Application : Type 0 where
  pub input : DonationInput
  pub node_id : Text
  pub api_key : Text

abbrev pub is_active : DonationStatus → Bool
is_active DonationStatus.pending = true
is_active DonationStatus.approved = true
is_active DonationStatus.disabled = true
is_active s = false

abbrev pub is_active_of : ℕ → NodeDonation → Bool
is_active_of u d = d.user_id == u && is_active d.status

unfoldable pub active_count : ℕ → Db → ℕ
active_count u db = count (is_active_of u) db.donations

abbrev pub is_id_char : ℕ → Bool
is_id_char c = (leb b'a' c && leb c b'z') || (leb b'0' c && leb c b'9')

-- The characters after the first one, of which the last is no hyphen.
unfoldable pub id_rest : Text → Bool
id_rest [] = false
id_rest (c ∷ s) =
    let rest = id_rest s in if is_empty s then is_id_char c else (is_id_char c || c == b'-') && rest

abbrev pub id_shape : Text → Bool
id_shape [] = false
id_shape (c ∷ s) = is_id_char c && id_rest s

-- nodeIDRe
unfoldable pub is_node_id : Text → Bool
unfolding id_rest
is_node_id s = id_shape s && leb 3 (length s) && leb (length s) 48

abbrev pub donated_id : ℕ → Text → Text → Text
donated_id u drawn given =
    if is_empty (to_lower (trim_space given))
    then codes "d" ++ decimal u ++ (b'-' ∷ drawn)
    else to_lower (trim_space given)

abbrev pub net_of : Text → NetType
net_of t = if text_eq t (codes "home") then NetType.home else NetType.idc

abbrev pub donation_row : ℕ → ℕ → Text → Text → Application → DonationInput → NodeDonation
donation_row id u node key a i = record {
  id = id;
  user_id = u;
  node_id = node;
  label = truncate_str i.label 256;
  net_type = net_of i.net_type;
  stack = i.stack;
  is_ws = text_eq i.channel (codes "ws");
  url = i.url;
  ws_key = key;
  api_key = trim_space a.api_key;
  status = DonationStatus.pending;
  review_note = [];
  reviewed_by = [];
  reviewed_at = none;
  bonus_paid = pos 0;
  daily_earned = pos 0;
  reward_days = 0;
  last_settled = none;
}

abbrev pub at_limit : PointsConfig → ℕ → Db → Bool
at_limit cfg u db =
    ltb_ℤ (pos 0) cfg.donate_max_per_user && leb_ℤ cfg.donate_max_per_user (pos (active_count u db))

abbrev pub donates_node : Text → NodeDonation → Bool
donates_node node d = text_eq d.node_id node

-- The insert of an application whose input was checked.
unfoldable pub insert_donation :
    PointsConfig → ℕ → Text → Text → Application → DonationInput → Db → Option ApplicationError × Db
unfolding active_count is_node_id decimal to_lower trim_space truncate_str
insert_donation cfg u drawn key a i db =
    let node = donated_id u drawn a.node_id in
    if at_limit cfg u db
    then (some limit_reached, db)
    else if not (is_node_id node) || text_eq node (codes "global")
    then (some bad_node_id, db)
    else if ltb 0 (count (has_node_id node) db.node_defs)
        || ltb 0 (count (donates_node node) db.donations)
    then (some id_taken, db)
    else (
      none,
      record db {
        next_id = suc db.next_id;
        donations = donation_row db.next_id u node key a i ∷ db.donations;
      },
    )

abbrev pub normalized :
    Db
    → Result DonationInput
    → (DonationInput → Option ApplicationError × Db)
    → Option ApplicationError × Db
normalized db (err e) k = (some (bad_input e), db)
normalized db (ok i) k = k i

-- The handler of POST /admin/donations, for a user that is enabled.
unfoldable pub create_donation :
    PointsConfig → ℕ → Text → Text → Application → Db → Option ApplicationError × Db
unfolding insert_donation normalize
create_donation cfg u drawn key a db =
    if not cfg.enabled || not cfg.donate_enabled
    then (some donations_closed, db)
    else normalized db (normalize a.input) (λ i. insert_donation cfg u drawn key a i db)

-- donationVisible, for the user `u`, or for an administrator.
abbrev pub is_visible : Bool → ℕ → NodeDonation → Bool
is_visible is_chief u d = is_chief || d.user_id == u

abbrev pub is_editable : DonationStatus → Bool
is_editable DonationStatus.pending = true
is_editable DonationStatus.rejected = true
is_editable s = false

abbrev pub edited_row : Application → DonationInput → NodeDonation → NodeDonation
edited_row a i d = record d {
  label = i.label;
  net_type = net_of i.net_type;
  stack = i.stack;
  is_ws = text_eq i.channel (codes "ws");
  url = i.url;
  api_key = if is_empty (trim_space a.api_key) then d.api_key else trim_space a.api_key;
  status = DonationStatus.pending;
}

abbrev pub edit_found : Application → NodeDonation → Db → Option ApplicationError × Db
edit_found a d db =
    if not (is_editable d.status)
    then (some not_editable, db)
    else normalized db (normalize a.input) (λ i.
      (none, record db { donations = update (by_donation d.id) (edited_row a i) db.donations }))

-- The donation of a request, if it is there and may be seen.
abbrev pub with_visible :
    Bool
    → ℕ
    → Option NodeDonation
    → Db
    → (NodeDonation → Option ApplicationError × Db)
    → Option ApplicationError × Db
with_visible is_chief u none db k = (some unknown_donation, db)
with_visible is_chief u (some d) db k =
    if is_visible is_chief u d then k d else (some foreign_donation, db)

-- The handler of PATCH /admin/donations/:id.
unfoldable pub edit_donation : Bool → ℕ → ℕ → Application → Db → Option ApplicationError × Db
unfolding normalize trim_space
edit_donation is_chief u id a db =
    with_visible is_chief u (find (by_donation id) db.donations) db (λ d. edit_found a d db)

abbrev pub of_donated : ℕ → NodeDef → Bool
of_donated id f = f.donation_id == id

-- The handler of POST /admin/donations/:id/rotate-key, without the kick of the node.
unfoldable pub rotate_key : Bool → ℕ → ℕ → Text → Db → Option ApplicationError × Db
rotate_key is_chief u id key db =
    with_visible is_chief u (find (by_donation id) db.donations) db (λ d. (
      none,
      record db {
        donations = update (by_donation d.id) (λ x. record x { ws_key = key }) db.donations;
        node_defs = update (of_donated d.id) (λ f. record f { ws_key = key }) db.node_defs;
      },
    ))

abbrev pub was_withdrawn : DonationStatus → Bool
was_withdrawn DonationStatus.withdrawn = true
was_withdrawn s = false

-- The handler of POST /admin/donations/:id/withdraw.
unfoldable pub withdraw_donation : Bool → ℕ → ℕ → ℕ → Db → Option ApplicationError × Db
unfolding set_donation_off_pool
withdraw_donation is_chief u id now db =
    with_visible is_chief u (find (by_donation id) db.donations) db (λ d.
      if was_withdrawn d.status
      then (none, db)
      else (none, set_donation_off_pool now d DonationStatus.withdrawn [] [] db))

pub data Review : Type 0 where
  approves rejects disables_node : Review

abbrev pub approval_answer : Result (Option ℤ) × Db → Option ApplicationError × Db
approval_answer (ok b, db) = (none, db)
approval_answer (err e, db) = (some (bad_input e), db)

abbrev pub review_found :
    PointsConfig → ℕ → NodeDonation → Review → Text → Text → Db → Option ApplicationError × Db
review_found cfg now d approves operator note db =
    if was_withdrawn d.status
    then (some is_withdrawn, db)
    else approval_answer (approve_donation cfg now d operator note db)
review_found cfg now d rejects operator note db =
    (none, set_donation_off_pool now d DonationStatus.rejected operator note db)
review_found cfg now d disables_node operator note db =
    (none, set_donation_off_pool now d DonationStatus.disabled operator note db)

-- The handler of POST /admin/donations/admin/:id/review, for a known action.
unfoldable pub review_donation :
    PointsConfig → ℕ → ℕ → Review → Text → Text → Db → Option ApplicationError × Db
unfolding approve_donation set_donation_off_pool
review_donation cfg now id action operator note db = elim (find (by_donation id) db.donations) [
  | none ↦ (some unknown_donation, db)
  | some d ↦ review_found cfg now d action operator note db
]
