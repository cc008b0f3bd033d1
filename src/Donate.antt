-- ===== src/Donate.antt =====
-- Donated nodes (donate.go): the rates, the check of an application, approval, removal from the
-- pool, and the daily settlement. The reload of the node pool, the notices and the log are left
-- out. `zone` is the offset of the server's time zone.
mod Tests
pub mod Laws
pub mod Settle
pub mod Applications
pub mod Capped
use ipw_boce.Points.{PointOp, apply_points}
use ipw_boce.Points.Api.{is_zero}
use ipw_boce.Prelude.{
  Bool, Option, Text, [], codes, decimal, delete, false, find, if◌then◌else◌, is_empty, none, not,
  some, suc, text_eq, to_lower, trim_space, true, truncate_str, update, utf8, ℕ, ◌&&◌, ◌++◌, ◌==◌,
  ◌||◌, ◌∷◌,
}
use ipw_boce.Prelude.Int.{ltb_ℤ, pos, ℤ}
use ipw_boce.Store.{
  Db, DonationStatus, Error, Kind, NetType, NodeDef, NodeDonation, PointLedger, PointsConfig,
  Result, bad_channel, bad_net_type, bad_place, bad_stack, bad_url, duplicate, err, node_taken, ok,
  transaction, ◌>>=◌,
}

unfoldable pub donate_rates : PointsConfig → NetType → ℤ × ℤ
donate_rates cfg NetType.home = (cfg.donate_bonus_home, cfg.donate_daily_home)
donate_rates cfg NetType.idc = (cfg.donate_bonus_idc, cfg.donate_daily_idc)

abbrev pub net_type_text : NetType → Text
net_type_text NetType.idc = codes "idc"
net_type_text NetType.home = codes "home"

pub record DonationInput : Type 0 where
  pub label : Text
  pub region : Text
  pub isp : Text
  pub net_type : Text
  pub stack : Text
  pub channel : Text
  pub url : Text

-- strings.HasPrefix
unfoldable pub has_prefix : Text → Text → Bool
has_prefix s [] = true
has_prefix [] (c ∷ p) = false
has_prefix (a ∷ s) (c ∷ p) = let rest = has_prefix s p in a == c && rest

abbrev pub known_net : Text → Bool
known_net t = text_eq t (codes "idc") || text_eq t (codes "home")

abbrev pub known_stack : Text → Bool
known_stack t =
    text_eq t (codes "DualStack") || text_eq t (codes "IPv4") || text_eq t (codes "IPv6")

abbrev pub known_channel : Text → Bool
known_channel t = text_eq t (codes "ws") || text_eq t (codes "http")

abbrev pub or_else : Text → Text → Text
or_else [] t = t
or_else (c ∷ s) t = c ∷ s

-- The assignments at the start of normalize, and the defaults of stack and channel.
unfoldable pub trimmed : DonationInput → DonationInput
trimmed i = record i {
  label = trim_space i.label;
  region = trim_space i.region;
  isp = trim_space i.isp;
  net_type = to_lower (trim_space i.net_type);
  stack = or_else i.stack (codes "DualStack");
  channel = or_else (to_lower (trim_space i.channel)) (codes "ws");
  url = trim_space i.url;
}

abbrev pub default_label : DonationInput → Text
default_label i =
    i.region ++ (b' ' ∷ i.isp) ++ (if text_eq i.net_type (codes "home") then utf8 "（家宽）" else [])

-- The tests of normalize, and the default of the label.
unfoldable pub check_input : DonationInput → Result DonationInput
check_input i =
    if is_empty i.region || is_empty i.isp
    then err bad_place
    else if not (known_net i.net_type)
    then err bad_net_type
    else if not (known_stack i.stack)
    then err bad_stack
    else if not (known_channel i.channel)
    then err bad_channel
    else if text_eq i.channel (codes "http")
        && not (has_prefix i.url (codes "http://"))
        && not (has_prefix i.url (codes "https://"))
    then err bad_url
    else ok (record i { label = or_else i.label (default_label i) })

-- normalize
unfoldable pub normalize : DonationInput → Result DonationInput
normalize raw = check_input (trimmed raw)

abbrev pub by_donation : ℕ → NodeDonation → Bool
by_donation id d = d.id == id

abbrev pub has_node_id : Text → NodeDef → Bool
has_node_id node f = text_eq f.node_id node

abbrev of_donation : ℕ → NodeDef → Bool
of_donation id f = f.donation_id == id

-- The row of the pool for an approved donation; the place in the order is kept.
abbrev pub pool_row : ℕ → ℤ → NodeDonation → NodeDef
pool_row id place d = record {
  id = id;
  node_id = d.node_id;
  label = d.label;
  ws = d.is_ws;
  url = d.url;
  pool = codes "api";
  stack = d.stack;
  enabled = true;
  sort_order = place;
  ws_key = d.ws_key;
  api_key = d.api_key;
  donation_id = d.id;
  owner_id = d.user_id;
  net_type = net_type_text d.net_type;
}

-- `tx.Save(&def)`: the row that was found is overwritten, or a new one is inserted.
unfoldable pub save_def : NodeDonation → Db → Result Db
save_def d db = elim (find (has_node_id d.node_id) db.node_defs) [
  | none ↦ ok (record db {
    next_id = suc db.next_id;
    node_defs = pool_row db.next_id (pos 0) d ∷ db.node_defs;
  })
  | some f ↦
      if not (f.id == 0) && not (f.donation_id == d.id)
      then err node_taken
      else ok (record db {
        node_defs = update (λ g. g.id == f.id) (λ g. pool_row f.id f.sort_order d) db.node_defs;
      })
]

abbrev pub bonus_key : ℕ → Text
bonus_key id = codes "donate:" ++ decimal id

unfoldable pub bonus_op : PointsConfig → Text → NodeDonation → PointOp
bonus_op cfg operator d = record {
  user_id = d.user_id;
  delta = (donate_rates cfg d.net_type).0;
  kind = Kind.donate;
  ref_type = codes "donation";
  ref_id = decimal d.id;
  operator = operator;
  idem_key = bonus_key d.id;
}

-- The outcome of the bonus: what is written to `bonus_paid`, if anything.
abbrev pub bonus_result : ℤ → Db → Result (PointLedger × Db) → Result (Option ℤ × Db)
bonus_result bonus db (ok (l, db')) = ok (some bonus, db')
bonus_result bonus db (err Error.duplicate) = ok (none, db)
bonus_result bonus db (err e) = err e

unfoldable pub pay_bonus : PointsConfig → Text → NodeDonation → Db → Result (Option ℤ × Db)
pay_bonus cfg operator d db =
    let bonus = (donate_rates cfg d.net_type).0 in
    if is_zero d.bonus_paid && ltb_ℤ (pos 0) bonus && cfg.enabled
    then bonus_result bonus db (apply_points (bonus_op cfg operator d) db)
    else ok (none, db)

abbrev pub or_amount : Option ℤ → ℤ → ℤ
or_amount none a = a
or_amount (some b) a = b

abbrev pub approve_row : ℕ → Text → Text → Option ℤ → NodeDonation → NodeDonation
approve_row now operator note bonus d = record d {
  status = DonationStatus.approved;
  review_note = truncate_str note 512;
  reviewed_by = operator;
  reviewed_at = some now;
  bonus_paid = or_amount bonus d.bonus_paid;
}

-- The body of the transaction of approveDonation, for the row `d` that the handler has read.
unfoldable pub approve_body :
    PointsConfig → ℕ → NodeDonation → Text → Text → Db → Result (Option ℤ × Db)
approve_body cfg now d operator note db = save_def d db >>= λ saved.
    pay_bonus cfg operator d saved >>= λ r. ok (
      r.0,
      record (r.1) {
        donations = update (by_donation d.id) (approve_row now operator note r.0) (r.1).donations;
      },
    )

-- approveDonation
unfoldable pub approve_donation :
    PointsConfig → ℕ → NodeDonation → Text → Text → Db → Result (Option ℤ) × Db
approve_donation cfg now d operator note db =
    transaction db (approve_body cfg now d operator note db)

abbrev off_row : ℕ → DonationStatus → Text → Text → NodeDonation → NodeDonation
off_row now status operator note d =
    if is_empty operator then record d { status = status } else record d {
      status = status;
      review_note = truncate_str note 512;
      reviewed_by = operator;
      reviewed_at = some now;
    }

-- setDonationOffPool
unfoldable pub set_donation_off_pool : ℕ → NodeDonation → DonationStatus → Text → Text → Db → Db
set_donation_off_pool now d status operator note db = record db {
  node_defs = delete (of_donation d.id) db.node_defs;
  donations = update (by_donation d.id) (off_row now status operator note) db.donations;
}
