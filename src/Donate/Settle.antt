-- ===== src/Donate/Settle.antt =====
-- The daily reward of donated nodes (donate.go): settleDonationDay and maintenanceCredit.
pub mod Credit
pub mod Once
pub mod Laws
use ipw_boce.Calendar.{date_text, day_ns, second_ns}
use ipw_boce.Donate.{by_donation, donate_rates}
use ipw_boce.Maintenance.{MaintenanceWindow, any_covers, in_scope}
use ipw_boce.Points.{PointOp, apply_points}
use ipw_boce.Prelude.{
  Bool, List, Option, Text, [], codes, decimal, false, find, if◌then◌else◌, leb, ltb, none, not,
  reverse, some, suc, text_eq, true, update, where_rows, zero, ℕ, ◌&&◌, ◌*◌, ◌++◌, ◌+◌, ◌-◌, ◌/◌,
  ◌||◌, ◌∷◌,
}
use ipw_boce.Prelude.Int.{leb_ℤ, ltb_ℤ, pos, pos_part, ℤ, ◌+ℤ◌}
use ipw_boce.Store.{
  Db, DonationStatus, Kind, NodeDonation, PointLedger, PointsConfig, Result, err, ok, transaction,
  ◌>>=◌,
}
use ipw_boce.Uptime.{
  Interval, Node, NodeEvent, node_online_seconds, prior_event, uptime_for_node, window_events,
}

-- What the settlement reads besides the points: the nodes, their events and the windows.
pub record Presence : Type 0 where
  pub zone : ℕ
  pub nodes : List Node
  pub events : List NodeEvent
  pub windows : List MaintenanceWindow

abbrev pub step_ns : ℕ
step_ns = 300 * second_ns

unfoldable pub in_interval : ℕ → List Interval → Bool
in_interval t [] = false
in_interval t (iv ∷ ivs) = let rest = in_interval t ivs in (leb iv.start t && ltb t iv.end) || rest

-- The loop that samples every five minutes; the fuel counts the samples that are left.
unfoldable pub credit_loop : ℕ → ℕ → List MaintenanceWindow → List Interval → ℕ → ℕ → ℕ
credit_loop zero zone ws iv end t = 0
credit_loop (suc fuel) zone ws iv end t =
    let rest = credit_loop fuel zone ws iv end (t + step_ns) in
    if not (ltb t end)
    then 0
    else if any_covers zone t ws && in_interval t iv
    then 300 + rest
    else rest

-- maintenanceCredit
unfoldable pub maintenance_credit : Presence → Text → ℕ → ℕ → ℕ
maintenance_credit w node start end =
    let ws = where_rows (in_scope node) w.windows in
    let iv =
      (uptime_for_node start end (prior_event node start w.events)
        (window_events node start end w.events)).0 in
    credit_loop (suc ((end - start) / step_ns)) w.zone ws iv end start

abbrev is_node : Text → Node → Bool
is_node id n = text_eq n.node_id id

-- The seconds of the day that count for the node.
unfoldable pub credited_seconds : Presence → Text → ℕ → ℕ → ℕ
credited_seconds w node start end =
    node_online_seconds (find (is_node node) w.nodes) node start end w.events
    + maintenance_credit w node start end

-- The seconds that a node must be online.
unfoldable pub needed_seconds : PointsConfig → ℕ
needed_seconds cfg =
    if leb_ℤ cfg.donate_min_seconds (pos 0) || ltb_ℤ (pos 86_400) cfg.donate_min_seconds
    then 86_400
    else pos_part cfg.donate_min_seconds

abbrev reviewed_after : ℕ → Option ℕ → Bool
reviewed_after end none = false
reviewed_after end (some t) = ltb end t

abbrev pub day_key : ℕ → ℕ → Text
day_key id day = codes "donate_day:" ++ decimal id ++ (b':' ∷ date_text day)

unfoldable pub day_op : PointsConfig → ℕ → NodeDonation → PointOp
day_op cfg day d = record {
  user_id = d.user_id;
  delta = (donate_rates cfg d.net_type).1;
  kind = Kind.donate_day;
  ref_type = codes "donation";
  ref_id = decimal d.id;
  operator = [];
  idem_key = day_key d.id day;
}

abbrev pub reward_row : ℤ → ℕ → NodeDonation → NodeDonation
reward_row daily day d = record d {
  daily_earned = d.daily_earned +ℤ daily;
  reward_days = d.reward_days + 1;
  last_settled = some day;
}

-- The transaction for one donation.
unfoldable pub settle_body : PointsConfig → ℕ → NodeDonation → Db → Result (PointLedger × Db)
settle_body cfg day d db = apply_points (day_op cfg day d) db >>= λ r. ok (
  r.0,
  record (r.1) {
    donations =
        update (by_donation d.id) (reward_row (donate_rates cfg d.net_type).1 day) (r.1).donations;
  },
)

unfoldable pub settle_one : PointsConfig → ℕ → NodeDonation → Db → Result PointLedger × Db
settle_one cfg day d db = transaction db (settle_body cfg day d db)

-- The tests before the transaction, for the day that starts at `start`.
unfoldable pub earns : PointsConfig → Presence → ℕ → NodeDonation → Bool
earns cfg w start d =
    not (reviewed_after (start + day_ns) d.reviewed_at)
    && ltb_ℤ (pos 0) (donate_rates cfg d.net_type).1
    && leb (needed_seconds cfg) (credited_seconds w d.node_id start (start + day_ns))

abbrev paid_one : Result PointLedger → ℕ
paid_one (ok l) = 1
paid_one (err e) = 0

-- The loop over the approved donations, with the number of those paid.
unfoldable pub settle_loop : PointsConfig → Presence → ℕ → List NodeDonation → Db → ℕ × Db
settle_loop cfg w day [] db = (0, db)
settle_loop cfg w day (d ∷ ds) db =
    let one = settle_one cfg day d db in
    let paid = settle_loop cfg w day ds one.1 in
    let passed = settle_loop cfg w day ds db in
    if earns cfg w (day * day_ns - w.zone) d then (paid_one one.0 + paid.0, paid.1) else passed

abbrev is_approved : NodeDonation → Bool
is_approved d = elim d.status [ DonationStatus.approved ↦ true | _ ↦ false ]

-- settleDonationDay; the list is read in the order of the numbers.
unfoldable pub settle_donation_day : PointsConfig → Presence → ℕ → Db → ℕ × Db
settle_donation_day cfg w day db =
    if not cfg.enabled || not cfg.donate_enabled
    then (0, db)
    else settle_loop cfg w day (reverse (where_rows is_approved db.donations)) db
