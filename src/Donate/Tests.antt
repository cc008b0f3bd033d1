-- ===== src/Donate/Tests.antt =====
-- Runs of the donation code on concrete data.
use ipw_boce.Calendar.{date_text, day_ns}
use ipw_boce.Donate.{
  DonationInput, approve_body, approve_donation, approve_row, bonus_key, bonus_op, check_input,
  donate_rates, normalize, pay_bonus, pool_row, save_def, trimmed,
}
use ipw_boce.Donate.Applications.{
  Application, active_count, create_donation, donated_id, edit_donation, insert_donation,
  is_node_id, limit_reached,
}
use ipw_boce.Donate.Capped.{create_donation_capped, edit_over_limit}
use ipw_boce.Donate.Laws.{approve_donation_once}
use ipw_boce.Donate.Settle.{
  Presence, day_key, day_op, reward_row, settle_body, settle_loop, settle_one,
}
use ipw_boce.Donate.Settle.Once.{settle_loop_again}
use ipw_boce.Points.{apply_points, ensure_account, entry, is_covered, post}
use ipw_boce.Points.Idempotence.{key_limit}
use ipw_boce.Points.Invariant.{same_books}
use ipw_boce.Points.Tests.{account, rules, start, start-IsConsistent}
use ipw_boce.Prelude.{
  [], arith, codes, decimal, false, find, length, none, refl, some, suc, text_eq, to_lower,
  trim_space, true, ◌*◌, ◌∷◌, ◌≡◌, ◌≢◌, ◌≤◌,
}
use ipw_boce.Prelude.Int.{IsAmount, pos, ◌+ℤ◌, ◌≤ℤ◌}
use ipw_boce.Store.{Db, DonationStatus, NetType, NodeDonation, PointLedger, ok}
use ipw_boce.Uptime.{
  build_uptime_stats, node_online_seconds, prior_event, scan, seconds_between, sort_events,
  sum_overlaps, uptime_for_node, went_online, window_events,
}

abbrev form : DonationInput
form = record {
  label = [];
  region = codes " Tokyo";
  isp = codes "IIJ";
  net_type = codes "IDC ";
  stack = [];
  channel = [];
  url = [];
}

abbrev accepted : DonationInput
accepted = record {
  label = codes "Tokyo IIJ";
  region = codes "Tokyo";
  isp = codes "IIJ";
  net_type = codes "idc";
  stack = codes "DualStack";
  channel = codes "ws";
  url = [];
}

form_runs : normalize form ≡ ok accepted
unfolding normalize check_input trimmed trim_space to_lower
form_runs = refl

abbrev gift : NodeDonation
gift = record {
  id = 60;
  user_id = 7;
  node_id = codes "d7-abc";
  label = codes "Tokyo IIJ";
  net_type = NetType.idc;
  stack = codes "DualStack";
  is_ws = true;
  url = [];
  ws_key = codes "nk_1";
  api_key = [];
  status = DonationStatus.pending;
  review_note = [];
  reviewed_by = [];
  reviewed_at = none;
  bonus_paid = pos 0;
  daily_earned = pos 0;
  reward_days = 0;
  last_settled = none;
}

abbrev offered : Db
offered = record start { donations = gift ∷ [] }

abbrev gift_row : PointLedger
gift_row = entry 2 (bonus_op rules (codes "root") gift) (account (pos 500) (pos 500) (pos 0))

abbrev approved_db : Db
approved_db = record start {
  next_id = 3;
  accounts = account (pos 500) (pos 500) (pos 0) ∷ [];
  ledger = gift_row ∷ [];
  donations = approve_row 9 (codes "root") (codes "ok") (some (pos 500)) gift ∷ [];
  node_defs = pool_row 1 (pos 0) gift ∷ [];
}

approve_runs :
    approve_donation rules 9 gift (codes "root") (codes "ok") offered
    ≡ (ok (some (pos 500)), approved_db)
unfolding approve_donation approve_body save_def pay_bonus apply_points donate_rates bonus_op
    ensure_account is_covered post ◌+ℤ◌
approve_runs = refl

idc_bonus-IsAmount : IsAmount (donate_rates rules NetType.idc).0
unfolding donate_rates
idc_bonus-IsAmount = ground arith

short_key : length (bonus_key 60) ≤ key_limit
unfolding decimal
short_key = ground arith

approve_donation_once_example :
    approve_donation rules 10 gift (codes "root") [] approved_db
    ≢ (ok (some (pos 500)), approved_db)
approve_donation_once_example =
    approve_donation_once rules rules 9 10 gift gift (codes "root") (codes "root") (codes "ok") []
      offered approved_db (pos 500) approve_runs refl short_key (pos 500) approved_db

abbrev live : NodeDonation
live = record gift { status = DonationStatus.approved; reviewed_at = some 9 }

abbrev live_db : Db
live_db = record start { donations = live ∷ [] }

abbrev reward_ledger : PointLedger
reward_ledger = entry 1 (day_op rules 100 live) (account (pos 20) (pos 20) (pos 0))

abbrev rewarded : Db
rewarded = record start {
  next_id = 2;
  accounts = account (pos 20) (pos 20) (pos 0) ∷ [];
  ledger = reward_ledger ∷ [];
  donations = reward_row (pos 20) 100 live ∷ [];
}

reward_runs : settle_one rules 100 live live_db ≡ (ok reward_ledger, rewarded)
unfolding settle_one settle_body apply_points day_op donate_rates ensure_account is_covered post
    ◌+ℤ◌
reward_runs = refl

short_day_key : length (day_key 60 100) ≤ key_limit
unfolding decimal date_text
short_day_key = ground arith

nonzero_rate : (donate_rates rules NetType.idc).1 ≢ pos 0
unfolding donate_rates
nonzero_rate = ground arith

abbrev nodes_seen : Presence
nodes_seen = record { zone = 0; nodes = []; events = []; windows = [] }

-- The node of the donation came online before the day and stayed.
abbrev seen_all_day : Presence
seen_all_day = record {
  zone = 0;
  nodes = record { node_id = codes "d7-abc"; online = true; first_seen_at = some 0 } ∷ [];
  events = record { id = 1; node_id = codes "d7-abc"; event = went_online; at = 99 * day_ns } ∷ [];
  windows = [];
}

online_all_day :
    node_online_seconds
      (find (λ n. text_eq n.node_id (codes "d7-abc")) seen_all_day.nodes)
      (codes "d7-abc")
      (100 * day_ns)
      (101 * day_ns)
      seen_all_day.events
    ≡ 86_400
unfolding node_online_seconds build_uptime_stats uptime_for_node prior_event scan window_events
    sort_events seconds_between sum_overlaps
online_all_day = refl

settle_loop_again_example :
    settle_loop rules seen_all_day 100
      (live ∷ [])
      (settle_loop rules seen_all_day 100 (live ∷ []) live_db).1
    ≡ (0, (settle_loop rules seen_all_day 100 (live ∷ []) live_db).1)
settle_loop_again_example =
    settle_loop_again rules seen_all_day 100 (live ∷ []) live_db (ground arith) (ground arith)
      (same_books start live_db start-IsConsistent refl refl) (short_day_key, tt)

abbrev request : Application
request = record { input = form; node_id = codes " Shop-1 "; api_key = [] }

-- A rejected donation beside one that is pending, which is all that the rules allow.
abbrev rejected_gift : NodeDonation
rejected_gift = record gift { id = 8; status = DonationStatus.rejected }

abbrev full_db : Db
full_db = record start { donations = rejected_gift ∷ gift ∷ [] }

node_id_test : is_node_id (donated_id 7 (codes "ab12ef") []) ≡ true
unfolding is_node_id decimal trim_space to_lower
node_id_test = refl

over_limit_test : (create_donation rules 7 [] [] request full_db).0 ≡ some limit_reached
unfolding create_donation insert_donation normalize check_input trimmed active_count
over_limit_test = refl

edit_over_limit_example :
    active_count 7 (edit_donation false 7 8 request full_db).1 ≡ suc (active_count 7 full_db)
unfolding normalize check_input trimmed trim_space to_lower
edit_over_limit_example =
    edit_over_limit 7 8 request accepted rejected_gift full_db refl refl refl refl refl refl

create_donation_capped_example :
    pos (active_count 7 (create_donation rules 7 [] [] request start).1) ≤ℤ pos 1
unfolding create_donation insert_donation normalize check_input trimmed active_count is_node_id
create_donation_capped_example = create_donation_capped rules 7 [] [] request start refl refl
