-- ===== src/Sla/Tests.antt =====
-- Runs of the judgement of samples on concrete data. Numbers are read by `digits`, a reader of
-- unsigned numerals.
use ipw_boce.Calendar.{second_ns}
use ipw_boce.Prelude.{
  List, Option, Text, [], codes, false, if◌then◌else◌, leb, none, refl, some, split_commas,
  trim_parts, trim_space, true, ℕ, ◌&&◌, ◌*◌, ◌+◌, ◌-◌, ◌∷◌, ◌≡◌,
}
use ipw_boce.Prelude.Int.{pos, pos_part, ℤ}
use ipw_boce.Sla.{
  Body, Fields, ProbeTask, any_expected, detail, eval_dual_stack, eval_sample, eval_stack_up, every,
  lists_code, lookup, num_of, number, stack_codes, status_is_expected,
}
use ipw_boce.Sla.Rounds.{Sample, rows_to_round_series}
use ipw_boce.Sla.Rounds.Laws.{rows_to_round_series_complete, sum_points}

abbrev add_digit : Option ℤ → ℕ → Option ℤ
add_digit none c = none
add_digit (some n) c =
    if leb b'0' c && leb c b'9' then some (pos (pos_part n * 10 + (c - b'0'))) else none

unfoldable digits_from : Option ℤ → Text → Option ℤ
digits_from n [] = n
digits_from n (c ∷ s) = digits_from (add_digit n c) s

abbrev digits : Text → Option ℤ
digits [] = none
digits (c ∷ s) = digits_from (some (pos 0)) (c ∷ s)

abbrev task : ProbeTask
task = record {
  api_type = detail;
  expect_status = codes "200, 301";
  slow_ms = pos 500;
  require_all_stacks = true;
  both_protocols = false;
  cert_expired_down = true;
}

abbrev stack_fields : ℤ → Fields
stack_fields code = (codes "https_status_code", number code) ∷ []

abbrev page : Body
page = record {
  fields = [];
  objects = (codes "ipv4", stack_fields (pos 301)) ∷ (codes "ipv6", stack_fields (pos 200)) ∷ [];
}

page_runs :
    eval_sample digits digits task (pos 200) (some page) (pos 600)
    ≡ record { up = true; invalid = false; slow = true }
unfolding eval_sample eval_dual_stack lookup every eval_stack_up stack_codes num_of any_expected
    status_is_expected lists_code trim_parts split_commas trim_space digits_from
page_runs = refl

abbrev sample : ℕ → ℤ → Sample
sample at ms = record {
  at = at * second_ns;
  eval = record { up = true; invalid = false; slow = false };
  ms = ms;
}

abbrev three_rows : List Sample
three_rows = sample 60 (pos 20) ∷ sample 30 (pos 10) ∷ sample 60 (pos 40) ∷ []

rows_to_round_series_complete_example : sum_points (rows_to_round_series three_rows) ≡ 3
rows_to_round_series_complete_example = rows_to_round_series_complete three_rows
