-- ===== src/Sla/Rounds.antt =====
-- The points of a task's curve (sla_eval.go): roundAgg and rowsToRoundSeries, for samples that
-- have been judged. The quotients of a point are left out.
pub mod Balance
pub mod Laws
use ipw_boce.Calendar.{second_ns}
use ipw_boce.Prelude.{
  List, [], drop, if◌then◌else◌, leb, length, ltb, suc, take, zero, ℕ, ◌+◌, ◌-◌, ◌/◌, ◌==◌, ◌∷◌,
}
use ipw_boce.Prelude.Int.{pos, ℤ, ◌+ℤ◌}
use ipw_boce.Sla.{SampleEval}
use ipw_boce.Uptime.{down, up}

pub record Sample : Type 0 where
  pub at : ℕ
  pub eval : SampleEval
  pub ms : ℤ

pub record Round : Type 0 where
  pub samples : ℕ
  pub valid : ℕ
  pub up : ℕ
  pub down : ℕ
  pub sum_ms : ℤ
  pub lat_count : ℕ

abbrev pub no_round : Round
no_round = record { samples = 0; valid = 0; up = 0; down = 0; sum_ms = pos 0; lat_count = 0 }

-- roundAgg.add
unfoldable pub add_sample : Sample → Round → Round
add_sample s g =
    let valid = if s.eval.invalid then g.valid else suc g.valid in
    if s.eval.up
    then record {
      samples = suc g.samples;
      valid = valid;
      up = suc g.up;
      down = g.down;
      sum_ms = g.sum_ms +ℤ s.ms;
      lat_count = suc g.lat_count;
    }
    else record g {
      samples = suc g.samples;
      valid = valid;
      down = if s.eval.invalid then g.down else suc g.down;
    }

-- `CreatedAt.Round(time.Second).Unix()`
unfoldable pub round_key : ℕ → ℕ
round_key t = (t + 500_000_000) / second_ns

abbrev pub Rounds : Type 0
Rounds = List (ℕ × Round)

-- The map from second to round, with its keys in the order of their first use.
unfoldable pub add_to : Sample → Rounds → Rounds
add_to s [] = (round_key s.at, add_sample s no_round) ∷ []
add_to s ((k, g) ∷ rest) =
    let others = add_to s rest in
    if k == round_key s.at then (k, add_sample s g) ∷ rest else (k, g) ∷ others

unfoldable pub collect : List Sample → Rounds → Rounds
collect [] rounds = rounds
collect (s ∷ ss) rounds = collect ss (add_to s rounds)

-- sort.Slice(keys)
unfoldable pub insert_round : ℕ × Round → Rounds → Rounds
insert_round (k, g) [] = (k, g) ∷ []
insert_round (k, g) ((j, h) ∷ rest) =
    let others = insert_round (k, g) rest in
    if leb k j then (k, g) ∷ (j, h) ∷ rest else (j, h) ∷ others

unfoldable pub sort_rounds : Rounds → Rounds
sort_rounds [] = []
sort_rounds (r ∷ rs) = insert_round r (sort_rounds rs)

abbrev pub max_round_points : ℕ
max_round_points = 1500

-- How many rounds make a point.
unfoldable pub merge_width : ℕ → ℕ
merge_width n = if ltb max_round_points n then (n + max_round_points - 1) / max_round_points else 1

unfoldable pub merge_round : Round → Round → Round
merge_round g x = record {
  samples = g.samples + x.samples;
  valid = g.valid + x.valid;
  up = g.up + x.up;
  down = g.down + x.down;
  sum_ms = g.sum_ms +ℤ x.sum_ms;
  lat_count = g.lat_count + x.lat_count;
}

unfoldable pub merge_all : Rounds → Round → Round
merge_all [] g = g
merge_all ((k, x) ∷ rest) g = merge_all rest (merge_round g x)

-- A point: the time of its first round, the sum of its rounds and their number.
pub record Point : Type 0 where
  pub at : ℕ
  pub total : Round
  pub rounds : ℕ

abbrev pub point_of : ℕ → Rounds → Point
point_of k chunk = record { at = k; total = merge_all chunk no_round; rounds = length chunk }

-- The loop that takes `width` rounds for each point. The fuel is the number of rounds.
unfoldable pub points_loop : ℕ → ℕ → Rounds → List Point
points_loop fuel width [] = []
points_loop zero width ((k, g) ∷ rest) = []
points_loop (suc fuel) width ((k, g) ∷ rest) =
    point_of k (take width ((k, g) ∷ rest)) ∷ points_loop fuel width (drop width ((k, g) ∷ rest))

-- rowsToRoundSeries
unfoldable pub rows_to_round_series : List Sample → List Point
rows_to_round_series rows =
    let rounds = sort_rounds (collect rows []) in
    points_loop (length rounds) (merge_width (length rounds)) rounds
