-- ===== src/Sla/Rounds/Balance.antt =====
-- The counts of the curve's points fit together.
use ipw_boce.Prelude.{
  All, Bool-cases, List, [], arith, drop, false, inl, inr, leb, suc, take, zero, ℕ, ◌&&◌, ◌+◌, ◌==◌,
  ◌∷◌, ◌≡◌, ◌≤◌,
}
use ipw_boce.Sla.Rounds.{
  Round, Rounds, Sample, add_sample, add_to, collect, insert_round, merge_all, merge_round,
  no_round, points_loop, round_key, rows_to_round_series, sort_rounds,
}

-- A round counts each valid sample as up or down, and the latency of each that is up.
abbrev pub IsBalanced : Round → Type 0
IsBalanced g = (g.valid ≡ g.up + g.down) × (g.lat_count ≡ g.up) × (g.valid ≤ g.samples)

-- A sample that is up is valid.
abbrev pub IsSound : Sample → Type 0
IsSound s = s.eval.up && s.eval.invalid ≡ false

add_sample-IsBalanced :
    (s : Sample) (g : Round) → IsSound s → IsBalanced g → IsBalanced (add_sample s g)
unfolding add_sample
add_sample-IsBalanced s g sound b = (ground arith, ground arith, ground arith)

merge_round-IsBalanced : (g x : Round) → IsBalanced g → IsBalanced x → IsBalanced (merge_round g x)
unfolding merge_round
merge_round-IsBalanced g x b c = (ground arith, ground arith, ground arith)

abbrev AllBalanced : Rounds → Type 0
AllBalanced rs = All (λ r. IsBalanced (r.1)) rs

no_round-IsBalanced : IsBalanced no_round
no_round-IsBalanced = (ground arith, ground arith, ground arith)

add_to-AllBalanced :
    (s : Sample) (rs : Rounds) → IsSound s → AllBalanced rs → AllBalanced (add_to s rs)
unfolding add_to
add_to-AllBalanced s [] sound b = (add_sample-IsBalanced s no_round sound no_round-IsBalanced, tt)
add_to-AllBalanced s ((k, g) ∷ rest) sound b = elim (Bool-cases (k == round_key s.at)) [
  | inl own ↦ rw own (add_sample-IsBalanced s g sound b.0, b.1)
  | inr other ↦ rw other (b.0, add_to-AllBalanced s rest sound b.1)
]

collect-AllBalanced :
    (ss : List Sample) (rs : Rounds) → All IsSound ss → AllBalanced rs → AllBalanced (collect ss rs)
unfolding collect
collect-AllBalanced [] rs sound b = b
collect-AllBalanced (s ∷ ss) rs sound b =
    collect-AllBalanced ss (add_to s rs) sound.1 (add_to-AllBalanced s rs sound.0 b)

insert_round-AllBalanced :
    (r : ℕ × Round) (rs : Rounds)
    → IsBalanced (r.1)
    → AllBalanced rs
    → AllBalanced (insert_round r rs)
unfolding insert_round
insert_round-AllBalanced (k, g) [] a b = (a, tt)
insert_round-AllBalanced (k, g) ((j, h) ∷ rest) a b = elim (Bool-cases (leb k j)) [
  | inl first ↦ rw first (a, b)
  | inr after ↦ rw after (b.0, insert_round-AllBalanced (k, g) rest a b.1)
]

sort_rounds-AllBalanced : (rs : Rounds) → AllBalanced rs → AllBalanced (sort_rounds rs)
unfolding sort_rounds
sort_rounds-AllBalanced [] b = tt
sort_rounds-AllBalanced (r ∷ rs) b =
    insert_round-AllBalanced r (sort_rounds rs) b.0 (sort_rounds-AllBalanced rs b.1)

take-AllBalanced : (n : ℕ) (rs : Rounds) → AllBalanced rs → AllBalanced (take n rs)
take-AllBalanced zero rs b = tt
take-AllBalanced (suc n) [] b = tt
take-AllBalanced (suc n) (r ∷ rs) b = (b.0, take-AllBalanced n rs b.1)

drop-AllBalanced : (n : ℕ) (rs : Rounds) → AllBalanced rs → AllBalanced (drop n rs)
drop-AllBalanced zero rs b = b
drop-AllBalanced (suc n) [] b = tt
drop-AllBalanced (suc n) (r ∷ rs) b = drop-AllBalanced n rs b.1

merge_all-IsBalanced :
    (rs : Rounds) (g : Round) → AllBalanced rs → IsBalanced g → IsBalanced (merge_all rs g)
unfolding merge_all
merge_all-IsBalanced [] g b c = c
merge_all-IsBalanced ((k, x) ∷ rest) g b c =
    merge_all-IsBalanced rest (merge_round g x) b.1 (merge_round-IsBalanced g x c b.0)

points_loop-IsBalanced :
    (fuel width : ℕ) (rs : Rounds)
    → AllBalanced rs
    → All (λ p. IsBalanced p.total) (points_loop fuel width rs)
unfolding points_loop
points_loop-IsBalanced fuel width [] b = tt
points_loop-IsBalanced zero width (r ∷ rest) b = tt
points_loop-IsBalanced (suc fuel) width ((k, g) ∷ rest) b = (
  merge_all-IsBalanced (take width ((k, g) ∷ rest)) no_round
      (take-AllBalanced width ((k, g) ∷ rest) b) no_round-IsBalanced,
  points_loop-IsBalanced fuel width (drop width ((k, g) ∷ rest))
      (drop-AllBalanced width ((k, g) ∷ rest) b),
)

-- At every point of the curve, the valid samples are those up and those down, each sample that is
-- up has counted its latency, and there are no more valid samples than samples, if no sample is
-- both up and invalid.
pub rows_to_round_series-IsBalanced :
    (rows : List Sample)
    → All IsSound rows
    → All (λ p. IsBalanced p.total) (rows_to_round_series rows)
unfolding rows_to_round_series
rows_to_round_series-IsBalanced rows sound =
    points_loop-IsBalanced _ _ (sort_rounds (collect rows []))
      (sort_rounds-AllBalanced (collect rows []) (collect-AllBalanced rows [] sound tt))
