-- ===== src/Sla/Rounds/Laws.antt =====
-- No sample is lost or counted twice on the way to the curve, and the curve has few points.
use native.Mathlib.Nat.{mul-suc}
use ipw_boce.Prelude.{
  List, [], arith, drop, length, refl, suc, take, zero, ℕ, ◌*◌, ◌+◌, ◌-◌, ◌∷◌, ◌≡◌, ◌≤◌,
}
use ipw_boce.Sla.Rounds.{
  Point, Round, Rounds, Sample, add_sample, add_to, collect, insert_round, max_round_points,
  merge_all, merge_round, merge_width, no_round, points_loop, rows_to_round_series, sort_rounds,
}

unfoldable sum_rounds : Rounds → ℕ
sum_rounds [] = 0
sum_rounds ((k, g) ∷ rest) = g.samples + sum_rounds rest

unfoldable pub sum_points : List Point → ℕ
sum_points [] = 0
sum_points (p ∷ ps) = p.total.samples + sum_points ps

add_to-sum : (s : Sample) (rs : Rounds) → sum_rounds (add_to s rs) ≡ suc (sum_rounds rs)
unfolding sum_rounds add_to add_sample
add_to-sum s [] = ground arith
add_to-sum s ((k, g) ∷ rest) = ground (arith, add_to-sum s rest)

collect-sum :
    (ss : List Sample) (rs : Rounds) → sum_rounds (collect ss rs) ≡ length ss + sum_rounds rs
unfolding collect
collect-sum [] rs = omega arith
collect-sum (s ∷ ss) rs = omega (arith, collect-sum ss (add_to s rs), add_to-sum s rs)

insert_round-sum :
    (r : ℕ × Round) (rs : Rounds) → sum_rounds (insert_round r rs) ≡ (r.1).samples + sum_rounds rs
unfolding sum_rounds insert_round
insert_round-sum (k, g) [] = refl
insert_round-sum (k, g) ((j, h) ∷ rest) = ground (arith, insert_round-sum (k, g) rest)

sort_rounds-sum : (rs : Rounds) → sum_rounds (sort_rounds rs) ≡ sum_rounds rs
unfolding sum_rounds sort_rounds
sort_rounds-sum [] = refl
sort_rounds-sum ((k, g) ∷ rest) =
    omega (arith, insert_round-sum (k, g) (sort_rounds rest), sort_rounds-sum rest)

merge_all-sum : (rs : Rounds) (g : Round) → (merge_all rs g).samples ≡ g.samples + sum_rounds rs
unfolding sum_rounds merge_all merge_round
merge_all-sum [] g = omega arith
merge_all-sum ((k, x) ∷ rest) g = omega (arith, merge_all-sum rest (merge_round g x))

split-sum : (n : ℕ) (rs : Rounds) → sum_rounds (take n rs) + sum_rounds (drop n rs) ≡ sum_rounds rs
unfolding sum_rounds
split-sum zero rs = omega arith
split-sum (suc n) [] = refl
split-sum (suc n) ((k, g) ∷ rest) = omega (arith, split-sum n rest)

length-drop-le : (n : ℕ) (rs : Rounds) → length (drop n rs) ≤ length rs - n
length-drop-le zero rs = omega arith
length-drop-le (suc n) [] = omega arith
length-drop-le (suc n) (r ∷ rest) = omega (arith, length-drop-le n rest)

points_loop-sum :
    (fuel width : ℕ) (rs : Rounds)
    → 1 ≤ width
    → length rs ≤ fuel
    → sum_points (points_loop fuel width rs) ≡ sum_rounds rs
unfolding sum_points points_loop sum_rounds
points_loop-sum fuel width [] le enough = refl
points_loop-sum zero width (r ∷ rest) le enough = absurd (omega arith)
points_loop-sum (suc fuel) width ((k, g) ∷ rest) le enough =
    let shorter = length-drop-le width ((k, g) ∷ rest) in
    let r = points_loop-sum fuel width (drop width ((k, g) ∷ rest)) le (omega (arith, shorter)) in
    omega (
      arith,
      r,
      merge_all-sum (take width ((k, g) ∷ rest)) no_round,
      split-sum width ((k, g) ∷ rest),
    )

merge_width-pos : (n : ℕ) → 1 ≤ merge_width n
unfolding merge_width
merge_width-pos n = ground arith

merge_width-wide : (n : ℕ) → n ≤ merge_width n * max_round_points
unfolding merge_width
merge_width-wide n = ground arith

-- The curve counts every row once: its points have as many samples as there are rows.
pub rows_to_round_series_complete :
    (rows : List Sample) → sum_points (rows_to_round_series rows) ≡ length rows
unfolding rows_to_round_series
rows_to_round_series_complete rows =
    let rs = sort_rounds (collect rows []) in
    let a =
      points_loop-sum (length rs) (merge_width (length rs)) rs (merge_width-pos (length rs))
        (omega arith) in
    let e : sum_rounds [] ≡ 0 = unfold sum_rounds in refl in
    omega (arith, a, sort_rounds-sum (collect rows []), collect-sum rows [], e)

drop_fits :
    (n width most m : ℕ)
    → 1 ≤ width
    → suc n ≤ width * suc most
    → m ≤ suc n - width
    → m ≤ width * most
drop_fits n width most m le few d = omega (arith, mul-suc width most)

points_loop-length :
    (fuel width most : ℕ) (rs : Rounds)
    → 1 ≤ width
    → length rs ≤ width * most
    → length (points_loop fuel width rs) ≤ most
unfolding points_loop
points_loop-length fuel width most [] le few = omega arith
points_loop-length zero width most (r ∷ rest) le few = omega arith
points_loop-length (suc fuel) width zero (r ∷ rest) le few = absurd (omega arith)
points_loop-length (suc fuel) width (suc most) ((k, g) ∷ rest) le few =
    let shorter = length-drop-le width ((k, g) ∷ rest) in
    let r =
      points_loop-length fuel width most (drop width ((k, g) ∷ rest)) le
        (drop_fits (length rest) width most _ le few shorter) in
    omega (arith, r)

-- The curve has at most 1500 points.
pub rows_to_round_series_bounded :
    (rows : List Sample) → length (rows_to_round_series rows) ≤ max_round_points
unfolding rows_to_round_series
rows_to_round_series_bounded rows =
    let rs = sort_rounds (collect rows []) in
    points_loop-length (length rs) (merge_width (length rs)) max_round_points rs
      (merge_width-pos (length rs)) (merge_width-wide (length rs))
