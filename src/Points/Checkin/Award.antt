-- ===== src/Points/Checkin/Award.antt =====
-- The size of the award for a check-in.
-- Without wrap-around: the days after the first, up to the cap.
use ipw_boce.Points.Checkin.{capped_extra, checkin_points}
use ipw_boce.Prelude.{arith, min, suc, ℕ, ◌*◌, ◌+◌, ◌<◌, ◌^◌, ◌≡◌, ◌≤◌}
use ipw_boce.Prelude.Int.{pos, pos-*ℤ, pos-+ℤ, wrap64-pos, ◌-ℤ◌, -ℤ_parts}
use ipw_boce.Store.{PointsConfig}

capped_extra_lem :
    (cfg : PointsConfig) (top streak : ℕ)
    → cfg.checkin_streak_max ≡ pos (suc top)
    → capped_extra cfg (suc streak) ≡ pos (min streak top)
unfolding capped_extra ◌-ℤ◌
capped_extra_lem cfg top streak em = ground (arith, em, -ℤ_parts (pos (suc streak)) (pos 1))

-- For rules with no negative number and a cap of at least one day, and sums that fit an int64, the
-- award is the base and the bonus once for each day of the streak after the first, up to the cap.
pub checkin_points_lem :
    (cfg : PointsConfig) (base bonus top streak : ℕ)
    → cfg.checkin_base ≡ pos base
    → cfg.checkin_streak_bonus ≡ pos bonus
    → cfg.checkin_streak_max ≡ pos (suc top)
    → base + top * bonus < 2 ^ 63
    → checkin_points cfg (suc streak) ≡ pos (base + min streak top * bonus)
unfolding checkin_points
checkin_points_lem cfg base bonus top streak eb ew em fits =
    let most : min streak top * bonus ≤ top * bonus = grind arith in
    rw
      (
        capped_extra_lem cfg top streak em,
        eb,
        ew,
        pos-*ℤ (min streak top) bonus,
        wrap64-pos (min streak top * bonus) (omega arith),
        pos-+ℤ base (min streak top * bonus),
      )
      (wrap64-pos (base + min streak top * bonus) (omega arith))
