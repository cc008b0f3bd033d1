-- ===== src/Calendar.antt =====
-- Calendar days as the program writes them (time.Format of the Go library, used by todayStr in
-- points_core.go). A day is the number of days since 1970-01-01 in the server's time zone, whose
-- offset is fixed; an instant is a number of nanoseconds since that midnight, UTC.
use ipw_boce.Prelude.{
  Text, codes, decimal2, decimal4, if◌then◌else◌, leb, ltb, refl, ℕ, ◌%◌, ◌*◌, ◌++◌, ◌+◌, ◌-◌, ◌/◌,
  ◌∷◌, ◌≡◌,
}

abbrev pub second_ns : ℕ
second_ns = 1_000_000_000

abbrev pub day_ns : ℕ
day_ns = 86_400 * second_ns

-- The local day of an instant, `zone` nanoseconds east of UTC.
unfoldable pub day_of : ℕ → ℕ → ℕ
day_of zone t = (t + zone) / day_ns

-- The day of the year that starts on 1 March, as year, month and day.
unfoldable pub civil_of : ℕ → ℕ × ℕ × ℕ
civil_of d =
    let z = d + 719_468 in
    let era = z / 146_097 in
    let doe = z % 146_097 in
    let yoe = (doe - doe / 1_460 + doe / 36_524 - doe / 146_096) / 365 in
    let doy = doe - (365 * yoe + yoe / 4 - yoe / 100) in
    let mp = (5 * doy + 2) / 153 in
    let month = if ltb mp 10 then mp + 3 else mp - 9 in
    (
      (if leb month 2 then yoe + era * 400 + 1 else yoe + era * 400),
      month,
      doy - (153 * mp + 2) / 5 + 1,
    )

-- Format("2006-01-02")
unfoldable pub date_text : ℕ → Text
unfolding civil_of decimal4 decimal2
date_text d =
    let (y, m, day) = civil_of d in decimal4 y ++ (b'-' ∷ decimal2 m) ++ (b'-' ∷ decimal2 day)

leap_day : date_text 19_782 ≡ codes "2024-02-29"
unfolding date_text
leap_day = refl

first_day : date_text 0 ≡ codes "1970-01-01"
unfolding date_text
first_day = refl

year_end : date_text 20_453 ≡ codes "2025-12-31"
unfolding date_text
year_end = refl
