-- ===== src/Limits.antt =====
-- Limits on requests (util.go): clampLimit and the rate limiter, with its clean-up. The buckets of
-- the limiter are an association list; `now` is a reading of the clock in nanoseconds, which the
-- mutex of the code makes the state of one call after the other.
mod Tests
pub mod Laws
use ipw_boce.Maintenance.{minute_ns}
use ipw_boce.Points.{entry}
use ipw_boce.Prelude.{
  Bool, List, Option, Text, [], count, delete, if◌then◌else◌, leb, ltb, max, none, some, suc,
  text_eq, true, ℕ, ◌*◌, ◌-◌, ◌∷◌,
}
use ipw_boce.Prelude.Int.{leb_ℤ, ltb_ℤ, pos, ℤ}

-- clampLimit, where `atoi` is strconv.Atoi.
unfoldable pub clamp_limit : (Text → Option ℤ) → Text → ℤ → ℤ
clamp_limit atoi raw def = elim (atoi raw) [
  | none ↦ def
  | some n ↦ if leb_ℤ n (pos 0) then def else if ltb_ℤ (pos 1000) n then pos 1000 else n
]

pub record RateBucket : Type 0 where
  pub count : ℕ
  pub start : ℕ

abbrev pub Buckets : Type 0
Buckets = List (Text × RateBucket)

unfoldable pub bucket_of : Text → Buckets → Option RateBucket
bucket_of k [] = none
bucket_of k ((j, b) ∷ rest) = let found = bucket_of k rest in if text_eq j k then some b else found

unfoldable pub put : Text → RateBucket → Buckets → Buckets
put k b [] = (k, b) ∷ []
put k b ((j, c) ∷ rest) =
    let others = put k b rest in if text_eq j k then (j, b) ∷ rest else (j, c) ∷ others

-- A request in a running window.
abbrev count_request : ℤ → Text → RateBucket → Buckets → Bool × Buckets
count_request max k b rest =
    (leb_ℤ (pos (suc b.count)) max, put k (record b { count = suc b.count }) rest)

abbrev pub new_window : ℕ → RateBucket
new_window now = record { count = 1; start = now }

-- allow
unfoldable pub allow : ℤ → ℕ → Text → Buckets → Bool × Buckets
allow max now k bs = if leb_ℤ max (pos 0) then (true, bs) else elim (bucket_of k bs) [
  | none ↦ (true, put k (new_window now) bs)
  | some b ↦
      if leb minute_ns (now - b.start)
      then (true, put k (new_window now) bs)
      else count_request max k b bs
]

abbrev is_idle : ℕ → Text × RateBucket → Bool
is_idle now entry = ltb (2 * minute_ns) (now - (entry.1).start)

-- The loop of newRateLimiter that forgets old buckets.
unfoldable pub forget_idle : ℕ → Buckets → Buckets
forget_idle now bs = delete (is_idle now) bs
