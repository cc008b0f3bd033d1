-- ===== src/Uptime/Days.antt =====
-- The day buckets cover the window.
use ipw_boce.Calendar.{day_ns, day_of}
use ipw_boce.Prelude.{
  Bool-cases, List, [], ap, arith, false, if◌then◌else◌, inl, inr, ltb, refl, subst, suc, sym, true,
  zero, ℕ, ◌*◌, ◌+◌, ◌-◌, ◌<◌, ◌∙◌, ◌∷◌, ◌≡◌, ◌≤◌,
}
use ipw_boce.Uptime.{UptimeDaily, day_buckets, day_loop}

-- The buckets follow each other without a gap from `lo` to `hi`, and none is empty.
abbrev pub Tiles : ℕ → ℕ → List UptimeDaily → Type 0
Tiles lo hi [] = lo ≡ hi
Tiles lo hi (b ∷ bs) = (b.start ≡ lo) × (b.start < b.end) × Tiles b.end hi bs

-- The loop ends with the window.
day_loop-past : (fuel zone day f t : ℕ) → t ≤ day * day_ns → day_loop fuel zone day f t ≡ []
unfolding day_loop
day_loop-past zero zone day f t le = refl
day_loop-past (suc fuel) zone day f t le = ground arith

abbrev first_of : ℕ → ℕ → ℕ
first_of d f = if ltb d f then f else d

first_of-early : (d f : ℕ) → f < d → first_of d f ≡ d
first_of-early d f early = ground arith

first_of-zone : (d f zone : ℕ) → zone ≤ f → zone ≤ first_of d f
first_of-zone d f zone z = ground arith

sub_lt : (a b zone : ℕ) → zone ≤ a → a < b → a - zone < b - zone
sub_lt a b zone z l = omega arith

le_of : (t d : ℕ) → ltb t d ≡ true → t ≤ d
le_of t d last = ground arith

le_of_not : (t d : ℕ) → ltb t d ≡ false → d ≤ t
le_of_not t d more = ground arith

lt_of : (t d : ℕ) → ltb t d ≡ true → t < d
lt_of t d last = ground arith

start_past : (d f t : ℕ) → ltb d t ≡ false → first_of d f ≤ t → first_of d f ≡ t
start_past d f t past s = ground arith

empty_last : (d f t : ℕ) → first_of d f ≤ t → ltb (first_of d f) t ≡ false → first_of d f ≡ t
empty_last d f t s over = ground arith

first_early : (d e f : ℕ) → f < e → d < e → ltb (first_of d f) e ≡ true
first_early d e f n g = ground arith

day_grows : (day : ℕ) → day * day_ns < suc day * day_ns
day_grows day = omega arith

start_within : (d f t : ℕ) → f < d → ltb t d ≡ false → first_of d f ≤ t
start_within d f t n more = ground arith

before_next : (f day : ℕ) → f < suc day * day_ns → f < suc (suc day) * day_ns
before_next f day n = omega arith

days_left : (t day fuel : ℕ) → t ≤ (day + suc fuel) * day_ns → t ≤ (suc day + fuel) * day_ns
days_left t day fuel e = omega arith

day_loop-Tiles :
    (fuel zone day f t : ℕ)
    → zone ≤ f
    → f < suc day * day_ns
    → first_of (day * day_ns) f ≤ t
    → t ≤ (day + fuel) * day_ns
    → Tiles (first_of (day * day_ns) f - zone) (t - zone) (day_loop fuel zone day f t)
unfolding day_loop
day_loop-Tiles zero zone day f t z n s e = ground arith
day_loop-Tiles (suc fuel) zone day f t z n s e = elim (Bool-cases (ltb (day * day_ns) t)) [
  | inr past ↦ rw past (ap (λ x. x - zone) (start_past (day * day_ns) f t past s))
  | inl inside ↦ elim (Bool-cases (ltb t (suc day * day_ns))) [
    | inl last ↦
        let none_left = day_loop-past fuel zone (suc day) f t (le_of t (suc day * day_ns) last) in
        elim (Bool-cases (ltb (first_of (day * day_ns) f) t)) [
          | inl open_day ↦
              rw (inside, last, open_day, none_left)
                (
                  refl,
                  sub_lt (first_of (day * day_ns) f) t zone (first_of-zone (day * day_ns) f zone z)
                      (lt_of (first_of (day * day_ns) f) t open_day),
                  refl,
                )
          | inr over ↦
              rw (inside, last, over, none_left)
                (ap (λ x. x - zone) (empty_last (day * day_ns) f t s over))
        ]
    | inr more ↦
        let next = first_of-early (suc day * day_ns) f n in
        let rest =
          day_loop-Tiles fuel zone (suc day) f t z (before_next f day n)
            (start_within (suc day * day_ns) f t n more) (days_left t day fuel e) in
        rw (inside, more, first_early (day * day_ns) (suc day * day_ns) f n (day_grows day))
          (
            refl,
            sub_lt (first_of (day * day_ns) f) (suc day * day_ns) zone
                (first_of-zone (day * day_ns) f zone z)
                (lt_of (first_of (day * day_ns) f) (suc day * day_ns)
                  (first_early (day * day_ns) (suc day * day_ns) f n (day_grows day))),
            subst (λ x. Tiles (x - zone) (t - zone) (day_loop fuel zone (suc day) f t)) next rest,
          )
  ]
]

day_lower : (zone t : ℕ) → day_of zone t * day_ns ≤ t + zone
unfolding day_of
day_lower zone t = omega arith

day_upper : (zone t : ℕ) → t + zone < suc (day_of zone t) * day_ns
unfolding day_of
day_upper zone t = omega arith

first_of-late : (d f : ℕ) → d ≤ f → first_of d f ≡ f
first_of-late d f late = ground arith

back : (t zone : ℕ) → t + zone - zone ≡ t
back t zone = omega arith

-- The buckets of a window that does not end before it starts follow each other without a gap from
-- its start to its end, each of them not empty; the fuel of the loop is enough for it.
pub day_buckets-Tiles : (zone from to : ℕ) → from ≤ to → Tiles from to (day_buckets zone from to)
unfolding day_buckets
day_buckets-Tiles zone from to le =
    let first = first_of-late (day_of zone from * day_ns) (from + zone) (day_lower zone from) in
    let upper = day_upper zone to in
    let tiles =
      day_loop-Tiles (suc (day_of zone to)) zone (day_of zone from) (from + zone) (to + zone)
        (omega arith) (day_upper zone from) (subst (λ x. x ≤ to + zone) (sym first) (omega arith))
        (omega arith) in
    subst (λ x. Tiles x to (day_buckets zone from to)) (ap (λ x. x - zone) first ∙ back from zone)
      (subst
        (λ x.
          Tiles (first_of (day_of zone from * day_ns) (from + zone) - zone) x
            (day_buckets zone from to))
        (back to zone) tiles)
