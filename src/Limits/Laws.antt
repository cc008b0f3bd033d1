-- ===== src/Limits/Laws.antt =====
-- The rate limiter keeps its promise.
use ipw_boce.Limits.{Buckets, RateBucket, allow, bucket_of, clamp_limit, new_window, put}
use ipw_boce.Maintenance.{minute_ns}
use ipw_boce.Prelude.{
  All, Bool-cases, List, Option, Option-cases, Text, [], ap, arith, false, if◌then◌else◌, inl, inr,
  leb, max, none, refl, some, suc, text_eq, text_eq_iff, text_eq_self, ℕ, ◌+◌, ◌-◌, ◌<◌, ◌∷◌, ◌≡◌,
  ◌≤◌,
}
use ipw_boce.Prelude.Int.{leb_ℤ, pos, ℤ, ◌≤ℤ◌}

bucket_of-put : (k : Text) (b : RateBucket) (bs : Buckets) → bucket_of k (put k b bs) ≡ some b
unfolding bucket_of put
bucket_of-put k b [] = ground (arith, text_eq_self k)
bucket_of-put k b ((j, c) ∷ rest) = ground (arith, bucket_of-put k b rest)

bucket_of-put_other :
    (k k' : Text) (b : RateBucket) (bs : Buckets)
    → text_eq k k' ≡ false
    → bucket_of k' (put k b bs) ≡ bucket_of k' bs
unfolding bucket_of put
bucket_of-put_other k k' b [] ne = ground arith
bucket_of-put_other k k' b ((j, c) ∷ rest) ne =
    let r = bucket_of-put_other k k' b rest ne in
    elim (Bool-cases (text_eq j k)) [
      | inr miss ↦ rw miss (ap (λ x. if text_eq j k' then some c else x) r)
      | inl hit ↦ let e : text_eq j k' ≡ false = rw ((text_eq_iff j k).0 hit) ne in rw (hit, e) refl
    ]

-- A request of one client does not change the bucket of another.
pub allow_others :
    (max : ℤ) (now : ℕ) (k k' : Text) (bs : Buckets)
    → text_eq k k' ≡ false
    → bucket_of k' (allow max now k bs).1 ≡ bucket_of k' bs
unfolding allow
allow_others max now k k' bs ne = elim (Bool-cases (leb_ℤ max (pos 0))) [
  | inl off ↦ ground (arith, off)
  | inr on ↦ elim (Option-cases (bucket_of k bs)) [
    | inl missing ↦
        let r = bucket_of-put_other k k' (new_window now) bs ne in ground (arith, on, missing, r)
    | inr (b, e) ↦
        let r = bucket_of-put_other k k' (new_window now) bs ne in
        let s = bucket_of-put_other k k' (record b { count = suc b.count }) bs ne in
        ground (arith, on, e, r, s)
  ]
]

-- The requests of one client at the given times, and how many of them are allowed.
unfoldable pub count_allowed : ℤ → Text → List ℕ → Buckets → ℕ
count_allowed max k [] bs = 0
count_allowed max k (t ∷ ts) bs =
    let r = allow max t k bs in
    let rest = count_allowed max k ts r.1 in if r.0 then suc rest else rest

inside_window : (t s : ℕ) {c : ℕ} → 1 ≤ c → t < s + minute_ns → leb minute_ns (t - s) ≡ false
inside_window t s ge h = ground arith

-- While a window runs, no more requests of the client are allowed than its limit leaves.
count_allowed_running :
    (n : ℕ) (k : Text) (ts : List ℕ) (bs : Buckets) (b : RateBucket)
    → bucket_of k bs ≡ some b
    → 1 ≤ b.count
    → All (λ t. t < b.start + minute_ns) ts
    → count_allowed (pos (suc n)) k ts bs + b.count ≤ max (suc n) b.count
unfolding count_allowed allow
count_allowed_running n k [] bs b f ge within = ground arith
count_allowed_running n k (t ∷ ts) bs b f ge within =
    let b' : RateBucket = record b { count = suc b.count } in
    let r =
      count_allowed_running n k ts (put k b' bs) b' (bucket_of-put k b' bs) (ground arith)
        within.1 in
    let inside : leb minute_ns (t - b.start) ≡ false = inside_window t b.start ge within.0 in
    ground (arith, f, inside, r)

limited : (n : ℕ) → leb_ℤ (pos (suc n)) (pos 0) ≡ false
limited n = ground arith

-- A client gets at most as many requests through as the limit says in the minute after the first
-- of them, if the client has no bucket at the start and the limit is positive.
pub count_allowed_bounded :
    (n : ℕ) (k : Text) (t : ℕ) (ts : List ℕ) (bs : Buckets)
    → bucket_of k bs ≡ none
    → All (λ s. s < t + minute_ns) ts
    → count_allowed (pos (suc n)) k (t ∷ ts) bs ≤ suc n
unfolding count_allowed allow
count_allowed_bounded n k t ts bs f within =
    let r =
      count_allowed_running n k ts (put k (new_window t) bs) (new_window t)
        (bucket_of-put k (new_window t) bs) (ground arith) within in
    let few : suc (count_allowed (pos (suc n)) k ts (put k (new_window t) bs)) ≤ suc n =
      ground (arith, r) in
    rw (f, limited n) few

-- A limit that a query asks for is between 1 and 1000, if the default is.
pub clamp_limit_bounds :
    (atoi : Text → Option ℤ) (raw : Text) (def : ℤ)
    → pos 1 ≤ℤ def
    → def ≤ℤ pos 1000
    → (pos 1 ≤ℤ clamp_limit atoi raw def) × (clamp_limit atoi raw def ≤ℤ pos 1000)
unfolding clamp_limit
clamp_limit_bounds atoi raw def a b = (ground arith, ground arith)
