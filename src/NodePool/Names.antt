-- ===== src/NodePool/Names.antt =====
-- The names of pools, as they are stored and read back.
use ipw_boce.NodePool.{is_pool, keep_pools, parse_pools, pool_api, pool_location}
use ipw_boce.Prelude.{
  Bool, Bool-cases, List, Text, [], arith, contains, inl, inr, join_commas, not, refl, sort_texts,
  split_commas, subst, sym, text_eq, text_eq_iff, to_lower, trim_space, true, ◌&&◌, ◌++◌, ◌||◌, ◌∷◌,
  ◌≡◌, ◌⊎◌,
}

-- What the loop of parsePools can have kept.
pub data Kept : List Text → Type 0 where
  none_kept : Kept []
  api_kept : Kept (pool_api ∷ [])
  location_kept : Kept (pool_location ∷ [])
  api_first : Kept (pool_api ∷ pool_location ∷ [])
  location_first : Kept (pool_location ∷ pool_api ∷ [])

is_pool-cases : (v : Text) → is_pool v ≡ true → (v ≡ pool_api) ⊎ (v ≡ pool_location)
is_pool-cases v h = elim (Bool-cases (text_eq v pool_api)) [
  | inl e ↦ inl ((text_eq_iff v pool_api).0 e)
  | inr ne ↦
      inr ((text_eq_iff v pool_location).0 (subst (λ b. b || text_eq v pool_location ≡ true) ne h))
]

Kept-add_api :
    (out : List Text)
    → not (contains out pool_api) ≡ true
    → Kept out
    → Kept (out ++ (pool_api ∷ []))
unfolding contains
Kept-add_api out new none_kept = api_kept
Kept-add_api out new api_kept = absurd (ground arith)
Kept-add_api out new location_kept = location_first
Kept-add_api out new api_first = absurd (ground arith)
Kept-add_api out new location_first = absurd (ground arith)

Kept-add_location :
    (out : List Text)
    → not (contains out pool_location) ≡ true
    → Kept out
    → Kept (out ++ (pool_location ∷ []))
unfolding contains
Kept-add_location out new none_kept = location_kept
Kept-add_location out new api_kept = api_first
Kept-add_location out new location_kept = absurd (ground arith)
Kept-add_location out new api_first = absurd (ground arith)
Kept-add_location out new location_first = absurd (ground arith)

both_true : (a b : Bool) → a && b ≡ true → (a ≡ true) × (b ≡ true)
both_true a b h = ground arith

Kept-add :
    (v : Text) (out : List Text)
    → is_pool v && not (contains out v) ≡ true
    → Kept out
    → Kept (out ++ (v ∷ []))
Kept-add v out new k =
    let (pool, fresh) = both_true (is_pool v) (not (contains out v)) new in
    elim (is_pool-cases v pool) [
      | inl e ↦
          subst (λ u. Kept (out ++ (u ∷ []))) (sym e)
            (Kept-add_api out (subst (λ u. not (contains out u) ≡ true) e fresh) k)
      | inr e ↦
          subst (λ u. Kept (out ++ (u ∷ []))) (sym e)
            (Kept-add_location out (subst (λ u. not (contains out u) ≡ true) e fresh) k)
    ]

pub keep_pools-Kept : (segs out : List Text) → Kept out → Kept (keep_pools segs out)
unfolding keep_pools
keep_pools-Kept [] out k = k
keep_pools-Kept (seg ∷ segs) out k =
    let v = to_lower (trim_space seg) in
    elim (Bool-cases (is_pool v && not (contains out v))) [
      | inl new ↦ rw new (keep_pools-Kept segs (out ++ (v ∷ [])) (Kept-add v out new k))
      | inr old ↦ rw old (keep_pools-Kept segs out k)
    ]

Kept-round :
    (out : List Text) → Kept out → parse_pools (join_commas (sort_texts out)) ≡ sort_texts out
unfolding parse_pools join_commas
Kept-round out none_kept = refl
Kept-round out api_kept = refl
Kept-round out location_kept = refl
Kept-round out api_first = refl
Kept-round out location_first = refl

-- The pools that are stored for a row are read back as the same pools.
pub parse_pools-join_commas :
    (raw : Text) → parse_pools (join_commas (parse_pools raw)) ≡ parse_pools raw
unfolding parse_pools
parse_pools-join_commas raw =
    Kept-round (keep_pools (split_commas raw []) [])
      (keep_pools-Kept (split_commas raw []) [] none_kept)
