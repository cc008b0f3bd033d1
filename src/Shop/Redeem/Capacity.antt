-- ===== src/Shop/Redeem/Capacity.antt =====
-- A code is redeemed at most as often as it allows.
use ipw_boce.Prelude.{
  All, Bool, Bool-cases, List, Text, [], arith, count, find, inl, inr, none, refl, true, update, ℕ,
  ◌==◌, ◌∷◌, ◌≡◌, ◌≢◌,
}
use ipw_boce.Prelude.Int.{pos, pos-+ℤ, ◌≤ℤ◌}
use ipw_boce.Shop.Redeem.{is_left, redeem_code, use_row, use_up}
use ipw_boce.Shop.Redeem.Laws.{redeem_code-Redeemed, redeem_code-refused}
use ipw_boce.Store.{Db, PointsConfig, RedeemCode, RedeemCodeUse, Result-cases}

abbrev pub of_code : ℕ → RedeemCodeUse → Bool
of_code id x = x.code_id == id

abbrev pub has_id : ℕ → RedeemCode → Bool
has_id id rc = rc.id == id

abbrev pub UniqueCodes : List RedeemCode → Type 0
UniqueCodes [] = Unit {0}
UniqueCodes (c ∷ cs) = (find (has_id c.id) cs ≡ none) × UniqueCodes cs

-- The counter of a code is the number of its uses, and no more than it allows.
abbrev pub IsCapped : List RedeemCodeUse → RedeemCode → Type 0
IsCapped uses rc =
    (rc.used_count ≡ pos (count (of_code rc.id) uses)) × (rc.used_count ≤ℤ rc.max_uses)

-- The invariant of the tables of codes and uses.
pub record CodesCapped (db : Db) : Type 0 where
  pub unique : UniqueCodes db.codes
  pub capped : All (IsCapped db.uses) db.codes

count-absent_code :
    (id : ℕ) (rows : List RedeemCode) → find (has_id id) rows ≡ none → count (is_left id) rows ≡ 0
count-absent_code id [] h = refl
count-absent_code id (c ∷ cs) h = ground (arith, count-absent_code id cs)

-- A new use of another code changes nothing for these.
IsCapped-others :
    (x : RedeemCodeUse) (uses : List RedeemCodeUse) (rows : List RedeemCode)
    → find (has_id x.code_id) rows ≡ none
    → All (IsCapped uses) rows
    → All (IsCapped (x ∷ uses)) (update (is_left x.code_id) use_up rows)
IsCapped-others x uses [] h a = tt
IsCapped-others x uses (c ∷ cs) h a = (ground arith, IsCapped-others x uses cs (ground arith) a.1)

IsCapped-update :
    (x : RedeemCodeUse) (uses : List RedeemCodeUse) (rows : List RedeemCode)
    → UniqueCodes rows
    → count (is_left x.code_id) rows ≢ 0
    → All (IsCapped uses) rows
    → All (IsCapped (x ∷ uses)) (update (is_left x.code_id) use_up rows)
IsCapped-update x uses [] v h a = tt
IsCapped-update x uses (c ∷ cs) v h a = elim (Bool-cases (has_id x.code_id c)) [
  | inl own ↦
      let left : is_left x.code_id c ≡ true = ground (arith, count-absent_code x.code_id cs) in
      (
        ground (arith, pos-+ℤ (count (of_code c.id) uses) 1),
        IsCapped-others x uses cs (ground arith) a.1,
      )
  | inr other ↦ (ground arith, IsCapped-update x uses cs v.1 (ground arith) a.1)
]

update-absent_code :
    (id k : ℕ) (rows : List RedeemCode)
    → find (has_id id) rows ≡ none
    → find (has_id id) (update (is_left k) use_up rows) ≡ none
update-absent_code id k [] h = refl
update-absent_code id k (c ∷ cs) h = ground (arith, update-absent_code id k cs)

update-UniqueCodes :
    (k : ℕ) (rows : List RedeemCode)
    → UniqueCodes rows
    → UniqueCodes (update (is_left k) use_up rows)
update-UniqueCodes k [] v = tt
update-UniqueCodes k (c ∷ cs) v =
    ground (arith, update-absent_code c.id k cs, update-UniqueCodes k cs v.1)

-- Every redemption keeps the counter of each code equal to the number of its uses and within the
-- number of uses that it allows.
pub redeem_code-CodesCapped :
    (cfg : PointsConfig) (now u : ℕ) (raw : Text) (db : Db)
    → CodesCapped db
    → CodesCapped (redeem_code cfg now u raw db).1
redeem_code-CodesCapped cfg now u raw db v = elim (Result-cases (redeem_code cfg now u raw db).0) [
  | inr (e, refused) ↦ rw (redeem_code-refused cfg now u raw db e refused) v
  | inl ((rc, l), done) ↦
      let r =
        redeem_code-Redeemed cfg now u raw db (redeem_code cfg now u raw db).1 rc l
          (ground arith) in
      rw r.paid.result (record {
        unique = update-UniqueCodes rc.id db.codes v.unique;
        capped = IsCapped-update (use_row u rc) db.uses db.codes v.unique r.left v.capped;
      })
]
