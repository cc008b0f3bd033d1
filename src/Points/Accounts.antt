-- ===== src/Points/Accounts.antt =====
-- The account table under one update: which rows it touches, and what it does to a balance.
use ipw_boce.Points.{PointOp, balance_in, ensure_account, is_covered, owned_by, post}
use ipw_boce.Prelude.{
  Bool-cases, List, [], arith, count, find, inl, inr, none, refl, some, true, update, ℕ, ◌<◌, ◌^◌,
  ◌∷◌, ◌≡◌, ◌≢◌,
}
use ipw_boce.Prelude.Int.{+ℤ_parts, InRange, ltb_ℤ, neg64_lem, neg_part, pos, ◌+ℤ◌, ◌≤ℤ◌, -ℤ_parts}
use ipw_boce.Store.{PointAccount}

-- One account for each user: the primary key of the table.
abbrev pub UniqueAccounts : List PointAccount → Type 0
UniqueAccounts [] = Unit {0}
UniqueAccounts (a ∷ rows) = (find (owned_by a.user_id) rows ≡ none) × UniqueAccounts rows

post-user_id : (op : PointOp) (a : PointAccount) → (post op a).user_id ≡ a.user_id
unfolding post
post-user_id op a = ground arith

is_covered-owned :
    (op : PointOp) (a : PointAccount) → is_covered op a ≡ true → owned_by op.user_id a ≡ true
unfolding is_covered
is_covered-owned op a h = ground arith

pub find-update_other :
    (op : PointOp) (u : ℕ) (rows : List PointAccount)
    → u ≢ op.user_id
    → find (owned_by u) (update (is_covered op) (post op) rows) ≡ find (owned_by u) rows
find-update_other op u [] h = refl
find-update_other op u (a ∷ rows) h =
    ground (arith, find-update_other op u rows h, post-user_id op a, is_covered-owned op a)

count-absent :
    (op : PointOp) (rows : List PointAccount)
    → find (owned_by op.user_id) rows ≡ none
    → count (is_covered op) rows ≡ 0
count-absent op [] h = refl
count-absent op (a ∷ rows) h = ground (arith, count-absent op rows, is_covered-owned op a)

-- A user's account is the one that the update touches, if it touches any.
pub find-update_own :
    (op : PointOp) (rows : List PointAccount)
    → UniqueAccounts rows
    → count (is_covered op) rows ≢ 0
    → (a : PointAccount) × (find (owned_by op.user_id) rows ≡ some a)
      × (is_covered op a ≡ true)
      × (find (owned_by op.user_id) (update (is_covered op) (post op) rows) ≡ some (post op a))
find-update_own op [] v h = absurd (h refl)
find-update_own op (a ∷ rows) v h = elim (Bool-cases (owned_by op.user_id a)) [
  | inl own ↦ (
    a,
    ground arith,
    ground (arith, count-absent op rows),
    ground (arith, count-absent op rows, post-user_id op a),
  )
  | inr other ↦
      let r = find-update_own op rows v.1 (ground (arith, is_covered-owned op a)) in
      (r.0, ground arith, r.2, ground (arith, r.3, is_covered-owned op a))
]

find-update_absent :
    (op : PointOp) (u : ℕ) (rows : List PointAccount)
    → find (owned_by u) rows ≡ none
    → find (owned_by u) (update (is_covered op) (post op) rows) ≡ none
find-update_absent op u [] h = refl
find-update_absent op u (a ∷ rows) h =
    ground (arith, find-update_absent op u rows, post-user_id op a)

pub update-UniqueAccounts :
    (op : PointOp) (rows : List PointAccount)
    → UniqueAccounts rows
    → UniqueAccounts (update (is_covered op) (post op) rows)
update-UniqueAccounts op [] v = tt
update-UniqueAccounts op (a ∷ rows) v = ground (
  arith,
  find-update_absent op a.user_id rows,
  post-user_id op a,
  update-UniqueAccounts op rows v.1,
)

pub ensure_account-UniqueAccounts :
    (u : ℕ) (rows : List PointAccount)
    → UniqueAccounts rows
    → UniqueAccounts (ensure_account u rows)
unfolding ensure_account
ensure_account-UniqueAccounts u rows v = ground arith

-- An account that was just opened is empty, so no balance changes.
pub balance_in-ensure_account :
    (u v : ℕ) (rows : List PointAccount) → balance_in v (ensure_account u rows) ≡ balance_in v rows
unfolding ensure_account balance_in
balance_in-ensure_account u v rows = ground arith

pub post-balance : (op : PointOp) (a : PointAccount) → (post op a).balance ≡ a.balance +ℤ op.delta
unfolding post
post-balance op a = ground arith

-- The guard keeps a balance from falling below zero, unless the amount is the least int64.
pub post-nonneg :
    (op : PointOp) (a : PointAccount)
    → InRange op.delta
    → neg_part op.delta < 2 ^ 63
    → pos 0 ≤ℤ a.balance
    → is_covered op a ≡ true
    → pos 0 ≤ℤ (post op a).balance
unfolding is_covered
post-nonneg op a r least n h = elim (Bool-cases (ltb_ℤ (pos 0) op.delta)) [
  | inl gain ↦ ground (arith, post-balance op a, +ℤ_parts a.balance op.delta)
  | inr loss ↦ ground (
    arith,
    post-balance op a,
    neg64_lem op.delta r least,
    +ℤ_parts a.balance op.delta,
    -ℤ_parts (pos 0) op.delta,
  )
]
