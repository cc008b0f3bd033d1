-- ===== src/NodePool/Admin/Laws.antt =====
-- What the handlers for node definitions achieve.
use ipw_boce.Donate.{has_node_id}
use ipw_boce.NodePool.{
  World, all_pool_nodes, find_node, has_row_id, in_pool, keep_pools, or_api, parse_pools, pool_api,
  pool_location, reload_node_pools, sort_defs, sync_labels,
}
use ipw_boce.NodePool.Admin.{
  NodeDefInput, chosen_pools, create_node_def, delete_node_def, has_def_id, is_approved_id,
  is_not_off, new_def, normalize_def, or_pools, pool_and_stack, raw_pools, removed_by, with_def,
}
use ipw_boce.NodePool.Joined.{reload_node_pools_listed}
use ipw_boce.NodePool.Names.{
  Kept, api_first, api_kept, keep_pools-Kept, location_first, location_kept, none_kept,
}
use ipw_boce.Prelude.{
  Bool, Bool-cases, List, Text, [], arith, delete, false, find, inl, inr, is_some, join_commas,
  none, refl, some, sort_texts, split_commas, subst, sym, trim_space, true, update, ℕ, ◌==◌, ◌∙◌,
  ◌∷◌, ◌≡◌, ◌≢◌, ◌⊎◌,
}
use ipw_boce.Store.{NodeDef, NodeDonation, NodeRow, Result, Result-cases, err, ok}

-- The texts of pools that are stored.
data Stored : List Text → Type 0 where
  only_api : Stored (pool_api ∷ [])
  only_location : Stored (pool_location ∷ [])
  both : Stored (pool_api ∷ pool_location ∷ [])

Kept-or :
    (out qs : List Text)
    → Kept out
    → ((sort_texts out ≡ []) × (or_pools (sort_texts out) qs ≡ qs))
      ⊎ (Stored (or_pools (sort_texts out) qs))
unfolding sort_texts
Kept-or out qs none_kept = inl (refl, refl)
Kept-or out qs api_kept = inr only_api
Kept-or out qs location_kept = inr only_location
Kept-or out qs api_first = inr both
Kept-or out qs location_first = inr both

Stored-or_api : (out : List Text) → Kept out → Stored (or_api (sort_texts out))
unfolding sort_texts
Stored-or_api out none_kept = only_api
Stored-or_api out api_kept = only_api
Stored-or_api out location_kept = only_location
Stored-or_api out api_first = both
Stored-or_api out location_first = both

Stored-self : (ps : List Text) → Stored ps → Stored (or_api ps)
Stored-self ps only_api = only_api
Stored-self ps only_location = only_location
Stored-self ps both = both

chosen_pools-Stored : (i : NodeDefInput) (fallback : Text) → Stored (chosen_pools i fallback)
unfolding chosen_pools parse_pools
chosen_pools-Stored i fallback =
    elim (Kept-or (keep_pools (split_commas (raw_pools i) []) []) (parse_pools fallback)
      (keep_pools-Kept (split_commas (raw_pools i) []) [] none_kept)) [
        | inl (e, q) ↦ rw q (
            Stored-or_api (keep_pools (split_commas fallback []) [])
              (keep_pools-Kept (split_commas fallback []) [] none_kept))
        | inr s ↦ Stored-self (or_pools (parse_pools (raw_pools i)) (parse_pools fallback)) s
      ]

-- A row with such a text is in one of the two pools.
Stored-in_pool :
    (ps : List Text) (r : NodeDef)
    → Stored ps
    → r.pool ≡ join_commas ps
    → (in_pool pool_api r ≡ true) ⊎ (in_pool pool_location r ≡ true)
unfolding in_pool join_commas
Stored-in_pool ps r only_api e = inl (rw e refl)
Stored-in_pool ps r only_location e = inr (rw e refl)
Stored-in_pool ps r both e = inl (rw e refl)

pool_and_stack-pool :
    (pools : List Text) (raw pool stack : Text)
    → pool_and_stack pools raw ≡ ok (pool, stack)
    → pool ≡ join_commas pools
unfolding pool_and_stack
pool_and_stack-pool pools raw pool stack h = ground arith

normalize_def-pool :
    (i : NodeDefInput) (fallback pool stack : Text)
    → normalize_def i fallback ≡ ok (pool, stack)
    → pool ≡ join_commas (chosen_pools i fallback)
unfolding normalize_def
normalize_def-pool i fallback pool stack h =
    pool_and_stack-pool (chosen_pools i fallback) i.stack pool stack (ground arith)

created :
    (i : NodeDefInput) (w : World) (pool stack : Text)
    → normalize_def i [] ≡ ok (pool, stack)
    → is_some (find (has_node_id (trim_space i.node_id)) w.db.node_defs) ≡ false
    → create_node_def i w ≡ (
      ok (new_def w.db.next_id i pool stack),
      reload_node_pools (with_def (new_def w.db.next_id i pool stack) w),
    )
unfolding create_node_def
created i w pool stack good free = rw (create_node_def, good) (rw free refl)

abbrev is_listed : Result NodeDef × World → Bool
is_listed (err e, w) = true
is_listed (ok r, w) = is_some (find_node (all_pool_nodes w.pools) r.node_id)

-- A node definition that is created and not switched off is in a pool at once: the joined pool
-- finds its node.
pub create_node_def_listed :
    (i : NodeDefInput) (w w' : World) (row : NodeDef)
    → create_node_def i w ≡ (ok row, w')
    → is_not_off i.enabled ≡ true
    → is_some (find_node (all_pool_nodes w'.pools) row.node_id) ≡ true
unfolding create_node_def
create_node_def_listed i w w' row h on = elim (Result-cases (normalize_def i [])) [
  | inr (e, bad) ↦ absurd (ground (arith, bad, h))
  | inl ((pool, stack), good) ↦
      let r = new_def w.db.next_id i pool stack in
      elim (Bool-cases (is_some (find (has_node_id r.node_id) w.db.node_defs))) [
        | inl taken ↦ absurd (ground (arith, good, taken, h))
        | inr free ↦
            let listed = reload_node_pools_listed (with_def r w) r w.db.node_defs refl on (
              Stored-in_pool (chosen_pools i []) r (chosen_pools-Stored i [])
                (normalize_def-pool i [] pool stack good)) in
            subst (λ x. is_listed x ≡ true) (sym (created i w pool stack good free) ∙ h) listed
      ]
]

no_longer_approved :
    (id : ℕ) (operator : Text) (ds : List NodeDonation)
    → find (is_approved_id id) (update (is_approved_id id) (removed_by operator) ds) ≡ none
no_longer_approved id operator [] = refl
no_longer_approved id operator (d ∷ ds) = ground (arith, no_longer_approved id operator ds)

row_gone :
    (id : ℕ) (rows : List NodeDef) → find (has_def_id id) (delete (has_def_id id) rows) ≡ none
row_gone id [] = refl
row_gone id (r ∷ rs) = ground (arith, row_gone id rs)

delete_row :
    (id : Text) (ns : List NodeRow) → find (has_row_id id) (delete (has_row_id id) ns) ≡ none
delete_row id [] = refl
delete_row id (n ∷ ns) = ground (arith, delete_row id ns)

-- After an administrator deletes the row of a donated node, neither the row nor the node is in its
-- table, and the donation is not an approved one that a later settlement would reward.
pub delete_node_def_ends :
    (operator : Text) (id : ℕ) (w : World) (r : NodeDef)
    → find (has_def_id id) w.db.node_defs ≡ some r
    → r.donation_id ≢ 0
    → let w' = (delete_node_def operator id w).1 in
      (find (has_def_id id) w'.db.node_defs ≡ none)
      × (find (is_approved_id r.donation_id) w'.db.donations ≡ none)
      × (find (has_row_id r.node_id) w'.nodes ≡ none)
unfolding delete_node_def reload_node_pools
delete_node_def_ends operator id w r h donated =
    let from_donation : (r.donation_id == 0) ≡ false = ground arith in
    rw (delete_node_def, h, from_donation)
      (
        row_gone id w.db.node_defs,
        no_longer_approved r.donation_id operator w.db.donations,
        delete_row r.node_id
            (sync_labels (sort_defs (delete (has_def_id id) w.db.node_defs)) w.nodes),
      )
