-- ===== src/NodePool/Joined.antt =====
-- The join of the two pools.
use ipw_boce.NodePool.{
  ApiInfo, Pools, World, all_pool_nodes, api_item, comes_first, find_node, first_of_each,
  has_info_id, in_pool, insert_def, item_of, pool_api, pool_location, reload_node_pools, sort_defs,
}
use ipw_boce.NodePool.Reload.{in_api, in_location, items_in, reload_node_pools_lem}
use ipw_boce.Points.Checkin.{later}
use ipw_boce.Prelude.{
  Bool-cases, List, Text, [], ap, arith, contains, count, false, find, if◌then◌else◌, inl, inr,
  is_some, ltb, lt→ltb, none, refl, text_eq, text_eq_iff, text_eq_self, true, ◌&&◌, ◌++◌, ◌<◌, ◌∙◌,
  ◌∷◌, ◌≡◌, ◌⊎◌,
}
use ipw_boce.Store.{NodeDef}

seen_differs :
    (id j : Text) (seen : List Text)
    → contains seen id ≡ false
    → contains seen j ≡ true
    → text_eq j id ≡ false
seen_differs id j seen h old = elim (Bool-cases (text_eq j id)) [
  | inr differs ↦ differs
  | inl same ↦ absurd (ground (arith, h, old, ap (contains seen) ((text_eq_iff j id).0 same)))
]

contains-cons :
    (id j : Text) (seen : List Text)
    → contains seen id ≡ false
    → text_eq j id ≡ false
    → contains (j ∷ seen) id ≡ false
unfolding contains
contains-cons id j seen h differs = ground arith

find-first_of_each :
    (id : Text) (ns : List ApiInfo) (seen : List Text)
    → contains seen id ≡ false
    → find (has_info_id id) (first_of_each seen ns) ≡ find (has_info_id id) ns
unfolding first_of_each
find-first_of_each id [] seen h = refl
find-first_of_each id (n ∷ ns) seen h = elim (Bool-cases (contains seen n.id)) [
  | inl old ↦ rw (old, seen_differs id n.id seen h old) (find-first_of_each id ns seen h)
  | inr new ↦ elim (Bool-cases (text_eq n.id id)) [
    | inl same ↦ rw (new, same)
    | inr differs ↦
        rw (new, differs)
          (find-first_of_each id ns (n.id ∷ seen) (contains-cons id n.id seen h differs))
  ]
]

-- No identifier stands twice in a list.
abbrev pub AllDiffer : List ApiInfo → Type 0
AllDiffer [] = Unit {0}
AllDiffer (n ∷ ns) = (find (has_info_id n.id) ns ≡ none) × AllDiffer ns

new_differs :
    (id j : Text) (seen : List Text)
    → contains seen id ≡ true
    → contains seen j ≡ false
    → text_eq j id ≡ false
new_differs id j seen h new = elim (Bool-cases (text_eq j id)) [
  | inr differs ↦ differs
  | inl same ↦ absurd (ground (arith, h, new, ap (contains seen) ((text_eq_iff j id).0 same)))
]

contains_more :
    (id j : Text) (seen : List Text) → contains seen id ≡ true → contains (j ∷ seen) id ≡ true
unfolding contains
contains_more id j seen h = ground arith

contains_head : (id : Text) (seen : List Text) → contains (id ∷ seen) id ≡ true
unfolding contains
contains_head id seen = ground (arith, text_eq_self id)

no_member : (id : Text) → contains [] id ≡ false
unfolding contains
no_member id = refl

find_seen :
    (id : Text) (ns : List ApiInfo) (seen : List Text)
    → contains seen id ≡ true
    → find (has_info_id id) (first_of_each seen ns) ≡ none
unfolding first_of_each
find_seen id [] seen h = refl
find_seen id (n ∷ ns) seen h = elim (Bool-cases (contains seen n.id)) [
  | inl old ↦ rw old (find_seen id ns seen h)
  | inr new ↦
      rw (new, new_differs id n.id seen h new)
        (find_seen id ns (n.id ∷ seen) (contains_more id n.id seen h))
]

first_of_each-AllDiffer : (ns : List ApiInfo) (seen : List Text) → AllDiffer (first_of_each seen ns)
unfolding first_of_each
first_of_each-AllDiffer [] seen = tt
first_of_each-AllDiffer (n ∷ ns) seen = elim (Bool-cases (contains seen n.id)) [
  | inl old ↦ rw old (first_of_each-AllDiffer ns seen)
  | inr new ↦ rw new (
    find_seen n.id ns (n.id ∷ seen) (contains_head n.id seen),
    first_of_each-AllDiffer ns (n.id ∷ seen),
  )
]

-- The joined pool has no identifier twice, and looking one up in it finds the node of the API pool,
-- or else that of the location pool.
pub all_pool_nodes_lem :
    (p : Pools) (id : Text)
    → AllDiffer (all_pool_nodes p)
      × (find_node (all_pool_nodes p) id ≡ (
          if is_some (find_node p.api_pool id)
          then find_node p.api_pool id
          else find_node p.location_pool id))
unfolding all_pool_nodes find_node
all_pool_nodes_lem p id = (
  first_of_each-AllDiffer (p.api_pool ++ p.location_pool) [],
  find-first_of_each id (p.api_pool ++ p.location_pool) [] (no_member id) ∙ find-append p.api_pool,
)
  where
    find-append :
        (xs : List ApiInfo)
        → find (has_info_id id) (xs ++ p.location_pool) ≡ (
            if is_some (find (has_info_id id) xs)
            then find (has_info_id id) xs
            else find (has_info_id id) p.location_pool)
    find-append [] = refl
    find-append (x ∷ xs) = ground (arith, find-append xs)

listed_later :
    (item : NodeDef → ApiInfo) (pool id : Text) (x : NodeDef) (xs : List NodeDef)
    → is_some (find (has_info_id id) (items_in item pool xs)) ≡ true
    → is_some (find (has_info_id id) (items_in item pool (x ∷ xs))) ≡ true
listed_later item pool id x xs h = elim (Bool-cases (x.enabled && in_pool pool x)) [
  | inr e ↦ rw e h
  | inl e ↦ elim (Bool-cases (has_info_id id (item x))) [ inl m ↦ rw (e, m) | inr m ↦ rw (e, m) h ]
]

-- An enabled row of the table is listed in the pool that it names.
listed_insert :
    (item : NodeDef → ApiInfo) (pool id : Text) (r : NodeDef) (xs : List NodeDef)
    → r.enabled && in_pool pool r ≡ true
    → has_info_id id (item r) ≡ true
    → (is_some (find (has_info_id id) (items_in item pool (insert_def r xs))) ≡ true)
      × (0 < count (in_pool pool) (insert_def r xs))
unfolding insert_def
listed_insert item pool id r [] h e = (ground (arith, h, e), ground (arith, h))
listed_insert item pool id r (x ∷ xs) h e =
    let (found, some_row) = listed_insert item pool id r xs h e in
    elim (Bool-cases (comes_first r x)) [
      | inl first ↦ rw first (rw (h, e) refl, ground (arith, h))
      | inr later ↦
          rw later (listed_later item pool id x (insert_def r xs) found, ground (arith, some_row))
    ]

found_in_api :
    (p : Pools) (id : Text)
    → is_some (find_node p.api_pool id) ≡ true
    → is_some (find_node (all_pool_nodes p) id) ≡ true
found_in_api p id h = rw ((all_pool_nodes_lem p id).1, h) h

found_in_location :
    (p : Pools) (id : Text)
    → is_some (find_node p.location_pool id) ≡ true
    → is_some (find_node (all_pool_nodes p) id) ≡ true
found_in_location p id h = elim (Bool-cases (is_some (find_node p.api_pool id))) [
  | inl a ↦ found_in_api p id a
  | inr n ↦ rw ((all_pool_nodes_lem p id).1, n) h
]

-- The pool that a reload builds, where a row is sorted into the others.
listed_row :
    (item : NodeDef → ApiInfo) (pool : Text) (r : NodeDef) (rows sorted : List NodeDef)
    (setting : List ApiInfo)
    → sorted ≡ insert_def r (sort_defs rows)
    → r.enabled && in_pool pool r ≡ true
    → has_info_id r.node_id (item r) ≡ true
    → is_some (
        find
          (has_info_id r.node_id)
          (if ltb 0 (count (in_pool pool) sorted) then items_in item pool sorted else setting))
      ≡ true
listed_row item pool r rows sorted setting e h m =
    let (found, some_row) = listed_insert item pool r.node_id r (sort_defs rows) h m in
    rw e (rw (lt→ltb 0 (count (in_pool pool) (insert_def r (sort_defs rows))) some_row) found)

-- After a reload, a row that is enabled and names one of the pools is found in the joined pool.
pub reload_node_pools_listed :
    (w : World) (r : NodeDef) (rows : List NodeDef)
    → w.db.node_defs ≡ r ∷ rows
    → r.enabled ≡ true
    → (in_api r ≡ true) ⊎ (in_location r ≡ true)
    → is_some (find_node (all_pool_nodes (reload_node_pools w).pools) r.node_id) ≡ true
unfolding find_node sort_defs
reload_node_pools_listed w r rows e on (inl api) =
    found_in_api (reload_node_pools w).pools r.node_id (
      rw (reload_node_pools_lem w).0 (
        listed_row api_item pool_api r rows (sort_defs w.db.node_defs) w.pools.setting_api
          (ap sort_defs e) (ground arith) (text_eq_self r.node_id)))
reload_node_pools_listed w r rows e on (inr loc) =
    found_in_location (reload_node_pools w).pools r.node_id (
      rw (reload_node_pools_lem w).1 (
        listed_row item_of pool_location r rows (sort_defs w.db.node_defs) w.pools.setting_loc
          (ap sort_defs e) (ground arith) (text_eq_self r.node_id)))
