-- ===== src/NodePool/Reload.antt =====
-- What the pools hold after a reload.
use mathlib.Core.List.{append-nil, append_assoc}
use ipw_boce.NodePool.{
  ApiInfo, Scan, World, api_item, in_pool, item_of, nothing_yet, pool_api, pool_location,
  reload_node_pools, scan_row, scan_rows, sort_defs,
}
use ipw_boce.Prelude.{
  Bool, Bool-cases, List, Text, [], ap, arith, count, false, if◌then◌else◌, inl, inr, ltb, map,
  refl, sym, true, where_rows, ◌&&◌, ◌++◌, ◌+◌, ◌∙◌, ◌∷◌, ◌≡◌,
}
use ipw_boce.Store.{NodeDef}

-- What the loop over the rows collects, as a description of the two pools.
abbrev pub in_api : NodeDef → Bool
in_api r = in_pool pool_api r

abbrev pub in_location : NodeDef → Bool
in_location r = in_pool pool_location r

abbrev pub items_in : (NodeDef → ApiInfo) → Text → List NodeDef → List ApiInfo
items_in item pool rows = map item (where_rows (λ r. r.enabled && in_pool pool r) rows)

items_in-cons :
    (item : NodeDef → ApiInfo) (pool : Text) (r : NodeDef) (rs : List NodeDef)
    → items_in item pool (r ∷ rs) ≡ items_in item pool (r ∷ []) ++ items_in item pool rs
items_in-cons item pool r rs = elim (Bool-cases (r.enabled && in_pool pool r)) [
  | inl e ↦ rw e
  | inr e ↦ rw e
]

-- A loop that appends the entries of each row has the entries of all rows.
loop_items :
    (item : NodeDef → ApiInfo) (pool : Text) (r : NodeDef) (rs : List NodeDef)
    (xs ys zs : List ApiInfo)
    → zs ≡ ys ++ items_in item pool rs
    → ys ≡ xs ++ items_in item pool (r ∷ [])
    → zs ≡ xs ++ items_in item pool (r ∷ rs)
loop_items item pool r rs xs ys zs loop step =
    loop
    ∙ ap (λ l. l ++ items_in item pool rs) step
    ∙ append_assoc xs (items_in item pool (r ∷ [])) (items_in item pool rs)
    ∙ ap (λ l. xs ++ l) (sym (items_in-cons item pool r rs))

kept_item :
    (item : NodeDef → ApiInfo) (r : NodeDef) (xs : List ApiInfo) (b : Bool)
    → (if b then xs ++ (item r ∷ []) else xs) ≡ xs ++ map item (if b then r ∷ [] else [])
kept_item item r xs true = refl
kept_item item r xs false = sym (append-nil xs)

scan_row_items :
    (s : Scan) (r : NodeDef)
    → ((scan_row s r).api ≡ s.api ++ items_in api_item pool_api (r ∷ []))
      × ((scan_row s r).loc ≡ s.loc ++ items_in item_of pool_location (r ∷ []))
unfolding scan_row
scan_row_items s r = (
  kept_item api_item r s.api (r.enabled && in_api r),
  kept_item item_of r s.loc (r.enabled && in_location r),
)

scan_rows_items :
    (s : Scan) (rows : List NodeDef)
    → ((scan_rows s rows).api ≡ s.api ++ items_in api_item pool_api rows)
      × ((scan_rows s rows).loc ≡ s.loc ++ items_in item_of pool_location rows)
unfolding scan_rows
scan_rows_items s [] = (sym (append-nil s.api), sym (append-nil s.loc))
scan_rows_items s (r ∷ rs) =
    let (a, l) = scan_rows_items (scan_row s r) rs in
    let (a', l') = scan_row_items s r in
    (
      loop_items api_item pool_api r rs s.api (scan_row s r).api (scan_rows (scan_row s r) rs).api a
          a',
      loop_items item_of pool_location r rs s.loc (scan_row s r).loc
          (scan_rows (scan_row s r) rs).loc l l',
    )

scan_rows_totals :
    (s : Scan) (rows : List NodeDef)
    → ((scan_rows s rows).total_api ≡ s.total_api + count in_api rows)
      × ((scan_rows s rows).total_loc ≡ s.total_loc + count in_location rows)
unfolding scan_rows scan_row
scan_rows_totals s [] = omega arith
scan_rows_totals s (r ∷ rs) =
    let ih = scan_rows_totals (scan_row s r) rs in (ground (arith, ih), ground (arith, ih))

-- After a reload each pool lists the enabled rows that name it, in their order, with the stack
-- of an API node set to a known one; or the nodes of the settings, if no row at all names the pool.
pub reload_node_pools_lem :
    (w : World)
    → let p = (reload_node_pools w).pools in
      let rows = sort_defs w.db.node_defs in
      (p.api_pool ≡ (
        if ltb 0 (count in_api rows) then items_in api_item pool_api rows else w.pools.setting_api))
      × (p.location_pool ≡ (
          if ltb 0 (count in_location rows)
          then items_in item_of pool_location rows
          else w.pools.setting_loc))
unfolding reload_node_pools
reload_node_pools_lem w =
    let (a, l) = scan_rows_items nothing_yet (sort_defs w.db.node_defs) in
    let (n, m) = scan_rows_totals nothing_yet (sort_defs w.db.node_defs) in
    (rw (a, n) (ground arith), rw (l, m) (ground arith))
