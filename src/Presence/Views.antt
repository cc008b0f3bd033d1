-- ===== src/Presence/Views.antt =====
-- The set of online nodes as an abstract state, and what each operation does to it.
use ipw_boce.NodePool.{Pools, has_row_id, pool_label_for}
use ipw_boce.Prelude.{
  Bool, Bool-cases, List, Option, Option-cases, Text, [], ap, arith, contains, false, find,
  if◌then◌else◌, inl, inr, is_some, none, not, refl, some, sym, text_eq, text_eq_iff, text_eq_self,
  true, update, ℕ, ◌&&◌, ◌||◌, ◌∙◌, ◌∷◌, ◌≡◌,
}
use ipw_boce.Presence.{
  Watch, add_event, clear_marks, event_row, grace_over, is_online, mark_all_nodes_offline,
  node_snapshot, offline_row, online_row, record_node_offline, record_node_online, recovered,
  registered_row, row_online, touch_nodes, upsert_online,
}
use ipw_boce.Store.{NodeRow}
use ipw_boce.Uptime.{went_offline, went_online}

pub not_both : (a b c : Text) → text_eq a b ≡ false → text_eq a c ≡ true → text_eq b c ≡ false
not_both a b c h k = elim (Bool-cases (text_eq b c)) [
  | inr differs ↦ differs
  | inl same ↦ absurd (
      ground (
        arith,
        h,
        text_eq_self a,
        ap (text_eq a) ((text_eq_iff b c).0 same),
        (text_eq_iff a c).0 k,
      ))
]

-- The rows of one node are switched on or off, and no other.
find-update_online :
    (b : Bool) (id j : Text) (f : NodeRow → NodeRow) (ns : List NodeRow)
    → ((n : NodeRow) → (f n).node_id ≡ n.node_id)
    → ((n : NodeRow) → (f n).online ≡ b)
    → row_online (find (has_row_id j) (update (has_row_id id) f ns)) ≡ (
        if text_eq id j && is_some (find (has_row_id j) ns)
        then b
        else row_online (find (has_row_id j) ns))
find-update_online b id j f [] keep sets = ground arith
find-update_online b id j f (n ∷ ns) keep sets =
    let ih = find-update_online b id j f ns keep sets in
    let k = ap (λ x. text_eq x j) (keep n) in
    elim (Bool-cases (text_eq n.node_id id)) [
      | inl mine ↦
          let same : text_eq n.node_id j ≡ text_eq id j =
            ap (λ x. text_eq x j) ((text_eq_iff n.node_id id).0 mine) in
          ground (arith, ih, k, sets n, same)
      | inr not_mine ↦ elim (Bool-cases (text_eq n.node_id j)) [
        | inl asked ↦
            let differs : text_eq id j ≡ false = not_both n.node_id id j not_mine asked in
            rw (not_mine, asked, differs) refl
        | inr other ↦ rw (not_mine, other) ih
      ]
    ]

-- What the two reports do to the rows and to the events.
pub record_node_online-tables :
    (pools : Pools) (now : ℕ) (id remote version : Text) (caps : List Text) (s : Watch)
    → let up =
        upsert_online (pool_label_for pools id) now id remote version caps (clear_marks id s) in
      let t = record_node_online pools now id remote version caps s in
      (t.nodes ≡ up.nodes)
      × (t.events ≡ (
          if is_online id s
          then up.events
          else event_row up.next_id id went_online now ∷ up.events))
unfolding record_node_online add_event
record_node_online-tables pools now id remote version caps s = elim (Bool-cases (is_online id s)) [
  | inl e ↦ elim (Bool-cases (recovered id s)) [
    | inl r ↦ rw (e, r) (refl, refl)
    | inr r ↦ rw (e, r) (refl, refl)
  ]
  | inr e ↦ elim (Bool-cases (recovered id s)) [
    | inl r ↦ rw (e, r) (refl, refl)
    | inr r ↦ rw (e, r) (refl, refl)
  ]
]

pub record_node_offline-tables :
    (ota maint : Bool) (now : ℕ) (id : Text) (s : Watch)
    → let t = record_node_offline ota maint now id s in
      (t.nodes ≡ update (has_row_id id) (offline_row now) s.nodes)
      × (t.events ≡ (
          if is_online id s then event_row s.next_id id went_offline now ∷ s.events else s.events))
unfolding record_node_offline add_event
record_node_offline-tables ota maint now id s = elim (Bool-cases (is_online id s)) [
  | inr e ↦ rw e (refl, refl)
  | inl e ↦ elim (Bool-cases ota) [
    | inl o ↦ rw (e, o) (refl, refl)
    | inr o ↦ elim (Bool-cases maint) [
      | inl m ↦ rw (e, o, m) (refl, refl)
      | inr m ↦ rw (e, o, m) (refl, refl)
    ]
  ]
]

-- A node comes online; no other is touched.
switched_off :
    (same : Bool) (o : Option NodeRow)
    → (if same && is_some o then false else row_online o) ≡ (not same && row_online o)
switched_off same none = ground arith
switched_off same (some n) = ground arith

switched_on :
    (same : Bool) (o : Option NodeRow) (n : NodeRow)
    → (same ≡ true → o ≡ some n)
    → (if same && is_some o then true else row_online o) ≡ (same || row_online o)
switched_on true o n there = rw (there refl) refl
switched_on false o n there = refl

cleared : (id j : Text) (s : Watch) → is_online j (clear_marks id s) ≡ is_online j s
unfolding clear_marks
cleared id j s = refl

is_online-upsert :
    (label : Text) (now : ℕ) (id remote version : Text) (caps : List Text) (s : Watch) (j : Text)
    → is_online j (upsert_online label now id remote version caps s)
      ≡ (text_eq id j || is_online j s)
unfolding upsert_online
is_online-upsert label now id remote version caps s j = elim (Option-cases (node_snapshot id s)) [
  | inl missing ↦ rw (upsert_online, missing) (ground arith)
  | inr (n, found) ↦
      let one =
        find-update_online true id j (registered_row label now remote version caps) s.nodes
          (λ n. refl) (λ n. refl) in
      rw (upsert_online, found)
        (one
          ∙ switched_on (text_eq id j) (find (has_row_id j) s.nodes) n
              (λ e. ap (λ x. find (has_row_id x) s.nodes) (sym ((text_eq_iff id j).0 e)) ∙ found))
]

pub is_online-record_node_online :
    (pools : Pools) (now : ℕ) (id remote version : Text) (caps : List Text) (s : Watch) (j : Text)
    → is_online j (record_node_online pools now id remote version caps s)
      ≡ (text_eq id j || is_online j s)
is_online-record_node_online pools now id remote version caps s j =
    ap (λ ns. row_online (find (has_row_id j) ns))
      (record_node_online-tables pools now id remote version caps s).0
    ∙ is_online-upsert (pool_label_for pools id) now id remote version caps (clear_marks id s) j
    ∙ ap (λ b. text_eq id j || b) (cleared id j s)

pub is_online-record_node_offline :
    (ota maint : Bool) (now : ℕ) (id : Text) (s : Watch) (j : Text)
    → is_online j (record_node_offline ota maint now id s) ≡ (not (text_eq id j) && is_online j s)
is_online-record_node_offline ota maint now id s j =
    ap (λ ns. row_online (find (has_row_id j) ns)) (record_node_offline-tables ota maint now id s).0
    ∙ find-update_online false id j (offline_row now) s.nodes (λ n. refl) (λ n. refl)
    ∙ switched_off (text_eq id j) (find (has_row_id j) s.nodes)

pub is_online-mark_all : (s : Watch) (j : Text) → is_online j (mark_all_nodes_offline s) ≡ false
unfolding mark_all_nodes_offline
is_online-mark_all s j = all_off s.nodes
  where
    all_off :
        (ns : List NodeRow)
        → row_online (find (has_row_id j) (update online_row (λ n. record n { online = false }) ns))
          ≡ false
    all_off [] = refl
    all_off (n ∷ ns) = ground (arith, all_off ns)

pub is_online-touch_nodes :
    (now : ℕ) (ids : List Text) (s : Watch) (j : Text)
    → is_online j (touch_nodes now ids s) ≡ is_online j s
unfolding touch_nodes
is_online-touch_nodes now ids s j = touched s.nodes
  where
    touched :
        (ns : List NodeRow)
        → row_online (
            find
              (has_row_id j)
              (update (λ n. contains ids n.node_id) (λ n. record n { last_seen_at = now }) ns))
          ≡ row_online (find (has_row_id j) ns)
    touched [] = refl
    touched (n ∷ ns) = ground (arith, touched ns)

pub is_online-grace_over :
    (id : Text) (s : Watch) (j : Text) → is_online j (grace_over id s) ≡ is_online j s
unfolding grace_over
is_online-grace_over id s j = ground arith
