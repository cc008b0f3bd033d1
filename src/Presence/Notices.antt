-- ===== src/Presence/Notices.antt =====
-- Which notices the grace holds back.
use ipw_boce.NodePool.{Pools, pool_label_for}
use ipw_boce.Points.Checkin.{later}
use ipw_boce.Prelude.{
  Bool, Bool-cases, List, Text, [], ap, arith, contains, false, if◌then◌else◌, inl, inr, is_some,
  not, refl, text_eq_self, true, ℕ, ◌&&◌, ◌||◌, ◌∙◌, ◌∷◌, ◌≡◌,
}
use ipw_boce.Presence.{
  Watch, add_event, clear_marks, grace_over, is_exempt, is_online, node_down, node_snapshot,
  record_node_offline, record_node_online, recovered, upsert_online, with_mark, without,
}

contains-without : (id : Text) (xs : List Text) → contains (without id xs) id ≡ false
unfolding contains without
contains-without id [] = refl
contains-without id (x ∷ xs) = ground (arith, contains-without id xs)

contains-mark : (id : Text) (xs : List Text) → contains (with_mark id xs) id ≡ true
unfolding contains
contains-mark id xs = ground (arith, text_eq_self id)

record_node_offline-notices :
    (ota maint : Bool) (now : ℕ) (id : Text) (s : Watch)
    → (record_node_offline ota maint now id s).notices ≡ s.notices
unfolding record_node_offline add_event
record_node_offline-notices ota maint now id s = ground arith

-- A node that leaves has a mark or a timer.
marked :
    (ota maint : Bool) (now : ℕ) (id : Text) (s : Watch)
    → is_online id s ≡ true
    → let t = record_node_offline ota maint now id s in
      (is_exempt id t || contains t.down_pending id) ≡ true
unfolding record_node_offline add_event contains
marked true maint now id s on = rw on (ground (arith, text_eq_self id))
marked false true now id s on = rw on (ground (arith, text_eq_self id))
marked false false now id s on = rw on (ground (arith, text_eq_self id))

upsert-rest :
    (label : Text) (now : ℕ) (id remote version : Text) (caps : List Text) (s : Watch)
    → let t = upsert_online label now id remote version caps s in
      (t.notices ≡ s.notices) × (t.down_pending ≡ s.down_pending)
unfolding upsert_online
upsert-rest label now id remote version caps s = (ground arith, ground arith)

clear_marks-rest :
    (id : Text) (s : Watch)
    → ((clear_marks id s).notices ≡ s.notices)
      × ((clear_marks id s).down_pending ≡ without id s.down_pending)
unfolding clear_marks
clear_marks-rest id s = (refl, refl)

record_node_online-rest :
    (pools : Pools) (now : ℕ) (id remote version : Text) (caps : List Text) (s : Watch)
    → recovered id s ≡ false
    → let t = record_node_online pools now id remote version caps s in
      (t.notices ≡ s.notices) × (t.down_pending ≡ without id s.down_pending)
unfolding record_node_online add_event
record_node_online-rest pools now id remote version caps s r =
    let (notices, pending) =
      upsert-rest (pool_label_for pools id) now id remote version caps (clear_marks id s) in
    let (notices', pending') = clear_marks-rest id s in
    elim (Bool-cases (is_online id s)) [
      | inl on ↦ rw (record_node_online, r, on) (notices ∙ notices', pending ∙ pending')
      | inr off ↦ rw (record_node_online, r, off) (notices ∙ notices', pending ∙ pending')
    ]

not_recovered :
    (id : Text) (t : Watch)
    → (is_exempt id t || contains t.down_pending id) ≡ true
    → recovered id t ≡ false
unfolding recovered
not_recovered id t h = ground arith

-- A node that leaves and comes back before its grace is over, or during an update of it or a
-- maintenance, causes no notice at all; and no timer of it is left that could send one.
pub flash_silent :
    (pools : Pools) (ota maint : Bool) (now later : ℕ) (id remote version : Text) (caps : List Text)
    (s : Watch)
    → is_online id s ≡ true
    → let t =
        record_node_online pools later id remote version caps
          (record_node_offline ota maint now id s) in
      (t.notices ≡ s.notices) × (contains t.down_pending id ≡ false)
flash_silent pools ota maint now later id remote version caps s on =
    let t = record_node_offline ota maint now id s in
    let (notices, pending) =
      record_node_online-rest pools later id remote version caps t
        (not_recovered id t (marked ota maint now id s on)) in
    (
      notices ∙ record_node_offline-notices ota maint now id s,
      ap (λ xs. contains xs id) pending ∙ contains-without id t.down_pending,
    )

-- The end of the grace tells the administrators exactly if its timer still runs and the node is
-- known and offline, and it leaves no timer of the node.
pub grace_over_lem :
    (id : Text) (s : Watch)
    → ((grace_over id s).notices ≡ (
        if contains s.down_pending id && is_some (node_snapshot id s) && not (is_online id s)
        then node_down id ∷ s.notices
        else s.notices))
      × (contains (grace_over id s).down_pending id ≡ false)
unfolding grace_over
grace_over_lem id s = (ground arith, ground (arith, contains-without id s.down_pending))
