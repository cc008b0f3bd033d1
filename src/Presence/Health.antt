-- ===== src/Presence/Health.antt =====
-- The watchdog settles what is shown of a node that is checked over HTTP.
use ipw_boce.NodePool.{Pools}
use ipw_boce.Points.Checkin.{later}
use ipw_boce.Prelude.{
  Bool, Text, [], arith, false, leb, refl, suc, text_eq_self, true, ℕ, ◌∙◌, ◌∷◌, ◌≡◌, ◌≤◌,
}
use ipw_boce.Presence.{Fails, Watch, failed, fails_of, forget_fails, is_online, on_check}
use ipw_boce.Presence.Views.{is_online-record_node_offline}

fails_of-forget : (id : Text) (fs : Fails) → fails_of id (forget_fails id fs) ≡ 0
unfolding fails_of forget_fails
fails_of-forget id [] = refl
fails_of-forget id ((j, n) ∷ rest) = ground (arith, fails_of-forget id rest)

on_check-failed :
    (pools : Pools) (ota maint : Bool) (now : ℕ) (id : Text) (fs : Fails) (s : Watch)
    → 1 ≤ fails_of id fs
    → is_online id (on_check pools ota maint now id failed (fs, s)).1 ≡ false
unfolding on_check
on_check-failed pools ota maint now id fs s h =
    rw (on_check, second (fails_of id fs) h)
      (is_online-record_node_offline ota maint now id s id ∙ ground (arith, text_eq_self id))
  where
    second : (n : ℕ) → 1 ≤ n → leb 2 (suc n) ≡ true
    second n le = ground arith

counts :
    (pools : Pools) (ota maint : Bool) (now : ℕ) (id : Text) (fs : Fails) (s : Watch)
    → 1 ≤ fails_of id (on_check pools ota maint now id failed (fs, s)).0
unfolding on_check fails_of
counts pools ota maint now id fs s = ground (arith, text_eq_self id)

-- A node that no longer answers is shown offline after two checks in a row that fail, whatever was
-- counted and shown before.
pub on_check_settles :
    (pools : Pools) (ota maint : Bool) (now later : ℕ) (id : Text) (fs : Fails) (s : Watch)
    → let after_two =
        on_check pools ota maint later id failed (on_check pools ota maint now id failed (fs, s)) in
      is_online id after_two.1 ≡ false
on_check_settles pools ota maint now later id fs s =
    let one = on_check pools ota maint now id failed (fs, s) in
    on_check-failed pools ota maint later id one.0 one.1 (counts pools ota maint now id fs s)
