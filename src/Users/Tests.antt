-- ===== src/Users/Tests.antt =====
-- Runs of the administration of users on concrete data.
-- A password is stored as it is, unless it is longer than bcrypt takes.
use ipw_boce.Points.Probe.{user_by_id}
use ipw_boce.Prelude.{
  Option, Text, [], arith, codes, count, false, if◌then◌else◌, length, ltb, none, refl, some, ◌∷◌,
  ◌≡◌,
}
use ipw_boce.Store.{Db, Role}
use ipw_boce.Users.{
  Site, UserPatch, create_user, delete_rows, delete_user, has_another_enabled_admin, insert_user,
  is_ruling, last_admin, new_user, patch_error, patch_user,
}
use ipw_boce.Users.Requests.{UserSteps, UserSteps-IsRuled, creates, deletes, followed, untouched}
use ipw_boce.Users.Ruled.{IsRuled}

abbrev plain_hash : Text → Option Text
plain_hash p = if ltb 72 (length p) then none else some p

abbrev empty_db : Db
empty_db = record {
  next_id = 2;
  users = [];
  accounts = [];
  ledger = [];
  checkins = [];
  codes = [];
  uses = [];
  products = [];
  cards = [];
  orders = [];
  donations = [];
  node_defs = [];
}

abbrev root_db : Db
root_db = record empty_db {
  users = new_user 1 (codes "root") (codes "secret") [] Role.admin false ∷ [];
}

abbrev root_site : Site
root_site = record { db = root_db; tasks = []; app_notices = [] }

abbrev demotion : UserPatch
demotion = record { email = none; role = some (codes " user "); enabled = none }

-- Not even the static token takes the last administrator its role.
last_admin_test : (patch_user 0 1 demotion root_site).0 ≡ some last_admin
unfolding patch_user patch_error user_by_id
last_admin_test = refl

-- A second administrator is created, and the first is deleted by the second.
abbrev second_site : Site
second_site =
    (create_user plain_hash (codes " eve ") (codes "123456") [] (codes "admin") root_site).1

abbrev two_steps : UserSteps root_site (delete_user 2 1 second_site).1
two_steps =
    followed
      (followed untouched
        (creates plain_hash (codes " eve ") (codes "123456") [] (codes "admin") root_site))
      (deletes 2 1 second_site)

deleted_test : count is_ruling (delete_user 2 1 second_site).1.db.users ≡ 1
unfolding create_user insert_user delete_user delete_rows has_another_enabled_admin user_by_id
deleted_test = refl

UserSteps-IsRuled_example : IsRuled (delete_user 2 1 second_site).1.db
UserSteps-IsRuled_example =
    UserSteps-IsRuled two_steps
      (record { ruled = ground arith; unique = (refl, tt); below = (ground arith, tt) })
