-- ===== src/Users.antt =====
-- The administration of users (users.go): the handlers that create, change and delete a user and set
-- a password. `hash` is bcrypt, which may refuse a password. The tasks and notices that a deletion
-- removes stand beside the database. A request comes from the user `me`, or from a static token, which
-- is the user 0.
pub mod Powers
pub mod Ruled
pub mod Requests
pub mod Tests
use ipw_boce.Points.Probe.{is_admin, user_by_id}
use ipw_boce.Prelude.{
  Bool, List, Option, Text, codes, count, delete, false, if◌then◌else◌, is_empty, length, ltb, none,
  not, some, suc, text_eq, trim_space, true, update, ℕ, ◌&&◌, ◌==◌, ◌∷◌,
}
use ipw_boce.Schedule.{Task}
use ipw_boce.Store.{Db, Role, User}

pub record AppNotice : Type 0 where
  pub id : ℕ
  pub user_id : ℕ

pub record Site : Type 0 where
  pub db : Db
  pub tasks : List Task
  pub app_notices : List AppNotice

pub data UserError : Type 0 where
  no_username short_password bad_role no_hash username_taken unknown_user : UserError
  own_demotion own_disabling own_deletion last_admin : UserError

abbrev pub has_user_id : ℕ → User → Bool
has_user_id id u = u.id == id

abbrev pub is_ruling : User → Bool
is_ruling u = is_admin u.role && u.enabled

abbrev pub is_another : ℕ → User → Bool
is_another id u = is_ruling u && not (u.id == id)

-- hasAnotherEnabledAdmin
unfoldable pub has_another_enabled_admin : ℕ → Db → Bool
has_another_enabled_admin id db = ltb 0 (count (is_another id) db.users)

abbrev pub role_of : Text → Option Role
role_of r =
    if text_eq r (codes "admin")
    then some Role.admin
    else if text_eq r (codes "user")
    then some Role.user
    else none

abbrev pub has_username : Text → User → Bool
has_username name u = text_eq u.username name

abbrev pub new_user : ℕ → Text → Text → Text → Role → Bool → User
new_user id name hashed email role verified = record {
  id = id;
  username = name;
  password_hash = hashed;
  email = email;
  role = role;
  enabled = true;
  email_verified = verified;
}

-- The insert of a user, which the unique index on the names may refuse.
unfoldable pub insert_user : Text → Text → Text → Role → Bool → Site → Option UserError × Site
insert_user name hashed email role verified s =
    if ltb 0 (count (has_username name) s.db.users) then (some username_taken, s) else (
      none,
      record s {
        db = record s.db {
          next_id = suc s.db.next_id;
          users = new_user s.db.next_id name hashed email role verified ∷ s.db.users;
        };
      },
    )

abbrev pub user_or : Text → Text
user_or r = if is_empty r then codes "user" else r

abbrev pub insert_hashed : Text → Text → Option Role → Option Text → Site → Option UserError × Site
insert_hashed name email none hashed s = (some bad_role, s)
insert_hashed name email (some role) none s = (some no_hash, s)
insert_hashed name email (some role) (some hashed) s = insert_user name hashed email role false s

module _ (hash : Text → Option Text) where
  -- The handler of POST /admin/users.
  unfoldable pub create_user : Text → Text → Text → Text → Site → Option UserError × Site
  unfolding insert_user trim_space
  create_user username password email role s =
      let name = trim_space username in
      if is_empty name
      then (some no_username, s)
      else if ltb (length password) 6
      then (some short_password, s)
      else insert_hashed name (trim_space email) (role_of (user_or (trim_space role)))
          (hash password) s

  abbrev pub set_hash : Text → User → User
  set_hash hashed u = record u { password_hash = hashed }

  abbrev pub store_hash : ℕ → Option Text → Site → Option UserError × Site
  store_hash id none s = (some no_hash, s)
  store_hash id (some hashed) s = (
    none,
    record s { db = record s.db { users = update (has_user_id id) (set_hash hashed) s.db.users } },
  )

  -- The handler of PATCH /admin/users/:id/password.
  unfoldable pub set_password : ℕ → Text → Site → Option UserError × Site
  set_password id password s = elim (user_by_id id s.db) [
    | none ↦ (some unknown_user, s)
    | some target ↦
        if ltb (length password) 6
        then (some short_password, s)
        else store_hash id (hash password) s
  ]

-- The body of a change; what is absent stays.
pub record UserPatch : Type 0 where
  pub email : Option Text
  pub role : Option Text
  pub enabled : Option Bool

abbrev pub demotes : Option Text → Bool
demotes none = false
demotes (some r) = not (text_eq r (codes "admin"))

abbrev pub disables : Option Bool → Bool
disables none = false
disables (some b) = not b

-- The check of the new role of the target.
abbrev pub role_check : User → Bool → Option Role → Option UserError
role_check target others none = some bad_role
role_check target others (some new_role) =
    if not (is_admin new_role) && is_admin target.role && not others then some last_admin else none

abbrev pub role_error : User → Bool → Option Text → Option UserError
role_error target others none = none
role_error target others (some r) = role_check target others (role_of (trim_space r))

abbrev pub enabled_error : User → Bool → Option Bool → Option UserError
enabled_error target others given =
    if disables given && is_admin target.role && not others then some last_admin else none

abbrev pub email_or : Text → Option Text → Text
email_or old none = old
email_or old (some e) = trim_space e

abbrev pub read_role_or : Role → Option Role → Role
read_role_or old none = old
read_role_or old (some new_role) = new_role

abbrev pub role_or : Role → Option Text → Role
role_or old none = old
role_or old (some r) = read_role_or old (role_of (trim_space r))

abbrev pub enabled_or : Bool → Option Bool → Bool
enabled_or old none = old
enabled_or old (some b) = b

abbrev pub patched : UserPatch → User → User
patched b u = record u {
  email = email_or u.email b.email;
  role = role_or u.role b.role;
  enabled = enabled_or u.enabled b.enabled;
}

abbrev pub first_error : Option UserError → Option UserError → Option UserError
first_error none second = second
first_error (some e) second = some e

-- The checks of a change, in their order.
unfoldable pub patch_error : ℕ → UserPatch → User → Bool → Option UserError
unfolding trim_space
patch_error me b target others =
    let own = (target.id == me) && not (me == 0) in
    if own && demotes b.role
    then some own_demotion
    else if own && disables b.enabled
    then some own_disabling
    else first_error (role_error target others b.role) (enabled_error target others b.enabled)

abbrev pub patch_outcome : UserPatch → User → Site → Option UserError → Option UserError × Site
patch_outcome b target s (some e) = (some e, s)
patch_outcome b target s none = (
  none,
  record s { db = record s.db { users = update (has_user_id target.id) (patched b) s.db.users } },
)

abbrev pub patch_found : ℕ → UserPatch → User → Site → Option UserError × Site
patch_found me b target s =
    patch_outcome b target s (patch_error me b target (has_another_enabled_admin target.id s.db))

-- The handler of PATCH /admin/users/:id.
unfoldable pub patch_user : ℕ → ℕ → UserPatch → Site → Option UserError × Site
unfolding patch_error has_another_enabled_admin
patch_user me id b s = elim (user_by_id id s.db) [
  | none ↦ (some unknown_user, s)
  | some target ↦ patch_found me b target s
]

-- The rows of a user go; the ledger and the orders stay.
unfoldable pub delete_rows : ℕ → Site → Site
delete_rows id s = record {
  db = record s.db {
    users = delete (has_user_id id) s.db.users;
    accounts = delete (λ a. a.user_id == id) s.db.accounts;
    checkins = delete (λ c. c.user_id == id) s.db.checkins;
  };
  tasks = delete (λ t. t.owner_id == id) s.tasks;
  app_notices = delete (λ n. n.user_id == id) s.app_notices;
}

-- The handler of DELETE /admin/users/:id.
unfoldable pub delete_user : ℕ → ℕ → Site → Option UserError × Site
unfolding delete_rows has_another_enabled_admin
delete_user me id s =
    if (id == me) && not (me == 0) then (some own_deletion, s) else elim (user_by_id id s.db) [
      | none ↦ (some unknown_user, s)
      | some target ↦
          if is_admin target.role && not (has_another_enabled_admin target.id s.db)
          then (some last_admin, s)
          else (none, delete_rows target.id s)
    ]
