-- ===== src/Users/Requests.antt =====
-- The requests of administrators, of which each leaves an administrator who can log in.
-- A request of an administrator, with what bcrypt makes of its password.
use ipw_boce.Points.Probe.{is_admin, user_by_id}
use ipw_boce.Prelude.{
  Bool, Bool-cases, List, Option, Option-cases, Text, [], ap, arith, false, find, if◌then◌else◌,
  inl, inr, is_empty, is_some, length, ltb, none, not, refl, some, subst, sym, trim_space, ℕ, ◌&&◌,
  ◌==◌, ◌∙◌, ◌∷◌, ◌≡◌,
}
use ipw_boce.Store.{Db, Role, User}
use ipw_boce.Users.{
  Site, UserError, UserPatch, create_user, delete_user, has_another_enabled_admin, has_user_id,
  insert_hashed, patch_error, patch_found, patch_outcome, patch_user, patched, role_of, set_hash,
  set_password, store_hash, user_or,
}
use ipw_boce.Users.Powers.{patch_checked}
use ipw_boce.Users.Ruled.{IsRuled, delete-Ruled, insert-Ruled, update-Ruled}

pub data UserStep : Site → Site → Type 0 where
  creates :
      (hash : Text → Option Text) (name password email role : Text) (s : Site)
      → UserStep s (create_user hash name password email role s).1
  patches : (me id : ℕ) (b : UserPatch) (s : Site) → UserStep s (patch_user me id b s).1
  deletes : (me id : ℕ) (s : Site) → UserStep s (delete_user me id s).1
  sets_password :
      (hash : Text → Option Text) (id : ℕ) (password : Text) (s : Site)
      → UserStep s (set_password hash id password s).1

pub data UserSteps (s : Site) : Site → Type 0 where
  untouched : UserSteps s s
  followed : {a b : Site} → UserSteps s a → UserStep a b → UserSteps s b

abbrev id_of : Option User → ℕ
id_of none = 0
id_of (some u) = u.id

own_id : (id : ℕ) (t : User) (us : List User) → find (has_user_id id) us ≡ some t → t.id ≡ id
own_id id t [] h = absurd (ground (arith, h))
own_id id t (u ∷ us) h = elim (Bool-cases (has_user_id id u)) [
  | inl own ↦
      let is_t : some u ≡ some t =
        sym (ap (λ b. if b then some u else find (has_user_id id) us) own) ∙ h in
      ground (arith, ap id_of is_t, own)
  | inr foreign ↦
      own_id id t us (sym (ap (λ b. if b then some u else find (has_user_id id) us) foreign) ∙ h)
]

-- What `userByID` asks of a row.
abbrev is_user : ℕ → User → Bool
is_user id u = (u.id == id) && not (u.id == 0)

no_zero : (us : List User) → find (is_user 0) us ≡ none
no_zero [] = refl
no_zero (u ∷ us) = ground (arith, no_zero us)

-- The query for a user finds the row of its id.
rows_found :
    (id : ℕ) (t : User) (us : List User)
    → find (is_user id) us ≡ some t
    → find (has_user_id id) us ≡ some t
rows_found id t [] h = h
rows_found id t (u ∷ us) h = elim (Bool-cases (u.id == id)) [
  | inr foreign ↦
      let skipped : is_user id u ≡ false = ap (λ b. b && not (u.id == 0)) foreign in
      let later : find (is_user id) us ≡ some t =
        sym (ap (λ b. if b then some u else find (is_user id) us) skipped) ∙ h in
      rw foreign (rows_found id t us later)
  | inl own ↦ elim (Bool-cases (is_user id u)) [
    | inl real ↦ rw own (sym (ap (λ b. if b then some u else find (is_user id) us) real) ∙ h)
    | inr unreal ↦
        let later : find (is_user id) us ≡ some t =
          sym (ap (λ b. if b then some u else find (is_user id) us) unreal) ∙ h in
        let zero_id : id ≡ 0 = ground (arith, own, unreal) in
        let missing : find (is_user id) us ≡ none =
          subst (λ j. find (is_user j) us ≡ none) (sym zero_id) (no_zero us) in
        absurd (ground (arith, ap is_some (sym missing ∙ later)))
  ]
]

row_found :
    (id : ℕ) (t : User) (db : Db)
    → user_by_id id db ≡ some t
    → find (has_user_id id) db.users ≡ some t
unfolding user_by_id
row_found id t db h = rows_found id t db.users h

own_found :
    (id : ℕ) (t : User) (us : List User)
    → find (has_user_id id) us ≡ some t
    → find (has_user_id t.id) us ≡ some t
own_found id t us h = subst (λ j. find (has_user_id j) us ≡ some t) (sym (own_id id t us h)) h

patch_outcome-Ruled :
    (me : ℕ) (b : UserPatch) (t : User) (s : Site) (wrong : Option UserError)
    → IsRuled s.db
    → find (has_user_id t.id) s.db.users ≡ some t
    → patch_error me b t (has_another_enabled_admin t.id s.db) ≡ wrong
    → IsRuled (patch_outcome b t s wrong).1.db
patch_outcome-Ruled me b t s (some e) r found h = r
patch_outcome-Ruled me b t s none r found h =
    update-Ruled t.id (patched b) t s.db r found (λ u. refl)
      (λ alone. patch_checked me b t (subst (λ o. patch_error me b t o ≡ none) alone h))

patch_found-Ruled :
    (me : ℕ) (b : UserPatch) (t : User) (s : Site)
    → IsRuled s.db
    → find (has_user_id t.id) s.db.users ≡ some t
    → IsRuled (patch_found me b t s).1.db
patch_found-Ruled me b t s r found =
    patch_outcome-Ruled me b t s (patch_error me b t (has_another_enabled_admin t.id s.db)) r found
      refl

patch-Ruled :
    (me id : ℕ) (b : UserPatch) (s : Site) → IsRuled s.db → IsRuled (patch_user me id b s).1.db
unfolding patch_user
patch-Ruled me id b s r = elim (Option-cases (user_by_id id s.db)) [
  | inl missing ↦ rw (patch_user, missing) r
  | inr (t, found) ↦
      rw (patch_user, found)
        (patch_found-Ruled me b t s r (own_found id t s.db.users (row_found id t s.db found)))
]

delete_user-Ruled : (me id : ℕ) (s : Site) → IsRuled s.db → IsRuled (delete_user me id s).1.db
unfolding delete_user
delete_user-Ruled me id s r = elim (Bool-cases ((id == me) && not (me == 0))) [
  | inl own ↦ rw (delete_user, own) r
  | inr foreign ↦ elim (Option-cases (user_by_id id s.db)) [
    | inl missing ↦ rw (delete_user, foreign, missing) r
    | inr (t, found) ↦
        elim (Bool-cases (is_admin t.role && not (has_another_enabled_admin t.id s.db))) [
          | inl last ↦ rw (delete_user, foreign, found, last) r
          | inr guarded ↦
              rw (delete_user, foreign, found, guarded)
                (delete-Ruled t.id t s r (own_found id t s.db.users (row_found id t s.db found))
                  guarded)
        ]
  ]
]

store_hash-Ruled :
    (hash : Text → Option Text) (id : ℕ) (t : User) (hashed : Option Text) (s : Site)
    → IsRuled s.db
    → find (has_user_id id) s.db.users ≡ some t
    → IsRuled (store_hash hash id hashed s).1.db
store_hash-Ruled hash id t none s r found = r
store_hash-Ruled hash id t (some hashed) s r found =
    update-Ruled id (set_hash hash hashed) t s.db r found (λ u. refl) (λ alone strong. strong)

set_password-Ruled :
    (hash : Text → Option Text) (id : ℕ) (password : Text) (s : Site)
    → IsRuled s.db
    → IsRuled (set_password hash id password s).1.db
unfolding set_password
set_password-Ruled hash id password s r = elim (Option-cases (user_by_id id s.db)) [
  | inl missing ↦ rw (set_password, missing) r
  | inr (t, found) ↦ elim (Bool-cases (ltb (length password) 6)) [
    | inl short ↦ rw (set_password, found, short) r
    | inr long ↦
        rw (set_password, found, long)
          (store_hash-Ruled hash id t (hash password) s r (row_found id t s.db found))
  ]
]

insert_hashed-Ruled :
    (name email : Text) (role : Option Role) (hashed : Option Text) (s : Site)
    → IsRuled s.db
    → IsRuled (insert_hashed name email role hashed s).1.db
insert_hashed-Ruled name email none hashed s r = r
insert_hashed-Ruled name email (some role) none s r = r
insert_hashed-Ruled name email (some role) (some hashed) s r =
    insert-Ruled name hashed email role false s r

create-Ruled :
    (hash : Text → Option Text) (name password email role : Text) (s : Site)
    → IsRuled s.db
    → IsRuled (create_user hash name password email role s).1.db
unfolding create_user
create-Ruled hash name password email role s r = elim (Bool-cases (is_empty (trim_space name))) [
  | inl unnamed ↦ rw (create_user, unnamed) r
  | inr named ↦ elim (Bool-cases (ltb (length password) 6)) [
    | inl short ↦ rw (create_user, named, short) r
    | inr long ↦
        rw (create_user, named, long)
          (insert_hashed-Ruled (trim_space name) (trim_space email)
            (role_of (user_or (trim_space role))) (hash password) s r)
  ]
]

-- Whatever administrators do to the users, one request after the other, an enabled administrator is
-- left, and the ids of the users stay unique.
pub UserSteps-IsRuled : {a b : Site} → UserSteps a b → IsRuled a.db → IsRuled b.db
UserSteps-IsRuled untouched r = r
UserSteps-IsRuled (followed steps (creates hash name password email role s)) r =
    create-Ruled hash name password email role s (UserSteps-IsRuled steps r)
UserSteps-IsRuled (followed steps (patches me id b s)) r =
    patch-Ruled me id b s (UserSteps-IsRuled steps r)
UserSteps-IsRuled (followed steps (deletes me id s)) r =
    delete_user-Ruled me id s (UserSteps-IsRuled steps r)
UserSteps-IsRuled (followed steps (sets_password hash id password s)) r =
    set_password-Ruled hash id password s (UserSteps-IsRuled steps r)
