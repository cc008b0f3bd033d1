-- ===== src/Users/Ruled.antt =====
-- The changes of the users that leave an administrator who can log in.
use ipw_boce.Points.Probe.{is_admin}
use ipw_boce.Prelude.{
  All, Bool, Bool-cases, List, Text, [], arith, count, delete, false, find, inl, inr, ltb, none,
  not, refl, some, subst, suc, sym, true, update, ℕ, ◌&&◌, ◌<◌, ◌∷◌, ◌≡◌,
}
use ipw_boce.Store.{Db, Role, User}
use ipw_boce.Users.{
  Site, delete_rows, has_another_enabled_admin, has_user_id, has_username, insert_user, is_another,
  is_ruling,
}
use ipw_boce.Users.Powers.{
  UniqueUsers, another-delete, another-update, another_counts, delete-Unique, head_id,
  target-delete, target-update, update-Unique,
}

abbrev pub IsBelow : ℕ → User → Type 0
IsBelow n u = u.id < n

-- The state of the table of users: somebody rules, and the primary keys are unique and used up.
pub record IsRuled (db : Db) : Type 0 where
  pub ruled : 0 < count is_ruling db.users
  pub unique : UniqueUsers db.users
  pub below : All (IsBelow db.next_id) db.users

IsBelow-absent : (n : ℕ) (us : List User) → All (IsBelow n) us → find (has_user_id n) us ≡ none
IsBelow-absent n [] b = refl
IsBelow-absent n (u ∷ us) (b, bs) = ground (arith, IsBelow-absent n us bs, b)

IsBelow-suc : (n : ℕ) (us : List User) → All (IsBelow n) us → All (IsBelow (suc n)) us
IsBelow-suc n [] b = tt
IsBelow-suc n (u ∷ us) (b, bs) = (omega (arith, b), IsBelow-suc n us bs)

update-IsBelow :
    (n id : ℕ) (f : User → User) (us : List User)
    → ((u : User) → (f u).id ≡ u.id)
    → All (IsBelow n) us
    → All (IsBelow n) (update (has_user_id id) f us)
update-IsBelow n id f [] keeps b = tt
update-IsBelow n id f (u ∷ us) keeps (b, bs) =
    (subst (λ j. j < n) (sym (head_id id f u keeps)) b, update-IsBelow n id f us keeps bs)

delete-IsBelow :
    (n id : ℕ) (us : List User) → All (IsBelow n) us → All (IsBelow n) (delete (has_user_id id) us)
delete-IsBelow n id [] b = tt
delete-IsBelow n id (u ∷ us) (b, bs) = elim (Bool-cases (has_user_id id u)) [
  | inl own ↦ rw own (delete-IsBelow n id us bs)
  | inr foreign ↦ rw foreign (b, delete-IsBelow n id us bs)
]

pub insert-Ruled :
    (name hashed email : Text) (role : Role) (verified : Bool) (s : Site)
    → IsRuled s.db
    → IsRuled (insert_user name hashed email role verified s).1.db
unfolding insert_user
insert-Ruled name hashed email role verified s r =
    elim (Bool-cases (ltb 0 (count (has_username name) s.db.users))) [
      | inl taken ↦ rw (insert_user, taken) r
      | inr free ↦
          rw (insert_user, free)
            (record {
              ruled = ground (arith, r.ruled);
              unique = (IsBelow-absent s.db.next_id s.db.users r.below, r.unique);
              below = (omega arith, IsBelow-suc s.db.next_id s.db.users r.below);
            })
    ]

others_count :
    (id : ℕ) (db : Db) → has_another_enabled_admin id db ≡ true → 0 < count (is_another id) db.users
unfolding has_another_enabled_admin
others_count id db h = ground (arith, h)

-- A change of one user that another administrator outlives, or that leaves the user its power.
pub update-Ruled :
    (id : ℕ) (f : User → User) (t : User) (db : Db)
    → IsRuled db
    → find (has_user_id id) db.users ≡ some t
    → ((u : User) → (f u).id ≡ u.id)
    → (has_another_enabled_admin id db ≡ false → is_ruling t ≡ true → is_ruling (f t) ≡ true)
    → IsRuled (record db { users = update (has_user_id id) f db.users })
update-Ruled id f t db r found keeps power = record {
  ruled = elim (Bool-cases (has_another_enabled_admin id db)) [
    | inl others ↦ omega (
      arith,
      another_counts id (update (has_user_id id) f db.users),
      another-update id f db.users keeps,
      others_count id db others,
    )
    | inr alone ↦ omega (arith, r.ruled, target-update id f t db.users r.unique found (power alone))
  ];
  unique = update-Unique id f db.users keeps r.unique;
  below = update-IsBelow db.next_id id f db.users keeps r.below;
}

pub delete-Ruled :
    (id : ℕ) (t : User) (s : Site)
    → IsRuled s.db
    → find (has_user_id id) s.db.users ≡ some t
    → is_admin t.role && not (has_another_enabled_admin id s.db) ≡ false
    → IsRuled (delete_rows id s).db
unfolding delete_rows
delete-Ruled id t s r found guarded = record {
  ruled = elim (Bool-cases (has_another_enabled_admin id s.db)) [
    | inl others ↦ omega (
      arith,
      another_counts id (delete (has_user_id id) s.db.users),
      another-delete id s.db.users,
      others_count id s.db others,
    )
    | inr alone ↦ omega (
      arith,
      r.ruled,
      target-delete id t s.db.users r.unique found (ground (arith, guarded, alone)),
    )
  ];
  unique = delete-Unique id s.db.users r.unique;
  below = delete-IsBelow s.db.next_id id s.db.users r.below;
}
