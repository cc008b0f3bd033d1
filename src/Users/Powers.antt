-- ===== src/Users/Powers.antt =====
-- What the changes of users do to their ids and to the administrators who can log in.
-- Every id is found once.
use ipw_boce.Points.Probe.{is_admin}
use ipw_boce.Prelude.{
  Bool, Bool-cases, List, Option, Text, [], ap, arith, count, delete, false, find, if◌then◌else◌,
  inl, inr, none, refl, some, subst, sym, trim_space, true, update, ℕ, ◌==◌, ◌∙◌, ◌∷◌, ◌≡◌, ◌≤◌,
}
use ipw_boce.Store.{Role, User}
use ipw_boce.Users.{
  UserError, UserPatch, enabled_error, enabled_or, first_error, has_user_id, is_another, is_ruling,
  patch_error, patched, read_role_or, role_check, role_error, role_of, role_or,
}

abbrev pub UniqueUsers : List User → Type 0
UniqueUsers [] = Unit {0}
UniqueUsers (u ∷ us) = (find (has_user_id u.id) us ≡ none) × UniqueUsers us

pub another_counts : (id : ℕ) (us : List User) → count (is_another id) us ≤ count is_ruling us
another_counts id [] = omega arith
another_counts id (u ∷ us) = ground (arith, another_counts id us)

-- A change of one user leaves the others as they are.
pub another-update :
    (id : ℕ) (f : User → User) (us : List User)
    → ((u : User) → (f u).id ≡ u.id)
    → count (is_another id) (update (has_user_id id) f us) ≡ count (is_another id) us
another-update id f [] keeps = refl
another-update id f (u ∷ us) keeps = elim (Bool-cases (u.id == id)) [
  | inl own ↦ rw own ground (arith, another-update id f us keeps, keeps u, own)
  | inr foreign ↦ rw foreign ground (arith, another-update id f us keeps, foreign)
]

pub another-delete :
    (id : ℕ) (us : List User)
    → count (is_another id) (delete (has_user_id id) us) ≡ count (is_another id) us
another-delete id [] = refl
another-delete id (u ∷ us) = ground (arith, another-delete id us)

absent-update :
    (id : ℕ) (f : User → User) (us : List User)
    → find (has_user_id id) us ≡ none
    → count is_ruling (update (has_user_id id) f us) ≡ count is_ruling us
absent-update id f [] h = refl
absent-update id f (u ∷ us) h = ground (arith, absent-update id f us, h)

absent-delete :
    (id : ℕ) (us : List User)
    → find (has_user_id id) us ≡ none
    → count is_ruling (delete (has_user_id id) us) ≡ count is_ruling us
absent-delete id [] h = refl
absent-delete id (u ∷ us) h = ground (arith, absent-delete id us, h)

abbrev Kept : (User → User) → Option User → Type 0
Kept f none = Unit {0}
Kept f (some u) = is_ruling u ≡ true → is_ruling (f u) ≡ true

abbrev ruling_of : Option User → Bool
ruling_of none = false
ruling_of (some u) = is_ruling u

-- A change under which the target keeps its power keeps as many administrators.
pub target-update :
    (id : ℕ) (f : User → User) (t : User) (us : List User)
    → UniqueUsers us
    → find (has_user_id id) us ≡ some t
    → (is_ruling t ≡ true → is_ruling (f t) ≡ true)
    → count is_ruling us ≤ count is_ruling (update (has_user_id id) f us)
target-update id f t [] v h keeps = omega arith
target-update id f t (u ∷ us) (fresh, v) h keeps = elim (Bool-cases (has_user_id id u)) [
  | inl own ↦
      let u_id : u.id ≡ id = ground (arith, own) in
      let gone : find (has_user_id id) us ≡ none =
        subst (λ j. find (has_user_id j) us ≡ none) u_id fresh in
      let is_t : some u ≡ some t =
        sym (ap (λ b. if b then some u else find (has_user_id id) us) own) ∙ h in
      let rest = absent-update id f us gone in
      rw own ground (arith, rest, subst (Kept f) (sym is_t) keeps)
  | inr foreign ↦
      let rest : find (has_user_id id) us ≡ some t =
        sym (ap (λ b. if b then some u else find (has_user_id id) us) foreign) ∙ h in
      let ih = target-update id f t us v rest keeps in rw foreign ground (arith, ih)
]

pub target-delete :
    (id : ℕ) (t : User) (us : List User)
    → UniqueUsers us
    → find (has_user_id id) us ≡ some t
    → is_ruling t ≡ false
    → count is_ruling us ≤ count is_ruling (delete (has_user_id id) us)
target-delete id t [] v h weak = omega arith
target-delete id t (u ∷ us) (fresh, v) h weak = elim (Bool-cases (has_user_id id u)) [
  | inl own ↦
      let u_id : u.id ≡ id = ground (arith, own) in
      let gone : find (has_user_id id) us ≡ none =
        subst (λ j. find (has_user_id j) us ≡ none) u_id fresh in
      let is_t : some u ≡ some t =
        sym (ap (λ b. if b then some u else find (has_user_id id) us) own) ∙ h in
      let rest = absent-delete id us gone in rw own ground (arith, rest, ap ruling_of is_t ∙ weak)
  | inr foreign ↦
      let rest : find (has_user_id id) us ≡ some t =
        sym (ap (λ b. if b then some u else find (has_user_id id) us) foreign) ∙ h in
      let ih = target-delete id t us v rest weak in rw foreign ground (arith, ih)
]

kept_read_role :
    (t : User) (given : Option Role)
    → role_check t false given ≡ none
    → is_admin t.role ≡ true
    → is_admin (read_role_or t.role given) ≡ true
kept_read_role t none e strong = strong
kept_read_role t (some Role.admin) e strong = refl
kept_read_role t (some Role.user) e strong = absurd (ground (arith, e, strong))

kept_role :
    (t : User) (given : Option Text)
    → role_error t false given ≡ none
    → is_admin t.role ≡ true
    → is_admin (role_or t.role given) ≡ true
kept_role t none e strong = strong
kept_role t (some r) e strong = kept_read_role t (role_of (trim_space r)) e strong

kept_enabled :
    (t : User) (given : Option Bool)
    → enabled_error t false given ≡ none
    → is_admin t.role ≡ true
    → t.enabled ≡ true
    → enabled_or t.enabled given ≡ true
kept_enabled t none e strong on = on
kept_enabled t (some true) e strong on = refl
kept_enabled t (some false) e strong on = absurd (ground (arith, e, strong))

both_none : (x y : Option UserError) → first_error x y ≡ none → (x ≡ none) × (y ≡ none)
both_none none y h = (refl, h)
both_none (some e) y h = absurd (ground (arith, h))

checks_passed :
    (me : ℕ) (b : UserPatch) (t : User) (others : Bool)
    → patch_error me b t others ≡ none
    → first_error (role_error t others b.role) (enabled_error t others b.enabled) ≡ none
unfolding patch_error
checks_passed me b t others h = ground (arith, h)

-- A change that passes its checks, with no other administrator, leaves the target its power.
pub patch_checked :
    (me : ℕ) (b : UserPatch) (t : User)
    → patch_error me b t false ≡ none
    → is_ruling t ≡ true
    → is_ruling (patched b t) ≡ true
patch_checked me b t h strong =
    let (role_ok, enabled_ok) =
      both_none (role_error t false b.role) (enabled_error t false b.enabled)
        (checks_passed me b t false h) in
    let strong_role : is_admin t.role ≡ true = ground (arith, strong) in
    ground (
      arith,
      kept_role t b.role role_ok strong_role,
      kept_enabled t b.enabled enabled_ok strong_role (ground (arith, strong)),
    )

absent-update_id :
    (j id : ℕ) (f : User → User) (us : List User)
    → ((u : User) → (f u).id ≡ u.id)
    → find (has_user_id j) us ≡ none
    → find (has_user_id j) (update (has_user_id id) f us) ≡ none
absent-update_id j id f [] keeps h = refl
absent-update_id j id f (u ∷ us) keeps h =
    ground (arith, absent-update_id j id f us keeps, keeps u, h)

absent-delete_id :
    (j id : ℕ) (us : List User)
    → find (has_user_id j) us ≡ none
    → find (has_user_id j) (delete (has_user_id id) us) ≡ none
absent-delete_id j id [] h = refl
absent-delete_id j id (u ∷ us) h = ground (arith, absent-delete_id j id us, h)

pub head_id :
    (id : ℕ) (f : User → User) (u : User)
    → ((u : User) → (f u).id ≡ u.id)
    → (if has_user_id id u then f u else u).id ≡ u.id
head_id id f u keeps = elim (Bool-cases (has_user_id id u)) [
  | inl own ↦ rw own (keeps u)
  | inr foreign ↦ rw foreign refl
]

pub update-Unique :
    (id : ℕ) (f : User → User) (us : List User)
    → ((u : User) → (f u).id ≡ u.id)
    → UniqueUsers us
    → UniqueUsers (update (has_user_id id) f us)
update-Unique id f [] keeps v = tt
update-Unique id f (u ∷ us) keeps (fresh, v) = (
  subst (λ j. find (has_user_id j) (update (has_user_id id) f us) ≡ none)
      (sym (head_id id f u keeps)) (absent-update_id u.id id f us keeps fresh),
  update-Unique id f us keeps v,
)

pub delete-Unique :
    (id : ℕ) (us : List User) → UniqueUsers us → UniqueUsers (delete (has_user_id id) us)
delete-Unique id [] v = tt
delete-Unique id (u ∷ us) (fresh, v) = elim (Bool-cases (has_user_id id u)) [
  | inl own ↦ rw own (delete-Unique id us v)
  | inr foreign ↦ rw foreign (absent-delete_id u.id id us fresh, delete-Unique id us v)
]
