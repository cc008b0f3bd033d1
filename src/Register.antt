-- ===== src/Register.antt =====
-- Registration (register.go): the codes that are sent to an address, and the handlers that send a code
-- and create a user. The rate limiter and the captcha, which other modules model, and the outcome of
-- sending a mail are given as Booleans. `drawn` is what the random source gives, below a million.
pub mod Guesses
pub mod Tests
use ipw_boce.Calendar.{second_ns}
use ipw_boce.Points.Probe.{grant_signup_bonus}
use ipw_boce.Prelude.{
  Bool, List, Option, Text, [], count, decimal2, decimal4, false, if◌then◌else◌, is_empty, leb,
  length, ltb, none, not, some, suc, text_eq, to_lower, trim_space, true, ℕ, ◌&&◌, ◌*◌, ◌++◌, ◌+◌,
  ◌/◌, ◌==◌, ◌||◌, ◌∷◌,
}
use ipw_boce.Store.{Db, PointsConfig, Role, User}
use ipw_boce.Users.{Site, UserError, has_username, insert_user}

pub record VerifyCode : Type 0 where
  pub code : Text
  pub exp : ℕ
  pub attempt : ℕ
  pub last_sent : ℕ

pub data CodeError : Type 0 where
  too_soon no_code_given no_code_sent code_timed_out too_many_tries wrong_code_given : CodeError

abbrev pub CodeStore : Type 0
CodeStore = List (Text × VerifyCode)

abbrev pub verify_ttl : ℕ
verify_ttl = 5 * 60 * second_ns

abbrev pub verify_resend : ℕ
verify_resend = 60 * second_ns

abbrev pub verify_max_try : ℕ
verify_max_try = 5

-- `vcodeStore[email]`
unfoldable pub code_of : Text → CodeStore → Option VerifyCode
code_of email [] = none
code_of email ((k, v) ∷ rest) =
    let found = code_of email rest in if text_eq k email then some v else found

unfoldable pub drop_code : Text → CodeStore → CodeStore
drop_code email [] = []
drop_code email ((k, v) ∷ rest) =
    let others = drop_code email rest in if text_eq k email then others else (k, v) ∷ others

abbrev pub put_code : Text → VerifyCode → CodeStore → CodeStore
put_code email v store = (email, v) ∷ drop_code email store

-- `%06d`
unfoldable pub six_digits : ℕ → Text
unfolding decimal2 decimal4
six_digits n = decimal2 (n / 10000) ++ decimal4 n

abbrev pub new_code : ℕ → ℕ → VerifyCode
new_code now drawn = record {
  code = six_digits drawn;
  exp = now + verify_ttl;
  attempt = 0;
  last_sent = now;
}

abbrev pub is_recent : ℕ → Option VerifyCode → Bool
is_recent now none = false
is_recent now (some v) = ltb now (v.last_sent + verify_resend)

-- grantCode, up to the sending of the mail
unfoldable pub grant_code : ℕ → Text → ℕ → CodeStore → Option CodeError × CodeStore
unfolding code_of drop_code six_digits
grant_code now email drawn store =
    if is_recent now (code_of email store)
    then (some too_soon, store)
    else (none, put_code email (new_code now drawn) store)

abbrev pub is_code : Text → Option VerifyCode → Bool
is_code c none = false
is_code c (some v) = text_eq v.code c

-- grantCode, after a mail that could not be sent
unfoldable pub take_back_code : Text → Text → CodeStore → CodeStore
unfolding code_of drop_code
take_back_code email code store =
    if is_code code (code_of email store) then drop_code email store else store

-- The check of the code against the entry of the address.
abbrev pub check_sent :
    ℕ → Text → Text → CodeStore → Option VerifyCode → Option CodeError × CodeStore
check_sent now email code store none = (some no_code_sent, store)
check_sent now email code store (some v) =
    if ltb v.exp now
    then (some code_timed_out, drop_code email store)
    else if ltb verify_max_try (suc v.attempt)
    then (some too_many_tries, drop_code email store)
    else if not (text_eq v.code code)
    then (some wrong_code_given, put_code email (record v { attempt = suc v.attempt }) store)
    else (none, drop_code email store)

abbrev pub address_of : Text → Text
address_of email = to_lower (trim_space email)

-- verifyEmailCode
unfoldable pub verify_email_code : ℕ → Text → Text → CodeStore → Option CodeError × CodeStore
unfolding code_of drop_code to_lower trim_space
verify_email_code now email code store =
    if is_empty (trim_space code)
    then (some no_code_given, store)
    else check_sent now (address_of email) (trim_space code) store
        (code_of (address_of email) store)

abbrev pub is_letter : ℕ → Bool
is_letter c = (leb b'A' c && leb c b'Z') || (leb b'a' c && leb c b'z')

abbrev pub is_digit : ℕ → Bool
is_digit c = leb b'0' c && leb c b'9'

abbrev pub is_domain_char : ℕ → Bool
is_domain_char c = is_letter c || is_digit c || c == b'.' || c == b'-'

abbrev pub is_local_char : ℕ → Bool
is_local_char c = is_domain_char c || c == b'_' || c == b'%' || c == b'+'

unfoldable pub all_bytes : (ℕ → Bool) → Text → Bool
all_bytes p [] = true
all_bytes p (c ∷ s) = let rest = all_bytes p s in p c && rest

abbrev pub with_first : ℕ → Option (Text × Text) → Option (Text × Text)
with_first c none = none
with_first c (some (a, b)) = some (c ∷ a, b)

-- The parts before and after the first `c`.
unfoldable pub cut_at : ℕ → Text → Option (Text × Text)
cut_at c [] = none
cut_at c (d ∷ s) = let rest = with_first d (cut_at c s) in if d == c then some ([], s) else rest

abbrev pub or_here : ℕ → Text → Option (Text × Text) → Option (Text × Text)
or_here d s (some (a, b)) = some (d ∷ a, b)
or_here d s none = if d == b'.' then some ([], s) else none

-- The parts before and after the last dot.
unfoldable pub cut_last_dot : Text → Option (Text × Text)
cut_last_dot [] = none
cut_last_dot (d ∷ s) = let rest = cut_last_dot s in or_here d s rest

abbrev pub is_domain : Option (Text × Text) → Bool
is_domain none = false
is_domain (some (host, top)) =
    not (is_empty host)
    && all_bytes is_domain_char host
    && all_bytes is_letter top
    && leb 2 (length top)

abbrev pub is_address : Option (Text × Text) → Bool
is_address none = false
is_address (some (name, domain)) =
    not (is_empty name) && all_bytes is_local_char name && is_domain (cut_last_dot domain)

-- validEmail
unfoldable pub valid_email : Text → Bool
unfolding all_bytes cut_at cut_last_dot
valid_email s = is_address (cut_at b'@' s)

abbrev pub has_email : Text → User → Bool
has_email e u = text_eq u.email e

-- userEmailOrNameTaken
unfoldable pub user_email_or_name_taken : Text → Text → Db → Bool
user_email_or_name_taken name email db =
    (not (is_empty name) && ltb 0 (count (has_username name) db.users))
    || (not (is_empty email) && ltb 0 (count (has_email email) db.users))

pub data RegisterError : Type 0 where
  registration_closed no_code_needed too_frequent bad_email no_smtp bad_captcha : RegisterError
  name_or_email_taken bad_username bad_password hash_refused : RegisterError
  code_error : CodeError → RegisterError
  insert_error : UserError → RegisterError

-- What the site allows, and what the captcha and the limiter say of the request.
pub record Gate : Type 0 where
  pub is_accepting : Bool
  pub needs_code : Bool
  pub is_allowed : Bool
  pub has_smtp : Bool
  pub passes_captcha : Bool

abbrev pub code_answer : Option CodeError × CodeStore → Option RegisterError × CodeStore
code_answer (none, store) = (none, store)
code_answer (some e, store) = (some (code_error e), store)

-- The handler of POST /admin/register/send-code, up to the sending of the mail.
unfoldable pub send_code :
    Gate → ℕ → Text → Text → ℕ → Db → CodeStore → Option RegisterError × CodeStore
unfolding grant_code valid_email user_email_or_name_taken to_lower trim_space
send_code g now email username drawn db store =
    if not g.is_accepting
    then (some registration_closed, store)
    else if not g.needs_code
    then (some no_code_needed, store)
    else if not g.is_allowed
    then (some too_frequent, store)
    else if not (valid_email (address_of email))
    then (some bad_email, store)
    else if not g.has_smtp
    then (some no_smtp, store)
    else if not g.passes_captcha
    then (some bad_captcha, store)
    else if user_email_or_name_taken (trim_space username) (address_of email) db
    then (some name_or_email_taken, store)
    else code_answer (grant_code now (address_of email) drawn store)

-- The insert of the user with its bonus.
abbrev pub with_bonus : PointsConfig → ℕ → Option UserError × Site → Option RegisterError × Site
with_bonus cfg id (some e, s) = (some (insert_error e), s)
with_bonus cfg id (none, s) = (none, record s { db = grant_signup_bonus cfg id s.db })

abbrev pub register_hashed :
    PointsConfig → Text → Text → Bool → Option Text → Site → Option RegisterError × Site
register_hashed cfg name email verified none s = (some hash_refused, s)
register_hashed cfg name email verified (some hashed) s =
    with_bonus cfg s.db.next_id (insert_user name hashed email Role.user verified s)

-- The last check before the user is created: the code, or the captcha where no code is needed.
unfoldable pub prove : Gate → ℕ → Text → Text → CodeStore → Option RegisterError × CodeStore
unfolding verify_email_code
prove g now email code store =
    if g.needs_code
    then code_answer (verify_email_code now email code store)
    else if g.passes_captcha
    then (none, store)
    else (some bad_captcha, store)

abbrev pub registered :
    PointsConfig
    → Text
    → Text
    → Bool
    → Option Text
    → Site
    → Option RegisterError × CodeStore
    → Option RegisterError × CodeStore × Site
registered cfg name email verified hashed s (some e, store) = (some e, store, s)
registered cfg name email verified hashed s (none, store) =
    let (outcome, s') = register_hashed cfg name email verified hashed s in (outcome, store, s')

-- The handler of POST /admin/register.
unfoldable pub register_user :
    (Text → Option Text)
    → PointsConfig
    → Gate
    → ℕ
    → Text
    → Text
    → Text
    → Text
    → CodeStore
    → Site
    → Option RegisterError × CodeStore × Site
unfolding prove valid_email user_email_or_name_taken insert_user grant_signup_bonus trim_space
    to_lower
register_user hash cfg g now username password email code store s =
    let name = trim_space username in
    if not g.is_accepting
    then (some registration_closed, store, s)
    else if not g.is_allowed
    then (some too_frequent, store, s)
    else if is_empty name || ltb 64 (length name)
    then (some bad_username, store, s)
    else if ltb (length password) 6
    then (some bad_password, store, s)
    else if not (valid_email (address_of email))
    then (some bad_email, store, s)
    else if user_email_or_name_taken name (address_of email) s.db
    then (some name_or_email_taken, store, s)
    else registered cfg name (address_of email) g.needs_code (hash password) s
        (prove g now (address_of email) code store)
