-- ===== src/Register/Guesses.antt =====
-- How often a code can be guessed.
-- What happens to the codes, in order.
use ipw_boce.Prelude.{
  All, Bool, Bool-cases, List, Option, Text, [], ap, arith, false, if◌then◌else◌, inl, inr,
  is_empty, ltb, none, refl, some, subst, suc, sym, text_eq, text_eq_iff, text_eq_self, trim_space,
  true, ℕ, ◌&&◌, ◌+◌, ◌-◌, ◌∷◌, ◌≡◌, ◌≤◌,
}
use ipw_boce.Register.{
  CodeError, CodeStore, VerifyCode, address_of, check_sent, code_of, drop_code, grant_code, is_code,
  is_recent, new_code, put_code, take_back_code, verify_email_code, verify_max_try,
  wrong_code_given,
}

pub data CodeOp : Type 0 where
  sends : ℕ → Text → ℕ → CodeOp
  takes_back : Text → Text → CodeOp
  guesses : ℕ → Text → Text → CodeOp

-- Whether the given code was compared with the one that was sent.
abbrev pub is_compared : Option CodeError → Bool
is_compared none = true
is_compared (some wrong_code_given) = true
is_compared (some e) = false

-- Whether an operation is a guess at the code of `email` that is compared, and the codes after it.
unfoldable pub code_step : Text → CodeOp → CodeStore → Bool × CodeStore
unfolding grant_code take_back_code verify_email_code
code_step email (sends now to drawn) store = (false, (grant_code now to drawn store).1)
code_step email (takes_back to code) store = (false, take_back_code to code store)
code_step email (guesses now to code) store =
    let (outcome, store') = verify_email_code now to code store in
    (is_compared outcome && text_eq (address_of to) email, store')

unfoldable pub compared : Text → List CodeOp → CodeStore → ℕ
unfolding code_step
compared email [] store = 0
compared email (op ∷ ops) store =
    let (hit, store') = code_step email op store in
    let rest = compared email ops store' in if hit then suc rest else rest

-- No other code is sent to the address.
abbrev pub NotSent : Text → CodeOp → Type 0
NotSent email (sends now to drawn) = text_eq to email ≡ false
NotSent email (takes_back to code) = Unit {0}
NotSent email (guesses now to code) = Unit {0}

abbrev tries_left : Option VerifyCode → ℕ
tries_left none = 0
tries_left (some v) = 5 - v.attempt

abbrev left_for : Text → CodeStore → ℕ
left_for email store = tries_left (code_of email store)

code-drop_self : (email : Text) (s : CodeStore) → code_of email (drop_code email s) ≡ none
unfolding code_of drop_code
code-drop_self email [] = refl
code-drop_self email ((k, v) ∷ rest) = ground (arith, code-drop_self email rest)

code-drop_other :
    (k email : Text) (s : CodeStore)
    → text_eq k email ≡ false
    → code_of email (drop_code k s) ≡ code_of email s
unfolding code_of drop_code
code-drop_other k email [] ne = refl
code-drop_other k email ((j, v) ∷ rest) ne =
    let ih = code-drop_other k email rest ne in
    elim (Bool-cases (text_eq j k)) [
      | inr differs ↦ rw differs (ap (λ x. if text_eq j email then some v else x) ih)
      | inl same_key ↦
          let apart : text_eq j email ≡ false =
            subst (λ y. text_eq y email ≡ false) (sym ((text_eq_iff j k).0 same_key)) ne in
          rw (same_key, apart) ih
    ]

code-put_self :
    (email : Text) (v : VerifyCode) (s : CodeStore) → code_of email (put_code email v s) ≡ some v
unfolding code_of
code-put_self email v s = rw (text_eq_self email) refl

code-put_other :
    (k email : Text) (v : VerifyCode) (s : CodeStore)
    → text_eq k email ≡ false
    → code_of email (put_code k v s) ≡ code_of email s
unfolding code_of
code-put_other k email v s ne = rw ne (code-drop_other k email s ne)

-- Taking a code out leaves no more tries for any address.
left-drop : (k email : Text) (s : CodeStore) → left_for email (drop_code k s) ≤ left_for email s
left-drop k email s = elim (Bool-cases (text_eq k email)) [
  | inr differs ↦ omega (arith, ap tries_left (code-drop_other k email s differs))
  | inl same_key ↦
      let gone : code_of email (drop_code k s) ≡ none =
        subst (λ y. code_of email (drop_code y s) ≡ none) (sym ((text_eq_iff k email).0 same_key))
          (code-drop_self email s) in
      omega (arith, ap tries_left gone)
]

-- A comparison uses up a try.
check_own :
    (now : ℕ) (email code : Text) (s : CodeStore) (x : Option VerifyCode)
    → code_of email s ≡ x
    → (if is_compared (check_sent now email code s x).0 then 1 else 0)
        + left_for email (check_sent now email code s x).1
      ≤ tries_left x
check_own now email code s none h = omega (arith, ap tries_left h)
check_own now email code s (some v) h =
    let gone = ap tries_left (code-drop_self email s) in
    elim (Bool-cases (ltb v.exp now)) [
      | inl late ↦ rw late omega (arith, gone)
      | inr timely ↦ elim (Bool-cases (ltb verify_max_try (suc v.attempt))) [
        | inl spent ↦ rw (timely, spent) omega (arith, gone)
        | inr unspent ↦ elim (Bool-cases (text_eq v.code code)) [
          | inl right ↦ rw (timely, unspent, right) ground (arith, gone, unspent)
          | inr wrong ↦
              let put =
                ap tries_left (code-put_self email (record v { attempt = suc v.attempt }) s) in
              rw (timely, unspent, wrong) ground (arith, put, unspent)
        ]
      ]
    ]

-- A guess at another code leaves the tries as they are.
check_other :
    (now : ℕ) (k email code : Text) (s : CodeStore) (x : Option VerifyCode)
    → text_eq k email ≡ false
    → code_of email (check_sent now k code s x).1 ≡ code_of email s
check_other now k email code s none ne = refl
check_other now k email code s (some v) ne =
    let dropped = code-drop_other k email s ne in
    elim (Bool-cases (ltb v.exp now)) [
      | inl late ↦ rw late dropped
      | inr timely ↦ elim (Bool-cases (ltb verify_max_try (suc v.attempt))) [
        | inl spent ↦ rw (timely, spent) dropped
        | inr unspent ↦ elim (Bool-cases (text_eq v.code code)) [
          | inl right ↦ rw (timely, unspent, right) dropped
          | inr wrong ↦
              rw (timely, unspent, wrong)
                (code-put_other k email (record v { attempt = suc v.attempt }) s ne)
        ]
      ]
    ]

-- What an operation uses up of the tries for an address.
abbrev used : Text → Bool × CodeStore → ℕ
used email (hit, store) = (if hit then 1 else 0) + left_for email store

no_hit : (b : Bool) (m n : ℕ) → m ≡ n → (if b && false then 1 else 0) + m ≤ n
no_hit b m n h = ground (arith, h)

plain_hit :
    (b : Bool) (m n : ℕ) → (if b then 1 else 0) + m ≤ n → (if b && true then 1 else 0) + m ≤ n
plain_hit b m n h = ground (arith, h)

guess_used :
    (now : ℕ) (email to code : Text) (s : CodeStore)
    → used email (code_step email (guesses now to code) s) ≤ left_for email s
unfolding code_step code_of
guess_used now email to code s = elim (Bool-cases (is_empty (trim_space code))) [
  | inl blank ↦ rw (code_step, verify_email_code, blank) omega arith
  | inr given ↦ elim (Bool-cases (text_eq (address_of to) email)) [
    | inr foreign ↦
        let same_code =
          check_other now (address_of to) email (trim_space code) s (code_of (address_of to) s)
            foreign in
        rw (code_step, verify_email_code, given, foreign) (no_hit _ _ _ (ap tries_left same_code))
    | inl own ↦
        let at_email = (text_eq_iff (address_of to) email).0 own in
        rw (code_step, verify_email_code, given, own)
          (subst
            (λ k.
              (if is_compared (check_sent now k (trim_space code) s (code_of k s)).0 && true
                  then 1
                  else 0)
                + left_for email (check_sent now k (trim_space code) s (code_of k s)).1
              ≤ left_for email s)
            (sym at_email)
            (plain_hit (is_compared (check_sent now email (trim_space code) s (code_of email s)).0)
              (left_for email (check_sent now email (trim_space code) s (code_of email s)).1)
              (left_for email s) (check_own now email (trim_space code) s (code_of email s) refl)))
  ]
]

send_used :
    (now : ℕ) (email to : Text) (drawn : ℕ) (s : CodeStore)
    → text_eq to email ≡ false
    → used email (code_step email (sends now to drawn) s) ≤ left_for email s
unfolding code_step code_of
send_used now email to drawn s ne = elim (Bool-cases (is_recent now (code_of to s))) [
  | inl recent ↦ rw (code_step, grant_code, recent) omega arith
  | inr ripe ↦
      rw (code_step, grant_code, ripe)
        (omega (arith, ap tries_left (code-put_other to email (new_code now drawn) s ne)))
]

take_back_used :
    (email to code : Text) (s : CodeStore)
    → used email (code_step email (takes_back to code) s) ≤ left_for email s
unfolding code_step code_of
take_back_used email to code s = elim (Bool-cases (is_code code (code_of to s))) [
  | inl matches ↦ rw (code_step, take_back_code, matches) omega (arith, left-drop to email s)
  | inr differs ↦ rw (code_step, take_back_code, differs) omega arith
]

step_used :
    (email : Text) (op : CodeOp) (s : CodeStore)
    → NotSent email op
    → used email (code_step email op s) ≤ left_for email s
step_used email (sends now to drawn) s ne = send_used now email to drawn s ne
step_used email (takes_back to code) s n = take_back_used email to code s
step_used email (guesses now to code) s n = guess_used now email to code s

compared-left :
    (email : Text) (ops : List CodeOp) (s : CodeStore)
    → All (NotSent email) ops
    → compared email ops s ≤ left_for email s
unfolding compared
compared-left email [] s n = omega arith
compared-left email (op ∷ ops) s (n, ns) =
    ground (arith, compared-left email ops (code_step email op s).1 ns, step_used email op s n)

-- At most five guesses at a code are compared with it, whatever happens to the codes of other
-- addresses in between, until another code is sent to the address.
pub five_guesses :
    (email : Text) (ops : List CodeOp) (s : CodeStore)
    → All (NotSent email) ops
    → compared email ops s ≤ 5
five_guesses email ops s n = ground (arith, compared-left email ops s n)
