-- ===== src/Captcha/Laws.antt =====
-- An image captcha is good for one try, and the right code passes it in time.
-- What the server does with the store, in order.
use ipw_boce.Captcha.{
  CaptchaEntry, answer_of, captcha_ttl, drop_entry, entry_of, equal_fold, new_image_captcha,
  unexpired, verify_image_captcha,
}
use ipw_boce.Prelude.{
  All, Bool, Bool-cases, List, Text, [], ap, arith, false, if◌then◌else◌, inl, inr, is_empty,
  is_some, length, ltb, none, not, refl, some, subst, suc, sym, text_eq, text_eq_iff, text_eq_self,
  trim_space, true, ℕ, ◌&&◌, ◌+◌, ◌∙◌, ◌∷◌, ◌≡◌, ◌≤◌,
}

pub data CaptchaOp : Type 0 where
  issue : ℕ → Text → List ℕ → CaptchaOp
  try : ℕ → Text → Text → CaptchaOp

-- Whether an operation is a try on `id` that passes.
unfoldable pub captcha_step :
    CaptchaOp → List (Text × CaptchaEntry) → Bool × List (Text × CaptchaEntry)
captcha_step (issue now id picks) store = (false, new_image_captcha now id picks store)
captcha_step (try now id code) store =
    let (outcome, store') = verify_image_captcha now id code store in
    (not (is_some outcome), store')

abbrev pub op_id : CaptchaOp → Text
op_id (issue now id picks) = id
op_id (try now id code) = id

-- How many tries on `id` pass.
unfoldable pub passes : Text → List CaptchaOp → List (Text × CaptchaEntry) → ℕ
unfolding captcha_step
passes id [] store = 0
passes id (op ∷ ops) store =
    let (pass, store') = captcha_step op store in
    let rest = passes id ops store' in if pass && text_eq (op_id op) id then suc rest else rest

abbrev pub store_after : List CaptchaOp → List (Text × CaptchaEntry) → List (Text × CaptchaEntry)
store_after [] store = store
store_after (op ∷ ops) store = store_after ops (captcha_step op store).1

-- `id` is not issued again.
abbrev pub NotIssued : Text → CaptchaOp → Type 0
NotIssued id (issue now k picks) = text_eq k id ≡ false
NotIssued id (try now k code) = Unit {0}

-- The operation is about another id, and comes before `end`.
abbrev pub IsElsewhere : Text → ℕ → CaptchaOp → Type 0
IsElsewhere id end (issue now k picks) = (text_eq k id ≡ false) × (now ≤ end)
IsElsewhere id end (try now k code) = text_eq k id ≡ false

entry-drop_self :
    (id : Text) (s : List (Text × CaptchaEntry)) → entry_of id (drop_entry id s) ≡ none
unfolding entry_of drop_entry
entry-drop_self id [] = refl
entry-drop_self id ((k, e) ∷ rest) = ground (arith, entry-drop_self id rest)

entry-drop_other :
    (r id : Text) (s : List (Text × CaptchaEntry))
    → text_eq r id ≡ false
    → entry_of id (drop_entry r s) ≡ entry_of id s
unfolding drop_entry entry_of
entry-drop_other r id [] ne = refl
entry-drop_other r id ((k, e) ∷ rest) ne =
    let ih = entry-drop_other r id rest ne in
    elim (Bool-cases (text_eq k r)) [
      | inr differs ↦ rw differs (ap (λ x. if text_eq k id then some e else x) ih)
      | inl same ↦
          let apart : text_eq k id ≡ false =
            subst (λ y. text_eq y id ≡ false) (sym ((text_eq_iff k r).0 same)) ne in
          rw (same, apart) ih
    ]

entry-unexpired :
    (id : Text) (now : ℕ) (e : CaptchaEntry) (s : List (Text × CaptchaEntry))
    → now ≤ e.exp
    → entry_of id s ≡ some e
    → entry_of id (unexpired now s) ≡ some e
unfolding unexpired entry_of
entry-unexpired id now e [] n h = h
entry-unexpired id now e ((k, x) ∷ rest) n h = elim (Bool-cases (text_eq k id)) [
  | inl same ↦ ground (arith, n, h, same)
  | inr differs ↦ ground (arith, n, h, differs, entry-unexpired id now e rest n)
]

no_entry-unexpired :
    (id : Text) (now : ℕ) (s : List (Text × CaptchaEntry))
    → entry_of id s ≡ none
    → entry_of id (unexpired now s) ≡ none
unfolding unexpired entry_of
no_entry-unexpired id now [] h = h
no_entry-unexpired id now ((k, x) ∷ rest) h = elim (Bool-cases (text_eq k id)) [
  | inl same ↦ ground (arith, h, same)
  | inr differs ↦
      let ih = no_entry-unexpired id now rest (ground (arith, h, differs)) in
      elim (Bool-cases (ltb x.exp now)) [ inl old ↦ rw old ih | inr young ↦ rw (young, differs) ih ]
]

no_entry-new :
    (id k : Text) (now : ℕ) (picks : List ℕ) (s : List (Text × CaptchaEntry))
    → text_eq k id ≡ false
    → entry_of id s ≡ none
    → entry_of id (new_image_captcha now k picks s) ≡ none
unfolding new_image_captcha entry_of
no_entry-new id k now picks s ne h = elim (Bool-cases (ltb 5000 (length s))) [
  | inl full ↦
      rw (new_image_captcha, full, ne)
        (entry-drop_other k id (unexpired now s) ne ∙ no_entry-unexpired id now s h)
  | inr room ↦ rw (new_image_captcha, room, ne) (entry-drop_other k id s ne ∙ h)
]

entry-new :
    (id k : Text) (now : ℕ) (picks : List ℕ) (e : CaptchaEntry) (s : List (Text × CaptchaEntry))
    → text_eq k id ≡ false
    → now ≤ e.exp
    → entry_of id s ≡ some e
    → entry_of id (new_image_captcha now k picks s) ≡ some e
unfolding new_image_captcha entry_of
entry-new id k now picks e s ne n h = elim (Bool-cases (ltb 5000 (length s))) [
  | inl full ↦
      rw (new_image_captcha, full, ne)
        (entry-drop_other k id (unexpired now s) ne ∙ entry-unexpired id now e s n h)
  | inr room ↦ rw (new_image_captcha, room, ne) (entry-drop_other k id s ne ∙ h)
]

no_entry-drop :
    (k id : Text) (s : List (Text × CaptchaEntry))
    → entry_of id s ≡ none
    → entry_of id (drop_entry k s) ≡ none
no_entry-drop k id s h = elim (Bool-cases (text_eq k id)) [
  | inr differs ↦ entry-drop_other k id s differs ∙ h
  | inl same ↦
      subst (λ y. entry_of id (drop_entry y s) ≡ none) (sym ((text_eq_iff k id).0 same))
        (entry-drop_self id s)
]

-- A captcha that is not in the store does not pass.
gone_fails :
    (now : ℕ) (k code : Text) (s : List (Text × CaptchaEntry))
    → entry_of k s ≡ none
    → is_some (verify_image_captcha now k code s).0 ≡ true
unfolding verify_image_captcha
gone_fails now k code s h = rw (verify_image_captcha, h) ground arith

passes-try :
    (id k code : Text) (now : ℕ) (ops : List CaptchaOp) (s : List (Text × CaptchaEntry))
    → passes id (try now k code ∷ ops) s ≡ (
        if not (is_some (verify_image_captcha now k code s).0) && text_eq k id
        then suc (passes id ops (drop_entry k s))
        else passes id ops (drop_entry k s))
unfolding verify_image_captcha passes
passes-try id k code now ops s = refl

at_most_one : (b : Bool) (n : ℕ) → n ≡ 0 → (if b then suc n else n) ≤ 1
at_most_one b n h = ground arith

not_counted : (b c : Bool) (n m : ℕ) → b && c ≡ false → n ≤ m → (if b && c then suc n else n) ≤ m
not_counted b c n m h l = ground arith

passes-gone :
    (id : Text) (ops : List CaptchaOp) (s : List (Text × CaptchaEntry))
    → All (NotIssued id) ops
    → entry_of id s ≡ none
    → passes id ops s ≡ 0
unfolding passes
passes-gone id [] s n h = refl
passes-gone id (issue now k picks ∷ ops) s (o, os) h =
    passes-gone id ops (new_image_captcha now k picks s) os (no_entry-new id k now picks s o h)
passes-gone id (try now k code ∷ ops) s (o, os) h =
    let ih = passes-gone id ops (drop_entry k s) os (no_entry-drop k id s h) in
    let fails : not (is_some (verify_image_captcha now k code s).0) && text_eq k id ≡ false =
      elim (Bool-cases (text_eq k id)) [
        | inr differs ↦ ground (arith, differs)
        | inl same ↦ ground (
          arith,
          gone_fails now k code s
              (subst (λ y. entry_of y s ≡ none) (sym ((text_eq_iff k id).0 same)) h),
        )
      ] in
    passes-try id k code now ops s
    ∙ ap (λ b. if b then suc (passes id ops (drop_entry k s)) else passes id ops (drop_entry k s))
        fails
    ∙ ih

-- However often it is tried, in any order with the tries on other captchas and with new captchas,
-- at most one try on a captcha passes, unless its id is issued again.
pub captcha_single_use :
    (id : Text) (ops : List CaptchaOp) (s : List (Text × CaptchaEntry))
    → All (NotIssued id) ops
    → passes id ops s ≤ 1
unfolding passes
captcha_single_use id [] s n = omega arith
captcha_single_use id (issue now k picks ∷ ops) s (o, os) =
    captcha_single_use id ops (new_image_captcha now k picks s) os
captcha_single_use id (try now k code ∷ ops) s (o, os) =
    let pass = not (is_some (verify_image_captcha now k code s).0) in
    let n = passes id ops (drop_entry k s) in
    subst (λ x. x ≤ 1) (sym (passes-try id k code now ops s))
      (elim (Bool-cases (text_eq k id)) [
        | inr differs ↦
            not_counted pass (text_eq k id) n 1 (ground (arith, differs))
              (captcha_single_use id ops (drop_entry k s) os)
        | inl same ↦
            let gone : entry_of id (drop_entry k s) ≡ none =
              subst (λ y. entry_of id (drop_entry y s) ≡ none) (sym ((text_eq_iff k id).0 same))
                (entry-drop_self id s) in
            at_most_one (pass && text_eq k id) n (passes-gone id ops (drop_entry k s) os gone)
      ])

-- Operations on other ids leave an entry as it is, up to its end.
entry-elsewhere :
    (id : Text) (e : CaptchaEntry) (ops : List CaptchaOp) (s : List (Text × CaptchaEntry))
    → All (IsElsewhere id e.exp) ops
    → entry_of id s ≡ some e
    → entry_of id (store_after ops s) ≡ some e
unfolding captcha_step new_image_captcha verify_image_captcha
entry-elsewhere id e [] s o h = h
entry-elsewhere id e (issue now k picks ∷ ops) s ((ne, n), os) h =
    entry-elsewhere id e ops (new_image_captcha now k picks s) os
      (entry-new id k now picks e s ne n h)
entry-elsewhere id e (try now k code ∷ ops) s (ne, os) h =
    entry-elsewhere id e ops (drop_entry k s) os (entry-drop_other k id s ne ∙ h)

-- The right code passes, whatever its case and the spaces around it, up to five minutes after the
-- captcha was issued, when nothing has been done to its id in between.
pub right_code_passes :
    (id code : Text) (issued now : ℕ) (picks : List ℕ) (ops : List CaptchaOp)
    (s : List (Text × CaptchaEntry))
    → All (IsElsewhere id (issued + captcha_ttl)) ops
    → now ≤ issued + captcha_ttl
    → is_empty (trim_space code) ≡ false
    → equal_fold (trim_space code) (answer_of picks) ≡ true
    → (verify_image_captcha now id code (store_after ops (new_image_captcha issued id picks s))).0
      ≡ none
unfolding new_image_captcha entry_of answer_of verify_image_captcha
right_code_passes id code issued now picks ops s o n given right =
    let e : CaptchaEntry = record { answer = answer_of picks; exp = issued + captcha_ttl } in
    let kept_entry =
      entry-elsewhere id e ops (new_image_captcha issued id picks s) o
        (rw (new_image_captcha, entry_of, text_eq_self id) refl) in
    rw (verify_image_captcha, kept_entry, given) ground (arith, right, n)
