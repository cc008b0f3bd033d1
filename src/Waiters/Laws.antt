-- ===== src/Waiters/Laws.antt =====
-- An answer reaches the caller that asked for it, and no other.
use ipw_boce.Prelude.{
  Bool-cases, List, Text, [], ap, arith, contains, false, inl, inr, none, refl, some, subst, sym,
  text_eq, text_eq_iff, text_eq_self, true, ◌||◌, ◌∙◌, ◌∷◌, ◌≡◌,
}
use ipw_boce.Presence.{without}
use ipw_boce.Uptime.Intervals.{holds}
use ipw_boce.Waiters.{Waiters, deliver, drop_mail, mail_of, take_reply}

contains-without_self : (req : Text) (xs : List Text) → contains (without req xs) req ≡ false
unfolding contains without
contains-without_self req [] = refl
contains-without_self req (x ∷ xs) = ground (arith, contains-without_self req xs)

contains-without_other :
    (r req : Text) (xs : List Text)
    → text_eq r req ≡ false
    → contains (without r xs) req ≡ contains xs req
unfolding contains without
contains-without_other r req [] ne = refl
contains-without_other r req (x ∷ xs) ne =
    let ih = contains-without_other r req xs ne in
    elim (Bool-cases (text_eq x r)) [
      | inr differs ↦ rw differs (ap (λ b. text_eq x req || b) ih)
      | inl same ↦
          let unasked : text_eq x req ≡ false =
            subst (λ y. text_eq y req ≡ false) (sym ((text_eq_iff x r).0 same)) ne in
          rw (same, unasked) ih
    ]

module _ {A : Type 0} where
  unfoldable pub deliver_all : List (Text × A) → Waiters A → Waiters A
  unfolding deliver
  deliver_all [] w = w
  deliver_all ((r, a) ∷ rest) w = deliver_all rest (deliver r a w)

  mail-drop_mail : (req : Text) (m : List (Text × A)) → mail_of req (drop_mail req m) ≡ none
  unfolding mail_of drop_mail
  mail-drop_mail req [] = refl
  mail-drop_mail req ((r, a) ∷ rest) = ground (arith, mail-drop_mail req rest)

  -- An answer that comes after the caller has left changes nothing.
  pub deliver-take_reply :
      (req : Text) (a : A) (w : Waiters A)
      → deliver req a (take_reply req w).1 ≡ (take_reply req w).1
  unfolding deliver take_reply
  deliver-take_reply req a w = ground (arith, contains-without_self req w.waiting)

  deliver_elsewhere :
      (req r : Text) (b : A) (w : Waiters A)
      → text_eq r req ≡ false
      → (contains (deliver r b w).waiting req ≡ contains w.waiting req)
        × (mail_of req (deliver r b w).mail ≡ mail_of req w.mail)
  unfolding deliver mail_of
  deliver_elsewhere req r b w ne = elim (Bool-cases (contains w.waiting r)) [
    | inl asked ↦ rw (deliver, asked, ne) (contains-without_other r req w.waiting ne, refl)
    | inr unasked ↦ rw (deliver, unasked) (refl, refl)
  ]

  deliver_unasked :
      (req : Text) (b : A) (w : Waiters A) → contains w.waiting req ≡ false → deliver req b w ≡ w
  unfolding deliver
  deliver_unasked req b w gone = rw gone

  deliver_asked :
      (req : Text) (b : A) (w : Waiters A)
      → contains w.waiting req ≡ true
      → (contains (deliver req b w).waiting req ≡ false)
        × (mail_of req (deliver req b w).mail ≡ some b)
  unfolding deliver mail_of
  deliver_asked req b w asked =
      rw (deliver, asked, text_eq_self req) (contains-without_self req w.waiting, refl)

  -- Once the answer is in, later ones change nothing for the caller.
  settled :
      (req : Text) (a : A) (rs : List (Text × A)) (w : Waiters A)
      → contains w.waiting req ≡ false
      → mail_of req w.mail ≡ some a
      → mail_of req (deliver_all rs w).mail ≡ some a
  unfolding deliver_all
  settled req a [] w gone has = has
  settled req a ((r, b) ∷ rest) w gone has = elim (Bool-cases (text_eq r req)) [
    | inl same ↦
        let e : deliver r b w ≡ w =
          subst (λ x. deliver x b w ≡ w) (sym ((text_eq_iff r req).0 same))
            (deliver_unasked req b w gone) in
        subst (λ v. mail_of req (deliver_all rest v).mail ≡ some a) (sym e)
          (settled req a rest w gone has)
    | inr differs ↦
        let (waits, holds) = deliver_elsewhere req r b w differs in
        settled req a rest (deliver r b w) (waits ∙ gone) (holds ∙ has)
  ]

  -- A caller that waits gets the first of the answers to its request, whatever answers to other
  -- requests and repeated answers come besides; and none if there is no answer to it.
  pub take_reply-deliver_all :
      (req : Text) (rs : List (Text × A)) (w : Waiters A)
      → contains w.waiting req ≡ true
      → mail_of req w.mail ≡ none
      → (take_reply req (deliver_all rs w)).0 ≡ mail_of req rs
  unfolding take_reply deliver_all mail_of
  take_reply-deliver_all req [] w waits free = free
  take_reply-deliver_all req ((r, b) ∷ rest) w waits free = elim (Bool-cases (text_eq r req)) [
    | inl same ↦
        let first =
          subst
            (λ x.
              (contains (deliver x b w).waiting req ≡ false)
              × (mail_of req (deliver x b w).mail ≡ some b))
            (sym ((text_eq_iff r req).0 same)) (deliver_asked req b w waits) in
        rw same (settled req b rest (deliver r b w) first.0 first.1)
    | inr differs ↦
        let (still, none_yet) = deliver_elsewhere req r b w differs in
        rw differs
          (take_reply-deliver_all req rest (deliver r b w) (still ∙ waits) (none_yet ∙ free))
  ]
