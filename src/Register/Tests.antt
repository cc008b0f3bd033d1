-- ===== src/Register/Tests.antt =====
-- Runs of the registration on concrete data.
use ipw_boce.Prelude.{List, Text, [], codes, false, none, refl, some, true, ◌∷◌, ◌≡◌, ◌≤◌}
use ipw_boce.Register.{CodeStore, grant_code, too_soon, valid_email, verify_email_code}
use ipw_boce.Register.Guesses.{CodeOp, compared, five_guesses, guesses, sends}

abbrev no_codes : CodeStore
no_codes = []

abbrev eve : Text
eve = codes "eve@x.org"

abbrev one_code : CodeStore
one_code = (grant_code 10 eve 42 no_codes).1

abbrev five_wrong : List CodeOp
five_wrong =
    guesses 11 eve (codes "1")
    ∷ guesses 12 (codes " EVE@x.org") (codes "2")
    ∷ guesses 13 eve (codes "3")
    ∷ sends 14 (codes "bob@x.org") 7
    ∷ guesses 15 eve (codes "4")
    ∷ guesses 16 eve (codes "5")
    ∷ guesses 17 eve (codes "000042")
    ∷ []

code_test : (verify_email_code 11 eve (codes "000042 ") one_code).0 ≡ none
unfolding verify_email_code grant_code
code_test = refl

-- The right code comes too late after five wrong ones.
five_wrong_test : compared eve five_wrong one_code ≡ 5
unfolding compared grant_code
five_wrong_test = refl

too_soon_test : (grant_code 59999999999 eve 43 one_code).0 ≡ some too_soon
unfolding grant_code
too_soon_test = refl

valid_email_test : valid_email (codes "a.b+c@mail.example.org") ≡ true
unfolding valid_email
valid_email_test = refl

bad_email_test : valid_email (codes "a@b.c") ≡ false
unfolding valid_email
bad_email_test = refl

two_signs_test : valid_email (codes "a@b@c.org") ≡ false
unfolding valid_email
two_signs_test = refl

five_guesses_example : compared eve five_wrong one_code ≤ 5
five_guesses_example =
    five_guesses eve five_wrong one_code (tt, (tt, (tt, (refl, (tt, (tt, (tt, tt)))))))
