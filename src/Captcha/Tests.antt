-- ===== src/Captcha/Tests.antt =====
-- Runs of the image captcha on concrete data.
use ipw_boce.Captcha.{
  CaptchaEntry, answer_of, fold_case, new_image_captcha, verify_image_captcha, wrong_code,
}
use ipw_boce.Captcha.Laws.{
  CaptchaOp, captcha_single_use, issue, passes, right_code_passes, store_after, try,
}
use ipw_boce.Prelude.{List, Text, [], arith, codes, none, refl, some, trim_space, ◌∷◌, ◌≡◌, ◌≤◌}

abbrev empty_store : List (Text × CaptchaEntry)
empty_store = []

-- Another captcha comes and is tried.
abbrev other_ops : List CaptchaOp
other_ops = issue 5 (codes "b2") (4 ∷ 5 ∷ 6 ∷ 7 ∷ []) ∷ try 9 (codes "b2") (codes "WXYZ") ∷ []

-- One captcha, tried wrong, and then right twice.
abbrev three_tries : List CaptchaOp
three_tries =
    try 2 (codes "a1") (codes "abcd")
    ∷ try 3 (codes "a1") (codes "abcd")
    ∷ try 4 (codes "b2") []
    ∷ []

abbrev one_store : List (Text × CaptchaEntry)
one_store = (codes "a1", record { answer = codes "ABCD"; exp = 100 }) ∷ []

-- The long s and the Kelvin sign are folded to letters.
fold_case_test : fold_case (0xC5 ∷ 0xBF ∷ 0xE2 ∷ 0x84 ∷ 0xAA ∷ b'A' ∷ []) ≡ codes "ska"
unfolding fold_case
fold_case_test = refl

one_pass_test : passes (codes "a1") three_tries one_store ≡ 1
unfolding passes verify_image_captcha
one_pass_test = refl

wrong_code_test : (verify_image_captcha 2 (codes "a1") (codes "abce") one_store).0 ≡ some wrong_code
unfolding verify_image_captcha
wrong_code_test = refl

captcha_single_use_example : passes (codes "a1") three_tries one_store ≤ 1
captcha_single_use_example =
    captcha_single_use (codes "a1") three_tries one_store (tt, (tt, (tt, tt)))

right_code_passes_example :
    (verify_image_captcha 60
      (codes "a1")
      (codes " abcd ")
      (store_after other_ops (new_image_captcha 1 (codes "a1") (0 ∷ 1 ∷ 2 ∷ 3 ∷ []) empty_store))).0
    ≡ none
unfolding answer_of fold_case trim_space
right_code_passes_example =
    right_code_passes (codes "a1") (codes " abcd ") 1 60 (0 ∷ 1 ∷ 2 ∷ 3 ∷ []) other_ops empty_store
      ((refl, ground arith), (refl, tt)) (ground arith) refl refl
