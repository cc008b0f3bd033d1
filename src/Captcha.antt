-- ===== src/Captcha.antt =====
-- The image captcha (captcha.go): newImageCaptcha and verifyImageCaptcha. The store is a list of
-- entries under their ids. The id and the picks of the four characters are what the random source
-- gives. Instants are nanoseconds.
pub mod Laws
pub mod Tests
use ipw_boce.Calendar.{second_ns}
use ipw_boce.Donate.{has_prefix}
use ipw_boce.Points.{entry}
use ipw_boce.Prelude.{
  Bool, List, Option, Text, [], codes, drop, if◌then◌else◌, is_empty, length, lower_byte, ltb, map,
  none, not, some, suc, text_eq, trim_space, zero, ℕ, ◌%◌, ◌&&◌, ◌*◌, ◌+◌, ◌==◌, ◌∷◌,
}

pub record CaptchaEntry : Type 0 where
  pub answer : Text
  pub exp : ℕ

pub data CaptchaError : Type 0 where
  no_code captcha_expired wrong_code : CaptchaError

abbrev pub captcha_ttl : ℕ
captcha_ttl = 5 * 60 * second_ns

abbrev pub captcha_chars : Text
captcha_chars = codes "ABCDEFGHJKMNPQRSTUVWXYZ23456789"

unfoldable pub char_at : ℕ → Text → ℕ
char_at n [] = 0
char_at zero (c ∷ s) = c
char_at (suc n) (c ∷ s) = char_at n s

-- The characters at the indices that `rnd` gives.
unfoldable pub answer_of : List ℕ → Text
unfolding char_at
answer_of picks = map (λ i. char_at (i % 31) captcha_chars) picks

unfoldable pub entry_of : Text → List (Text × CaptchaEntry) → Option CaptchaEntry
entry_of id [] = none
entry_of id ((k, e) ∷ rest) = let found = entry_of id rest in if text_eq k id then some e else found

unfoldable pub drop_entry : Text → List (Text × CaptchaEntry) → List (Text × CaptchaEntry)
drop_entry id [] = []
drop_entry id ((k, e) ∷ rest) =
    let others = drop_entry id rest in if text_eq k id then others else (k, e) ∷ others

-- The entries that have not expired at `now`.
unfoldable pub unexpired : ℕ → List (Text × CaptchaEntry) → List (Text × CaptchaEntry)
unexpired now [] = []
unexpired now ((k, e) ∷ rest) =
    let others = unexpired now rest in if ltb e.exp now then others else (k, e) ∷ others

-- newImageCaptcha: the store after it, with the entry of the new id.
unfoldable pub new_image_captcha :
    ℕ → Text → List ℕ → List (Text × CaptchaEntry) → List (Text × CaptchaEntry)
unfolding answer_of drop_entry unexpired
new_image_captcha now id picks store =
    let swept = if ltb 5000 (length store) then unexpired now store else store in
    (id, record { answer = answer_of picks; exp = now + captcha_ttl }) ∷ drop_entry id swept

-- The bytes of a text with the characters that fold to an ASCII letter replaced by it: the upper case
-- letters, the Kelvin sign (to k) and the long s (to s).
unfoldable pub fold_byte : ℕ → Text → Text
unfolding lower_byte has_prefix
fold_byte c rest =
    if c == 0xE2 && has_prefix rest (0x84 ∷ 0xAA ∷ [])
    then b'k' ∷ drop 2 rest
    else if c == 0xC5 && has_prefix rest (0xBF ∷ [])
    then b's' ∷ drop 1 rest
    else lower_byte c ∷ rest

unfoldable pub fold_case : Text → Text
unfolding fold_byte
fold_case [] = []
fold_case (c ∷ s) = let rest = fold_case s in fold_byte c rest

-- strings.EqualFold of a text and an answer, whose characters are ASCII
abbrev pub equal_fold : Text → Text → Bool
equal_fold s answer = text_eq (fold_case s) (fold_case answer)

abbrev check_entry : ℕ → Text → Option CaptchaEntry → Option CaptchaError
check_entry now code none = some captcha_expired
check_entry now code (some e) =
    if ltb e.exp now
    then some captcha_expired
    else if not (equal_fold (trim_space code) e.answer)
    then some wrong_code
    else none

-- The outcome of a check, `none` for the right code.
abbrev pub check_code : ℕ → Text → Option CaptchaEntry → Option CaptchaError
check_code now code entry =
    if is_empty (trim_space code) then some no_code else check_entry now code entry

-- verifyImageCaptcha; the entry is gone whatever the outcome.
unfoldable pub verify_image_captcha :
    ℕ → Text → Text → List (Text × CaptchaEntry) → Option CaptchaError × List (Text × CaptchaEntry)
unfolding entry_of drop_entry fold_case trim_space
verify_image_captcha now id code store =
    (check_code now code (entry_of id store), drop_entry id store)
