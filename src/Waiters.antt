-- ===== src/Waiters.antt =====
-- The callers that wait for the answer to a request (the maps probeWait and cmdWait of ws.go, whose
-- channels hold one answer). A request number is fresh, as genRequestID makes it.
pub mod Laws
use ipw_boce.Prelude.{List, Option, Text, [], contains, if◌then◌else◌, none, some, text_eq, ◌∷◌}
use ipw_boce.Presence.{without}

pub record Waiters (A : Type 0) : Type 0 where
  pub waiting : List Text
  pub mail : List (Text × A)

-- How a request ends.
pub data Ending (A : Type 0) : Type 0 where
  not_connected send_failed timed_out : Ending A
  refused : Text → Ending A
  answered : A → Ending A

module _ {A : Type 0} where
  unfoldable pub mail_of : Text → List (Text × A) → Option A
  mail_of req [] = none
  mail_of req ((r, a) ∷ rest) =
      let found = mail_of req rest in if text_eq r req then some a else found

  unfoldable pub drop_mail : Text → List (Text × A) → List (Text × A)
  drop_mail req [] = []
  drop_mail req ((r, a) ∷ rest) =
      let others = drop_mail req rest in if text_eq r req then others else (r, a) ∷ others

  -- A channel is entered under the number of the request.
  unfoldable pub await_reply : Text → Waiters A → Waiters A
  await_reply req w = record w { waiting = req ∷ w.waiting }

  -- An answer goes to the channel of its request, which is taken out; one that nobody waits for is
  -- dropped.
  unfoldable pub deliver : Text → A → Waiters A → Waiters A
  unfolding contains without
  deliver req a w =
      if contains w.waiting req
      then record w { waiting = without req w.waiting; mail = (req, a) ∷ w.mail }
      else w

  -- The caller takes the answer, or gives up; either way its channel is gone.
  unfoldable pub take_reply : Text → Waiters A → Option A × Waiters A
  unfolding mail_of drop_mail without
  take_reply req w = (
    mail_of req w.mail,
    record w { waiting = without req w.waiting; mail = drop_mail req w.mail },
  )
