-- ===== src/Limits/Tests.antt =====
-- Runs of the limits on concrete data.
use ipw_boce.Limits.{bucket_of}
use ipw_boce.Limits.Laws.{count_allowed, count_allowed_bounded}
use ipw_boce.Prelude.{Text, [], arith, codes, none, refl, ◌∷◌, ◌≡◌, ◌≤◌}
use ipw_boce.Prelude.Int.{pos}

abbrev client : Text
client = codes "10.0.0.1"

none_yet : bucket_of client [] ≡ none
unfolding bucket_of
none_yet = refl

count_allowed_bounded_example : count_allowed (pos 2) client (0 ∷ 10 ∷ 20 ∷ 30 ∷ []) [] ≤ 2
count_allowed_bounded_example =
    count_allowed_bounded 1 client 0 (10 ∷ 20 ∷ 30 ∷ []) [] none_yet
      (ground arith, (ground arith, (ground arith, tt)))
