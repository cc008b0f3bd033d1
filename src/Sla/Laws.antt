-- ===== src/Sla/Laws.antt =====
-- The verdict on a sample.
use ipw_boce.Prelude.{
  Bool, List, Option, Text, [], arith, codes, false, none, refl, some, true, ◌&&◌, ◌∷◌, ◌≡◌,
}
use ipw_boce.Prelude.Int.{ℤ}
use ipw_boce.Sla.{
  ApiType, Body, Fields, Json, ProbeTask, detail, dns, dns_verdict, eval_dns, eval_dual_stack,
  eval_flat_body, eval_sample, eval_stack_up, every, flat_verdict, judge_link, judge_stacks, lookup,
  some_up, speed, ssl, stack_codes, stack_of, tcping, verdict,
}

judge_stacks_sound :
    (a : Bool) (us : List Bool) → (judge_stacks a us).0 && (judge_stacks a us).1 ≡ false
judge_stacks_sound a [] = refl
judge_stacks_sound a (u ∷ us) = ground arith

module _ (atoi parse_number : Text → Option ℤ) where
  judge_link_sound :
      (link : ℤ) (expect : Text)
      → (judge_link atoi parse_number link expect).0 && (judge_link atoi parse_number link expect).1
        ≡ false
  judge_link_sound link expect = ground arith

  dns_verdict_sound :
      (link : ℤ) (r e : Option Json)
      → let v = dns_verdict atoi parse_number link r e in v.0 && v.1 ≡ false
  dns_verdict_sound link r e = ground (arith, judge_link_sound link (codes "2xx"))

  flat_verdict_sound :
      (t : ProbeTask) (link : ℤ) (b : Body) (r : Option Json)
      → let v = flat_verdict atoi parse_number t link b r in v.0 && v.1 ≡ false
  flat_verdict_sound t link b r = ground (arith, judge_link_sound link t.expect_status)

  verdict_sound :
      (t : ProbeTask) (a : ApiType) (link : ℤ) (body : Option Body)
      → let v = verdict atoi parse_number t a link body in v.0 && v.1 ≡ false
  unfolding eval_dual_stack eval_dns eval_flat_body
  verdict_sound t detail link none = refl
  verdict_sound t ssl link none = refl
  verdict_sound t dns link none = judge_link_sound link (codes "2xx")
  verdict_sound t speed link none = judge_link_sound link t.expect_status
  verdict_sound t tcping link none = judge_link_sound link t.expect_status
  verdict_sound t detail link (some b) = judge_stacks_sound t.require_all_stacks _
  verdict_sound t ssl link (some b) = judge_stacks_sound t.require_all_stacks _
  verdict_sound t dns link (some b) =
      dns_verdict_sound link (lookup (codes "record") b.fields) (lookup (codes "error") b.fields)
  verdict_sound t speed link (some b) =
      flat_verdict_sound t link b (lookup (codes "is_reachable") b.fields)
  verdict_sound t tcping link (some b) =
      flat_verdict_sound t link b (lookup (codes "is_reachable") b.fields)

  stack_of-same :
      (t : ProbeTask) (a a' : Bool) (o : Option Fields) (us : List Bool)
      → stack_of atoi parse_number (record t { require_all_stacks = a }) o us
        ≡ stack_of atoi parse_number (record t { require_all_stacks = a' }) o us
  unfolding eval_stack_up stack_codes
  stack_of-same t a a' none us = refl
  stack_of-same t a a' (some o) us = refl

every-some_up :
    (us : List Bool) → (judge_stacks true us).0 ≡ true → (judge_stacks false us).0 ≡ true
unfolding every some_up
every-some_up [] h = h
every-some_up (u ∷ us) h = ground arith

-- A sample is never both up and left out of the count, whatever the task, the body and the status
-- of the link are, and however the Go library reads numbers.
pub eval_sample_sound :
    (atoi parse_number : Text → Option ℤ) (t : ProbeTask) (link : ℤ) (body : Option Body) (ms : ℤ)
    → let e = eval_sample atoi parse_number t link body ms in e.up && e.invalid ≡ false
unfolding eval_sample
eval_sample_sound atoi parse_number t link body ms =
    verdict_sound atoi parse_number t t.api_type link body

-- A body that is up where all stacks are required is up where one is enough.
pub eval_dual_stack_stricter :
    (atoi parse_number : Text → Option ℤ) (t : ProbeTask) (body : Option Body)
    → (eval_dual_stack atoi parse_number (record t { require_all_stacks = true }) body).0 ≡ true
    → (eval_dual_stack atoi parse_number (record t { require_all_stacks = false }) body).0 ≡ true
unfolding eval_dual_stack
eval_dual_stack_stricter atoi parse_number t none h = absurd (ground arith)
eval_dual_stack_stricter atoi parse_number t (some b) h =
    let v4 = lookup (codes "ipv4") b.objects in
    let v6 = lookup (codes "ipv6") b.objects in
    let same4 = stack_of-same atoi parse_number t true false v4 in
    let same6 = stack_of-same atoi parse_number t true false v6 [] in
    every-some_up _ (rw (same6, same4 _) at h)
