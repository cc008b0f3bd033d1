-- ===== src/Sla.antt =====
-- The judgement of samples and their totals (sla_eval.go): statusIsExpected, evalSample and what
-- it calls, slaSugar's totals, stepForWindow, roundAgg and the merging of rounds. A body is the
-- JSON value that encoding/json has made of it, or none; the values are those that the code looks
-- at. A JSON number is its integer part, and a text that is read as a number is a parameter.
mod Tests
pub mod Laws
pub mod Rounds
use ipw_boce.Prelude.{
  Bool, List, Option, Text, [], codes, false, if◌then◌else◌, is_empty, ltb, none, some,
  split_commas, text_eq, trim_parts, true, ℕ, ◌&&◌, ◌||◌, ◌∷◌,
}
use ipw_boce.Prelude.Int.{leb_ℤ, ltb_ℤ, pos, ℤ}
use ipw_boce.Uptime.{up}

pub data Json : Type 0 where
  number : ℤ → Json
  text : Text → Json
  truth : Bool → Json
  nothing : Json
  items : ℕ → Json

-- An object whose values are no objects, as an association list.
abbrev pub Fields : Type 0
Fields = List (Text × Json)

-- The body: its plain fields, and its object fields.
pub record Body : Type 0 where
  pub fields : Fields
  pub objects : List (Text × Fields)

pub data ApiType : Type 0 where
  detail ssl dns speed tcping : ApiType

pub record ProbeTask : Type 0 where
  pub api_type : ApiType
  pub expect_status : Text
  pub slow_ms : ℤ
  pub require_all_stacks : Bool
  pub both_protocols : Bool
  pub cert_expired_down : Bool

pub record SampleEval : Type 0 where
  pub up : Bool
  pub invalid : Bool
  pub slow : Bool

unfoldable pub lookup {ℓ} : {A : Type ℓ} → Text → List (Text × A) → Option A
lookup k [] = none
lookup k ((j, v) ∷ rest) = let found = lookup k rest in if text_eq j k then some v else found

unfoldable pub every : List Bool → Bool
every [] = true
every (u ∷ us) = u && every us

unfoldable pub some_up : List Bool → Bool
some_up [] = false
some_up (u ∷ us) = u || some_up us

-- The verdict on the stacks that answered: up, and not to be counted.
abbrev pub judge_stacks : Bool → List Bool → Bool × Bool
judge_stacks require_all [] = (false, true)
judge_stacks require_all (u ∷ us) =
    ((if require_all then every (u ∷ us) else some_up (u ∷ us)), false)

-- What the Go library reads: strconv.Atoi, and the integer part of strconv.ParseFloat.
module _ (atoi parse_number : Text → Option ℤ) where
  abbrev reads : ℤ → Text → Bool
  reads code t = elim (atoi t) [ none ↦ false | some n ↦ leb_ℤ n code && leb_ℤ code n ]

  unfoldable pub lists_code : ℤ → List Text → Bool
  lists_code code [] = false
  lists_code code (t ∷ ts) = let rest = lists_code code ts in reads code t || rest

  -- statusIsExpected
  unfoldable pub status_is_expected : ℤ → Text → Bool
  status_is_expected code expect =
      if is_empty expect || text_eq expect (codes "2xx")
      then leb_ℤ (pos 200) code && ltb_ℤ code (pos 300)
      else lists_code code (trim_parts (split_commas expect []))

  -- numOf
  unfoldable pub num_of : Fields → Text → Option ℤ
  num_of o key = elim (lookup key o) [
    | some (number n) ↦ some n
    | some (text t) ↦ parse_number t
    | _ ↦ none
  ]

  abbrev is_true : Option Json → Bool
  is_true (some (truth true)) = true
  is_true v = false

  abbrev add_code : Option ℤ → List ℤ → List ℤ
  add_code none cs = cs
  add_code (some c) cs = c ∷ cs

  abbrev is_detail : ApiType → Bool
  is_detail detail = true
  is_detail t = false

  -- The status codes that evalStackUp collects.
  unfoldable pub stack_codes : ProbeTask → Fields → List ℤ
  stack_codes t o =
      add_code (num_of o (codes "https_status_code"))
        (if is_detail t.api_type then add_code (num_of o (codes "http_status_code")) [] else [])

  unfoldable pub all_expected : Text → List ℤ → Bool
  all_expected expect [] = true
  all_expected expect (c ∷ cs) =
      let rest = all_expected expect cs in status_is_expected c expect && rest

  unfoldable pub any_expected : Text → List ℤ → Bool
  any_expected expect [] = false
  any_expected expect (c ∷ cs) =
      let rest = any_expected expect cs in status_is_expected c expect || rest

  abbrev pub judge_codes : ProbeTask → List ℤ → Bool
  judge_codes t [] = false
  judge_codes t (c ∷ cs) =
      if t.both_protocols
      then all_expected t.expect_status (c ∷ cs)
      else any_expected t.expect_status (c ∷ cs)

  -- evalStackUp
  unfoldable pub eval_stack_up : ProbeTask → Fields → Bool
  eval_stack_up t o =
      if t.cert_expired_down && is_true (lookup (codes "is_expired") o)
      then false
      else judge_codes t (stack_codes t o)

  abbrev pub stack_of : ProbeTask → Option Fields → List Bool → List Bool
  stack_of t none ups = ups
  stack_of t (some o) ups = eval_stack_up t o ∷ ups

  -- evalDualStack
  unfoldable pub eval_dual_stack : ProbeTask → Option Body → Bool × Bool
  eval_dual_stack t none = (false, true)
  eval_dual_stack t (some b) = judge_stacks t.require_all_stacks (
      stack_of t (lookup (codes "ipv4") b.objects)
        (stack_of t (lookup (codes "ipv6") b.objects) []))

  -- The link's status, where the body says nothing.
  abbrev pub judge_link : ℤ → Text → Bool × Bool
  judge_link link expect =
      if (leb_ℤ link (pos 0) && leb_ℤ (pos 0) link)
      then (false, true)
      else (status_is_expected link expect, false)

  -- What evalDNS sees in the body.
  abbrev pub dns_verdict : ℤ → Option Json → Option Json → Bool × Bool
  dns_verdict link (some (items n)) e = (ltb 0 n, false)
  dns_verdict link r (some (text t)) = (false, false)
  dns_verdict link r e = judge_link link (codes "2xx")

  -- evalDNS
  unfoldable pub eval_dns : Option Body → ℤ → Bool × Bool
  eval_dns none link = judge_link link (codes "2xx")
  eval_dns (some b) link =
      dns_verdict link (lookup (codes "record") b.fields) (lookup (codes "error") b.fields)

  abbrev pub positive : Option ℤ → Bool
  positive none = false
  positive (some n) = ltb_ℤ (pos 0) n

  abbrev pub reached : ProbeTask → Option ℤ → Bool
  reached t none = true
  reached t (some c) = if ltb_ℤ (pos 0) c then status_is_expected c t.expect_status else true

  abbrev pub tcp_verdict : ProbeTask → ℤ → Option Fields → Bool × Bool
  tcp_verdict t link (some o) = (positive (num_of o (codes "success")), false)
  tcp_verdict t link none = judge_link link t.expect_status

  abbrev pub flat_verdict : ProbeTask → ℤ → Body → Option Json → Bool × Bool
  flat_verdict t link b (some (truth false)) = (false, false)
  flat_verdict t link b (some (truth true)) =
      (reached t (num_of b.fields (codes "http_status_code")), false)
  flat_verdict t link b v = tcp_verdict t link (lookup (codes "ipv4") b.objects)

  -- evalFlatBody
  unfoldable pub eval_flat_body : ProbeTask → Option Body → ℤ → Bool × Bool
  eval_flat_body t none link = judge_link link t.expect_status
  eval_flat_body t (some b) link = flat_verdict t link b (lookup (codes "is_reachable") b.fields)

  abbrev pub verdict : ProbeTask → ApiType → ℤ → Option Body → Bool × Bool
  verdict t detail link body = eval_dual_stack t body
  verdict t ssl link body = eval_dual_stack t body
  verdict t dns link body = eval_dns body link
  verdict t speed link body = eval_flat_body t body link
  verdict t tcping link body = eval_flat_body t body link

  -- evalSample
  unfoldable pub eval_sample : ProbeTask → ℤ → Option Body → ℤ → SampleEval
  eval_sample t link body ms =
      let (u, i) = verdict t t.api_type link body in
      record { up = u; invalid = i; slow = ltb_ℤ (pos 0) t.slow_ms && ltb_ℤ t.slow_ms ms }
