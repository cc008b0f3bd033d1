-- ===== src/Forward/Batch/Laws.antt =====
-- What a batch probes, counts and costs.
use ipw_boce.Forward.Batch.{
  Batch, BatchAnswer, BatchError, NodeResult, after_charge, batch_of, batch_probe_core,
  batch_probe_handler, batch_summary, count_results, done, ids_of, is_ok, is_wanted, split_targets,
}
use ipw_boce.NodePool.{ApiInfo, Pools, node_pool_for_type}
use ipw_boce.Points.{balance_of}
use ipw_boce.Points.Invariant.{IsConsistent}
use ipw_boce.Points.Probe.{charge_probe_cost, refund_probe_cost}
use ipw_boce.Points.Probe.Laws.{charge_refused, refund-charge, refund_probe_cost-none}
use ipw_boce.Prelude.{
  Bool, Bool-cases, List, Option, Text, [], ap, arith, false, inl, inr, is_some, length, map, none,
  not, refl, some, subst, suc, sym, true, where_rows, ℕ, ◌+◌, ◌∙◌, ◌∷◌, ◌≡◌, ◌⊎◌,
}
use ipw_boce.Prelude.Int.{InRange, pos, ℤ}
use ipw_boce.Store.{Db, Error, PointsConfig}

counted :
    (rs : List NodeResult) (good bad : ℕ)
    → (count_results rs (good, bad)).0 + (count_results rs (good, bad)).1 ≡ good + bad + length rs
unfolding count_results
counted [] good bad = omega arith
counted (r ∷ rs) good bad = elim (Bool-cases (is_ok r)) [
  | inl good_one ↦ rw (count_results, good_one) (omega (arith, counted rs (suc good) bad))
  | inr bad_one ↦ rw (count_results, bad_one) (omega (arith, counted rs good (suc bad)))
]

length-map {ℓ κ} :
    {A : Type ℓ} {B : Type κ} (f : A → B) (xs : List A) → length (map f xs) ≡ length xs
length-map f [] = refl
length-map f (x ∷ xs) = ap suc (length-map f xs)

split_length :
    (off : ApiInfo → Bool) (ns : List ApiInfo)
    → length (where_rows (λ n. not (off n)) ns) + length (where_rows off ns) ≡ length ns
split_length off [] = refl
split_length off (n ∷ ns) = ground (arith, split_length off ns)

all_wanted : (ns : List ApiInfo) → where_rows (is_wanted []) ns ≡ ns
all_wanted [] = refl
all_wanted (n ∷ ns) = ap (λ l. n ∷ l) (all_wanted ns)

batch_of_all :
    (ask : ApiInfo → NodeResult) (off : ApiInfo → Bool) (t : Text) (pool : List ApiInfo) (b : Batch)
    → batch_of ask off t [] pool pool ≡ inr b
    → (b.results ≡ map ask (where_rows (λ n. not (off n)) pool))
      × (b.skipped ≡ ids_of (where_rows off pool))
unfolding split_targets
batch_of_all ask off t pool b h = (ground arith, ground arith)

-- A batch that asks all nodes accounts for every node of the pool: it has one result for each that
-- is not offline, in the order of the pool, and lists each other as skipped.
pub batch_probe_core_covers :
    (ask : ApiInfo → NodeResult) (off : ApiInfo → Bool) (p : Pools) (t : Text) (b : Batch)
    → batch_probe_core ask off p t [] ≡ inr b
    → let pool = node_pool_for_type t p in
      (b.results ≡ map ask (where_rows (λ n. not (off n)) pool))
      × (b.skipped ≡ ids_of (where_rows off pool))
      × (length b.results + length b.skipped ≡ length pool)
unfolding batch_probe_core
batch_probe_core_covers ask off p t b h =
    let pool = node_pool_for_type t p in
    let (results, skipped) =
      batch_of_all ask off t pool b
        (subst (λ targets. batch_of ask off t [] pool targets ≡ inr b) (all_wanted pool) h) in
    (
      results,
      skipped,
      omega (
        arith,
        ap length results,
        ap length skipped,
        length-map ask (where_rows (λ n. not (off n)) pool),
        length-map (λ (n : ApiInfo). n.id) (where_rows off pool),
        split_length off pool,
      ),
    )

-- The counts of a summary add up: every node that was asked is counted as well or as failed.
pub batch_summary_adds_up :
    (rs : List NodeResult) (persisted : ℕ)
    → let s = batch_summary rs persisted in s.ok_count + s.failed ≡ s.targeted
unfolding batch_summary
batch_summary_adds_up rs persisted = omega (arith, counted rs 0 0)

abbrev pub is_refusal : BatchAnswer → Bool
is_refusal (done s b rows) = false
is_refusal a = true

-- In consistent books, and for a probe cost that is an int64, a batch that is refused costs nothing,
-- for whatever reason: every balance is what it was.
pub batch_probe_handler_free :
    (ask : ApiInfo → NodeResult) (off : ApiInfo → Bool) (cfg : PointsConfig) (p : Pools) (u : ℕ)
    (t raw : Text) (wanted : List Text) (db : Db)
    → IsConsistent db
    → InRange cfg.probe_cost
    → let r = batch_probe_handler ask off cfg p u t raw wanted db in
      is_refusal r.0 ≡ true → (w : ℕ) → balance_of w r.1 ≡ balance_of w db
unfolding batch_probe_handler
batch_probe_handler_free ask off cfg p u t raw wanted db v d turned_away w =
    unpaid (charge_probe_cost cfg u db) (batch_probe_core ask off p t wanted)
      (refund-charge cfg u db v d w) (charge_refused cfg u db) turned_away
  where
    unpaid :
        (r : (ℤ × Option Error) × Db) (batch : BatchError ⊎ Batch)
        → balance_of w (refund_probe_cost u r.0.0 r.1) ≡ balance_of w db
        → (is_some r.0.1 ≡ true → r.0.0 ≡ pos 0)
        → is_refusal (after_charge u t raw batch r).0 ≡ true
        → balance_of w (after_charge u t raw batch r).1 ≡ balance_of w db
    unpaid ((cost, some e), db') batch back free bad =
        ap (balance_of w)
          (sym (ap (λ c. refund_probe_cost u c db') (free refl) ∙ refund_probe_cost-none u db'))
        ∙ back
    unpaid ((cost, none), db') (inl e) back free bad = back
    unpaid ((cost, none), db') (inr b) back free bad = absurd (ground arith)
