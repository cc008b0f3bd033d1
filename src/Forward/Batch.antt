-- ===== src/Forward/Batch.antt =====
-- The probe of many nodes at once (forward.go): batchProbeCore, its summary, the rows that are kept,
-- and the handler that charges for it. Each concurrent probe writes its own place of the results,
-- so the results are those of one function of the node.
pub mod Laws
use ipw_boce.Forward.{is_probe_type}
use ipw_boce.NodePool.{ApiInfo, Pools, find_node, node_pool_for_type}
use ipw_boce.Points.Probe.{charge_probe_cost, refund_probe_cost}
use ipw_boce.Prelude.{
  Bool, List, Option, Text, [], contains, false, if◌then◌else◌, inl, inr, is_empty, is_some, leb,
  length, ltb, map, none, not, some, sort_texts, suc, true, truncate_str, where_rows, ℕ, ◌&&◌, ◌||◌,
  ◌∷◌, ◌⊎◌,
}
use ipw_boce.Prelude.Int.{ℤ}
use ipw_boce.Presence.{Watch, failed, is_online, node_snapshot}
use ipw_boce.Store.{Db, Error, PointsConfig}
use ipw_boce.Ws.{Hub, node_connected}

-- The answer of a node to one probe.
pub record NodeResult : Type 0 where
  pub node_id : Text
  pub label : Text
  pub status : ℕ
  pub latency_ms : ℕ
  pub body : Text
  pub error : Text

pub data BatchError : Type 0 where
  no_nodes : Text → BatchError
  no_match all_offline : List Text → BatchError

abbrev pub ids_of : List ApiInfo → List Text
ids_of ns = map (λ (n : ApiInfo). n.id) ns

-- offlineNodeSet: a node on the WebSocket server is asked for its connection, where there is a
-- server, and any other for its row.
unfoldable pub is_offline : Option Hub → Watch → ApiInfo → Bool
unfolding node_connected
is_offline none w n = is_some (node_snapshot n.id w) && not (is_online n.id w)
is_offline (some h) w n =
    if n.ws
    then not (node_connected n.id h)
    else is_some (node_snapshot n.id w) && not (is_online n.id w)

abbrev pub is_nil : List Text → Bool
is_nil [] = true
is_nil (x ∷ xs) = false

abbrev pub is_wanted : List Text → ApiInfo → Bool
is_wanted wanted n = is_nil wanted || contains wanted n.id

-- The keys of the map `selected`, in some order.
unfoldable pub distinct : List Text → List Text
unfolding contains
distinct [] = []
distinct (x ∷ xs) = let rest = distinct xs in if contains xs x then rest else x ∷ rest

-- The wanted identifiers that the pool does not have.
unfoldable pub unknown_ids : List ApiInfo → List Text → List Text
unfolding distinct find_node
unknown_ids pool wanted = where_rows (λ id. not (is_some (find_node pool id))) (distinct wanted)

-- The nodes to ask, and those left out because they are offline.
unfoldable pub split_targets :
    (ApiInfo → Bool) → List Text → List ApiInfo → List ApiInfo × List ApiInfo
split_targets off wanted targets =
    if is_nil wanted
    then (where_rows (λ n. not (off n)) targets, where_rows off targets)
    else (targets, [])

abbrev pub no_infos : List ApiInfo → Bool
no_infos [] = true
no_infos (n ∷ ns) = false

pub record Batch : Type 0 where
  pub results : List NodeResult
  pub unknown : List Text
  pub skipped : List Text

-- The probes of the nodes that were picked from the pool.
abbrev pub batch_of :
    (ApiInfo → NodeResult)
    → (ApiInfo → Bool)
    → Text
    → List Text
    → List ApiInfo
    → List ApiInfo
    → BatchError ⊎ Batch
batch_of ask off t wanted pool targets =
    let (asked, left_out) = split_targets off wanted targets in
    if no_infos pool
    then inl (no_nodes t)
    else if no_infos targets
    then inl (no_match (sort_texts (ids_of pool)))
    else if no_infos asked
    then inl (all_offline (ids_of left_out))
    else inr (record {
      results = map ask asked;
      unknown = unknown_ids pool wanted;
      skipped = ids_of left_out;
    })

-- batchProbeCore
unfoldable pub batch_probe_core :
    (ApiInfo → NodeResult) → (ApiInfo → Bool) → Pools → Text → List Text → BatchError ⊎ Batch
unfolding node_pool_for_type split_targets unknown_ids
batch_probe_core ask off p t wanted =
    let pool = node_pool_for_type t p in
    batch_of ask off t wanted pool (where_rows (is_wanted wanted) pool)

abbrev pub is_ok : NodeResult → Bool
is_ok r = leb 200 r.status && ltb r.status 300

-- The counts of batchSummary.
pub record Summary : Type 0 where
  pub targeted : ℕ
  pub ok_count : ℕ
  pub failed : ℕ
  pub persisted : ℕ

abbrev pub count_result : NodeResult → ℕ × ℕ → ℕ × ℕ
count_result r (good, bad) = if is_ok r then (suc good, bad) else (good, suc bad)

unfoldable pub count_results : List NodeResult → ℕ × ℕ → ℕ × ℕ
count_results [] counts = counts
count_results (r ∷ rs) counts = count_results rs (count_result r counts)

-- batchSummary
unfoldable pub batch_summary : List NodeResult → ℕ → Summary
unfolding count_results
batch_summary rs persisted =
    let (good, bad) = count_results rs (0, 0) in
    record { targeted = length rs; ok_count = good; failed = bad; persisted = persisted }

-- The row that is kept of a probe.
pub record ProbeRow : Type 0 where
  pub node_id : Text
  pub api_type : Text
  pub raw : Text
  pub status : ℕ
  pub latency_ms : ℕ
  pub error : Text
  pub body : Text
  pub owner_id : ℕ

abbrev pub row_of : Text → Text → ℕ → NodeResult → ProbeRow
row_of t raw owner r = record {
  node_id = r.node_id;
  api_type = t;
  raw = truncate_str raw 512;
  status = r.status;
  latency_ms = r.latency_ms;
  error = if is_empty r.error then [] else truncate_str r.error 512;
  body = if is_empty r.error then truncate_str r.body 65_536 else [];
  owner_id = owner;
}

-- persistManualProbes: the rows, of which the number is returned.
unfoldable pub persist_manual_probes : Text → Text → List NodeResult → ℕ → List ProbeRow
unfolding is_probe_type
persist_manual_probes t raw rs owner =
    if not (is_probe_type t) then [] else map (row_of t raw owner) rs

pub data BatchAnswer : Type 0 where
  payment_required : Error → BatchAnswer
  bad_request : BatchError → BatchAnswer
  done : Summary → Batch → List ProbeRow → BatchAnswer

abbrev pub finish_batch : ℕ → ℤ → Text → Text → BatchError ⊎ Batch → Db → BatchAnswer × Db
finish_batch u cost t raw (inl e) db = (bad_request e, refund_probe_cost u cost db)
finish_batch u cost t raw (inr b) db =
    let rows = persist_manual_probes t raw b.results u in
    (done (batch_summary b.results (length rows)) b rows, db)

abbrev pub after_charge :
    ℕ → Text → Text → BatchError ⊎ Batch → (ℤ × Option Error) × Db → BatchAnswer × Db
after_charge u t raw batch ((cost, some e), db) = (payment_required e, db)
after_charge u t raw batch ((cost, none), db) = finish_batch u cost t raw batch db

-- batchProbeHandler, for a request that names a type and an address
unfoldable pub batch_probe_handler :
    (ApiInfo → NodeResult)
    → (ApiInfo → Bool)
    → PointsConfig
    → Pools
    → ℕ
    → Text
    → Text
    → List Text
    → Db
    → BatchAnswer × Db
unfolding batch_probe_core
batch_probe_handler ask off cfg p u t raw wanted db =
    after_charge u t raw (batch_probe_core ask off p t wanted) (charge_probe_cost cfg u db)
