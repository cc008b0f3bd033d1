-- ===== src/Forward/Tests.antt =====
-- Runs of the forwarding on concrete data.
use ipw_boce.Forward.{middleware_route, node_target, over_http}
use ipw_boce.Forward.Batch.{Batch, NodeResult, batch_probe_core, batch_probe_handler}
use ipw_boce.Forward.Batch.Laws.{batch_probe_handler_free, is_refusal}
use ipw_boce.NodePool.{ApiInfo, Pools, stack_dual}
use ipw_boce.NodePool.Tests.{no_pools}
use ipw_boce.Points.{balance_of}
use ipw_boce.Points.Probe.{charge_probe_cost, user_by_id}
use ipw_boce.Points.Tests.{funded, funded-IsConsistent, rules}
use ipw_boce.Prelude.{Bool, [], arith, codes, false, inr, refl, text_eq, true, ◌∷◌, ◌≡◌}

abbrev lab : ApiInfo
lab = record {
  label = codes "Lab";
  id = codes "lab";
  url = codes "http://lab/";
  ws = false;
  stack = stack_dual;
}

abbrev far : ApiInfo
far = record { label = []; id = codes "far"; url = []; ws = true; stack = stack_dual }

abbrev two_nodes : Pools
two_nodes = record no_pools { api_pool = lab ∷ far ∷ [] }

abbrev answer_of : ApiInfo → NodeResult
answer_of n = record {
  node_id = n.id;
  label = n.label;
  status = 200;
  latency_ms = 3;
  body = codes "{}";
  error = [];
}

abbrev far_is_off : ApiInfo → Bool
far_is_off n = text_eq n.id (codes "far")

relayed :
    node_target (codes "https://a/{path}?x") (codes "dns") (codes "a/b.c")
    ≡ codes "https://a/dns/a/b.c?x"
unfolding node_target
relayed = refl

routed :
    middleware_route false two_nodes [] (codes "/lab/ssl/https://b.c/d")
    ≡ over_http (codes "http://lab/v1/ssl/https://b.c/d") [] []
unfolding middleware_route
routed = refl

abbrev one_result : Batch
one_result = record { results = answer_of lab ∷ []; unknown = []; skipped = codes "far" ∷ [] }

batch_runs : batch_probe_core answer_of far_is_off two_nodes (codes "dns") [] ≡ inr one_result
unfolding batch_probe_core
batch_runs = refl

nothing_matches :
    is_refusal
      (batch_probe_handler answer_of far_is_off rules two_nodes 7
        (codes "asn")
        (codes "a.b")
        []
        funded).0
    ≡ true
unfolding batch_probe_handler charge_probe_cost user_by_id
nothing_matches = refl

batch_probe_handler_free_example :
    balance_of 7
      (batch_probe_handler answer_of far_is_off rules two_nodes 7
        (codes "asn")
        (codes "a.b")
        []
        funded).1
    ≡ balance_of 7 funded
batch_probe_handler_free_example =
    batch_probe_handler_free answer_of far_is_off rules two_nodes 7 (codes "asn") (codes "a.b") []
      funded funded-IsConsistent (ground arith) nothing_matches 7
