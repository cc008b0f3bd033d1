-- ===== src/Forward.antt =====
-- The forwarding of probes (forward.go): the address of a request, the choice between the channels,
-- and the probe of many nodes at once, with what it costs and what is kept of it. What a node
-- answers is a parameter: a function of the node, since each of the concurrent probes writes its
-- own place of the results. Times of day and the JSON of the answers are left out.
pub mod Tests
pub mod Batch
use ipw_boce.Donate.{has_prefix}
use ipw_boce.NodePool.{ApiInfo, Pools, find_node, lookup_api_key, node_pool_for_type}
use ipw_boce.Prelude.{
  Bool, List, Option, Text, [], codes, contains, drop, if◌then◌else◌, inl, inr, is_empty, length,
  none, not, some, text_eq, where_rows, ℕ, ◌&&◌, ◌++◌, ◌==◌, ◌||◌, ◌∷◌, ◌⊎◌,
}

abbrev pub path_mark : Text
path_mark = codes "{path}"

abbrev pub prepend : ℕ → Option Text → Option Text
prepend c none = none
prepend c (some t) = some (c ∷ t)

-- strings.Replace with one occurrence, which strings.Contains has found or not.
unfoldable pub replace_once : Text → Text → Text → Option Text
unfolding has_prefix
replace_once old new [] = none
replace_once old new (c ∷ s) =
    let rest = prepend c (replace_once old new s) in
    if has_prefix (c ∷ s) old then some (new ++ drop (length old) (c ∷ s)) else rest

-- strings.TrimSuffix with a slash
unfoldable pub trim_slash : Text → Text
trim_slash [] = []
trim_slash (c ∷ s) = let rest = trim_slash s in if is_empty s && c == b'/' then [] else c ∷ rest

abbrev pub plain_target : Text → Text → Text → Text
plain_target url t raw = trim_slash url ++ codes "/v1/" ++ t ++ (b'/' ∷ raw)

-- nodeTarget
unfoldable pub node_target : Text → Text → Text → Text
unfolding replace_once trim_slash
node_target url t raw = elim (replace_once path_mark (t ++ (b'/' ∷ raw)) url) [
  | some relayed ↦ relayed
  | none ↦ plain_target url t raw
]

-- isProbeType
unfoldable pub is_probe_type : Text → Bool
is_probe_type t =
    text_eq t (codes "tcping")
    || text_eq t (codes "speed")
    || text_eq t (codes "detail")
    || text_eq t (codes "ssl")
    || text_eq t (codes "dns")
    || text_eq t (codes "location")

-- strings.Split at slashes
unfoldable pub split_slashes : Text → Text → List Text
split_slashes [] part = part ∷ []
split_slashes (c ∷ s) part =
    let ended = split_slashes s [] in
    let going = split_slashes s (part ++ (c ∷ [])) in if c == b'/' then part ∷ ended else going

unfoldable pub join_slashes : List Text → Text
join_slashes [] = []
join_slashes (t ∷ []) = t
join_slashes (t ∷ u ∷ us) = t ++ (b'/' ∷ join_slashes (u ∷ us))

-- What a request asks for.
pub record Slug : Type 0 where
  pub backend : Text
  pub api_type : Text
  pub raw : Text

pub data Refusal : Type 0 where
  missing_slug invalid_slug missing_parameters invalid_type invalid_backend ws_disabled : Refusal

abbrev pub filled_slug : Text → Text → Text → Refusal ⊎ Slug
filled_slug b t raw =
    if is_empty b || is_empty t || is_empty raw
    then inl missing_parameters
    else inr (record { backend = b; api_type = t; raw = raw })

abbrev pub is_scheme : Text → Bool
is_scheme p = text_eq p (codes "https:") || text_eq p (codes "http:")

-- An address with its scheme was split into more than four parts, and is put together again.
unfoldable pub read_parts : List Text → Refusal ⊎ Slug
unfolding join_slashes
read_parts (b ∷ t ∷ p ∷ q ∷ r ∷ rest) =
    if not (is_scheme p)
    then inl invalid_slug
    else filled_slug b t
        (p ++ codes "//" ++ join_slashes (where_rows (λ x. not (is_empty x)) (q ∷ r ∷ rest)))
read_parts (b ∷ t ∷ p ∷ rest) = filled_slug b t (join_slashes (p ∷ rest))
read_parts parts = inl invalid_slug

abbrev pub without_slash : Text → Text
without_slash [] = []
without_slash (c ∷ s) = if c == b'/' then s else c ∷ s

-- The reading of the slug in middlewareHandler.
unfoldable pub read_slug : Text → Refusal ⊎ Slug
unfolding read_parts split_slashes
read_slug path =
    if is_empty (without_slash path)
    then inl missing_slug
    else read_parts (split_slashes (without_slash path) [])

abbrev pub plain_type : Text → Bool
plain_type t =
    contains
      (codes "whois"
        ∷ codes "dns"
        ∷ codes "location"
        ∷ codes "ssl"
        ∷ codes "asn"
        ∷ codes "dnssec"
        ∷ codes "detail"
        ∷ [])
      t

abbrev pub query_type : Text → Bool
query_type t = text_eq t (codes "tcping") || text_eq t (codes "speed")

-- A query, as the first value of each key; empty ones are dropped.
abbrev pub Query : Type 0
Query = List (Text × Text)

unfoldable pub given_values : Query → Query
given_values q = where_rows (λ (e : Text × Text). not (is_empty e.1)) q

-- Where middlewareHandler sends a request.
pub data Route : Type 0 where
  refuse : Refusal → Route
  over_ws : Text → Text → Text → Query → Route
  over_http : Text → Query → Text → Route

abbrev pub route_to : Bool → Pools → Query → Slug → Option ApiInfo → Route
route_to has_ws p q s none = refuse invalid_backend
route_to has_ws p q s (some n) =
    if not n.ws && is_empty n.url
    then refuse invalid_backend
    else if n.ws
    then if has_ws then over_ws s.backend s.api_type s.raw q else refuse ws_disabled
    else over_http (node_target n.url s.api_type s.raw) q (lookup_api_key p s.backend)

abbrev pub route_slug : Bool → Pools → Query → Slug → Route
route_slug has_ws p q s =
    let node = find_node (node_pool_for_type s.api_type p) s.backend in
    if plain_type s.api_type
    then route_to has_ws p [] s node
    else if query_type s.api_type
    then route_to has_ws p (given_values q) s node
    else refuse invalid_type

-- middlewareHandler, up to the request to the node
unfoldable pub middleware_route : Bool → Pools → Query → Text → Route
unfolding read_slug find_node node_pool_for_type lookup_api_key node_target given_values contains
middleware_route has_ws p q path = elim (read_slug path) [
  | inl why ↦ refuse why
  | inr s ↦ route_slug has_ws p q s
]
