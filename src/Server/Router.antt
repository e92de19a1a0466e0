-- ===== src/Server/Router.antt =====
-- internal/server/router.go: the patterns of NewRouter and what their functions do before they call
-- a handler. The texts of /metrics, /docs and the JSON of the fallback are left out.
pub mod Table
pub mod Laws
use Prim.Native.String as Text
use lumescope.Prelude.{
  ℕ, String, Bool, ◌||◌, ◌&&◌, not, Option, none, some, List, [], ◌∷◌, ◌++◌, ◌==◌, string_eq,
  if◌then◌else◌,
}
use lumescope.Prelude.Text.{strip_prefix?, has_suffix, contains_char}
use lumescope.Server.Mux.{Dispatch, handled, moved, unmatched, dispatch}

-- the function of a pattern
pub data Route : Type 0 where
  healthz_route readyz_route metrics_route actions_route action_stats_route action_route : Route
  sync_route supernodes_metrics_route supernode_stats_route supernode_action_stats_route : Route
  supernode_route unavailable_route version_route openapi_route docs_route fallback_route : Route

-- the handlers, and the replies that the router itself writes
pub data Endpoint : Type 0 where
  healthz readyz metrics openapi docs : Endpoint
  list_actions get_action_stats get_action : Endpoint
  trigger_supernode_sync : Endpoint
  list_supernodes_metrics get_supernode_stats get_supernode_action_stats : Endpoint
  get_supernode_metrics get_payment_info list_unavailable_supernodes version_matrix : Endpoint
  -- http.NotFound, and the fallback's JSON
  not_found json_not_found : Endpoint
  -- with the header Allow
  method_not_allowed : String → Endpoint
  -- a redirect of the mux
  moved_permanently : String → Endpoint

sync_pattern : Bool → List (String × Route)
sync_pattern enabled = if enabled then ("/v1/supernodes/sync", sync_route) ∷ [] else []

unfoldable pub patterns : Bool → List (String × Route)
unfolding sync_pattern
patterns enable_sync_endpoint =
    ("/healthz", healthz_route)
    ∷ ("/readyz", readyz_route)
    ∷ ("/metrics", metrics_route)
    ∷ ("/v1/actions", actions_route)
    ∷ ("/v1/actions/stats", action_stats_route)
    ∷ ("/v1/actions/", action_route)
    ∷ (sync_pattern enable_sync_endpoint
        ++ ("/v1/supernodes/metrics", supernodes_metrics_route)
          ∷ ("/v1/supernodes/stats", supernode_stats_route)
          ∷ ("/v1/supernodes/action-stats", supernode_action_stats_route)
          ∷ ("/v1/supernodes/", supernode_route)
          ∷ ("/v1/supernodes/unavailable", unavailable_route)
          ∷ ("/v1/version/matrix", version_route)
          ∷ ("/openapi.json", openapi_route)
          ∷ ("/docs", docs_route)
          ∷ ("/", fallback_route)
          ∷ [])

abbrev pub get_only : String → Endpoint → Endpoint
get_only method endpoint = if method == "GET" then endpoint else method_not_allowed "GET, OPTIONS"

abbrev pub trim_prefix : Option String → String → String
trim_prefix none path = path
trim_prefix (some rest) path = rest

-- strings.TrimPrefix
abbrev pub id_of : String → String
id_of path = trim_prefix (strip_prefix? "/v1/actions/" path) path

abbrev pub action_endpoint : String → Endpoint
action_endpoint id = if id == "" || contains_char b'/' id then not_found else get_action

abbrev pub supernode_endpoint : String → Endpoint
supernode_endpoint path =
    if has_suffix "/metrics" path
    then get_supernode_metrics
    else if has_suffix "/paymentInfo" path
    then get_payment_info
    else not_found

unfoldable pub serve : Route → String → String → Endpoint
serve healthz_route method path = healthz
serve readyz_route method path = readyz
serve metrics_route method path = get_only method metrics
serve actions_route method path =
    if not (path == "/v1/actions") && not (path == "/v1/actions/")
    then not_found
    else get_only method list_actions
serve action_stats_route method path = get_only method get_action_stats
serve action_route method path = get_only method (action_endpoint (id_of path))
serve sync_route method path =
    if method == "POST" then trigger_supernode_sync else method_not_allowed "POST, OPTIONS"
serve supernodes_metrics_route method path = get_only method list_supernodes_metrics
serve supernode_stats_route method path = get_only method get_supernode_stats
serve supernode_action_stats_route method path = get_only method get_supernode_action_stats
serve supernode_route method path = get_only method (supernode_endpoint path)
serve unavailable_route method path = get_only method list_unavailable_supernodes
serve version_route method path = get_only method version_matrix
serve openapi_route method path = get_only method openapi
serve docs_route method path = get_only method docs
serve fallback_route method path = json_not_found

pub endpoint_of : String → String → Dispatch Route → Endpoint
unfolding serve
endpoint_of method path (handled r) = serve r method path
endpoint_of method path (moved to) = moved_permanently to
endpoint_of method path unmatched = not_found

unfoldable pub route_request : Bool → String → String → Endpoint
unfolding endpoint_of patterns
route_request enable_sync_endpoint method path =
    endpoint_of method path (dispatch (patterns enable_sync_endpoint) method path)
