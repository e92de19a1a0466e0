-- ===== src/Server/Router/Laws.antt =====
-- Which requests reach which handlers.
use lumescope.Prelude.{
  String, ◌≡◌, refl, sym, ap, ◌∙◌, Bool, true, false, ◌||◌, ◌&&◌, not, none, some, ◌==◌, string_eq,
  Option-cases, if◌then◌else◌, arith, Bool-cases, inl, inr, ◌⊎◌, if-has, eq_iff, subst,
}
use lumescope.Prelude.Text.{strip_prefix?, has_suffix, contains_char}
use lumescope.Handlers.Actions.{action_id_from_path}
use lumescope.Handlers.Actions.Detail.{id_of_rest_lem}
use lumescope.Server.Mux.{Dispatch, handled, moved, unmatched, dispatch, matches}
use lumescope.Server.Mux.Laws.{dispatch-IsHandled, IsHandled}
use lumescope.Server.Router.Table.{pattern_of, is_sync, IsRegistered, patterns-IsRegistered}
use lumescope.Server.Router.{
  Route, Endpoint, patterns, get_only, action_endpoint, supernode_endpoint, id_of, serve,
  endpoint_of, route_request, metrics, openapi, docs, list_actions, get_action_stats, get_action,
  trigger_supernode_sync, list_supernodes_metrics, get_supernode_stats, get_supernode_action_stats,
  get_supernode_metrics, get_payment_info, list_unavailable_supernodes, version_matrix, not_found,
  method_not_allowed, moved_permanently, healthz_route, readyz_route, metrics_route, actions_route,
  action_stats_route, action_route, sync_route, supernodes_metrics_route, supernode_stats_route,
  supernode_action_stats_route, supernode_route, unavailable_route, version_route, openapi_route,
  docs_route, fallback_route,
}

abbrev pub reads_database : Endpoint → Bool
reads_database e = elim e [
  | list_actions ↦ true
  | get_action_stats ↦ true
  | get_action ↦ true
  | list_supernodes_metrics ↦ true
  | get_supernode_stats ↦ true
  | get_supernode_action_stats ↦ true
  | get_supernode_metrics ↦ true
  | get_payment_info ↦ true
  | list_unavailable_supernodes ↦ true
  | version_matrix ↦ true
  | _ ↦ false
]

abbrev pub is_trigger : Endpoint → Bool
is_trigger e = elim e [ trigger_supernode_sync ↦ true | _ ↦ false ]

abbrev pub is_action : Endpoint → Bool
is_action e = elim e [ get_action ↦ true | _ ↦ false ]

module _ (enabled : Bool) (method path : String) (Q : Endpoint → Type 0) where
  reached :
      ((to : String) → Q (moved_permanently to))
      → Q not_found
      → ((r : Route)
          → matches path (pattern_of r) ≡ true
          → (is_sync r && not enabled) ≡ false
          → Q (serve r method path))
      → (d : Dispatch Route) → IsHandled (IsRegistered enabled) method path d
      → Q (endpoint_of method path d)
  unfolding endpoint_of
  reached hm hn h unmatched k = hn
  reached hm hn h (moved to) k = hm to
  reached hm hn h (handled r) k = h r (subst (λ p. matches path p ≡ true) k.1.0 k.2) k.1.1

  -- what holds of the replies of the mux, and of each route whose pattern matches, holds of a request
  route_has :
      ((to : String) → Q (moved_permanently to))
      → Q not_found
      → ((r : Route)
          → matches path (pattern_of r) ≡ true
          → (is_sync r && not enabled) ≡ false
          → Q (serve r method path))
      → Q (route_request enabled method path)
  unfolding route_request
  route_has hm hn h = reached hm hn h (dispatch (patterns enabled) method path) (
      dispatch-IsHandled (IsRegistered enabled) method path (patterns enabled)
        (patterns-IsRegistered enabled))

get_only-has :
    (Q : Endpoint → Type 0) (method : String) (e : Endpoint)
    → ((method == "GET") ≡ true → Q e)
    → Q (method_not_allowed "GET, OPTIONS")
    → Q (get_only method e)
get_only-has Q method e h k = if-has Q (method == "GET") e _ h (λ _. k)

abbrev GetOnly : String → Endpoint → Type 0
GetOnly method e = reads_database e ≡ true → (method == "GET") ≡ true

none_read : {A : Type 0} → false ≡ true → A
none_read h = absurd (ground (arith, h))

only_get : (method : String) (e : Endpoint) → GetOnly method (get_only method e)
only_get method e = get_only-has (GetOnly method) method e (λ g _. g) none_read

serve-GetOnly : (r : Route) (method path : String) → GetOnly method (serve r method path)
unfolding serve
serve-GetOnly healthz_route method path = none_read
serve-GetOnly readyz_route method path = none_read
serve-GetOnly metrics_route method path = only_get method metrics
serve-GetOnly actions_route method path =
    if-has (GetOnly method) (not (path == "/v1/actions") && not (path == "/v1/actions/")) not_found
      _ (λ _. none_read) (λ _. only_get method list_actions)
serve-GetOnly action_stats_route method path = only_get method get_action_stats
serve-GetOnly action_route method path = only_get method (action_endpoint (id_of path))
serve-GetOnly sync_route method path =
    if-has (GetOnly method) (method == "POST") trigger_supernode_sync _ (λ _. none_read)
      (λ _. none_read)
serve-GetOnly supernodes_metrics_route method path = only_get method list_supernodes_metrics
serve-GetOnly supernode_stats_route method path = only_get method get_supernode_stats
serve-GetOnly supernode_action_stats_route method path = only_get method get_supernode_action_stats
serve-GetOnly supernode_route method path = only_get method (supernode_endpoint path)
serve-GetOnly unavailable_route method path = only_get method list_unavailable_supernodes
serve-GetOnly version_route method path = only_get method version_matrix
serve-GetOnly openapi_route method path = only_get method openapi
serve-GetOnly docs_route method path = only_get method docs
serve-GetOnly fallback_route method path = none_read

-- A handler that reads the database is only reached by a GET request.
pub only_get_reads :
    (enabled : Bool) (method path : String)
    → reads_database (route_request enabled method path) ≡ true
    → (method == "GET") ≡ true
only_get_reads enabled method path =
    route_has enabled method path (GetOnly method) (λ to. none_read) none_read
      (λ r _ _. serve-GetOnly r method path)

-- an action's path has an id where its handler is reached
id_named :
    (id : String)
    → is_action (action_endpoint id) ≡ true
    → (id == "" || contains_char b'/' id) ≡ false
id_named id h = elim (Bool-cases (id == "" || contains_char b'/' id)) [
  | inl e ↦ none_read (rw e at h)
  | inr e ↦ e
]

not_prefix :
    (path : String) → strip_prefix? "/v1/actions/" path ≡ none → (path == "/v1/actions/") ≡ false
not_prefix path e = elim (Bool-cases (path == "/v1/actions/")) [
  | inl y ↦
      let found : some "" ≡ none =
        ap (strip_prefix? "/v1/actions/") (sym ((eq_iff path "/v1/actions/").0 y)) ∙ e in
      ground (arith, found)
  | inr n ↦ n
]

id_found :
    (path : String)
    → matches path "/v1/actions/" ≡ true
    → ((strip_prefix? "/v1/actions/" path ≡ none)
        ⊎ ((s : String) × (strip_prefix? "/v1/actions/" path ≡ some s)))
    → is_action (action_endpoint (id_of path)) ≡ true
    → (id : String) × (action_id_from_path path ≡ some id)
id_found path m (inl e) h = none_read (sym (rw (e, not_prefix path e)) ∙ m)
id_found path m (inr (s, e)) h = (s, id_of_rest_lem path s e (id_named s (rw e at h)))

-- what follows where a request reaches one of the handlers of a test
abbrev Reaching : (Endpoint → Bool) → Type 0 → Endpoint → Type 0
Reaching test R e = test e ≡ true → R

none_reached :
    (test : Endpoint → Bool) (R : Type 0) (e : Endpoint) → test e ≡ false → Reaching test R e
none_reached test R e h k = none_read (sym h ∙ k)

none_got :
    (test : Endpoint → Bool) (R : Type 0) (method : String) (e : Endpoint)
    → test e ≡ false
    → test (method_not_allowed "GET, OPTIONS") ≡ false
    → Reaching test R (get_only method e)
none_got test R method e h k =
    get_only-has (Reaching test R) method e (λ _. none_reached test R e h)
      (none_reached test R (method_not_allowed "GET, OPTIONS") k)

module _ (test : Endpoint → Bool) (path : String) (not_there : test not_found ≡ false) where
  supernode_other :
      test get_supernode_metrics ≡ false
      → test get_payment_info ≡ false
      → test (supernode_endpoint path) ≡ false
  supernode_other m p =
      if-has (λ e. test e ≡ false) (has_suffix "/metrics" path) get_supernode_metrics _ (λ _. m)
        (λ _.
          if-has (λ e. test e ≡ false) (has_suffix "/paymentInfo" path) get_payment_info not_found
            (λ _. p) (λ _. not_there))

  action_other : test get_action ≡ false → test (action_endpoint (id_of path)) ≡ false
  action_other h =
      if-has (λ e. test e ≡ false) (id_of path == "" || contains_char b'/' (id_of path)) not_found
        get_action (λ _. not_there) (λ _. h)

-- the function of "/v1/actions"
abbrev list_endpoint : String → String → Endpoint
list_endpoint method path =
    if not (path == "/v1/actions") && not (path == "/v1/actions/")
    then not_found
    else get_only method list_actions

list_other :
    (test : Endpoint → Bool) (R : Type 0) (method path : String)
    → test not_found ≡ false
    → test list_actions ≡ false
    → test (method_not_allowed "GET, OPTIONS") ≡ false
    → Reaching test R (list_endpoint method path)
list_other test R method path n h k =
    if-has (Reaching test R) (not (path == "/v1/actions") && not (path == "/v1/actions/")) not_found
      (get_only method list_actions) (λ _. none_reached test R not_found n)
      (λ _. none_got test R method list_actions h k)

module _ (enabled : Bool) (method path : String) where
  abbrev IsSync : Type 0
  IsSync = (enabled ≡ true) × ((method == "POST") ≡ true) × ((path == "/v1/supernodes/sync") ≡ true)

  no_trigger :
      (e : Endpoint) → is_trigger e ≡ false → Reaching is_trigger IsSync (get_only method e)
  no_trigger e h = none_got is_trigger IsSync method e h refl

  serve-IsTrigger :
      (r : Route)
      → matches path (pattern_of r) ≡ true
      → (is_sync r && not enabled) ≡ false
      → Reaching is_trigger IsSync (serve r method path)
  unfolding serve
  serve-IsTrigger healthz_route m g = none_read
  serve-IsTrigger readyz_route m g = none_read
  serve-IsTrigger metrics_route m g = no_trigger metrics refl
  serve-IsTrigger actions_route m g = list_other is_trigger IsSync method path refl refl refl
  serve-IsTrigger action_stats_route m g = no_trigger get_action_stats refl
  serve-IsTrigger action_route m g =
      no_trigger (action_endpoint (id_of path)) (action_other is_trigger path refl refl)
  serve-IsTrigger sync_route m g =
      if-has (Reaching is_trigger IsSync) (method == "POST") trigger_supernode_sync _
        (λ e _. (ground arith, e, ground arith)) (λ _. none_read)
  serve-IsTrigger supernodes_metrics_route m g = no_trigger list_supernodes_metrics refl
  serve-IsTrigger supernode_stats_route m g = no_trigger get_supernode_stats refl
  serve-IsTrigger supernode_action_stats_route m g = no_trigger get_supernode_action_stats refl
  serve-IsTrigger supernode_route m g =
      no_trigger (supernode_endpoint path) (supernode_other is_trigger path refl refl refl)
  serve-IsTrigger unavailable_route m g = no_trigger list_unavailable_supernodes refl
  serve-IsTrigger version_route m g = no_trigger version_matrix refl
  serve-IsTrigger openapi_route m g = no_trigger openapi refl
  serve-IsTrigger docs_route m g = no_trigger docs refl
  serve-IsTrigger fallback_route m g = none_read

  -- The manual sync is only triggered if its endpoint is enabled, and only by a POST request of exactly
  -- its path.
  pub sync_guarded :
      is_trigger (route_request enabled method path) ≡ true
      → (enabled ≡ true) × ((method == "POST") ≡ true) × ((path == "/v1/supernodes/sync") ≡ true)
  sync_guarded =
      route_has enabled method path (Reaching is_trigger IsSync) (λ to. none_read) none_read
        serve-IsTrigger

  -- a GET request for an action, whose handler finds an id in the path
  abbrev pub IsActionRequest : Type 0
  IsActionRequest =
      ((method == "GET") ≡ true) × ((id : String) × (action_id_from_path path ≡ some id))

  no_action :
      (e : Endpoint) → is_action e ≡ false → Reaching is_action IsActionRequest (get_only method e)
  no_action e h = none_got is_action IsActionRequest method e h refl

  action_reached :
      matches path (pattern_of action_route) ≡ true
      → Reaching is_action IsActionRequest (get_only method (action_endpoint (id_of path)))
  action_reached m =
      get_only-has (Reaching is_action IsActionRequest) method (action_endpoint (id_of path))
        (λ get reached_it.
          (get, id_found path m (Option-cases (strip_prefix? "/v1/actions/" path)) reached_it))
        none_read

  serve-IsAction :
      (r : Route)
      → matches path (pattern_of r) ≡ true
      → (is_sync r && not enabled) ≡ false
      → Reaching is_action IsActionRequest (serve r method path)
  unfolding serve
  serve-IsAction healthz_route m g = none_read
  serve-IsAction readyz_route m g = none_read
  serve-IsAction metrics_route m g = no_action metrics refl
  serve-IsAction actions_route m g = list_other is_action IsActionRequest method path refl refl refl
  serve-IsAction action_stats_route m g = no_action get_action_stats refl
  serve-IsAction action_route m g = action_reached m
  serve-IsAction sync_route m g =
      if-has (Reaching is_action IsActionRequest) (method == "POST") trigger_supernode_sync _
        (λ _. none_read) (λ _. none_read)
  serve-IsAction supernodes_metrics_route m g = no_action list_supernodes_metrics refl
  serve-IsAction supernode_stats_route m g = no_action get_supernode_stats refl
  serve-IsAction supernode_action_stats_route m g = no_action get_supernode_action_stats refl
  serve-IsAction supernode_route m g =
      no_action (supernode_endpoint path) (supernode_other is_action path refl refl refl)
  serve-IsAction unavailable_route m g = no_action list_unavailable_supernodes refl
  serve-IsAction version_route m g = no_action version_matrix refl
  serve-IsAction openapi_route m g = no_action openapi refl
  serve-IsAction docs_route m g = no_action docs refl
  serve-IsAction fallback_route m g = none_read

  -- The handler of an action is only reached by a GET request, and then finds an id in the path.
  pub get_action_reached : is_action (route_request enabled method path) ≡ true → IsActionRequest
  get_action_reached =
      route_has enabled method path (Reaching is_action IsActionRequest) (λ to. none_read) none_read
        serve-IsAction
