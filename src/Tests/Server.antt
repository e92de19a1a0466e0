-- ===== src/Tests/Server.antt =====
-- The router, the configuration and the conditional replies on concrete inputs.
use lumescope.Prelude.{
  ℕ, ◌/◌, ◌*◌, ◌%◌, ◌≤◌, ◌≢◌, String, ◌≡◌, refl, Bool, true, false, Option, none, some, List, [],
  ◌∷◌, ◌==◌, string_eq, nat_eq, arith, All, if◌then◌else◌,
}
use lumescope.Prelude.Int.{ℤ}
use lumescope.Strconv.{max_uint64}
use lumescope.Server.Router.{
  Endpoint, route_request, not_found, get_payment_info, moved_permanently, json_not_found,
  method_not_allowed,
}
use lumescope.Server.Router.Laws.{only_get_reads, sync_guarded, IsActionRequest, get_action_reached}
use lumescope.Server.Cors.{Headers, header, lists, origin_header, IsGranted}
use lumescope.Server.Stack.{
  Request, replied, recovered, Handler, ServerConfig, routed, new_router, new_router_lem,
}
use lumescope.Config.{Environment, load}
use lumescope.Config.Laws.{IsOrigin, IsInt32, load_lem}
use lumescope.HttpJson.{Formats, write_json}
use lumescope.HttpJson.Laws.{no_conditions, etag_in, repeating, etag_replay, last_modified_replay}

abbrev get : String
get = "GET"

abbrev post : String
post = "POST"

abbrev sync_path : String
sync_path = "/v1/supernodes/sync"

only_get_reads_example : (get == "GET") ≡ true
unfolding route_request lumescope.Server.Mux.dispatch lumescope.Server.Router.patterns
    lumescope.Server.Router.serve
only_get_reads_example = only_get_reads false "GET" "/v1/supernodes/metrics" refl

sync_guarded_example :
    (true ≡ true) × ((post == "POST") ≡ true) × ((sync_path == "/v1/supernodes/sync") ≡ true)
unfolding route_request lumescope.Server.Mux.dispatch lumescope.Server.Router.patterns
    lumescope.Server.Router.serve
sync_guarded_example = sync_guarded true "POST" "/v1/supernodes/sync" refl

get_action_reached_example : IsActionRequest false "GET" "/v1/actions/7"
unfolding route_request lumescope.Server.Mux.dispatch lumescope.Server.Router.patterns
    lumescope.Server.Router.serve
get_action_reached_example = get_action_reached false "GET" "/v1/actions/7" refl

-- a list with a slash behind it is not found, and the word paymentInfo is taken for an account
router_tests :
    (route_request false "GET" "/v1/actions/" ≡ not_found)
    × (route_request false "GET" "/v1/supernodes/paymentInfo" ≡ get_payment_info)
    × (route_request false "GET" "/v1/supernodes" ≡ moved_permanently "/v1/supernodes/")
    × (route_request false "GET" "//docs" ≡ moved_permanently "/docs")
    × (route_request false "POST" "/v1/supernodes/sync" ≡ method_not_allowed "GET, OPTIONS")
    × (route_request false "GET" "/v2" ≡ json_not_found)
unfolding route_request lumescope.Server.Mux.dispatch lumescope.Server.Router.patterns
    lumescope.Server.Router.serve
router_tests = (refl, refl, refl, refl, refl, refl)

abbrev server_config : ServerConfig
server_config = record { allow_origins = "https://a.example" ∷ []; enable_sync_endpoint = false }

abbrev quiet : Endpoint → Handler
quiet endpoint r hs = replied 200 hs

abbrev request : Request
request = record { method = "GET"; path = "/docs"; origin = "https://a.example" }

new_router_lem_example :
    (granted : Headers) × (hs : Headers) × (new_router server_config "now" quiet request [] ≡ (
      if request.method == "OPTIONS"
      then replied 204 granted
      else recovered (routed server_config quiet request hs)))
    × IsGranted server_config.allow_origins request.origin (header origin_header granted)
    × (header origin_header hs ≡ header origin_header granted)
    × (header "Cache-Control" hs ≡ some "public, max-age=30")
    × (header "Server" hs ≡ some "LumeScope/preview")
    × (header "Date" hs ≡ some "now")
new_router_lem_example = new_router_lem server_config "now" quiet request refl

abbrev environment : Environment
environment name = if name == "CORS_ALLOW_ORIGINS" then " a , ,b" else ""

abbrev no_durations : String → Option ℤ
no_durations text = none

load_lem_example :
    All IsOrigin (load no_durations environment).allow_origins
    × (◌≢◌ {A = List String} (load no_durations environment).allow_origins [])
    × (lists (load no_durations environment).allow_origins "" ≡ false)
    × IsInt32 (load no_durations environment).db_max_conns
    × ((load no_durations environment).action_enricher_start_id ≤ max_uint64)
load_lem_example = load_lem no_durations environment

config_test : (load no_durations environment).allow_origins ≡ "a" ∷ "b" ∷ []
unfolding load lumescope.Config.split_and_clean lumescope.Config.getenv
    lumescope.Prelude.Text.trim_space
config_test = refl

abbrev formats : Formats
formats = record {
  digest = λ body. "00";
  format_time = λ t. "Thu";
  parse_time = λ s. some 2000000000;
}

abbrev as_text : ℕ → Option String
as_text n = some "{}"

etag_replay_example :
    (let first = write_json as_text formats no_conditions 200 7 (some 5) [] in
      let reply = write_json as_text formats (repeating first "") 200 8 none [] in
      (reply.status ≡ 304) × (reply.body ≡ none) × (etag_in reply ≡ etag_in first))
etag_replay_example = etag_replay formats as_text 200 200 7 8 "{}" (some 5) none "" refl refl

last_modified_replay_example :
    write_json as_text formats
      (record { if_none_match = ""; if_modified_since = "Thu" })
      200
      7
      (some 2000000003)
      []
    ≡ (let first = write_json as_text formats no_conditions 200 7 (some 2000000003) [] in
        if 2000000003 % 1000000000 == 0 then record first { status = 304; body = none } else first)
last_modified_replay_example =
    last_modified_replay formats as_text 200 7 "{}" 2000000003 refl refl refl
