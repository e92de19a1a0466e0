-- ===== src/Server/Stack.antt =====
-- internal/server/router.go: the functions around the mux, in the order of NewRouter. The handlers
-- are a parameter, and so is the present time; the limit of http.TimeoutHandler is left out.
use lumescope.Prelude.{
  ℕ, String, ◌≡◌, refl, ap, ◌∙◌, Bool, false, some, List, [], if-has, ◌==◌, string_eq,
  if◌then◌else◌,
}
use lumescope.Server.Router.{Endpoint, route_request}
use lumescope.Server.Cors.{
  Headers, set_header, header, header-set_header, cors_headers, lists, origin_header, IsGranted,
  cors_headers_lem,
}

pub record Request : Type 0 where
  pub method : String
  pub path : String
  pub origin : String

-- the status and the headers of a reply, or a panic with the headers that were set before it
pub data Result : Type 0 where
  replied : ℕ → Headers → Result
  panicked : Headers → Result

abbrev pub Handler : Type 0
Handler = Request → Headers → Result

with_server_header : Handler → Handler
with_server_header next r hs = next r (set_header "Server" "LumeScope/preview" hs)

with_default_cache_control : Handler → Handler
with_default_cache_control next r hs = next r (set_header "Cache-Control" "public, max-age=30" hs)

with_date_header : String → Handler → Handler
with_date_header now next r hs = next r (set_header "Date" now hs)

with_cors : List String → Handler → Handler
with_cors allow_origins next r hs =
    let granted = cors_headers allow_origins r.origin hs in
    if r.method == "OPTIONS" then replied 204 granted else next r granted

-- http.Error
abbrev error_headers : Headers → Headers
error_headers hs =
    set_header "X-Content-Type-Options" "nosniff"
      (set_header "Content-Type" "text/plain; charset=utf-8" hs)

pub recovered : Result → Result
recovered (replied status hs) = replied status hs
recovered (panicked hs) = replied 500 (error_headers hs)

with_recover : Handler → Handler
unfolding recovered
with_recover next r hs = recovered (next r hs)

pub record ServerConfig : Type 0 where
  pub allow_origins : List String
  pub enable_sync_endpoint : Bool

abbrev pub routed : ServerConfig → (Endpoint → Handler) → Handler
routed cfg handlers r hs = handlers (route_request cfg.enable_sync_endpoint r.method r.path) r hs

unfoldable pub new_router : ServerConfig → String → (Endpoint → Handler) → Handler
unfolding with_recover with_cors with_date_header with_default_cache_control with_server_header
new_router cfg now handlers = with_recover (
    with_cors cfg.allow_origins (
      with_date_header now (with_default_cache_control (with_server_header (routed cfg handlers)))))

-- the headers that a handler starts with
abbrev server_line : String
server_line = "LumeScope/preview"

abbrev with_date : String → Headers → Headers
with_date now hs = set_header "Date" now hs

abbrev with_cache : String → Headers → Headers
with_cache now hs = set_header "Cache-Control" "public, max-age=30" (with_date now hs)

abbrev default_headers : String → Headers → Headers
default_headers now hs = set_header "Server" server_line (with_cache now hs)

header-default :
    (name now : String) (hs : Headers)
    → header name (default_headers now hs) ≡ (
        if "Server" == name
        then some server_line
        else if "Cache-Control" == name
        then some "public, max-age=30"
        else if "Date" == name
        then some now
        else header name hs)
header-default name now hs =
    header-set_header name "Server" server_line (with_cache now hs)
    ∙ ap (λ o. if "Server" == name then some server_line else o)
        (header-set_header name "Cache-Control" "public, max-age=30" (with_date now hs)
          ∙ ap (λ o. if "Cache-Control" == name then some "public, max-age=30" else o)
              (header-set_header name "Date" now hs))

-- An OPTIONS request is answered with status 204, whatever the handlers do; any other request by the
-- handler that it is routed to, or with status 500 if that panics. If no empty origin is configured,
-- the header for the origin, in the reply to OPTIONS and in those that the handler starts with, is
-- set exactly if the wildcard or the request's origin is configured, and then to one of the two that
-- is; the handler also starts with the default headers for caching, server and date.
pub new_router_lem :
    (cfg : ServerConfig) (now : String) (handlers : Endpoint → Handler) (r : Request)
    → lists cfg.allow_origins "" ≡ false
    → (granted : Headers) × (hs : Headers) × (new_router cfg now handlers r [] ≡ (
        if r.method == "OPTIONS"
        then replied 204 granted
        else recovered (routed cfg handlers r hs)))
      × IsGranted cfg.allow_origins r.origin (header origin_header granted)
      × (header origin_header hs ≡ header origin_header granted)
      × (header "Cache-Control" hs ≡ some "public, max-age=30")
      × (header "Server" hs ≡ some "LumeScope/preview")
      × (header "Date" hs ≡ some now)
unfolding new_router
new_router_lem cfg now handlers r no_empty =
    let granted = cors_headers cfg.allow_origins r.origin [] in
    (
      granted,
      default_headers now granted,
      if-has
          (λ result. recovered result ≡ (
            if r.method == "OPTIONS"
            then replied 204 granted
            else recovered (routed cfg handlers r (default_headers now granted))))
          (r.method == "OPTIONS") _ _ (λ e. rw e) (λ e. rw e),
      cors_headers_lem cfg.allow_origins r.origin [] no_empty refl,
      header-default origin_header now granted,
      header-default "Cache-Control" now granted,
      header-default "Server" now granted,
      header-default "Date" now granted,
    )
