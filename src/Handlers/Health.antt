-- ===== src/Handlers/Health.antt =====
-- internal/handlers/health.go: Healthz and Readyz, which look at nothing but the time.
use lumescope.Prelude.{String, some}
use lumescope.Server.Cors.{Headers, set_header}
use lumescope.HttpJson.{Response}

abbrev uncached : Headers → Headers
uncached hs =
    set_header "Pragma" "no-cache"
      (set_header "Cache-Control" "no-store, no-cache, must-revalidate" hs)

unfoldable pub healthz : Headers → Response
healthz hs = record {
  status = 200;
  headers = uncached (set_header "Content-Type" "text/plain; charset=utf-8" hs);
  body = some "ok";
}

unfoldable pub readyz : String → Headers → Response
readyz now hs = record {
  status = 200;
  headers =
      set_header "Last-Modified" now (uncached (set_header "Content-Type" "application/json" hs));
  body = some "{\"status\":\"ready\"}";
}
