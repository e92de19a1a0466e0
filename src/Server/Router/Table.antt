-- ===== src/Server/Router/Table.antt =====
-- The routes against the patterns that they are registered under.
use lumescope.Prelude.{String, ◌≡◌, refl, Bool, true, false, ◌&&◌, not, string_eq, All}
use lumescope.Server.Router.{
  Route, patterns, healthz_route, readyz_route, metrics_route, actions_route, action_stats_route,
  action_route, sync_route, supernodes_metrics_route, supernode_stats_route,
  supernode_action_stats_route, supernode_route, unavailable_route, version_route, openapi_route,
  docs_route, fallback_route,
}

abbrev pub pattern_of : Route → String
pattern_of healthz_route = "/healthz"
pattern_of readyz_route = "/readyz"
pattern_of metrics_route = "/metrics"
pattern_of actions_route = "/v1/actions"
pattern_of action_stats_route = "/v1/actions/stats"
pattern_of action_route = "/v1/actions/"
pattern_of sync_route = "/v1/supernodes/sync"
pattern_of supernodes_metrics_route = "/v1/supernodes/metrics"
pattern_of supernode_stats_route = "/v1/supernodes/stats"
pattern_of supernode_action_stats_route = "/v1/supernodes/action-stats"
pattern_of supernode_route = "/v1/supernodes/"
pattern_of unavailable_route = "/v1/supernodes/unavailable"
pattern_of version_route = "/v1/version/matrix"
pattern_of openapi_route = "/openapi.json"
pattern_of docs_route = "/docs"
pattern_of fallback_route = "/"

abbrev pub is_sync : Route → Bool
is_sync r = elim r [ sync_route ↦ true | _ ↦ false ]

-- a route is registered under its pattern, and that of the sync only if it is enabled
abbrev pub IsRegistered : Bool → String × Route → Type 0
IsRegistered enabled entry =
    (entry.0 ≡ pattern_of entry.1) × ((is_sync entry.1 && not enabled) ≡ false)

pub patterns-IsRegistered : (enabled : Bool) → All (IsRegistered enabled) (patterns enabled)
unfolding patterns
patterns-IsRegistered true = (
  (refl, refl),
  (
    (refl, refl),
    (
      (refl, refl),
      (
        (refl, refl),
        (
          (refl, refl),
          (
            (refl, refl),
            (
              (refl, refl),
              (
                (refl, refl),
                (
                  (refl, refl),
                  (
                    (refl, refl),
                    (
                      (refl, refl),
                      (
                        (refl, refl),
                        ((refl, refl), ((refl, refl), ((refl, refl), ((refl, refl), tt)))),
                      ),
                    ),
                  ),
                ),
              ),
            ),
          ),
        ),
      ),
    ),
  ),
)
patterns-IsRegistered false = (
  (refl, refl),
  (
    (refl, refl),
    (
      (refl, refl),
      (
        (refl, refl),
        (
          (refl, refl),
          (
            (refl, refl),
            (
              (refl, refl),
              (
                (refl, refl),
                (
                  (refl, refl),
                  (
                    (refl, refl),
                    (
                      (refl, refl),
                      ((refl, refl), ((refl, refl), ((refl, refl), ((refl, refl), tt)))),
                    ),
                  ),
                ),
              ),
            ),
          ),
        ),
      ),
    ),
  ),
)
