-- ===== src/Handlers/Stats.antt =====
-- internal/handlers: GetActionStats of actions.go, and GetSupernodeStats, GetSupernodeActionStats
-- and GetPaymentInfo of supernodes.go. time.Parse and the arithmetic of floats are parameters; the
-- schema version and the present time, which are the same in each reply, are left out.
pub mod States
pub mod Laws
use lumescope.Prelude.{
  ℕ, ◌+◌, String, Bool, Option, none, some, List, [], ◌∷◌, ◌==◌, string_eq, map, if◌then◌else◌,
}
use lumescope.Prelude.Int.{ℤ, pos, ltb_ℤ, wrap_int, ◌-ℤ◌}
use lumescope.Prelude.Text.{trim_space}
use lumescope.Db.Types.{Time, Float64, ActionDb, ActionTransaction, SupernodeDb}
use lumescope.Db.Stats.{
  ActionStatsFilter, ActionStatsExtended, SupernodeActionStats, MimeTypeStat,
  get_action_stats_extended, get_supernode_action_stats,
}
use lumescope.Db.Stats.Hardware.{HardwareStats, get_aggregated_hardware_stats}
use lumescope.Db.Stats.Payments.{PaymentStat, get_supernode_payment_stats}
use lumescope.Handlers.Reply.{
  Query, Checked, accepted, rejected, ◌>>=◌, require, Reply, ok, bad_request, internal_error,
}
use lumescope.Handlers.Supernodes.{supernode_id_from_path}
use lumescope.Handlers.Stats.States.{StateMap, states_map}

pub record ActionStatsResponse : Type 0 where
  pub total : ℕ
  pub states : StateMap
  pub mime_types : List MimeTypeStat

parse_type : String → Option String
parse_type s =
    let action_type = trim_space s in if action_type == "" then none else some action_type

read_bound : String → Option Time → Checked (Option Time)
read_bound message o = do t ← require message o; accepted (some t)

pub parse_bound : (String → Option Time) → String → String → Checked (Option Time)
unfolding read_bound
parse_bound parse_time message s =
    let text = trim_space s in
    if text == "" then accepted none else read_bound message (parse_time text)

unfoldable pub parse_stats_filter : (String → Option Time) → Query → Checked ActionStatsFilter
unfolding parse_type parse_bound
parse_stats_filter parse_time q = do
  from ← parse_bound parse_time "invalid 'from' parameter: must be RFC3339 format" (q "from")
  to ← parse_bound parse_time "invalid 'to' parameter: must be RFC3339 format" (q "to")
  accepted (record { action_type = parse_type (q "type"); from = from; to = to })

unfoldable pub stats_response : ActionStatsExtended → ActionStatsResponse
stats_response stats = record {
  total = stats.total;
  states = states_map [] stats.state_counts;
  mime_types = stats.mime_type_stats;
}

pub answer_stats :
    (List ℤ → Float64)
    → Bool
    → List ActionTransaction
    → List ActionDb
    → Checked ActionStatsFilter
    → Reply ActionStatsResponse
unfolding stats_response
answer_stats avg fails txs rows (rejected message) = bad_request message
answer_stats avg fails txs rows (accepted f) =
    if fails
    then internal_error "failed to fetch action stats"
    else ok (stats_response (get_action_stats_extended avg f txs rows))

unfoldable pub get_action_stats_handler :
    (String → Option Time)
    → (List ℤ → Float64)
    → Bool
    → Query
    → List ActionTransaction
    → List ActionDb
    → Reply ActionStatsResponse
unfolding answer_stats
get_action_stats_handler parse_time avg fails q txs rows =
    answer_stats avg fails txs rows (parse_stats_filter parse_time q)

pub record SupernodeStatsResponse : Type 0 where
  pub stats : HardwareStats
  pub available_storage_bytes : ℤ
  pub storage_used_percent : Float64
  pub storage_available_percent : Float64

-- `percent a b` is float64(a) / float64(b) * 100
supernode_stats_response : (ℤ → ℤ → Float64) → HardwareStats → SupernodeStatsResponse
supernode_stats_response percent stats =
    let available = wrap_int 64 (stats.total_storage_bytes -ℤ stats.used_storage_bytes) in
    let known = ltb_ℤ (pos 0) stats.total_storage_bytes in
    record {
      stats = stats;
      available_storage_bytes = available;
      storage_used_percent =
          if known then percent stats.used_storage_bytes stats.total_storage_bytes else 0;
      storage_available_percent = if known then percent available stats.total_storage_bytes else 0;
    }

answer_hardware : (ℤ → ℤ → Float64) → Option HardwareStats → Reply SupernodeStatsResponse
unfolding supernode_stats_response
answer_hardware percent none = internal_error "failed to fetch hardware stats"
answer_hardware percent (some stats) = ok (supernode_stats_response percent stats)

unfoldable pub get_supernode_stats :
    (List Float64 → Float64)
    → (ℤ → ℤ → Float64)
    → Bool
    → List SupernodeDb
    → Reply SupernodeStatsResponse
unfolding answer_hardware
get_supernode_stats sum_float percent fails rows =
    if fails
    then internal_error "failed to fetch hardware stats"
    else answer_hardware percent (get_aggregated_hardware_stats sum_float rows)

pub record SupernodeActionStatsResponse : Type 0 where
  pub total : ℕ
  pub states : StateMap
  pub supernode_address : String

pub answer_action_stats : String → Option SupernodeActionStats → Reply SupernodeActionStatsResponse
answer_action_stats address none = internal_error "failed to fetch action stats"
answer_action_stats address (some stats) = ok (record {
  total = stats.total;
  states = states_map [] stats.state_counts;
  supernode_address = address;
})

unfoldable pub get_supernode_action_stats_handler :
    (String → Option (List String → Bool))
    → Bool
    → Query
    → List ActionDb
    → Reply SupernodeActionStatsResponse
unfolding answer_action_stats
get_supernode_action_stats_handler jsonb fails q rows =
    let address = trim_space (q "address") in
    if address == ""
    then bad_request "address parameter is required"
    else if fails
    then internal_error "failed to fetch action stats"
    else answer_action_stats address
        (get_supernode_action_stats jsonb address (trim_space (q "type")) rows)

answer_stats_found : Option (List PaymentStat) → Reply (List PaymentStat)
answer_stats_found none = internal_error "failed to fetch payment stats"
answer_stats_found (some stats) = ok stats

answer_payments :
    (List String → Option String)
    → Bool
    → List ActionTransaction
    → Option String
    → Reply (List PaymentStat)
unfolding answer_stats_found
answer_payments sum_numeric fails txs none = bad_request "invalid supernode ID"
answer_payments sum_numeric fails txs (some id) =
    if fails
    then internal_error "failed to fetch payment stats"
    else answer_stats_found (get_supernode_payment_stats sum_numeric id txs)

unfoldable pub get_payment_info :
    (List String → Option String)
    → Bool
    → String
    → List ActionTransaction
    → Reply (List PaymentStat)
unfolding answer_payments
get_payment_info sum_numeric fails path txs =
    answer_payments sum_numeric fails txs (supernode_id_from_path path)
