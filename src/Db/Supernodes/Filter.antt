-- ===== src/Db/Supernodes/Filter.antt =====
-- internal/db/db.go: the WHERE conditions on supernodes, with SQL's NULL.
use lumescope.Prelude.{
  ℕ, zero, suc, String, Bool, true, ◌&&◌, not, Option, none, some, List, ◌==◌, string_eq, filter,
  if◌then◌else◌,
}
use lumescope.Prelude.Int.{ℤ, pos, negsuc, leb_ℤ}
use lumescope.Db.Types.{SupernodeDb, MetricsReport, aggregate, probed}
use lumescope.Db.Sql.{Condition, holds, or_null, is_not_true, coalesce, null_if_empty}
use lumescope.Db.Keyset.{KeyOrder, order_by, is_after, page}

pub record SupernodeMetricsFilter : Type 0 where
  pub current_state : String
  pub chain_state : Option String
  pub status : String
  pub version : Option String
  pub min_failed : ℤ
  pub limit : ℤ
  pub cursor_account : Option String

-- "metricsReport"->'ports'->>'port1' and ...->>'p2p': NULL if there is no report, or no such key
abbrev pub port1_flag : Option MetricsReport → Option Bool
port1_flag none = none
port1_flag (some (aggregate j)) = none
port1_flag (some (probed ports status)) = some ports.port1

abbrev pub p2p_flag : Option MetricsReport → Option Bool
p2p_flag none = none
p2p_flag (some (aggregate j)) = none
p2p_flag (some (probed ports status)) = some ports.p2p

abbrev pub stopped : String
stopped = "SUPERNODE_STATE_STOPPED"

-- the three conditions of "available"
unfoldable pub is_available : SupernodeDb → Bool
is_available row =
    row.is_status_api_available
    && (holds (port1_flag row.metrics_report) && holds (p2p_flag row.metrics_report))

-- the condition of "unavailable"
unfoldable pub is_unavailable : SupernodeDb → Bool
is_unavailable row = holds (
    or_null
      (or_null (some (not row.is_status_api_available))
        (is_not_true (port1_flag row.metrics_report)))
      (is_not_true (p2p_flag row.metrics_report)))

in_current_state : String → SupernodeDb → Bool
in_current_state mode row =
    if mode == "running"
    then not (row.current_state == stopped)
    else if mode == "stopped"
    then row.current_state == stopped
    else true

in_chain_state : Option String → SupernodeDb → Bool
in_chain_state none row = true
in_chain_state (some s) row = row.current_state == s

has_status : String → SupernodeDb → Bool
unfolding is_available is_unavailable
has_status status row =
    if status == "available"
    then is_available row
    else if status == "unavailable"
    then is_unavailable row
    else true

abbrev equals : Option String → String → Condition
equals none v = none
equals (some s) v = some (s == v)

-- COALESCE(NULLIF("lastKnownActualVersion", ''), NULLIF("actualVersion", ''))
abbrev known : Option String → Option String
known none = none
known (some s) = null_if_empty s

unfoldable pub shown_version : SupernodeDb → Option String
shown_version row =
    coalesce (known row.last_known_actual_version) (null_if_empty row.actual_version)

has_version : Option String → SupernodeDb → Bool
unfolding shown_version
has_version none row = true
has_version (some v) row = holds (equals (shown_version row) v)

-- the conditions other than the cursor's
unfoldable pub matches : SupernodeMetricsFilter → SupernodeDb → Bool
unfolding in_current_state in_chain_state has_status has_version
matches f row =
    in_current_state f.current_state row
    && (in_chain_state f.chain_state row
        && (has_status f.status row
            && (has_version f.version row && leb_ℤ f.min_failed (pos row.failed_probe_counter))))

abbrev pub row_limit : ℤ → ℕ
row_limit (negsuc n) = 1
row_limit (pos zero) = 1
row_limit (pos (suc n)) = suc n

abbrev pub account_key : SupernodeDb → String
account_key row = row.supernode_account

-- `collation` is the order of texts in the database
unfoldable pub list_supernode_metrics_filtered :
    KeyOrder String → SupernodeMetricsFilter → List SupernodeDb → List SupernodeDb × Bool
list_supernode_metrics_filtered collation f rows = page (row_limit f.limit) (
    order_by collation account_key
      (filter (λ row. matches f row && is_after collation account_key f.cursor_account row) rows))

-- ListUnavailableSupernodes
unfoldable pub list_unavailable_supernodes : String → List SupernodeDb → List SupernodeDb
list_unavailable_supernodes mode rows =
    filter
      (λ row.
        not row.is_status_api_available
        && (if mode == "stopped"
            then row.current_state == stopped
            else if mode == "any"
            then true
            else not (row.current_state == stopped)))
      rows
