-- ===== src/Handlers/Supernodes.antt =====
-- internal/handlers/supernodes.go: ListSupernodesMetrics, GetSupernodeMetrics,
-- ListUnavailableSupernodes and TriggerSupernodeSync. A node's reply is the row itself: the handler
-- copies its fields, and leaves out the ones that the API does not show. encoding/base64 and
-- encoding/json are parameters, as is a failure of the database.
pub mod Laws
use lumescope.Prelude.{
  ℕ, String, Bool, ◌||◌, Option, none, some, List, [], ◌∷◌, ◌==◌, string_eq, any, last?, ltb,
  if◌then◌else◌,
}
use lumescope.Prelude.Int.{ℤ, pos, ltb_ℤ}
use lumescope.Prelude.Text.{trim_space, strip_prefix?, before}
use lumescope.Strconv.{parse_int, ok?}
use lumescope.Db.Types.{Time, SupernodeDb}
use lumescope.Db.Sql.{coalesce}
use lumescope.Db.Keyset.{KeyOrder}
use lumescope.Db.Supernodes.{get_supernode_by_id}
use lumescope.Db.Supernodes.Filter.{
  SupernodeMetricsFilter, list_supernode_metrics_filtered, list_unavailable_supernodes,
}
use lumescope.Background.Trigger.{Runner, trigger_sync_and_probe}
use lumescope.Handlers.Reply.{
  Query, Checked, accepted, rejected, ◌>>=◌, require, Reply, ok, bad_request, not_found,
  internal_error,
}

pub record Codec : Type 0 where
  pub decode_base64 : String → Option String
  pub encode_base64 : String → String
  -- the field account of the payload
  pub unmarshal_account : String → Option String
  pub marshal_account : String → String

abbrev pub valid_chain_states : List String
valid_chain_states =
    "SUPERNODE_STATE_UNSPECIFIED" ∷ "SUPERNODE_STATE_ACTIVE" ∷ "SUPERNODE_STATE_DISABLED"
    ∷ "SUPERNODE_STATE_STOPPED" ∷ "SUPERNODE_STATE_PENALIZED" ∷ []

unfoldable pub parse_chain_state : String → Checked (Option String)
parse_chain_state s =
    if s == ""
    then accepted none
    else if any (λ v. s == v) valid_chain_states
    then accepted (some s)
    else rejected
        "invalid currentState parameter: must be one of 'SUPERNODE_STATE_UNSPECIFIED', 'SUPERNODE_STATE_ACTIVE', 'SUPERNODE_STATE_DISABLED', 'SUPERNODE_STATE_STOPPED', 'SUPERNODE_STATE_PENALIZED'"

abbrev pub statuses : List String
statuses = "available" ∷ "unavailable" ∷ "any" ∷ []

unfoldable pub parse_status : String → Checked String
parse_status s =
    if s == ""
    then accepted "any"
    else if any (λ v. s == v) statuses
    then accepted s
    else rejected "invalid status parameter: must be 'available', 'unavailable', or 'any'"

pub parse_version : String → Option String
parse_version s = let version = trim_space s in if version == "" then none else some version

abbrev pub min_failed_message : String
min_failed_message = "invalid minFailedProbeCounter parameter: must be a non-negative integer"

pub in_range : String → String → ℤ → ℤ → Option ℤ → Checked ℤ
in_range unread outside low high none = rejected unread
in_range unread outside low high (some n) =
    if ltb_ℤ n low || ltb_ℤ high n then rejected outside else accepted n

pub at_least : String → ℤ → Option ℤ → Checked ℤ
at_least message low none = rejected message
at_least message low (some n) = if ltb_ℤ n low then rejected message else accepted n

unfoldable pub parse_min_failed : String → Checked ℤ
unfolding at_least
parse_min_failed s =
    if s == "" then accepted (pos 0) else at_least min_failed_message (pos 0) (ok? (parse_int s))

unfoldable pub parse_limit : String → Checked ℤ
unfolding in_range
parse_limit s =
    if s == ""
    then accepted (pos 100)
    else in_range "invalid limit parameter: must be an integer between 1 and 200"
        "invalid limit parameter: must be between 1 and 200" (pos 1) (pos 200) (ok? (parse_int s))

named : Option String → Option String
named none = none
named (some account) = if account == "" then none else some account

read_cursor : Codec → String → Checked (Option String)
unfolding named
read_cursor codec s = do
  bytes ← require "invalid cursor parameter: must be base64 encoded JSON" (codec.decode_base64 s)
  account ←
      require "invalid cursor parameter: must be base64 encoded JSON with account"
        (named (codec.unmarshal_account bytes))
  accepted (some account)

pub parse_cursor : Codec → String → Checked (Option String)
unfolding read_cursor
parse_cursor codec s = if s == "" then accepted none else read_cursor codec s

-- the checks in the source's order: the first refusal is the reply
pub filter_from :
    Option String
    → Checked (Option String)
    → Checked String
    → Checked ℤ
    → Checked ℤ
    → Checked (Option String)
    → Checked SupernodeMetricsFilter
filter_from version parsed_state parsed_status parsed_min_failed parsed_limit parsed_cursor = do
  chain_state ← parsed_state
  status ← parsed_status
  min_failed ← parsed_min_failed
  limit ← parsed_limit
  cursor ← parsed_cursor
  accepted (record {
    current_state = "any";
    chain_state = chain_state;
    status = status;
    version = version;
    min_failed = min_failed;
    limit = limit;
    cursor_account = cursor;
  })

unfoldable pub parse_filter : Codec → Query → Checked SupernodeMetricsFilter
unfolding filter_from parse_version parse_cursor
parse_filter codec q =
    filter_from (parse_version (q "version")) (parse_chain_state (q "currentState"))
      (parse_status (q "status")) (parse_min_failed (q "minFailedProbeCounter"))
      (parse_limit (q "limit")) (parse_cursor codec (q "cursor"))

-- the time that Last-Modified gives: the latest check of a node on the page
abbrev pub checked_at : SupernodeDb → Option Time
checked_at row = coalesce row.last_status_check row.last_successful_probe

abbrev pub later : Option Time → Option Time → Option Time
later best none = best
later none (some t) = some t
later (some best) (some t) = if ltb best t then some t else some best

unfoldable pub max_timestamp : Option Time → List SupernodeDb → Option Time
max_timestamp best [] = best
max_timestamp best (row ∷ rows) = max_timestamp (later best (checked_at row)) rows

pub record SupernodesList : Type 0 where
  pub nodes : List SupernodeDb
  pub next_cursor : String
  -- `none`: the present time
  pub last_modified : Option Time

next_cursor_of : Codec → Bool → Option SupernodeDb → String
next_cursor_of codec Bool.false o = ""
next_cursor_of codec Bool.true none = ""
next_cursor_of codec Bool.true (some last) =
    codec.encode_base64 (codec.marshal_account last.supernode_account)

list_page : Codec → KeyOrder String → SupernodeMetricsFilter → List SupernodeDb → SupernodesList
unfolding next_cursor_of
list_page codec collation f rows =
    let (nodes, has_more) = list_supernode_metrics_filtered collation f rows in
    record {
      nodes = nodes;
      next_cursor = next_cursor_of codec has_more (last? nodes);
      last_modified = max_timestamp none nodes;
    }

answer_list :
    Codec
    → KeyOrder String
    → Bool
    → List SupernodeDb
    → Checked SupernodeMetricsFilter
    → Reply SupernodesList
unfolding list_page
answer_list codec collation fails rows (rejected message) = bad_request message
answer_list codec collation fails rows (accepted f) =
    if fails
    then internal_error "failed to fetch supernode metrics"
    else ok (list_page codec collation f rows)

unfoldable pub list_supernodes_metrics :
    Codec → KeyOrder String → Bool → Query → List SupernodeDb → Reply SupernodesList
unfolding answer_list
list_supernodes_metrics codec collation fails q rows =
    answer_list codec collation fails rows (parse_filter codec q)

-- supernodeIDFromPath, with `none` for ""
id_of_rest : Option String → Option String
id_of_rest none = none
id_of_rest (some s) = let id = before b'/' s in if id == "" then none else some id

unfoldable pub supernode_id_from_path : String → Option String
unfolding id_of_rest
supernode_id_from_path path = id_of_rest (strip_prefix? "/v1/supernodes/" path)

answer_found : Option SupernodeDb → Reply SupernodeDb
answer_found none = not_found "supernode not found"
answer_found (some row) = ok row

answer_id : Bool → List SupernodeDb → Option String → Reply SupernodeDb
unfolding answer_found
answer_id fails rows none = bad_request "invalid supernode ID"
answer_id fails rows (some id) =
    if fails
    then internal_error "failed to fetch supernode"
    else answer_found (get_supernode_by_id id rows)

unfoldable pub get_supernode_metrics : Bool → String → List SupernodeDb → Reply SupernodeDb
unfolding answer_id
get_supernode_metrics fails path rows = answer_id fails rows (supernode_id_from_path path)

-- the query's state, "running" if there is none
unfoldable pub list_unavailable : Bool → Query → List SupernodeDb → Reply (List SupernodeDb)
list_unavailable fails q rows =
    let given = q "currentState" in
    let mode = if given == "" then "running" else given in
    if any (λ v. mode == v) ("running" ∷ "stopped" ∷ "any" ∷ [])
    then if fails
      then internal_error "database query failed"
      else ok (list_unavailable_supernodes mode rows)
    else bad_request "invalid currentState parameter: must be 'running', 'stopped', or 'any'"

-- the runner's new state, and the status of the reply
unfoldable pub trigger_supernode_sync : Runner → Runner × ℕ
trigger_supernode_sync r =
    let (next, started) = trigger_sync_and_probe r in (next, if started then 202 else 204)
