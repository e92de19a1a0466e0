-- ===== src/Handlers/Actions.antt =====
-- internal/handlers/actions.go: ListActions and GetAction. encoding/base64, encoding/json, time and
-- the printing of numbers are parameters, as are the failures of the database.
pub mod Items
pub mod Laws
pub mod Cursor
pub mod Detail
pub mod Pages
use lumescope.Prelude.{
  ℕ, ◌^◌, String, Bool, ◌||◌, Option, none, some, List, [], ◌∷◌, ◌==◌, string_eq, map, last?,
  if◌then◌else◌,
}
use lumescope.Prelude.Int.{ℤ, pos, ltb_ℤ}
use lumescope.Prelude.Text.{strip_prefix?, contains_char}
use lumescope.Strconv.{parse_int, parse_uint, ok?}
use lumescope.Db.Types.{Time, ActionDb, ActionsFilter, ActionTransaction}
use lumescope.Db.Actions.{action_key, list_actions_filtered, get_action_by_id}
use lumescope.Db.Transactions.{get_action_transactions}
use lumescope.Db.Transactions.Bulk.{entry, get_action_transactions_by_action_ids}
use lumescope.Handlers.Reply.{
  Query, Checked, accepted, rejected, ◌>>=◌, require, Reply, ok, bad_request, not_found,
  internal_error,
}
use lumescope.Handlers.Actions.Items.{Printer, ActionItem, list_item, detail_item}

-- the payload of a cursor: its fields ts and id
pub record CursorText : Type 0 where
  pub ts : String
  pub id : String

pub record Codec : Type 0 where
  pub printer : Printer
  pub decode_base64 : String → Option String
  pub unmarshal_cursor : String → Option CursorText
  pub marshal_cursor : CursorText → String
  -- RFC 3339
  pub parse_time : String → Option Time
  pub format_time : Time → String

-- which of the two queries fail
pub record Failures : Type 0 where
  pub list_fails : Bool
  pub transactions_fail : Bool

abbrev present : String → Option String
present s = if s == "" then none else some s

abbrev clamp : ℤ → ℤ
clamp n = if ltb_ℤ n (pos 1) then pos 1 else if ltb_ℤ (pos 200) n then pos 200 else n

clamp_parsed : Option ℤ → Checked ℤ
clamp_parsed none = rejected "invalid limit parameter"
clamp_parsed (some n) = accepted (clamp n)

unfoldable pub parse_limit : String → Checked ℤ
unfolding clamp_parsed
parse_limit s = if s == "" then accepted (pos 50) else clamp_parsed (ok? (parse_int s))

height_of : String → Option ℤ → Checked (Option ℤ)
height_of message none = rejected message
height_of message (some h) = accepted (some h)

pub parse_height : String → String → Checked (Option ℤ)
unfolding height_of
parse_height message s = if s == "" then accepted none else height_of message (ok? (parse_int s))

abbrev pub parse_from : Query → Checked (Option ℤ)
parse_from q = parse_height "invalid from parameter: must be a block height" (q "from")

abbrev pub parse_to : Query → Checked (Option ℤ)
parse_to q = parse_height "invalid to parameter: must be a block height" (q "to")

-- the two fields of the filter that the cursor sets
abbrev pub CursorFields : Type 0
CursorFields = Option Time × Option ℕ

complete : Option CursorText → Option CursorText
complete none = none
complete (some c) = if c.ts == "" || c.id == "" then none else some c

read_cursor : Codec → String → Checked CursorFields
unfolding complete
read_cursor codec s = do
  bytes ← require "invalid cursor encoding" (codec.decode_base64 s)
  payload ← require "invalid cursor format" (complete (codec.unmarshal_cursor bytes))
  time ← require "invalid cursor timestamp" (codec.parse_time payload.ts)
  id ← require "invalid cursor ID: must be numeric" (ok? (parse_uint payload.id))
  accepted (some time, some id)

unfoldable pub parse_cursor : Codec → String → Checked CursorFields
unfolding read_cursor
parse_cursor codec s = if s == "" then accepted (none, none) else read_cursor codec s

-- the checks in the source's order: the first refusal is the reply
pub filter_from :
    Query
    → Checked ℤ
    → Checked (Option ℤ)
    → Checked (Option ℤ)
    → Checked CursorFields
    → Checked ActionsFilter
filter_from q parsed_limit parsed_from parsed_to parsed_cursor = do
  limit ← parsed_limit
  from ← parsed_from
  to ← parsed_to
  cursor ← parsed_cursor
  accepted (record {
    kind = present (q "type");
    creator = present (q "creator");
    state = present (q "state");
    supernode = present (q "supernode");
    from_height = from;
    to_height = to;
    limit = limit;
    cursor_ts = cursor.0;
    cursor_id = cursor.1;
  })

unfoldable pub parse_filter : Codec → Query → Checked ActionsFilter
unfolding parse_height filter_from
parse_filter codec q =
    filter_from q (parse_limit (q "limit")) (parse_from q) (parse_to q)
      (parse_cursor codec (q "cursor"))

abbrev pub include_transactions : Query → Bool
include_transactions q = let s = q "include_transactions" in s == "true" || s == "1"

pub record ActionsList : Type 0 where
  pub items : List ActionItem
  pub next_cursor : String

abbrev pub cursor_text : Codec → ActionDb → CursorText
cursor_text codec last = record {
  ts = codec.format_time last.created_at;
  id = codec.printer.format_uint last.action_id;
}

unfoldable pub encode_cursor : Codec → ActionDb → String
encode_cursor codec last =
    codec.printer.encode_base64 (codec.marshal_cursor (cursor_text codec last))

-- hasMore, and the last row if there is one
abbrev pub next_cursor_of : Codec → Bool → Option ActionDb → String
next_cursor_of codec Bool.false o = ""
next_cursor_of codec Bool.true none = ""
next_cursor_of codec Bool.true (some last) = encode_cursor codec last

unfoldable pub list_page :
    Codec → Bool → ActionsFilter → List ActionDb → List ActionTransaction → ActionsList
list_page codec with_transactions f rows txs =
    let (actions, has_more) = list_actions_filtered f rows in
    let tx_map = get_action_transactions_by_action_ids (map action_key actions) txs in
    record {
      items =
          map
            (λ (a : ActionDb).
              list_item codec.printer with_transactions a (entry (action_key a) tx_map))
            actions;
      next_cursor = next_cursor_of codec has_more (last? actions);
    }

pub answer_list :
    Codec
    → Failures
    → Query
    → List ActionDb
    → List ActionTransaction
    → Checked ActionsFilter
    → Reply ActionsList
answer_list codec failures q rows txs (rejected message) = bad_request message
answer_list codec failures q rows txs (accepted f) =
    if failures.list_fails
    then internal_error "failed to fetch actions"
    else if failures.transactions_fail
    then internal_error "failed to fetch action transactions"
    else ok (list_page codec (include_transactions q) f rows txs)

unfoldable pub list_actions :
    Codec → Failures → Query → List ActionDb → List ActionTransaction → Reply ActionsList
unfolding answer_list
list_actions codec failures q rows txs =
    answer_list codec failures q rows txs (parse_filter codec q)

pub answer_action : Codec → Failures → List ActionTransaction → Option ActionDb → Reply ActionItem
answer_action codec failures txs none = not_found "action not found"
answer_action codec failures txs (some a) =
    if failures.transactions_fail
    then internal_error "failed to fetch action transactions"
    else ok (detail_item codec.printer a (get_action_transactions a.action_id txs))

pub answer_id :
    Codec → Failures → List ActionDb → List ActionTransaction → Option ℕ → Reply ActionItem
unfolding answer_action
answer_id codec failures rows txs none = bad_request "invalid action ID: must be numeric"
answer_id codec failures rows txs (some id) =
    if failures.list_fails
    then internal_error "failed to fetch action"
    else answer_action codec failures txs (get_action_by_id id rows)

-- `none`: the path has no action's id
pub answer_path :
    Codec → Failures → List ActionDb → List ActionTransaction → Option String → Reply ActionItem
unfolding answer_id
answer_path codec failures rows txs none = bad_request "invalid action ID"
answer_path codec failures rows txs (some text) =
    answer_id codec failures rows txs (ok? (parse_uint text))

pub id_of_rest : Option String → Option String
id_of_rest none = none
id_of_rest (some s) = if s == "" || contains_char b'/' s then none else some s

-- actionIDFromPath, with `none` for ""
unfoldable pub action_id_from_path : String → Option String
unfolding id_of_rest
action_id_from_path path = id_of_rest (strip_prefix? "/v1/actions/" path)

unfoldable pub get_action :
    Codec → Failures → String → List ActionDb → List ActionTransaction → Reply ActionItem
unfolding answer_path
get_action codec failures path rows txs =
    answer_path codec failures rows txs (action_id_from_path path)
