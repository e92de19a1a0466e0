-- ===== src/Tests/Handlers.antt =====
-- The handlers on concrete inputs.
use lumescope.Prelude.{
  arith, map, nat_eq, String, ◌≡◌, refl, true, false, none, some, List, [], ◌∷◌, ◌==◌, string_eq,
  if◌then◌else◌,
}
use lumescope.Prelude.Int.{pos}
use lumescope.Db.Types.{ActionDb, ActionsFilter, ActionTransaction}
use lumescope.Db.Actions.{get_action_by_id}
use lumescope.Handlers.Reply.{Query, accepted}
use lumescope.Handlers.Actions.Items.{Printer, Flattened, list_item}
use lumescope.Handlers.Actions.{
  Codec, CursorText, Failures, parse_filter, encode_cursor, list_actions, get_action,
}
use lumescope.Handlers.Actions.Cursor.{ReadsBack, with_cursor, next_page_filter}
use lumescope.Db.Types.{Time}
use lumescope.Db.Keyset.Order.{Distinct}
use lumescope.Db.Actions.{action_key}
use lumescope.Db.Actions.Paging.{selected}
use lumescope.Handlers.Actions.Pages.{collect, item, collect_lem}
use lumescope.Handlers.Actions.Detail.{no_failures, IsReply, get_action_lem}
use lumescope.Handlers.Supernodes.{Codec as AccountCodec}

abbrev printer : Printer
printer = record { format_uint = λ n. if n == 7 then "7" else "9"; encode_base64 = λ s. s }

abbrev codec : Codec
codec = record {
  printer = printer;
  decode_base64 = λ s. some s;
  unmarshal_cursor = λ s. some (record { ts = "2025-01-01T00:00:00Z"; id = s });
  marshal_cursor = λ c. c.id;
  parse_time = λ s. some 4;
  format_time = λ t. "2025-01-01T00:00:00Z";
}

abbrev action : ActionDb
action = record {
  action_id = 7;
  creator = "payer1";
  action_type = "ACTION_TYPE_CASCADE";
  state = "ACTION_STATE_DONE";
  block_height = pos 10;
  price_denom = "ulume";
  price_amount = "5";
  expiration_time = pos 0;
  metadata_raw = "";
  metadata_json = none;
  super_nodes = "node1" ∷ [];
  mime_type = "text/plain";
  size = pos 1024;
  created_at = 4;
}

abbrev action_9 : ActionDb
action_9 = record action { action_id = 9 }

abbrev transaction : String → String → ActionTransaction
transaction kind hash = record {
  action_id = 7;
  tx_type = kind;
  tx_hash = hash;
  height = pos 12;
  block_time = 5;
  gas_wanted = none;
  gas_used = none;
  action_price = none;
  action_price_denom = none;
  flow_payer = none;
  flow_payee = none;
  tx_fee = none;
  tx_fee_denom = none;
  created_at = 0;
}

abbrev transactions : List ActionTransaction
transactions = transaction "register" "_NO_TX_FOUND_" ∷ transaction "finalize" "B2" ∷ []

abbrev shown : Flattened
shown = (list_item printer true action transactions).flattened

abbrev query : Query
query name = if name == "limit" then "500" else ""

abbrev filter_200 : ActionsFilter
filter_200 = record {
  kind = none;
  creator = none;
  state = none;
  supernode = none;
  from_height = none;
  to_height = none;
  limit = pos 200;
  cursor_ts = none;
  cursor_id = none;
}

ReadsBack-7 : ReadsBack codec action 4
unfolding encode_cursor lumescope.Strconv.parse_uint
ReadsBack-7 = record {
  not_empty = refl;
  base64 = refl;
  json = refl;
  time_not_empty = refl;
  time = refl;
  id_not_empty = refl;
  id = refl;
}

next_page_filter_example :
    parse_filter codec (with_cursor query (encode_cursor codec action))
    ≡ accepted (record filter_200 { cursor_ts = some 4; cursor_id = some 7 })
unfolding parse_filter lumescope.Handlers.Actions.parse_limit
    lumescope.Handlers.Actions.parse_cursor lumescope.Strconv.parse_int
next_page_filter_example = next_page_filter codec query filter_200 action 4 ReadsBack-7 refl

get_action_lem_example :
    IsReply codec 7
      (action ∷ [])
      transactions
      (get_action codec no_failures "/v1/actions/7" (action ∷ []) transactions)
unfolding lumescope.Strconv.parse_uint
get_action_lem_example = get_action_lem codec "7" 7 (action ∷ []) transactions refl refl

abbrev account_codec : AccountCodec
account_codec = record {
  decode_base64 = λ s. some s;
  encode_base64 = λ s. s;
  unmarshal_account = λ s. some s;
  marshal_account = λ s. s;
}

abbrev second : ActionDb → Time
second a = 4

-- pages of one action
abbrev small_pages : Query
small_pages name = if name == "limit" then "1" else ""

abbrev filter_1 : ActionsFilter
filter_1 = record filter_200 { limit = pos 1 }

two-Distinct : Distinct action_key (action ∷ action_9 ∷ [])
two-Distinct = ((ground arith, tt), (tt, tt))

ReadsBack-9 : ReadsBack codec action_9 4
unfolding encode_cursor lumescope.Strconv.parse_uint
ReadsBack-9 = record {
  not_empty = refl;
  base64 = refl;
  json = refl;
  time_not_empty = refl;
  time = refl;
  id_not_empty = refl;
  id = refl;
}

collect_lem_example :
    collect codec (action ∷ action_9 ∷ []) transactions 3 small_pages
    ≡ map
        (item codec (action ∷ action_9 ∷ []) transactions false)
        (selected filter_1 (action ∷ action_9 ∷ []))
unfolding parse_filter lumescope.Handlers.Actions.parse_limit
    lumescope.Handlers.Actions.parse_cursor lumescope.Strconv.parse_int lumescope.Db.Keyset.order_by
    lumescope.Db.Actions.matches
collect_lem_example =
    collect_lem codec (action ∷ action_9 ∷ []) transactions second filter_1 3 small_pages
      (ReadsBack-7, (ReadsBack-9, tt)) two-Distinct refl refl (omega arith)
