-- ===== src/Tests/Lumera.antt =====
-- internal/lumera on concrete inputs.
use lumescope.Prelude.{
  String, ◌≡◌, refl, inl, false, none, some, List, [], ◌∷◌, All, any, ◌==◌, ◌||◌, string_eq,
  if◌then◌else◌,
}
use lumescope.Db.Types.{Action}
use lumescope.Lumera.Transfer.{
  Attribute, Event, FlowContext, parse_transfer_event, collect_transfers, extract_transfer_flow,
}
use lumescope.Lumera.Transfer.Best.{IsBest}
use lumescope.Lumera.Transfer.Laws.{
  described, parse_transfer_event_lem, register_rank, payout_rank, register_flow, payout_flow,
}
use lumescope.Lumera.Tx.{Chain, Client, TxResult, get_action_transactions}
use lumescope.Lumera.Tx.Laws.{IsOf, get_action_transactions-IsOf}

abbrev attribute : String → String → Attribute
attribute key value = record { key = key; value = value }

abbrev fee_attributes : List Attribute
fee_attributes =
    attribute "sender" "payer1" ∷ attribute "recipient" "module1" ∷ attribute "amount" "7ulume" ∷ []

abbrev payout_attributes : List Attribute
payout_attributes =
    attribute "recipient" "node1" ∷ attribute "sender" "module1" ∷ attribute "amount" "6ulume" ∷ []

abbrev transfer_events : List Event
transfer_events =
    record { kind = "message"; attributes = [] }
    ∷ record { kind = "transfer"; attributes = fee_attributes }
    ∷ record { kind = "transfer"; attributes = payout_attributes }
    ∷ []

parse_transfer_event_lem_example : parse_transfer_event fee_attributes ≡ (
    if any (λ a. a.key == "sender" || a.key == "recipient") fee_attributes
    then some (described fee_attributes)
    else none)
parse_transfer_event_lem_example = parse_transfer_event_lem fee_attributes

abbrev context : FlowContext
context = record {
  creator = "payer1";
  supernode_account = "node1";
  module_addr = "module1";
  tx_signer = "signer1";
}

register_flow_example :
    IsBest
      (register_rank context)
      (collect_transfers transfer_events [])
      (extract_transfer_flow context "register" transfer_events [])
register_flow_example = register_flow context transfer_events []

payout_flow_example :
    IsBest
      (payout_rank context)
      (collect_transfers transfer_events [])
      (extract_transfer_flow context "finalize" transfer_events [])
payout_flow_example = payout_flow context "finalize" transfer_events [] (inl refl)

abbrev registered : TxResult
registered = record {
  tx_hash = "A1";
  height = "12";
  timestamp = "2025-01-01T00:00:00Z";
  gas_wanted = "200";
  gas_used = "150";
  events = transfer_events;
  logs = [];
}

abbrev small_chain : Chain
small_chain = record {
  decode_message = λ m. none;
  parse_time = λ t. some 5;
  module_account = some "module1";
  search_txs = λ kind id. some (record { txs = []; tx_responses = registered ∷ [] });
}

abbrev silent_chain : Chain
silent_chain = record small_chain { module_account = none; search_txs = λ kind id. none }

abbrev new_client : Client
new_client = record { action_module_addr = ""; module_addr_fetched = false }

abbrev action_7 : Action
action_7 = record {
  action_id = 7;
  creator = "payer1";
  action_type = "ACTION_TYPE_CASCADE";
  state = "ACTION_STATE_DONE";
  supernode_account = "node1";
  created_at = 3;
}

get_action_transactions-IsOf_example :
    All (IsOf action_7) (get_action_transactions small_chain new_client action_7).0
get_action_transactions-IsOf_example = get_action_transactions-IsOf small_chain action_7 new_client
