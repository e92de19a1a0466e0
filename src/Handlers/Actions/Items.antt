-- ===== src/Handlers/Actions/Items.antt =====
-- internal/handlers/actions.go: an action as the API shows it, with its transactions.
use lumescope.Prelude.{
  ℕ, String, Bool, true, false, Option, none, some, List, [], ◌∷◌, ◌++◌, ◌==◌, string_eq,
  if◌then◌else◌,
}
use lumescope.Prelude.Int.{ℤ}
use lumescope.Db.Types.{Time, Json, ActionDb, ActionTransaction}

-- strconv.FormatUint, and base64.StdEncoding.EncodeToString
pub record Printer : Type 0 where
  pub format_uint : ℕ → String
  pub encode_base64 : String → String

pub record TransactionDto : Type 0 where
  pub tx_type : String
  pub tx_hash : String
  pub height : ℤ
  pub block_time : Time
  pub gas_wanted : Option ℤ
  pub gas_used : Option ℤ
  pub action_price : Option String
  pub action_price_denom : Option String
  pub flow_payer : Option String
  pub flow_payee : Option String
  pub tx_fee : Option String
  pub tx_fee_denom : Option String

abbrev pub placeholder_tx_hash : String
placeholder_tx_hash = "_NO_TX_FOUND_"

abbrev pub is_placeholder_transaction : ActionTransaction → Bool
is_placeholder_transaction tx = tx.tx_hash == placeholder_tx_hash

abbrev pub action_transaction_to_dto : ActionTransaction → TransactionDto
action_transaction_to_dto tx = record {
  tx_type = tx.tx_type;
  tx_hash = tx.tx_hash;
  height = tx.height;
  block_time = tx.block_time;
  gas_wanted = tx.gas_wanted;
  gas_used = tx.gas_used;
  action_price = tx.action_price;
  action_price_denom = tx.action_price_denom;
  flow_payer = tx.flow_payer;
  flow_payee = tx.flow_payee;
  tx_fee = tx.tx_fee;
  tx_fee_denom = tx.tx_fee_denom;
}

-- the flattened fields and the list, which the loop over the transactions fills
pub record Flattened : Type 0 where
  pub register_tx_id : Option String
  pub register_tx_time : Option Time
  pub finalize_tx_id : Option String
  pub finalize_tx_time : Option Time
  pub approve_tx_id : Option String
  pub approve_tx_time : Option Time
  pub transactions : List TransactionDto

abbrev pub no_transactions : Flattened
no_transactions = record {
  register_tx_id = none;
  register_tx_time = none;
  finalize_tx_id = none;
  finalize_tx_time = none;
  approve_tx_id = none;
  approve_tx_time = none;
  transactions = [];
}

-- the switch on the type
abbrev pub set_fields : ActionTransaction → Flattened → Flattened
set_fields tx f =
    if tx.tx_type == "register"
    then record f { register_tx_id = some tx.tx_hash; register_tx_time = some tx.block_time }
    else if tx.tx_type == "finalize"
    then record f { finalize_tx_id = some tx.tx_hash; finalize_tx_time = some tx.block_time }
    else if tx.tx_type == "approve"
    then record f { approve_tx_id = some tx.tx_hash; approve_tx_time = some tx.block_time }
    else f

abbrev pub add_dto : Bool → ActionTransaction → Flattened → Flattened
add_dto false tx f = f
add_dto true tx f = record f { transactions = f.transactions ++ action_transaction_to_dto tx ∷ [] }

-- one round of the loop
abbrev pub flatten_one : Bool → ActionTransaction → Flattened → Flattened
flatten_one with_list tx f =
    if is_placeholder_transaction tx then f else set_fields tx (add_dto with_list tx f)

unfoldable pub flatten : Bool → List ActionTransaction → Flattened → Flattened
flatten with_list [] f = f
flatten with_list (tx ∷ txs) f = flatten with_list txs (flatten_one with_list tx f)

-- the fields `decoded` and `raw`: raw bytes only where nothing was decoded; "" is omitted
pub record Metadata : Type 0 where
  pub decoded : Option Json
  pub raw : String

raw_metadata : Printer → ActionDb → Metadata
raw_metadata printer a = record {
  decoded = none;
  raw = if a.metadata_raw == "" then "" else printer.encode_base64 a.metadata_raw;
}

-- a column that holds the JSON value null is read as nil
metadata_from : Printer → ActionDb → Option Json → Metadata
unfolding raw_metadata
metadata_from printer a none = raw_metadata printer a
metadata_from printer a (some json) =
    if json == "null" then raw_metadata printer a else record { decoded = some json; raw = "" }

unfoldable pub metadata_of : Printer → ActionDb → Metadata
unfolding metadata_from
metadata_of printer a = metadata_from printer a a.metadata_json

pub record ActionItem : Type 0 where
  pub id : String
  pub kind : String
  pub creator : String
  pub state : String
  pub block_height : ℤ
  pub mime_type : String
  pub size : ℤ
  pub price_amount : String
  pub price_denom : String
  pub metadata : Metadata
  pub super_nodes : List String
  pub flattened : Flattened

abbrev item_of : Printer → ActionDb → List String → Flattened → ActionItem
item_of printer a super_nodes flattened = record {
  id = printer.format_uint a.action_id;
  kind = a.action_type;
  creator = a.creator;
  state = a.state;
  block_height = a.block_height;
  mime_type = a.mime_type;
  size = a.size;
  price_amount = a.price_amount;
  price_denom = a.price_denom;
  metadata = metadata_of printer a;
  super_nodes = super_nodes;
  flattened = flattened;
}

-- an item of the list, which does not show the supernodes
unfoldable pub list_item : Printer → Bool → ActionDb → List ActionTransaction → ActionItem
unfolding flatten
list_item printer with_list a txs = item_of printer a [] (flatten with_list txs no_transactions)

-- the reply of GetAction
unfoldable pub detail_item : Printer → ActionDb → List ActionTransaction → ActionItem
unfolding flatten
detail_item printer a txs = item_of printer a a.super_nodes (flatten true txs no_transactions)
