-- ===== src/Lumera/Tx.antt =====
-- internal/lumera/client.go: the transactions of an action, from the chain's answers to records.
-- What the chain answers, and what encoding/json and time.Parse make of a text, are parameters.
pub mod Laws
use lumescope.Prelude.{
  ℕ, String, Bool, true, ◌&&◌, not, Option, none, some, List, [], ◌∷◌, ◌++◌, ◌==◌, string_eq,
  if◌then◌else◌,
}
use lumescope.Prelude.Int.{pos}
use lumescope.Strconv.{parse_int, value_or}
use lumescope.Db.Types.{Time, Action, ActionTransaction}
use lumescope.Lumera.Transfer.{Event, AbciLog, TransferFlow, extract_transfer_flow}

pub record Coin : Type 0 where
  pub denom : String
  pub amount : String

-- TxResponse: the raw messages of the body, and the amounts of the fee
pub record TxResponse : Type 0 where
  pub messages : List String
  pub fee_amount : List Coin

pub record TxResult : Type 0 where
  pub tx_hash : String
  pub height : String
  pub timestamp : String
  pub gas_wanted : String
  pub gas_used : String
  pub events : List Event
  pub logs : List AbciLog

pub record TxSearchResponse : Type 0 where
  pub txs : List TxResponse
  pub tx_responses : List TxResult

-- the fields of a JSON object, `none` for a value that is no string
abbrev pub Fields : Type 0
Fields = List (String × Option String)

-- What the client calls: json.Unmarshal of a message into a map, time.Parse in RFC 3339, and the
-- two requests. `none` is an error; the address may be empty.
pub record Chain : Type 0 where
  pub decode_message : String → Option Fields
  pub parse_time : String → Option Time
  pub module_account : Option String
  pub search_txs : String → ℕ → Option TxSearchResponse

-- the fields of Client that change
pub record Client : Type 0 where
  pub action_module_addr : String
  pub module_addr_fetched : Bool

-- the address, `none` for an error, and the client with what it has cached
unfoldable pub get_action_module_account : Chain → Client → Option String × Client
get_action_module_account chain c =
    if c.module_addr_fetched && not (c.action_module_addr == "")
    then (some c.action_module_addr, c)
    else elim chain.module_account [
      | none ↦ (none, c)
      | some addr ↦
          if addr == ""
          then (none, c)
          else (some addr, record { action_module_addr = addr; module_addr_fetched = true })
    ]

unfoldable pub set_action_module_account : String → Client → Client
set_action_module_account addr c = record { action_module_addr = addr; module_addr_fetched = true }

-- msgMap[k], where json.Unmarshal keeps the last of equal keys; `some none` is a value of another
-- type
lookup_field : String → Fields → Option (Option String)
lookup_field k [] = none
lookup_field k ((j, v) ∷ rest) = elim (lookup_field k rest) [
  | some found ↦ some found
  | none ↦ if j == k then some v else none
]

first_signer : Fields → List String → String
first_signer fields [] = ""
first_signer fields (k ∷ rest) = elim (lookup_field k fields) [
  | none ↦ first_signer fields rest
  | some none ↦ first_signer fields rest
  | some (some s) ↦ if s == "" then first_signer fields rest else s
]

abbrev pub signer_fields : List String
signer_fields = "creator" ∷ "sender" ∷ "from_address" ∷ "signer" ∷ []

abbrev signer_of : Option Fields → String
signer_of none = ""
signer_of (some fields) = first_signer fields signer_fields

unfoldable pub extract_tx_signer : Chain → Option TxResponse → String
unfolding first_signer lookup_field
extract_tx_signer chain none = ""
extract_tx_signer chain (some tx) = elim tx.messages [
  | [] ↦ ""
  | m ∷ _ ↦ signer_of (chain.decode_message m)
]

abbrev with_fee : Option TxResponse → ActionTransaction → ActionTransaction
with_fee none t = t
with_fee (some tx) t = elim tx.fee_amount [
  | [] ↦ t
  | fee ∷ _ ↦ record t { tx_fee = some fee.amount; tx_fee_denom = some fee.denom }
]

abbrev with_flow : Option TransferFlow → ActionTransaction → ActionTransaction
with_flow none t = t
with_flow (some flow) t = record t {
  action_price = flow.amount;
  action_price_denom = flow.denom;
  flow_payer = flow.payer;
  flow_payee = flow.payee;
}

abbrev time_or_zero : Option Time → Time
time_or_zero none = 0
time_or_zero (some t) = t

unfoldable pub parse_tx_result :
    Chain → Action → String → TxResult → Option TxResponse → String → ActionTransaction
parse_tx_result chain action tx_type r tx module_addr =
    let base : ActionTransaction = record {
      action_id = action.action_id;
      tx_type = tx_type;
      tx_hash = r.tx_hash;
      height = value_or (pos 0) (parse_int r.height);
      block_time = time_or_zero (chain.parse_time r.timestamp);
      gas_wanted = some (value_or (pos 0) (parse_int r.gas_wanted));
      gas_used = some (value_or (pos 0) (parse_int r.gas_used));
      action_price = none;
      action_price_denom = none;
      flow_payer = none;
      flow_payee = none;
      tx_fee = none;
      tx_fee_denom = none;
      created_at = 0;
    } in
    let flow =
      extract_transfer_flow
        (record {
          creator = action.creator;
          supernode_account = action.supernode_account;
          module_addr = module_addr;
          tx_signer = extract_tx_signer chain tx;
        })
        tx_type r.events r.logs in
    with_flow flow (with_fee tx base)

-- the inner loop: the i-th result goes with the i-th transaction, if there is one
parse_results :
    Chain → Action → String → String → List TxResult → List TxResponse → List ActionTransaction
parse_results chain action tx_type module_addr [] txs = []
parse_results chain action tx_type module_addr (r ∷ rs) [] =
    parse_tx_result chain action tx_type r none module_addr
    ∷ parse_results chain action tx_type module_addr rs []
parse_results chain action tx_type module_addr (r ∷ rs) (tx ∷ txs) =
    parse_tx_result chain action tx_type r (some tx) module_addr
    ∷ parse_results chain action tx_type module_addr rs txs

-- the event type and the transaction type of a query
abbrev pub queries : List (String × String)
queries =
    ("action_registered.action_id", "register")
    ∷ ("action_finalized.action_id", "finalize")
    ∷ ("action_approved.action_id", "approve")
    ∷ []

-- a failing query is passed over
query_all : Chain → Action → String → List (String × String) → List ActionTransaction
query_all chain action module_addr [] = []
query_all chain action module_addr ((event_type, tx_type) ∷ rest) =
    elim (chain.search_txs event_type action.action_id) [
      | none ↦ query_all chain action module_addr rest
      | some out ↦
          parse_results chain action tx_type module_addr out.tx_responses out.txs
          ++ query_all chain action module_addr rest
    ]

abbrev addr_or_empty : Option String → String
addr_or_empty none = ""
addr_or_empty (some addr) = addr

-- The error result is never set, so it is left out.
unfoldable pub get_action_transactions : Chain → Client → Action → List ActionTransaction × Client
unfolding get_action_module_account query_all parse_results
get_action_transactions chain c action =
    let (addr, c') = get_action_module_account chain c in
    (query_all chain action (addr_or_empty addr) queries, c')
