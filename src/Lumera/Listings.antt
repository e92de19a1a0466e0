-- ===== src/Lumera/Listings.antt =====
-- internal/lumera/client.go: doJSON and the requests of the client, the pages of the three listings
-- and the two of an action's transactions. The transport, url.Values.Encode, fmt.Sprint of a number
-- and encoding/json are parameters.
use Prim.Native.Char.{code}
use Prim.Native.String
use lumescope.Prelude.{
  ℕ, String, Bool, ◌&&◌, Option, none, some, List, [], ◌∷◌, ◌++◌, ◌==◌, string_eq, leb, ltb,
  nat_beq, if◌then◌else◌,
}
use lumescope.Prelude.Text.{is_empty}
use lumescope.Lumera.Tx.{Chain, Fields, TxSearchResponse}
use lumescope.Db.Types.{Time}
use lumescope.Background.Sync.{Validator, Supernode, ChainAction}

pub record Request : Type 0 where
  pub method : String
  pub url : String
  pub accept : String
  pub user_agent : Option String

pub record Response : Type 0 where
  pub status : ℕ
  pub body : String

abbrev pub Values : Type 0
Values = List (String × String)

-- What the client calls. `send` builds the request and does it, and is `none` where either fails.
pub record Transport : Type 0 where
  pub send : Request → Option Response
  pub encode : Values → String
  pub sprint : ℕ → String

-- the fields of Client that never change
pub record Endpoint : Type 0 where
  pub base_url : String
  pub user_agent : String

-- strings.TrimRight with one ASCII character
trim_right : ℕ → String → String
trim_right n String.[] = ""
trim_right n (String.◌∷◌ c s) =
    let rest = trim_right n s in
    if is_empty rest && nat_beq (code c) n then "" else String.◌∷◌ c rest

unfoldable pub new_client : String → Endpoint
unfolding trim_right
new_client base_url = record {
  base_url = trim_right b'/' base_url;
  user_agent = "lumescope/preview";
}

url_of : Transport → Endpoint → String → Values → String
url_of t c path [] = String.◌++◌ c.base_url path
url_of t c path (v ∷ q) =
    String.◌++◌ (String.◌++◌ c.base_url path) (String.◌++◌ "?" (t.encode (v ∷ q)))

unfoldable pub request_of : Transport → Endpoint → String → Values → Request
unfolding url_of
request_of t c path q = record {
  method = "GET";
  url = url_of t c path q;
  accept = "application/json";
  user_agent = if c.user_agent == "" then none else some c.user_agent;
}

-- a status from 200 to 299
abbrev pub is_success : ℕ → Bool
is_success status = leb 200 status && ltb status 300

unfoldable pub read_json : {A : Type 0} → (String → Option A) → Option Response → Option A
read_json decode none = none
read_json decode (some resp) = if is_success resp.status then decode resp.body else none

-- `none` for any error
unfoldable pub do_json :
    {A : Type 0} → Transport → Endpoint → (String → Option A) → String → Values → Option A
unfolding read_json request_of
do_json t c decode path q = read_json decode (t.send (request_of t c path q))

-- Pagination, of which only the key is read
pub record Pagination : Type 0 where
  pub next_key : String

-- ValidatorsResponse, ListSupernodesResponse and ListActionsResponse
pub record ListResponse (A : Type 0) : Type 0 where
  pub entries : List A
  pub pagination : Option Pagination

abbrev pub next_key_of : Option Pagination → String
next_key_of none = ""
next_key_of (some p) = p.next_key

abbrev pub page_of : {A : Type 0} → Option (ListResponse A) → Option (List A × String)
page_of none = none
page_of (some out) = some (out.entries, next_key_of out.pagination)

-- pagination.limit and pagination.key
unfoldable pub page_query : Transport → String → ℕ → Values
page_query t next_key limit =
    (if ltb 0 limit then ("pagination.limit", t.sprint limit) ∷ [] else [])
    ++ (if next_key == "" then [] else ("pagination.key", next_key) ∷ [])

abbrev or_default : String → String → String
or_default s def = if s == "" then def else s

unfoldable pub action_query : Transport → String → String → String → ℕ → Values
action_query t action_type action_state next_key limit =
    ("actionType", or_default action_type "ACTION_TYPE_UNSPECIFIED")
    ∷ ("actionState", or_default action_state "ACTION_STATE_UNSPECIFIED")
    ∷ page_query t next_key limit

abbrev pub validators_path : String
validators_path = "/cosmos/staking/v1beta1/validators"

abbrev pub supernodes_path : String
supernodes_path = "/LumeraProtocol/lumera/supernode/v1/list_super_nodes"

abbrev pub actions_path : String
actions_path = "/LumeraProtocol/lumera/action/v1/list_actions"

module _ (t : Transport) (c : Endpoint) where
  unfoldable pub get_validators :
      (String → Option (ListResponse Validator)) → String → ℕ → Option (List Validator × String)
  unfolding do_json page_query
  get_validators decode next_key limit =
      page_of (do_json t c decode validators_path (page_query t next_key limit))

  unfoldable pub get_supernodes :
      (String → Option (ListResponse Supernode)) → String → ℕ → Option (List Supernode × String)
  unfolding do_json page_query
  get_supernodes decode next_key limit =
      page_of (do_json t c decode supernodes_path (page_query t next_key limit))

  unfoldable pub get_actions :
      (String → Option (ListResponse ChainAction))
      → String
      → String
      → String
      → ℕ
      → Option (List ChainAction × String)
  unfolding do_json action_query
  get_actions decode action_type action_state next_key limit =
      page_of
        (do_json t c decode actions_path (action_query t action_type action_state next_key limit))

  -- the address in the response, which GetActionModuleAccount then tests
  unfoldable pub get_module_account : (String → Option String) → Option String
  unfolding do_json
  get_module_account decode = do_json t c decode "/cosmos/auth/v1beta1/module_accounts/action" []

  unfoldable pub search_txs_by_event :
      (String → Option TxSearchResponse) → String → String → Option TxSearchResponse
  unfolding do_json
  search_txs_by_event decode event_type value =
      do_json t c decode "/cosmos/tx/v1beta1/txs" (
        ("query", String.◌++◌ event_type (String.◌++◌ "=" value)) ∷ ("pagination.limit", "10") ∷ [])

-- the calls of the transactions of an action, over the requests
unfoldable pub chain_over :
    Transport
    → Endpoint
    → (String → Option String)
    → (String → Option TxSearchResponse)
    → (String → Option Fields)
    → (String → Option Time)
    → Chain
unfolding get_module_account search_txs_by_event
chain_over t c decode_account decode_search decode_message parse_time = record {
  decode_message = decode_message;
  parse_time = parse_time;
  module_account = get_module_account t c decode_account;
  search_txs = λ event_type id. search_txs_by_event t c decode_search event_type (t.sprint id);
}
