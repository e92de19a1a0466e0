-- ===== src/Background/Sync.antt =====
-- internal/background/scheduler.go: syncValidators, syncSupernodes and syncActions. The chain's
-- listings, the decoder of metadata, the table of MIME types, the marshalling of JSON and which
-- writes fail are parameters. toJSONB is the marshalling of a value that is no nil interface.
pub mod Mime
pub mod Laws
pub mod Size
pub mod Monikers
pub mod Requests
use lumescope.Prelude.{
  ℕ, ◌+◌, ◌*◌, ◌-◌, ◌%◌, ◌^◌, String, Bool, Option, none, some, List, [], ◌∷◌, ◌==◌, string_eq,
  find, ltb, if◌then◌else◌,
}
use lumescope.Prelude.Int.{ℤ, pos, wrap_int, times}
use lumescope.Strconv.{parse_int, parse_uint, ok?, value_or}
use lumescope.Db.Types.{Time, Json, SupernodeDb, ActionDb, aggregate}
use lumescope.Db.Actions.{upsert_action}
use lumescope.Db.Supernodes.{upsert_supernode}
use lumescope.Lumera.Coin.{PriceField}
use lumescope.Background.Feed.{Outcome, done, failed, out_of_fuel, each_page}
use lumescope.Background.Heights.{SupernodeState, PrevIpAddress, latest_state, latest_ip_address}
use lumescope.Background.Sync.Mime.{Decoded, extract_mime_type}

pub record Validator : Type 0 where
  pub operator_address : String
  pub moniker : String

pub record Supernode : Type 0 where
  pub validator_address : String
  pub states : List SupernodeState
  pub evidence : Json
  pub prev_ip_addresses : List PrevIpAddress
  pub note : String
  pub metrics : Json
  pub supernode_account : String
  pub p2p_port_str : String

pub record ChainAction : Type 0 where
  pub creator : String
  pub action_id : String
  pub action_type : String
  pub metadata_b64 : String
  pub price : PriceField
  pub expiration_time : String
  pub state : String
  pub block_height : String
  pub super_nodes : List String
  pub file_size_kbs : String

pub record Env : Type 0 where
  pub now : Time
  pub get_validators : String → Option (List Validator × String)
  pub get_supernodes : String → Option (List Supernode × String)
  pub get_actions : String → Option (List ChainAction × String)
  -- the raw bytes and the decoded map, as they come back, on an error too
  pub decode_action_metadata : String → String → String × Option Decoded
  pub type_by_extension : String → String
  pub states_json : List SupernodeState → Json
  pub addresses_json : List PrevIpAddress → Json
  pub supernode_write_succeeds : SupernodeDb → Bool
  pub action_write_succeeds : ActionDb → Bool

-- the map from an operator's address to its moniker, the latest entry first
abbrev pub Monikers : Type 0
Monikers = List (String × String)

pub add_moniker : Validator → Monikers → Monikers
add_moniker v monikers = (v.operator_address, v.moniker) ∷ monikers

-- the runner's map is replaced only if every page was read
pub keep_if_done : Outcome Monikers → Monikers → Monikers
keep_if_done (done monikers) old = monikers
keep_if_done (failed monikers) old = old
keep_if_done (out_of_fuel monikers) old = old

unfoldable pub sync_validators : Env → ℕ → Monikers → Monikers
unfolding add_moniker keep_if_done
sync_validators env fuel old =
    keep_if_done (each_page add_moniker env.get_validators fuel "" []) old

pub moniker_of : Option (String × String) → String
moniker_of none = ""
moniker_of (some (address, moniker)) = moniker

unfoldable pub get_moniker_for : Monikers → String → String
unfolding moniker_of
get_moniker_for monikers valoper = moniker_of (find (λ entry. entry.0 == valoper) monikers)

abbrev pub parse_p2p_port : String → ℤ
parse_p2p_port s = if s == "" then pos 0 else value_or (pos 0) (parse_int s)

abbrev pub choose_protocol : String → String
choose_protocol note = if note == "" then "1.0.0" else note

-- the columns that the sync names; the others get their zero values
unfoldable pub supernode_record : Env → Monikers → Supernode → SupernodeDb
supernode_record env monikers sn =
    let (state, height) = latest_state sn.states in
    record {
      supernode_account = sn.supernode_account;
      validator_address = sn.validator_address;
      validator_moniker = get_moniker_for monikers sn.validator_address;
      current_state = state;
      current_state_height = height;
      ip_address = latest_ip_address sn.prev_ip_addresses;
      p2p_port = wrap_int 32 (parse_p2p_port sn.p2p_port_str);
      protocol_version = choose_protocol sn.note;
      actual_version = "";
      cpu_usage_percent = none;
      cpu_cores = none;
      memory_total_gb = none;
      memory_used_gb = none;
      memory_usage_percent = none;
      storage_total_bytes = none;
      storage_used_bytes = none;
      storage_usage_percent = none;
      hardware_summary = none;
      peers_count = none;
      uptime_seconds = none;
      rank = none;
      registered_services = none;
      running_tasks = none;
      state_history = some (env.states_json sn.states);
      evidence = some sn.evidence;
      prev_ip_addresses = some (env.addresses_json sn.prev_ip_addresses);
      last_status_check = none;
      is_status_api_available = Bool.false;
      metrics_report = some (aggregate sn.metrics);
      last_successful_probe = none;
      failed_probe_counter = 0;
      last_known_actual_version = none;
      p2p_db_size_mb = none;
      p2p_records = none;
    }

-- an error of the write is logged, and the loop goes on
unfoldable pub store_supernode : Env → Monikers → Supernode → List SupernodeDb → List SupernodeDb
store_supernode env monikers sn rows =
    let rec = supernode_record env monikers sn in
    if env.supernode_write_succeeds rec then upsert_supernode rec rows else rows

unfoldable pub sync_supernodes : Env → Monikers → ℕ → List SupernodeDb → Outcome (List SupernodeDb)
sync_supernodes env monikers fuel rows =
    each_page (store_supernode env monikers) env.get_supernodes fuel "" rows

-- `if s != "" { if v, err := strconv.ParseInt(s, 10, 64); err == nil { x = v } }` with x = 0 before
abbrev value_or_zero : Option ℤ → ℤ
value_or_zero none = pos 0
value_or_zero (some v) = v

abbrev pub int_or_zero : String → ℤ
int_or_zero s = if s == "" then pos 0 else value_or_zero (ok? (parse_int s))

-- the int64 product kbs * 1024
unfoldable pub size_bytes : String → ℤ
size_bytes file_size_kbs = wrap_int 64 (times (int_or_zero file_size_kbs) 1024)

abbrev pub marshal_decoded : Option Decoded → Json
marshal_decoded none = "null"
marshal_decoded (some d) = d.json

unfoldable pub action_record : Env → ChainAction → ℕ → ActionDb
unfolding size_bytes
action_record env a id =
    let (raw, decoded) = env.decode_action_metadata a.action_type a.metadata_b64 in
    record {
      action_id = id;
      creator = a.creator;
      action_type = a.action_type;
      state = a.state;
      block_height = int_or_zero a.block_height;
      price_denom = a.price.denom;
      price_amount = a.price.amount;
      expiration_time = int_or_zero a.expiration_time;
      metadata_raw = raw;
      metadata_json = some (marshal_decoded decoded);
      super_nodes = a.super_nodes;
      mime_type = extract_mime_type env.type_by_extension decoded;
      size = size_bytes a.file_size_kbs;
      created_at = 0;
    }

-- an entry whose id is no number is logged and passed over
unfoldable pub store_parsed : Env → ChainAction → Option ℕ → List ActionDb → List ActionDb
store_parsed env a none rows = rows
store_parsed env a (some id) rows =
    let rec = action_record env a id in
    if env.action_write_succeeds rec then upsert_action env.now rec rows else rows

unfoldable pub store_action : Env → ChainAction → List ActionDb → List ActionDb
unfolding store_parsed
store_action env a rows = store_parsed env a (ok? (parse_uint a.action_id)) rows

unfoldable pub sync_actions : Env → ℕ → List ActionDb → Outcome (List ActionDb)
sync_actions env fuel rows = each_page (store_action env) env.get_actions fuel "" rows
