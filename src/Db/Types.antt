-- ===== src/Db/Types.antt =====
-- internal/db/db.go: the structs that the statements read and write.
-- A pointer is an `Option`. An int64, an int32 or an int is a ℤ, a uint64 an ℕ. A float64 is only
-- stored and compared with nothing, so it is its bit pattern. JSON that is only stored is its text.
use lumescope.Prelude.{ℕ, String, Bool, Option, List}
use lumescope.Prelude.Int.{ℤ}

-- an instant, counted from Go's zero time
abbrev pub Time : Type 0
Time = ℕ

abbrev pub Float64 : Type 0
Float64 = ℕ

abbrev pub Json : Type 0
Json = String

pub record Ports : Type 0 where
  pub port1 : Bool
  pub port1_num : ℤ
  pub p2p : Bool
  pub p2p_port : ℤ

-- The two documents that the program writes into the column `metricsReport`: the chain's
-- aggregate, which has the keys metrics, report_count and height, and the probe's report, which
-- has the keys ports and status.
pub data MetricsReport : Type 0 where
  aggregate : Json → MetricsReport
  probed : Ports → Json → MetricsReport

pub record SupernodeDb : Type 0 where
  pub supernode_account : String
  pub validator_address : String
  pub validator_moniker : String
  pub current_state : String
  pub current_state_height : String
  pub ip_address : String
  pub p2p_port : ℤ
  pub protocol_version : String
  pub actual_version : String
  pub cpu_usage_percent : Option Float64
  pub cpu_cores : Option ℤ
  pub memory_total_gb : Option Float64
  pub memory_used_gb : Option Float64
  pub memory_usage_percent : Option Float64
  pub storage_total_bytes : Option ℤ
  pub storage_used_bytes : Option ℤ
  pub storage_usage_percent : Option Float64
  pub hardware_summary : Option String
  pub peers_count : Option ℤ
  pub uptime_seconds : Option ℤ
  pub rank : Option ℤ
  pub registered_services : Option Json
  pub running_tasks : Option Json
  pub state_history : Option Json
  pub evidence : Option Json
  pub prev_ip_addresses : Option Json
  pub last_status_check : Option Time
  pub is_status_api_available : Bool
  pub metrics_report : Option MetricsReport
  pub last_successful_probe : Option Time
  pub failed_probe_counter : ℕ
  pub last_known_actual_version : Option String
  pub p2p_db_size_mb : Option Float64
  pub p2p_records : Option ℤ

pub record SupernodeProbeUpdate : Type 0 where
  pub supernode_account : String
  pub actual_version : String
  pub cpu_usage_percent : Option Float64
  pub cpu_cores : Option ℤ
  pub memory_total_gb : Option Float64
  pub memory_used_gb : Option Float64
  pub memory_usage_percent : Option Float64
  pub storage_total_bytes : Option ℤ
  pub storage_used_bytes : Option ℤ
  pub storage_usage_percent : Option Float64
  pub hardware_summary : Option String
  pub peers_count : Option ℤ
  pub uptime_seconds : Option ℤ
  pub rank : Option ℤ
  pub p2p_db_size_mb : Option Float64
  pub p2p_records : Option ℤ
  pub last_status_check : Option Time
  pub is_status_api_available : Bool
  pub metrics_report : Option MetricsReport
  pub probe_time_utc : Time

pub record ProbeTarget : Type 0 where
  pub supernode_account : String
  pub ip_address : String
  pub p2p_port : ℤ

-- The list of supernodes is kept as a list, which every query reads back from the JSON column.
pub record ActionDb : Type 0 where
  pub action_id : ℕ
  pub creator : String
  pub action_type : String
  pub state : String
  pub block_height : ℤ
  pub price_denom : String
  pub price_amount : String
  pub expiration_time : ℤ
  pub metadata_raw : String
  pub metadata_json : Option Json
  pub super_nodes : List String
  pub mime_type : String
  pub size : ℤ
  pub created_at : Time

pub record ActionsFilter : Type 0 where
  pub kind : Option String
  pub creator : Option String
  pub state : Option String
  pub supernode : Option String
  pub from_height : Option ℤ
  pub to_height : Option ℤ
  pub limit : ℤ
  pub cursor_ts : Option Time
  pub cursor_id : Option ℕ

pub record ActionTransaction : Type 0 where
  pub action_id : ℕ
  pub tx_type : String
  pub tx_hash : String
  pub height : ℤ
  pub block_time : Time
  pub gas_wanted : Option ℤ
  pub gas_used : Option ℤ
  pub action_price : Option String
  pub action_price_denom : Option String
  pub flow_payer : Option String
  pub flow_payee : Option String
  pub tx_fee : Option String
  pub tx_fee_denom : Option String
  pub created_at : Time

-- the part of an action that the enricher reads
pub record Action : Type 0 where
  pub action_id : ℕ
  pub creator : String
  pub action_type : String
  pub state : String
  pub supernode_account : String
  pub created_at : Time
