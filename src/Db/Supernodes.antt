-- ===== src/Db/Supernodes.antt =====
-- internal/db/db.go: the table `supernodes`. The columns createdAt and updatedAt are written and
-- never read, and left out. The fallback statements for a table without the newer columns are not
-- modelled: Bootstrap adds the columns before any of these runs. The column failedProbeCounter is
-- an ℕ; its 32 bits are not modelled.
pub mod Filter
pub mod Rows
pub mod Probes
pub mod Paging
pub mod Keys
use lumescope.Prelude.{
  ℕ, ◌+◌, String, Bool, true, false, Option, none, some, List, [], ◌∷◌, ◌==◌, string_eq, find, map,
  if◌then◌else◌,
}
use lumescope.Db.Types.{SupernodeDb, SupernodeProbeUpdate, ProbeTarget}
use lumescope.Db.Sql.{coalesce, null_if_empty}

-- the row that INSERT makes, with the defaults of the columns that it does not name
abbrev pub inserted : SupernodeDb → SupernodeDb
inserted sn = record sn {
  last_successful_probe = none;
  failed_probe_counter = 0;
  last_known_actual_version = none;
  p2p_db_size_mb = none;
  p2p_records = none;
}

-- NULLIF and COALESCE on a column that is never NULL
abbrev pub unless_empty : String → String → String
unless_empty s old = if s == "" then old else s

-- ON CONFLICT ("supernodeAccount") DO UPDATE SET
abbrev pub updated : SupernodeDb → SupernodeDb → SupernodeDb
updated sn row = record row {
  validator_address = sn.validator_address;
  validator_moniker = unless_empty sn.validator_moniker row.validator_moniker;
  current_state = sn.current_state;
  current_state_height = sn.current_state_height;
  ip_address = sn.ip_address;
  p2p_port = sn.p2p_port;
  protocol_version = sn.protocol_version;
  state_history = sn.state_history;
  evidence = sn.evidence;
  prev_ip_addresses = sn.prev_ip_addresses;
  metrics_report = coalesce sn.metrics_report row.metrics_report;
  registered_services = coalesce sn.registered_services row.registered_services;
  running_tasks = coalesce sn.running_tasks row.running_tasks;
}

unfoldable pub upsert_supernode : SupernodeDb → List SupernodeDb → List SupernodeDb
upsert_supernode sn [] = inserted sn ∷ []
upsert_supernode sn (row ∷ rows) =
    let rest = upsert_supernode sn rows in
    if row.supernode_account == sn.supernode_account then updated sn row ∷ rows else row ∷ rest

-- what the two UPDATE statements have in common
abbrev pub measured : SupernodeProbeUpdate → SupernodeDb → SupernodeDb
measured p row = record row {
  actual_version = unless_empty p.actual_version row.actual_version;
  cpu_usage_percent = p.cpu_usage_percent;
  cpu_cores = p.cpu_cores;
  memory_total_gb = p.memory_total_gb;
  memory_used_gb = p.memory_used_gb;
  memory_usage_percent = p.memory_usage_percent;
  storage_total_bytes = p.storage_total_bytes;
  storage_used_bytes = p.storage_used_bytes;
  storage_usage_percent = p.storage_usage_percent;
  hardware_summary = p.hardware_summary;
  peers_count = p.peers_count;
  uptime_seconds = p.uptime_seconds;
  rank = p.rank;
  p2p_db_size_mb = p.p2p_db_size_mb;
  p2p_records = p.p2p_records;
  last_status_check = p.last_status_check;
  is_status_api_available = p.is_status_api_available;
  metrics_report = p.metrics_report;
}

-- a probe that reached the status API, and one that did not
unfoldable pub probe_row : SupernodeProbeUpdate → SupernodeDb → SupernodeDb
probe_row p row =
    let m = measured p row in
    if p.is_status_api_available
    then record m {
      last_successful_probe = some p.probe_time_utc;
      failed_probe_counter = 0;
      last_known_actual_version =
          coalesce (null_if_empty p.actual_version) m.last_known_actual_version;
    }
    else record m { failed_probe_counter = m.failed_probe_counter + 1 }

unfoldable pub update_supernode_probe_data :
    SupernodeProbeUpdate → List SupernodeDb → List SupernodeDb
update_supernode_probe_data p [] = []
update_supernode_probe_data p (row ∷ rows) =
    let rest = update_supernode_probe_data p rows in
    if row.supernode_account == p.supernode_account then probe_row p row ∷ rest else row ∷ rest

-- `none` is ErrNotFound
unfoldable pub get_supernode_by_id : String → List SupernodeDb → Option SupernodeDb
get_supernode_by_id account rows = find (λ row. row.supernode_account == account) rows

-- in the table's order, which SQL leaves open
unfoldable pub list_known_supernodes : List SupernodeDb → List ProbeTarget
list_known_supernodes rows =
    map
      (λ (row : SupernodeDb). record {
        supernode_account = row.supernode_account;
        ip_address = row.ip_address;
        p2p_port = row.p2p_port;
      })
      rows
