-- ===== src/Background/Probe.antt =====
-- internal/background/scheduler.go: probeSupernodes, a pass over the supernodes of the table.
-- net.SplitHostPort, net.ParseIP, the dialling of a port, the status API, the clock and which
-- updates fail are parameters, given anew for the turn of each target.
pub mod Status
pub mod Rows
pub mod Laws
pub mod Storage
use lumescope.Prelude.{
  ℕ, String, Bool, Option, none, some, List, [], ◌∷◌, ◌==◌, string_eq, if◌then◌else◌,
}
use lumescope.Prelude.Int.{ℤ, pos, negsuc}
use lumescope.Prelude.Text.{codes, trim_space}
use lumescope.Strconv.{parse_int, ok?}
use lumescope.Db.Types.{Time, Json, SupernodeDb, SupernodeProbeUpdate, ProbeTarget, probed}
use lumescope.Db.Supernodes.{update_supernode_probe_data, list_known_supernodes}
use lumescope.Background.Hosts.{is_valid_host}
use lumescope.Background.Probe.Status.{StatusApi, StatusSummary, fetch_status}

pub record Net : Type 0 where
  pub now : Time
  pub split_host_port : String → Option (String × String)
  pub is_ip : List ℕ → Bool
  -- whether a connection to the host and the port opens in time
  pub tcp_open : String → ℤ → Bool
  pub status_api : StatusApi
  pub status_json : StatusSummary → Json
  pub update_succeeds : SupernodeProbeUpdate → Bool

-- `port1, err := strconv.Atoi(portStr); err != nil || port1 == 0`
usable_port : Option ℤ → Option ℤ
usable_port none = none
usable_port (some (pos ℕ.zero)) = none
usable_port (some (pos (ℕ.suc n))) = some (pos (ℕ.suc n))
usable_port (some (negsuc n)) = some (negsuc n)

with_port : Net → String → Option ℤ → Option (String × ℤ)
with_port net host none = none
with_port net host (some port1) =
    if is_valid_host net.is_ip (codes host) then some (host, port1) else none

read_address : Net → Option (String × String) → Option (String × ℤ)
unfolding usable_port with_port
read_address net none = none
read_address net (some (host, port_str)) =
    with_port net (trim_space host) (usable_port (ok? (parse_int (trim_space port_str))))

-- the host and the first port; `none` where the target is skipped
unfoldable pub probe_address : Net → ProbeTarget → Option (String × ℤ)
unfolding read_address
probe_address net t =
    if t.ip_address == ""
    then none
    else read_address net (net.split_host_port (trim_space t.ip_address))

abbrev pub p2p_port_or_default : ℤ → ℤ
p2p_port_or_default (pos ℕ.zero) = pos 4445
p2p_port_or_default (pos (ℕ.suc n)) = pos (ℕ.suc n)
p2p_port_or_default (negsuc n) = negsuc n

unfoldable pub probe_update : Net → ProbeTarget → String × ℤ → SupernodeProbeUpdate
probe_update net t (host, port1) =
    let p2p_port = p2p_port_or_default t.p2p_port in
    let status = fetch_status net.status_api host in
    record {
      supernode_account = t.supernode_account;
      actual_version = status.version;
      cpu_usage_percent = some status.cpu_usage_percent;
      cpu_cores = some status.cpu_cores;
      memory_total_gb = some status.memory_total_gb;
      memory_used_gb = some status.memory_used_gb;
      memory_usage_percent = some status.memory_usage_percent;
      storage_total_bytes = some status.storage_total_bytes;
      storage_used_bytes = some status.storage_used_bytes;
      storage_usage_percent = some status.storage_usage_percent;
      hardware_summary = some status.hardware_summary;
      peers_count = some status.peers_count;
      uptime_seconds = some status.uptime_seconds;
      rank = some status.rank;
      p2p_db_size_mb = some status.p2p_db_size_mb;
      p2p_records = some status.p2p_records;
      last_status_check = some net.now;
      is_status_api_available = status.available;
      metrics_report = some (
          probed
            (record {
              port1 = net.tcp_open host port1;
              port1_num = port1;
              p2p = net.tcp_open host p2p_port;
              p2p_port = p2p_port;
            })
            (net.status_json status));
      probe_time_utc = net.now;
    }

-- an update that fails is logged, and the loop goes on
unfoldable pub store_probe :
    Net → ProbeTarget → Option (String × ℤ) → List SupernodeDb → List SupernodeDb
unfolding probe_update
store_probe net t none rows = rows
store_probe net t (some address) rows =
    let sn = probe_update net t address in
    if net.update_succeeds sn then update_supernode_probe_data sn rows else rows

unfoldable pub probe_target : Net → ProbeTarget → List SupernodeDb → List SupernodeDb
unfolding probe_address store_probe
probe_target net t rows = store_probe net t (probe_address net t) rows

unfoldable pub probe_each :
    (ProbeTarget → Net) → List ProbeTarget → List SupernodeDb → List SupernodeDb
probe_each nets [] rows = rows
probe_each nets (t ∷ ts) rows = probe_each nets ts (probe_target (nets t) t rows)

-- The targets are read before the first probe. `listed` is whether that query succeeds; its error ends
-- the pass.
unfoldable pub probe_supernodes : Bool → (ProbeTarget → Net) → List SupernodeDb → List SupernodeDb
probe_supernodes listed nets rows =
    if listed then probe_each nets (list_known_supernodes rows) rows else rows
