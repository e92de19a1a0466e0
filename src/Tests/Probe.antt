-- ===== src/Tests/Probe.antt =====
-- A pass of probes on concrete inputs.
use lumescope.Prelude.{
  ℕ, String, ◌≡◌, refl, Bool, true, false, not, ◌&&◌, Option, none, some, List, [], ◌∷◌, ◌==◌,
  string_eq, arith, map, All, if◌then◌else◌,
}
use lumescope.Prelude.Int.{pos}
use lumescope.Db.Types.{SupernodeDb, ProbeTarget}
use lumescope.Db.Supernodes.{get_supernode_by_id}
use lumescope.Db.Supernodes.Filter.{is_available, is_unavailable, account_key}
use lumescope.Db.Keyset.Order.{Distinct}
use lumescope.Background.Probe.Status.{
  StatusResponse, StatusApi, StorageVolume, fetch_status, summarize,
}
use lumescope.Background.Probe.{Net, probe_supernodes, p2p_port_or_default}
use lumescope.Background.Probe.Rows.{probed_row, probe_supernodes_lem}
use lumescope.Background.Probe.Laws.{pass_decides}
use lumescope.Background.Probe.Storage.{summarize_storage}
use lumescope.Tests.Db.{node, different}

abbrev volume : String → String → ℕ → StorageVolume
volume total used percent = record {
  total_bytes = total;
  used_bytes = used;
  usage_percent = percent;
}

abbrev response : StatusResponse
response = record {
  version = "2.4.1";
  uptime_seconds = "60";
  cpu_usage_percent = 1;
  cpu_cores = pos 8;
  memory_total_gb = 2;
  memory_used_gb = 1;
  memory_usage_percent = 3;
  storage_volumes = volume "100" "40" 4 ∷ volume "" "x" 5 ∷ volume "200" "60" 6 ∷ [];
  hardware_summary = "8 cores";
  peers_count = pos 3;
  rank = pos 1;
  p2p_db_size_mb = 9;
  p2p_db_records_count = "7";
}

abbrev api : StatusApi
api = record {
  join_host_port = λ host port. host;
  get = λ url. some (200, "{}");
  decode = λ body. some response;
}

abbrev net : Net
net = record {
  now = 50;
  split_host_port = λ s. if s == "10.0.0.1:4444" then some ("10.0.0.1", "4444") else none;
  is_ip = λ host. true;
  tcp_open = λ host port. true;
  status_api = api;
  status_json = λ status. "{}";
  update_succeeds = λ p. true;
}

abbrev nets : ProbeTarget → Net
nets t = net

abbrev rows : List SupernodeDb
rows = node "node1" false none ∷ node "node2" false none ∷ []

rows-Distinct : Distinct account_key rows
rows-Distinct = ((different, tt), (tt, tt))

probe_supernodes_lem_example : probe_supernodes true nets rows ≡ map (probed_row nets) rows
probe_supernodes_lem_example = probe_supernodes_lem nets true rows rows-Distinct

pass_decides_example :
    (last : SupernodeDb) × (get_supernode_by_id "node1" (probe_supernodes true nets rows)
      ≡ some last)
    × (is_available last ≡ ((fetch_status api "10.0.0.1").available && (true && true)))
    × (is_unavailable last ≡ not (is_available last))
unfolding get_supernode_by_id lumescope.Background.Probe.probe_address
    lumescope.Background.Hosts.is_valid_host lumescope.Strconv.parse_int
    lumescope.Prelude.Text.trim_space
pass_decides_example =
    pass_decides nets "node1" rows (node "node1" false none) "10.0.0.1" (pos 4444) rows-Distinct
      refl refl refl

summarize_storage_example :
    ((summarize response).storage_total_bytes ≡ pos 300)
    × ((summarize response).storage_used_bytes ≡ pos 100)
    × ((summarize response).storage_usage_percent ≡ 6)
unfolding lumescope.Strconv.parse_int
summarize_storage_example =
    summarize_storage response ((refl, refl), ((refl, refl), ((refl, refl), tt))) (omega arith)
      (omega arith)
