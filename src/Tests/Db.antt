-- ===== src/Tests/Db.antt =====
-- internal/db on concrete inputs.
use lumescope.Prelude.{
  ℕ, String, ◌≡◌, refl, Bool, true, false, Option, none, some, List, [], ◌∷◌, ◌++◌, nat_eq,
  string_eq, arith, ◌≢◌, eq_iff,
}
use lumescope.Prelude.Int.{pos}
use lumescope.Db.Transactions.{get_action_transactions}
use lumescope.Db.Keyset.Sort.Reorder.{swap}
use lumescope.Db.Transactions.Bulk.{
  entry, get_action_transactions_by_action_ids, entry-get_action_transactions_by_action_ids,
}
use lumescope.Db.Types.{
  Time, ActionDb, ActionsFilter, ActionTransaction, SupernodeDb, SupernodeProbeUpdate,
  MetricsReport, aggregate, probed, Ports,
}
use lumescope.Db.Keyset.{walk, order_by}
use lumescope.Db.Keyset.Order.{Distinct}
use lumescope.Db.Supernodes.{upsert_supernode, update_supernode_probe_data, get_supernode_by_id}
use lumescope.Db.Supernodes.Filter.{
  SupernodeMetricsFilter, is_available, is_unavailable, account_key,
  list_supernode_metrics_filtered,
}
use lumescope.Db.Supernodes.Rows.{sync_hides_supernode}
use lumescope.Db.Supernodes.Probes.{run_probes, last_success}
use lumescope.Tests.Collation.{by_code}
use lumescope.Db.Supernodes.Paging.{
  selected as selected_supernodes, with_cursor as with_account_cursor, all_supernode_pages,
}

abbrev pub action : ℕ → ActionDb
action id = record {
  action_id = id;
  creator = "payer1";
  action_type = "ACTION_TYPE_CASCADE";
  state = "ACTION_STATE_DONE";
  block_height = pos 10;
  price_denom = "ulume";
  price_amount = "5";
  expiration_time = pos 0;
  metadata_raw = "";
  metadata_json = none;
  super_nodes = "node1" ∷ [];
  mime_type = "text/plain";
  size = pos 1024;
  created_at = 4;
}

abbrev actions : List ActionDb
actions = action 3 ∷ action 5 ∷ action 4 ∷ []

abbrev one_per_page : ActionsFilter
one_per_page = record {
  kind = some "ACTION_TYPE_CASCADE";
  creator = none;
  state = none;
  supernode = some "node1";
  from_height = some (pos 2);
  to_height = none;
  limit = pos 1;
  cursor_ts = none;
  cursor_id = none;
}

abbrev pub transaction : ℕ → String → ActionTransaction
transaction id kind = record {
  action_id = id;
  tx_type = kind;
  tx_hash = "A1";
  height = pos 12;
  block_time = 5;
  gas_wanted = none;
  gas_used = none;
  action_price = none;
  action_price_denom = none;
  flow_payer = none;
  flow_payee = none;
  tx_fee = none;
  tx_fee_denom = none;
  created_at = 0;
}

abbrev pub ports : Ports
ports = record { port1 = true; port1_num = pos 4444; p2p = true; p2p_port = pos 4445 }

abbrev pub node : String → Bool → Option MetricsReport → SupernodeDb
node account up report = record {
  supernode_account = account;
  validator_address = "val1";
  validator_moniker = "one";
  current_state = "SUPERNODE_STATE_ACTIVE";
  current_state_height = "8";
  ip_address = "10.0.0.1:4444";
  p2p_port = pos 4445;
  protocol_version = "1.0.0";
  actual_version = "2.4.0";
  cpu_usage_percent = none;
  cpu_cores = none;
  memory_total_gb = none;
  memory_used_gb = none;
  memory_usage_percent = none;
  storage_total_bytes = none;
  storage_used_bytes = none;
  storage_usage_percent = none;
  hardware_summary = none;
  peers_count = none;
  uptime_seconds = none;
  rank = none;
  registered_services = none;
  running_tasks = none;
  state_history = none;
  evidence = none;
  prev_ip_addresses = none;
  last_status_check = none;
  is_status_api_available = up;
  metrics_report = report;
  last_successful_probe = none;
  failed_probe_counter = 2;
  last_known_actual_version = none;
  p2p_db_size_mb = none;
  p2p_records = none;
}

abbrev probed_node : SupernodeDb
probed_node = node "node1" true (some (probed ports "{}"))

abbrev nodes : List SupernodeDb
nodes = probed_node ∷ node "node2" false none ∷ []

abbrev synced_node : SupernodeDb
synced_node = node "node1" false (some (aggregate "{}"))

sync_hides_supernode_example :
    (found : SupernodeDb) × (get_supernode_by_id "node1" (upsert_supernode synced_node nodes)
      ≡ some found)
    × (is_available found ≡ false)
    × (is_unavailable found ≡ false)
unfolding get_supernode_by_id
sync_hides_supernode_example =
    sync_hides_supernode synced_node probed_node "{}" nodes refl refl refl

abbrev probe : Bool → Time → SupernodeProbeUpdate
probe up time = record {
  supernode_account = "node1";
  actual_version = "2.4.1";
  cpu_usage_percent = none;
  cpu_cores = none;
  memory_total_gb = none;
  memory_used_gb = none;
  memory_usage_percent = none;
  storage_total_bytes = none;
  storage_used_bytes = none;
  storage_usage_percent = none;
  hardware_summary = none;
  peers_count = none;
  uptime_seconds = none;
  rank = none;
  p2p_db_size_mb = none;
  p2p_records = none;
  last_status_check = some time;
  is_status_api_available = up;
  metrics_report = some (probed ports "{}");
  probe_time_utc = time;
}

last_success_example :
    (last : SupernodeDb) × (get_supernode_by_id "node1"
        (run_probes ((probe false 5 ∷ []) ++ probe true 6 ∷ probe false 7 ∷ []) nodes)
      ≡ some last)
    × (last.failed_probe_counter ≡ 1)
    × (last.last_successful_probe ≡ some 6)
unfolding get_supernode_by_id
last_success_example =
    last_success "node1" (probe false 5 ∷ []) (probe true 6) (probe false 7 ∷ []) probed_node nodes
      refl refl refl (refl, tt)

abbrev failing_nodes : SupernodeMetricsFilter
failing_nodes = record {
  current_state = "running";
  chain_state = none;
  status = "";
  version = some "2.4.0";
  min_failed = pos 1;
  limit = pos 1;
  cursor_account = none;
}

pub different : ◌≢◌ {A = String} "node1" "node2"
different p = let e = (eq_iff "node1" "node2").1 p in ground arith

pub nodes-Distinct : Distinct account_key nodes
nodes-Distinct = ((different, tt), (tt, tt))

all_supernode_pages_example :
    walk account_key
      (λ c.
        list_supernode_metrics_filtered by_code
          (with_account_cursor by_code failing_nodes nodes c)
          nodes)
      3
      none
    ≡ selected_supernodes by_code failing_nodes nodes
unfolding by_code order_by lumescope.Db.Supernodes.Filter.matches
all_supernode_pages_example =
    all_supernode_pages by_code failing_nodes nodes 3 nodes-Distinct (omega arith)

abbrev registered_5 : ActionTransaction
registered_5 = transaction 5 "register"

abbrev registered_3 : ActionTransaction
registered_3 = transaction 3 "register"

abbrev finalized_3 : ActionTransaction
finalized_3 = record (transaction 3 "finalize") { height = pos 20 }

entry-get_action_transactions_by_action_ids_example :
    entry 3 (
      get_action_transactions_by_action_ids
        (5 ∷ 3 ∷ [])
        (registered_5 ∷ finalized_3 ∷ registered_3 ∷ []))
    ≡ get_action_transactions 3 (finalized_3 ∷ registered_5 ∷ registered_3 ∷ [])
entry-get_action_transactions_by_action_ids_example =
    entry-get_action_transactions_by_action_ids 3 (5 ∷ 3 ∷ [])
      (finalized_3 ∷ registered_5 ∷ registered_3 ∷ [])
      (registered_5 ∷ finalized_3 ∷ registered_3 ∷ []) (swap finalized_3 registered_5 _)
      (((λ e. cc e), tt), (tt, tt))
