-- ===== src/Background/Probe/Laws.antt =====
-- What a pass of probes leaves for the filters and the counters of a supernode.
use lumescope.Prelude.{
  ◌+◌, String, ◌≡◌, refl, ap, ◌∙◌, true, not, ◌&&◌, some, List, [], ◌∷◌, ◌==◌, string_eq, arith,
  map, Bool, Bool-cases, inl, inr,
}
use lumescope.Prelude.Int.{ℤ, pos}
use lumescope.Db.Types.{SupernodeDb, ProbeTarget, SupernodeProbeUpdate, Ports, Json, probed}
use lumescope.Db.Sql.{holds, is_not_true, or_null}
use lumescope.Db.Keyset.Order.{Distinct}
use lumescope.Db.Supernodes.{probe_row, get_supernode_by_id}
use lumescope.Db.Supernodes.Filter.{account_key, is_available, is_unavailable}
use lumescope.Db.Supernodes.Probes.{on_row}
use lumescope.Background.Probe.Status.{fetch_status, unavailable_status}
use lumescope.Background.Probe.{
  Net, probe_address, probe_update, probe_supernodes, p2p_port_or_default,
}
use lumescope.Background.Probe.Rows.{
  target_of, probed_row, probed_row-account, probe_supernodes_lem,
}

get-map :
    (f : SupernodeDb → SupernodeDb) (account : String)
    → ((row : SupernodeDb) → (f row).supernode_account ≡ row.supernode_account)
    → (rows : List SupernodeDb)
    → get_supernode_by_id account (map f rows) ≡ on_row f (get_supernode_by_id account rows)
unfolding get_supernode_by_id
get-map f account h [] = refl
get-map f account h (row ∷ rows) = elim (Bool-cases (row.supernode_account == account)) [
  | inl e ↦ rw (ap (λ a. a == account) (h row) ∙ e, e)
  | inr e ↦ rw (ap (λ a. a == account) (h row) ∙ e, e) (get-map f account h rows)
]

or_not :
    (a b c : Bool)
    → holds (or_null (or_null (some (not a)) (is_not_true (some b))) (is_not_true (some c)))
      ≡ not (a && (b && c))
or_not a b c = ground arith

module _ (p : SupernodeProbeUpdate) (row : SupernodeDb) (ports : Ports) (status : Json) where
  report_kept : (probe_row p row).metrics_report ≡ p.metrics_report
  unfolding probe_row
  report_kept = ground arith

  status_kept : (probe_row p row).is_status_api_available ≡ p.is_status_api_available
  unfolding probe_row
  status_kept = ground arith

  row_decided :
      p.metrics_report ≡ some (probed ports status)
      → (is_available (probe_row p row) ≡ (p.is_status_api_available && (ports.port1 && ports.p2p)))
        × (is_unavailable (probe_row p row) ≡ not (is_available (probe_row p row)))
  unfolding is_available is_unavailable
  row_decided h = (
    rw (status_kept, report_kept ∙ h),
    rw (status_kept, report_kept ∙ h) (or_not p.is_status_api_available ports.port1 ports.p2p),
  )

module _ (nets : ProbeTarget → Net) where
  get-probe_supernodes :
      (account : String) (rows : List SupernodeDb) (row : SupernodeDb)
      → Distinct account_key rows
      → get_supernode_by_id account rows ≡ some row
      → get_supernode_by_id account (probe_supernodes true nets rows) ≡ some (probed_row nets row)
  get-probe_supernodes account rows row d found =
      ap (get_supernode_by_id account) (probe_supernodes_lem nets true rows d)
      ∙ get-map (probed_row nets) account (probed_row-account nets) rows
      ∙ ap (on_row (probed_row nets)) found

  -- Where each account has one row, a pass that can list its targets, has an address for a supernode
  -- and can write its update decides its availability: afterwards its row is available exactly if its status API and both of
  -- its ports answered, and unavailable exactly if it is not available.
  pub pass_decides :
      (account : String) (rows : List SupernodeDb) (row : SupernodeDb) (host : String) (port1 : ℤ)
      → Distinct account_key rows
      → get_supernode_by_id account rows ≡ some row
      → probe_address (nets (target_of row)) (target_of row) ≡ some (host, port1)
      → (nets (target_of row)).update_succeeds
          (probe_update (nets (target_of row)) (target_of row) (host, port1))
        ≡ true
      → (last : SupernodeDb) × (get_supernode_by_id account (probe_supernodes true nets rows)
          ≡ some last)
        × (is_available last ≡ (
            (fetch_status (nets (target_of row)).status_api host).available
            && ((nets (target_of row)).tcp_open host port1
                && (nets (target_of row)).tcp_open host (p2p_port_or_default row.p2p_port))))
        × (is_unavailable last ≡ not (is_available last))
  unfolding is_available is_unavailable probe_update
  pass_decides account rows row host port1 d found address written =
      let net = nets (target_of row) in
      let p = probe_update net (target_of row) (host, port1) in
      let decided = row_decided p row _ _ refl in
      let own : probed_row nets row ≡ probe_row p row = rw (address, written) in
      (
        probe_row p row,
        get-probe_supernodes account rows row d found ∙ ap some own,
        decided.0,
        decided.1,
      )

  -- Where each account has one row, a pass that can list its targets, has an address for a supernode
  -- and can write its update, but gets no status from it, adds one to the row's counter of failures, keeps its actual version
  -- and the time of the last success, and sets the measurements to zero.
  pub unanswered_pass :
      (account : String) (rows : List SupernodeDb) (row : SupernodeDb) (host : String) (port1 : ℤ)
      → Distinct account_key rows
      → get_supernode_by_id account rows ≡ some row
      → probe_address (nets (target_of row)) (target_of row) ≡ some (host, port1)
      → (nets (target_of row)).update_succeeds
          (probe_update (nets (target_of row)) (target_of row) (host, port1))
        ≡ true
      → fetch_status (nets (target_of row)).status_api host ≡ unavailable_status
      → (last : SupernodeDb) × (get_supernode_by_id account (probe_supernodes true nets rows)
          ≡ some last)
        × (last.failed_probe_counter ≡ row.failed_probe_counter + 1)
        × (last.actual_version ≡ row.actual_version)
        × (last.last_successful_probe ≡ row.last_successful_probe)
        × (last.storage_total_bytes ≡ some (pos 0))
        × (last.cpu_cores ≡ some (pos 0))
  unfolding probe_update probe_row
  unanswered_pass account rows row host port1 d found address written down =
      let net = nets (target_of row) in
      let p = probe_update net (target_of row) (host, port1) in
      let own : probed_row nets row ≡ probe_row p row = rw (address, written) in
      (
        probe_row p row,
        get-probe_supernodes account rows row d found ∙ ap some own,
        rw down,
        rw down,
        rw down,
        rw down,
        rw down,
      )
