-- ===== src/Db/Supernodes/Probes.antt =====
-- What a series of probes leaves in a supernode's row.
use lumescope.Prelude.{
  ◌+◌, String, ◌≡◌, refl, sym, ap, ◌∙◌, true, false, Option, none, some, List, [], ◌∷◌, ◌++◌, ◌==◌,
  string_eq, eq_iff, arith, All, filter, length, if◌then◌else◌, Bool-cases, inl, inr,
}
use lumescope.Db.Types.{SupernodeDb, SupernodeProbeUpdate}
use lumescope.Db.Supernodes.Rows.{other_account}
use lumescope.Db.Supernodes.{probe_row, update_supernode_probe_data, get_supernode_by_id}

-- The updates of a series of probes, one after the other.
pub run_probes : List SupernodeProbeUpdate → List SupernodeDb → List SupernodeDb
run_probes [] rows = rows
run_probes (p ∷ ps) rows = run_probes ps (update_supernode_probe_data p rows)

abbrev pub probes_of : String → List SupernodeProbeUpdate → List SupernodeProbeUpdate
probes_of account = filter (λ p. p.supernode_account == account)

abbrev touch : String → SupernodeProbeUpdate → SupernodeDb → SupernodeDb
touch account p row = if p.supernode_account == account then probe_row p row else row

abbrev pub on_row : (SupernodeDb → SupernodeDb) → Option SupernodeDb → Option SupernodeDb
on_row f none = none
on_row f (some row) = some (f row)

pub probe_row-account :
    (p : SupernodeProbeUpdate) (row : SupernodeDb)
    → (probe_row p row).supernode_account ≡ row.supernode_account
unfolding probe_row
probe_row-account p row = ground arith

same_account : (a b c : String) → (a == c) ≡ true → (a == b) ≡ true → (b == c) ≡ true
same_account a b c y e = (eq_iff b c).1 (sym ((eq_iff a b).0 e) ∙ (eq_iff a c).0 y)

get-update :
    (account : String) (p : SupernodeProbeUpdate) (rows : List SupernodeDb)
    → get_supernode_by_id account (update_supernode_probe_data p rows)
      ≡ on_row (touch account p) (get_supernode_by_id account rows)
unfolding get_supernode_by_id update_supernode_probe_data
get-update account p [] = refl
get-update account p (row ∷ rows) = elim (Bool-cases (row.supernode_account == account)) [
  | inl y ↦
      let found = ap (λ a. a == account) (probe_row-account p row) ∙ y in
      elim (Bool-cases (row.supernode_account == p.supernode_account)) [
        | inl e ↦
            rw (e, y, found, same_account row.supernode_account p.supernode_account account y e)
        | inr e ↦ rw (e, y, other_account row.supernode_account p.supernode_account account y e)
      ]
  | inr n ↦
      let missed = ap (λ a. a == account) (probe_row-account p row) ∙ n in
      elim (Bool-cases (row.supernode_account == p.supernode_account)) [
        | inl e ↦ rw (e, n, missed) (get-update account p rows)
        | inr e ↦ rw (e, n) (get-update account p rows)
      ]
]

abbrev pub IsMissed : SupernodeProbeUpdate → Type 0
IsMissed p = p.is_status_api_available ≡ false

module _ (p : SupernodeProbeUpdate) (row : SupernodeDb) where
  counter_failed :
      IsMissed p → (probe_row p row).failed_probe_counter ≡ row.failed_probe_counter + 1
  unfolding probe_row
  counter_failed h = ground arith

  success_failed : IsMissed p → (probe_row p row).last_successful_probe ≡ row.last_successful_probe
  unfolding probe_row
  success_failed h = ground arith

  version_failed :
      IsMissed p → (probe_row p row).last_known_actual_version ≡ row.last_known_actual_version
  unfolding probe_row
  version_failed h = ground arith

  counter_passed : p.is_status_api_available ≡ true → (probe_row p row).failed_probe_counter ≡ 0
  unfolding probe_row
  counter_passed h = ground arith

  success_passed :
      p.is_status_api_available ≡ true
      → (probe_row p row).last_successful_probe ≡ some p.probe_time_utc
  unfolding probe_row
  success_passed h = ground arith

module _ (account : String) where
  -- For an account that has a row: probes of it that all failed add their number to the counter of
  -- the row, and leave the time of the last success and the last known version as they were.
  -- Probes of other accounts in between change nothing.
  pub failed_probes :
      (ps : List SupernodeProbeUpdate) (row : SupernodeDb) (rows : List SupernodeDb)
      → get_supernode_by_id account rows ≡ some row
      → All IsMissed (probes_of account ps)
      → (last : SupernodeDb) × (get_supernode_by_id account (run_probes ps rows) ≡ some last)
        × (last.failed_probe_counter ≡ row.failed_probe_counter + length (probes_of account ps))
        × (last.last_successful_probe ≡ row.last_successful_probe)
        × (last.last_known_actual_version ≡ row.last_known_actual_version)
  unfolding run_probes
  failed_probes [] row rows h all = (row, h, omega arith, refl, refl)
  failed_probes (p ∷ ps) row rows h all =
      let step = get-update account p rows ∙ ap (on_row (touch account p)) h in
      elim (Bool-cases (p.supernode_account == account)) [
        | inl e ↦
            let fails : IsMissed p × All IsMissed (probes_of account ps) = rw e at all in
            let (last, found, counter, success, version) =
              failed_probes ps (probe_row p row) (update_supernode_probe_data p rows) (step ∙ rw e)
                fails.1 in
            (
              last,
              found,
              rw e (omega (arith, counter, counter_failed p row fails.0)),
              success ∙ success_failed p row fails.0,
              version ∙ version_failed p row fails.0,
            )
        | inr e ↦
            let fails : All IsMissed (probes_of account ps) = rw e at all in
            let (last, found, counter, success, version) =
              failed_probes ps row (update_supernode_probe_data p rows) (step ∙ rw e) fails in
            (last, found, rw e counter, success, version)
      ]

  run_probes-append :
      (ps qs : List SupernodeProbeUpdate) (rows : List SupernodeDb)
      → run_probes (ps ++ qs) rows ≡ run_probes qs (run_probes ps rows)
  unfolding run_probes
  run_probes-append [] qs rows = refl
  run_probes-append (p ∷ ps) qs rows = run_probes-append ps qs (update_supernode_probe_data p rows)

  run_probes-found :
      (ps : List SupernodeProbeUpdate) (row : SupernodeDb) (rows : List SupernodeDb)
      → get_supernode_by_id account rows ≡ some row
      → (last : SupernodeDb) × (get_supernode_by_id account (run_probes ps rows) ≡ some last)
  unfolding run_probes
  run_probes-found [] row rows h = (row, h)
  run_probes-found (p ∷ ps) row rows h =
      run_probes-found ps (touch account p row) (update_supernode_probe_data p rows)
        (get-update account p rows ∙ ap (on_row (touch account p)) h)

  -- For an account that has a row: after a series of probes in which one of it succeeded and all
  -- later ones of it failed, the row ends with the number of these failures in its counter
  -- and the time of that success, whatever came before.
  pub last_success :
      (before_it : List SupernodeProbeUpdate) (p : SupernodeProbeUpdate)
      → (after_it : List SupernodeProbeUpdate) (row : SupernodeDb) (rows : List SupernodeDb)
      → get_supernode_by_id account rows ≡ some row
      → (p.supernode_account == account) ≡ true
      → p.is_status_api_available ≡ true
      → All IsMissed (probes_of account after_it)
      → (last : SupernodeDb) × (get_supernode_by_id account
            (run_probes (before_it ++ p ∷ after_it) rows)
          ≡ some last)
        × (last.failed_probe_counter ≡ length (probes_of account after_it))
        × (last.last_successful_probe ≡ some p.probe_time_utc)
  unfolding run_probes
  last_success before_it p after_it row rows h own up fails =
      let (mid, at_mid) = run_probes-found before_it row rows h in
      let table = run_probes before_it rows in
      let at_p : get_supernode_by_id account (update_supernode_probe_data p table)
          ≡ some (probe_row p mid) =
        get-update account p table ∙ ap (on_row (touch account p)) at_mid ∙ rw own in
      let (last, found, counter, success, version) =
        failed_probes after_it (probe_row p mid) (update_supernode_probe_data p table) at_p fails in
      (
        last,
        ap (get_supernode_by_id account) (run_probes-append before_it (p ∷ after_it) rows) ∙ found,
        omega (arith, counter, counter_passed p mid up),
        success ∙ success_passed p mid up,
      )
