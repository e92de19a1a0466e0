-- ===== src/Background/System/Invariant.antt =====
-- What every interleaving of the passes keeps of the tables.
use lumescope.Prelude.{
  ℕ, String, ◌≡◌, refl, sym, subst, Option, none, some, List, [], ◌∷◌, All, if-has, map,
}
use lumescope.Prelude.Int.{ℤ}
use lumescope.Strconv.{parse_uint, ok?}
use lumescope.Db.Types.{ActionDb, ActionTransaction, SupernodeDb, ProbeTarget}
use lumescope.Db.Keyset.Order.{Distinct}
use lumescope.Db.Actions.{action_key, upsert_action}
use lumescope.Db.Actions.Rows.{upsert_action-Distinct}
use lumescope.Db.Supernodes.Filter.{account_key}
use lumescope.Db.Supernodes.{upsert_supernode}
use lumescope.Db.Supernodes.Keys.{
  upsert_supernode-Distinct, map-Distinct, IsProbedRow, upsert_supernode-IsProbedRow,
  probe_row-IsProbedRow,
}
use lumescope.Db.Transactions.{upsert_transaction}
use lumescope.Db.Transactions.Laws.{Unique, upsert_transaction-Unique}
use lumescope.Background.Sync.{
  Env, Supernode, ChainAction, Monikers, supernode_record, action_record, store_supernode,
  store_action, store_parsed,
}
use lumescope.Background.Probe.{Net, probe_address, probe_update, probe_target}
use lumescope.Background.Probe.Rows.{probed_with, probed_with-account, touch, store_probe-map}
use lumescope.Background.Enricher.{Env as EnricherEnv, write}
use lumescope.Background.System.{
  Tables, no_rows, Step, sync_supernode, sync_action, probe, enrich, Reach, here, next,
}

-- The keys of the three tables are unique, and a supernode's last known version is not empty and has the time
-- of a successful probe beside it.
pub record IsSound (t : Tables) : Type 0 where
  pub action_ids : Distinct action_key t.actions
  pub accounts : Distinct account_key t.supernodes
  pub transaction_keys : Unique t.transactions
  pub probed_rows : All IsProbedRow t.supernodes

-- the two conditions on the table of supernodes
abbrev IsSoundTable : List SupernodeDb → Type 0
IsSoundTable rows = Distinct account_key rows × All IsProbedRow rows

store_supernode-IsSoundTable :
    (env : Env) (monikers : Monikers) (sn : Supernode) (rows : List SupernodeDb)
    → IsSoundTable rows
    → IsSoundTable (store_supernode env monikers sn rows)
unfolding store_supernode
store_supernode-IsSoundTable env monikers sn rows h =
    let rec = supernode_record env monikers sn in
    if-has IsSoundTable (env.supernode_write_succeeds rec) (upsert_supernode rec rows) rows
      (λ _. (upsert_supernode-Distinct rec rows h.0, upsert_supernode-IsProbedRow rec rows h.1))
      (λ _. h)

store_parsed-Distinct :
    (env : Env) (a : ChainAction) (id : Option ℕ) (rows : List ActionDb)
    → Distinct action_key rows
    → Distinct action_key (store_parsed env a id rows)
unfolding store_parsed
store_parsed-Distinct env a none rows h = h
store_parsed-Distinct env a (some id) rows h =
    let rec = action_record env a id in
    if-has (Distinct action_key) (env.action_write_succeeds rec) (upsert_action env.now rec rows)
      rows (λ _. upsert_action-Distinct env.now rec rows h) (λ _. h)

probed_with-IsProbedRow :
    (net : Net) (t : ProbeTarget) (address : Option (String × ℤ)) (row : SupernodeDb)
    → IsProbedRow row
    → IsProbedRow (probed_with net t address row)
probed_with-IsProbedRow net t none row h = h
probed_with-IsProbedRow net t (some address) row h =
    if-has IsProbedRow (net.update_succeeds (probe_update net t address)) _ _
      (λ _. probe_row-IsProbedRow (probe_update net t address) row h) (λ _. h)

All-touched :
    (f : SupernodeDb → SupernodeDb) (account : String)
    → ((row : SupernodeDb) → IsProbedRow row → IsProbedRow (f row))
    → (rows : List SupernodeDb) → All IsProbedRow rows
    → All IsProbedRow (map (touch f account) rows)
All-touched f account kept [] h = tt
All-touched f account kept (row ∷ rows) h = (
  if-has IsProbedRow _ (f row) row (λ _. kept row h.0) (λ _. h.0),
  All-touched f account kept rows h.1,
)

touch-account :
    (f : SupernodeDb → SupernodeDb) (account : String)
    → ((row : SupernodeDb) → (f row).supernode_account ≡ row.supernode_account)
    → (row : SupernodeDb) → (touch f account row).supernode_account ≡ row.supernode_account
touch-account f account same row =
    if-has (λ (r : SupernodeDb). r.supernode_account ≡ row.supernode_account) _ (f row) row
      (λ _. same row) (λ _. refl)

probe_target-IsSoundTable :
    (net : Net) (t : ProbeTarget) (rows : List SupernodeDb)
    → IsSoundTable rows
    → IsSoundTable (probe_target net t rows)
unfolding probe_target
probe_target-IsSoundTable net t rows h =
    let address = probe_address net t in
    let f = probed_with net t address in
    subst IsSoundTable (sym (store_probe-map net t address rows)) (
      map-Distinct (touch f t.supernode_account)
          (touch-account f t.supernode_account (probed_with-account net t address)) rows h.0,
      All-touched f t.supernode_account (probed_with-IsProbedRow net t address) rows h.1,
    )

write-Unique :
    (env : EnricherEnv) (tx : ActionTransaction) (rows : List ActionTransaction)
    → Unique rows
    → Unique (write env tx rows)
unfolding write
write-Unique env tx rows h =
    if-has Unique (env.write_succeeds tx) (upsert_transaction env.now tx rows) rows
      (λ _. upsert_transaction-Unique env.now tx rows h) (λ _. h)

step-IsSound : {s t : Tables} → Step s t → IsSound s → IsSound t
unfolding store_action
step-IsSound (sync_supernode env monikers sn s) h =
    let kept =
      store_supernode-IsSoundTable env monikers sn s.supernodes (h.accounts, h.probed_rows) in
    record {
      action_ids = h.action_ids;
      accounts = kept.0;
      transaction_keys = h.transaction_keys;
      probed_rows = kept.1;
    }
step-IsSound (sync_action env a s) h =
    let kept = store_parsed-Distinct env a (ok? (parse_uint a.action_id)) s.actions h.action_ids in
    record {
      action_ids = kept;
      accounts = h.accounts;
      transaction_keys = h.transaction_keys;
      probed_rows = h.probed_rows;
    }
step-IsSound (probe net target s) h =
    let kept = probe_target-IsSoundTable net target s.supernodes (h.accounts, h.probed_rows) in
    record {
      action_ids = h.action_ids;
      accounts = kept.0;
      transaction_keys = h.transaction_keys;
      probed_rows = kept.1;
    }
step-IsSound (enrich env tx s) h =
    let kept = write-Unique env tx s.transactions h.transaction_keys in
    record {
      action_ids = h.action_ids;
      accounts = h.accounts;
      transaction_keys = kept;
      probed_rows = h.probed_rows;
    }

-- From empty tables, whatever the chain and the network answer and in whatever order the writes of
-- the syncs, the probes and the enricher come: no two actions have one id, no two supernodes one
-- account, no two transactions one action and type, and a supernode's last known version is never
-- empty and always comes with the time of a successful probe.
pub Reach-IsSound : {t : Tables} → Reach no_rows t → IsSound t
Reach-IsSound here = record {
  action_ids = tt;
  accounts = tt;
  transaction_keys = tt;
  probed_rows = tt;
}
Reach-IsSound (next r s) = step-IsSound s (Reach-IsSound r)
