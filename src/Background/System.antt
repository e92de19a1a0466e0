-- ===== src/Background/System.antt =====
-- internal/background: Start and TriggerSyncAndProbe run their passes in goroutines of their own,
-- over the same tables. Each write of a pass is one statement, and those of different passes come
-- in any order: a step is one write, with whatever the chain, the network and the pass gave it.
pub mod Invariant
use lumescope.Prelude.{List, []}
use lumescope.Db.Types.{ActionDb, ActionTransaction, SupernodeDb, ProbeTarget}
use lumescope.Background.Sync.{Env, Supernode, ChainAction, Monikers, store_supernode, store_action}
use lumescope.Background.Probe.{Net, probe_target}
use lumescope.Background.Enricher.{Env as EnricherEnv, write}

pub record Tables : Type 0 where
  pub actions : List ActionDb
  pub supernodes : List SupernodeDb
  pub transactions : List ActionTransaction

abbrev pub no_rows : Tables
no_rows = record { actions = []; supernodes = []; transactions = [] }

pub data Step : Tables → Tables → Type 0 where
  sync_supernode :
      (env : Env) (monikers : Monikers) (sn : Supernode) (t : Tables)
      → Step t (record t { supernodes = store_supernode env monikers sn t.supernodes })
  sync_action :
      (env : Env) (a : ChainAction) (t : Tables)
      → Step t (record t { actions = store_action env a t.actions })
  probe :
      (net : Net) (target : ProbeTarget) (t : Tables)
      → Step t (record t { supernodes = probe_target net target t.supernodes })
  enrich :
      (env : EnricherEnv) (tx : ActionTransaction) (t : Tables)
      → Step t (record t { transactions = write env tx t.transactions })

pub data Reach (start : Tables) : Tables → Type 0 where
  here : Reach start start
  next : {s t : Tables} → Reach start s → Step s t → Reach start t
