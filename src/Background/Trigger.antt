-- ===== src/Background/Trigger.antt =====
-- internal/background/scheduler.go: TriggerSyncAndProbe, its flag under the mutex and the goroutine
-- that it starts. Each critical section is one step; goroutines interleave at will.
pub mod Safety
use lumescope.Prelude.{Bool, true, false, ◌≡◌, List, [], ◌∷◌, ◌++◌, if◌then◌else◌}

-- where a started goroutine stands: in syncSupernodes, in probeSupernodes, or in its deferred
-- function before the lock
pub data Phase : Type 0 where
  syncing probing leaving : Phase

pub record Runner : Type 0 where
  pub sync_running : Bool
  pub jobs : List Phase

abbrev pub idle : Runner
idle = record { sync_running = false; jobs = [] }

-- the new state, and whether a run was started
unfoldable pub trigger_sync_and_probe : Runner → Runner × Bool
trigger_sync_and_probe r =
    if r.sync_running
    then (r, false)
    else (record { sync_running = true; jobs = syncing ∷ r.jobs }, true)

-- syncSupernodes or probeSupernodes returns, with or without an error. Nothing says that it does:
-- while it runs, the goroutine takes no step.
pub data Returns : Phase → Phase → Type 0 where
  sync_returns : Returns syncing probing
  probe_returns : Returns probing leaving

-- the deferred function clears the flag, and the goroutine ends
pub finish : Runner → List Phase → Runner
finish r rest = record { sync_running = false; jobs = rest }

pub data Step : Runner → Runner → Type 0 where
  request : (r : Runner) → Step r (trigger_sync_and_probe r).0
  advance :
      (r : Runner) (before after : List Phase) (p q : Phase)
      → r.jobs ≡ before ++ p ∷ after
      → Returns p q
      → Step r (record r { jobs = before ++ q ∷ after })
  leave :
      (r : Runner) (before after : List Phase)
      → r.jobs ≡ before ++ leaving ∷ after
      → Step r (finish r (before ++ after))

pub data Reach (r : Runner) : Runner → Type 0 where
  here : Reach r r
  next : {s t : Runner} → Reach r s → Step s t → Reach r t
