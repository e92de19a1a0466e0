-- ===== src/Tests/System.antt =====
-- A few writes of the passes, on concrete inputs.
use lumescope.Prelude.{[]}
use lumescope.Background.System.{Tables, no_rows, sync_supernode, sync_action, Reach, here, next}
use lumescope.Background.System.Invariant.{IsSound, Reach-IsSound}
use lumescope.Background.Sync.{store_supernode, store_action}
use lumescope.Tests.Sync.{env, supernode, chain_action}

-- the tables after one supernode, and after one action as well
abbrev one_supernode : Tables
one_supernode = record no_rows {
  supernodes = store_supernode env [] (supernode "node1") no_rows.supernodes;
}

abbrev one_of_each : Tables
one_of_each = record one_supernode {
  actions = store_action env (chain_action "7") one_supernode.actions;
}

one_of_each-Reach : Reach no_rows one_of_each
one_of_each-Reach =
    next (next here (sync_supernode env [] (supernode "node1") no_rows))
      (sync_action env (chain_action "7") one_supernode)

Reach-IsSound_example : IsSound one_of_each
Reach-IsSound_example = Reach-IsSound one_of_each-Reach
