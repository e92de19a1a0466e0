-- ===== src/Background/Enricher.antt =====
-- internal/background/scheduler.go: one run of the action transaction enricher.
-- No other writer is modelled during a run. The clock is read once. Which queries and which writes
-- fail, and what the chain answers for each action, are parameters; an action is asked for once.
pub mod Step
pub mod Batch
pub mod Run
use lumescope.Prelude.{
  ℕ, zero, suc, ◌+◌, ◌%◌, ◌^◌, String, Bool, Option, none, some, List, [], ◌∷◌, last?, length, ltb,
  if◌then◌else◌,
}
use lumescope.Prelude.Int.{pos}
use lumescope.Db.Types.{Time, ActionDb, ActionTransaction, Action}
use lumescope.Db.Transactions.{upsert_transaction, get_unenriched_actions}
use lumescope.Lumera.Tx.{Chain, Client, get_action_transactions}

pub record Env : Type 0 where
  pub now : Time
  pub chain : ℕ → Chain
  pub query_succeeds : ℕ → Bool
  pub write_succeeds : ActionTransaction → Bool

-- what a run changes: the table of transactions and the client's cache
pub record World : Type 0 where
  pub txs : List ActionTransaction
  pub client : Client

abbrev pub placeholder_hash : String
placeholder_hash = "_NO_TX_FOUND_"

abbrev pub placeholder : Action → ActionTransaction
placeholder action = record {
  action_id = action.action_id;
  tx_type = "register";
  tx_hash = placeholder_hash;
  height = pos 0;
  block_time = action.created_at;
  gas_wanted = none;
  gas_used = none;
  action_price = none;
  action_price_denom = none;
  flow_payer = none;
  flow_payee = none;
  tx_fee = none;
  tx_fee_denom = none;
  created_at = 0;
}

-- an error of the write is logged, and the loop goes on
unfoldable pub write : Env → ActionTransaction → List ActionTransaction → List ActionTransaction
write env t txs = if env.write_succeeds t then upsert_transaction env.now t txs else txs

write_all : Env → List ActionTransaction → List ActionTransaction → List ActionTransaction
unfolding write
write_all env [] txs = txs
write_all env (t ∷ ts) txs = write_all env ts (write env t txs)

-- the rows to write for an action: those found, or the placeholder
abbrev pub found_or_placeholder : Action → List ActionTransaction → List ActionTransaction
found_or_placeholder action [] = placeholder action ∷ []
found_or_placeholder action (t ∷ ts) = t ∷ ts

-- the body of the loop over a batch
unfoldable pub enrich : Env → Action → World → World
unfolding write_all
enrich env action w =
    let (found, client) = get_action_transactions (env.chain action.action_id) w.client action in
    record { txs = write_all env (found_or_placeholder action found) w.txs; client = client }

unfoldable pub enrich_all : Env → List Action → World → World
enrich_all env [] w = w
enrich_all env (a ∷ rest) w = enrich_all env rest (enrich env a w)

-- `minID = action.ActionID + 1` on a uint64, after the last action of a batch
unfoldable pub next_id : ℕ → List Action → ℕ
next_id min_id batch = elim (last? batch) [ none ↦ min_id | some a ↦ (a.action_id + 1) % 2 ^ 64 ]

abbrev pub batch_size : ℕ
batch_size = 50

-- `failed` is the error of a query; `out_of_fuel` is not a result of the code
pub data Outcome : Type 0 where
  completed failed : World → Outcome
  out_of_fuel : Outcome

-- an empty batch ends the run, and so does a short one after it has been worked through
abbrev pub after_batch : List Action → World → World → Outcome → Outcome
after_batch [] w w' later = completed w
after_batch (a ∷ rest) w w' later =
    if ltb (length (a ∷ rest)) batch_size then completed w' else later

-- the loop over the batches; `n` counts them
unfoldable pub run_batches : ℕ → Env → List ActionDb → ℕ → ℕ → World → Outcome
unfolding next_id
run_batches zero env rows n min_id w = out_of_fuel
run_batches (suc fuel) env rows n min_id w =
    let batch = get_unenriched_actions w.txs min_id (pos batch_size) rows in
    let w' = enrich_all env batch w in
    let later = run_batches fuel env rows (n + 1) (next_id min_id batch) w' in
    if env.query_succeeds n then after_batch batch w w' later else failed w

unfoldable pub run_action_tx_enricher : ℕ → Env → List ActionDb → ℕ → World → Outcome
run_action_tx_enricher fuel env rows start_id w = run_batches fuel env rows 1 start_id w
