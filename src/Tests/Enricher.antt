-- ===== src/Tests/Enricher.antt =====
-- The enricher on concrete inputs.
use lumescope.Prelude.{
  ℕ, String, ◌≡◌, refl, true, false, ◌||◌, ◌&&◌, ◌==◌, nat_eq, string_eq, any, length, nat_beq,
  none, List, [], ◌∷◌, arith, map,
}
use lumescope.Prelude.Int.{pos}
use lumescope.Db.Types.{ActionDb, Action}
use lumescope.Db.Transactions.{has_transaction, to_action, is_unenriched, unenriched}
use lumescope.Db.Keyset.Order.{Distinct}
use lumescope.Db.Actions.{action_key}
use lumescope.Lumera.Tx.{Chain, get_action_transactions}
use lumescope.Background.Enricher.{
  Env, World, enrich, enrich_all, completed, run_action_tx_enricher,
}
use lumescope.Background.Enricher.Step.{enrich-other, enrich_records, outage_marks_action}
use lumescope.Background.Enricher.Run.{enricher_run}

abbrev row : ℕ → ActionDb
row id = record {
  action_id = id;
  creator = "payer1";
  action_type = "ACTION_TYPE_CASCADE";
  state = "ACTION_STATE_DONE";
  block_height = pos 10;
  price_denom = "ulume";
  price_amount = "5";
  expiration_time = pos 0;
  metadata_raw = "";
  metadata_json = none;
  super_nodes = "node1" ∷ [];
  mime_type = "text/plain";
  size = pos 1024;
  created_at = 4;
}

abbrev rows : List ActionDb
rows = row 5 ∷ row 3 ∷ []

rows-Distinct : Distinct action_key rows
rows-Distinct = ((ground arith, tt), (tt, tt))

-- a chain that is down
abbrev no_chain : Chain
no_chain = record {
  decode_message = λ m. none;
  parse_time = λ t. none;
  module_account = none;
  search_txs = λ kind id. none;
}

abbrev env : Env
env = record {
  now = 9;
  chain = λ id. no_chain;
  query_succeeds = λ n. true;
  write_succeeds = λ t. true;
}

abbrev world : World
world = record {
  txs = [];
  client = record { action_module_addr = ""; module_addr_fetched = false };
}

abbrev action_3 : Action
action_3 = record {
  action_id = 3;
  creator = "payer1";
  action_type = "ACTION_TYPE_CASCADE";
  state = "ACTION_STATE_DONE";
  supernode_account = "node1";
  created_at = 4;
}

enrich-other_example :
    has_transaction (enrich env action_3 world).txs 5 "register" ≡ has_transaction [] 5 "register"
enrich-other_example = enrich-other env action_3 world 5 "register" (ground arith)

enrich_records_example :
    let found = (get_action_transactions no_chain world.client action_3).0 in
    has_transaction (enrich env action_3 world).txs 3 "register" ≡ (
      (any (λ t. t.action_id == 3 && t.tx_type == "register") found
        || (nat_beq (length found) 0
            && (action_3.action_id == 3 && ◌==◌ {A = String} "register" "register")))
      || has_transaction [] 3 "register")
enrich_records_example = enrich_records env (λ t. refl) action_3 world 3 "register"

outage_marks_action_example :
    is_unenriched (enrich env (to_action (row 3)) world).txs 1 (row 3) ≡ false
outage_marks_action_example = outage_marks_action env (row 3) world 1 (λ t. refl) (λ kind. refl)

enricher_run_example :
    run_action_tx_enricher 3 env rows 1 world
    ≡ completed (enrich_all env (map to_action (unenriched [] 1 rows)) world)
unfolding unenriched lumescope.Db.Keyset.order_by has_transaction
enricher_run_example =
    enricher_run env rows 3 1 world rows-Distinct (omega arith, (omega arith, tt)) (λ n. refl)
      (omega arith)
