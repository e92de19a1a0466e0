-- ===== src/Tests/Sync.antt =====
-- The syncs on concrete inputs.
use lumescope.Prelude.{
  String, ◌≡◌, refl, true, none, some, [], ◌∷◌, ◌++◌, ◌==◌, string_eq, arith, if◌then◌else◌,
}
use lumescope.Db.Supernodes.{get_supernode_by_id}
use lumescope.Db.Supernodes.Rows.{stored}
use lumescope.Db.Actions.{get_action_by_id}
use lumescope.Db.Actions.Rows.{stored as stored_action}
use lumescope.Background.Feed.{state_of, Serves, last_page, more_pages}
use lumescope.Background.Sync.{
  Env, Supernode, ChainAction, supernode_record, sync_supernodes, action_record, sync_actions,
  sync_validators, get_moniker_for,
}
use lumescope.Background.Sync.Laws.{sync_supernodes-listed, sync_actions-listed}
use lumescope.Background.Sync.Monikers.{sync_validators_lem}

abbrev pub supernode : String → Supernode
supernode account = record {
  validator_address = "val1";
  states = record { state = "SUPERNODE_STATE_ACTIVE"; height = "8" } ∷ [];
  evidence = "[]";
  prev_ip_addresses = record { address = "10.0.0.1:4444"; height = "8" } ∷ [];
  note = "";
  metrics = "{}";
  supernode_account = account;
  p2p_port_str = "4445";
}

abbrev pub chain_action : String → ChainAction
chain_action id = record {
  creator = "payer1";
  action_id = id;
  action_type = "ACTION_TYPE_CASCADE";
  metadata_b64 = "";
  price = record { denom = "ulume"; amount = "5" };
  expiration_time = "";
  state = "ACTION_STATE_DONE";
  block_height = "12";
  super_nodes = [];
  file_size_kbs = "3";
}

-- a chain with two pages of supernodes, and one page of actions and validators
abbrev pub env : Env
env = record {
  now = 9;
  get_validators = λ key. some (record { operator_address = "val1"; moniker = "one" } ∷ [], "");
  get_supernodes = λ key.
      if key == "" then some (supernode "node1" ∷ [], "p2") else some (supernode "node2" ∷ [], "");
  get_actions = λ key. some (chain_action "x" ∷ chain_action "7" ∷ [], "");
  decode_action_metadata = λ kind b64. ("", none);
  type_by_extension = λ ext. "text/plain; charset=utf-8";
  states_json = λ states. "[]";
  addresses_json = λ addresses. "[]";
  supernode_write_succeeds = λ row. true;
  action_write_succeeds = λ row. true;
}

supernodes-served :
    Serves env.get_supernodes 2 "" ([] ++ supernode "node1" ∷ supernode "node2" ∷ [])
supernodes-served =
    more_pages 1 "" "p2" (supernode "node1" ∷ []) (supernode "node2" ∷ []) refl refl
      (last_page "p2" (supernode "node2" ∷ []) refl)

actions-served : Serves env.get_actions 1 "" ((chain_action "x" ∷ []) ++ chain_action "7" ∷ [])
actions-served = last_page "" (chain_action "x" ∷ chain_action "7" ∷ []) refl

sync_supernodes-listed_example :
    get_supernode_by_id "node1" (state_of (sync_supernodes env [] 2 []))
    ≡ some (stored (supernode_record env [] (supernode "node1")) (get_supernode_by_id "node1" []))
sync_supernodes-listed_example =
    sync_supernodes-listed env [] 2 [] (supernode "node1") (supernode "node2" ∷ []) 2 []
      supernodes-served (omega arith) tt (refl, tt) refl

sync_actions-listed_example :
    get_action_by_id 7 (state_of (sync_actions env 1 []))
    ≡ some (stored_action 9 (action_record env (chain_action "7") 7) (get_action_by_id 7 []))
unfolding lumescope.Strconv.parse_uint
sync_actions-listed_example =
    sync_actions-listed env 7 1 (chain_action "x" ∷ []) (chain_action "7") [] 1 [] actions-served
      (omega arith) refl (refl, tt) tt refl

sync_validators_lem_example : get_moniker_for (sync_validators env 1 []) "val1" ≡ "one"
sync_validators_lem_example =
    sync_validators_lem env 1 [] (record { operator_address = "val1"; moniker = "one" }) [] 1 []
      (last_page "" (record { operator_address = "val1"; moniker = "one" } ∷ []) refl) (omega arith)
      tt
