-- ===== src/Db/Transactions.antt =====
-- internal/db/db.go: the table `action_transactions`, unique in (actionID, txType), and the
-- actions that have no 'register' row yet.
pub mod Laws
pub mod Bulk
pub mod After
use lumescope.Prelude.{
  ℕ, ◌≡◌, String, Bool, ◌&&◌, not, Option, none, some, List, [], ◌∷◌, ◌==◌, nat_eq, string_eq, any,
  filter, find, map, take, leb, if◌then◌else◌,
}
use lumescope.Prelude.Int.{ℤ, pos, negsuc, ltb_ℤ}
use lumescope.Db.Types.{Time, ActionDb, ActionTransaction, Action}
use lumescope.Db.Keyset.{ascending, order_by}
use lumescope.Db.Keyset.Sort.{sort_rows}
use lumescope.Db.Actions.{action_key}

abbrev pub same_key : ActionTransaction → ActionTransaction → Bool
same_key t u = t.action_id == u.action_id && t.tx_type == u.tx_type

-- INSERT ... ON CONFLICT ("actionID", "txType") DO UPDATE
unfoldable pub upsert_transaction :
    Time → ActionTransaction → List ActionTransaction → List ActionTransaction
upsert_transaction now t [] = record t { created_at = now } ∷ []
upsert_transaction now t (row ∷ rows) =
    let rest = upsert_transaction now t rows in
    if same_key row t then record t { created_at = row.created_at } ∷ rows else row ∷ rest

unfoldable pub has_transaction : List ActionTransaction → ℕ → String → Bool
has_transaction rows id tx_type = any (λ t. t.action_id == id && t.tx_type == tx_type) rows

-- ORDER BY "height" ASC
abbrev pub is_lower : ActionTransaction → ActionTransaction → Bool
is_lower t u = ltb_ℤ t.height u.height

unfoldable pub order_by_height : List ActionTransaction → List ActionTransaction
order_by_height = sort_rows is_lower

unfoldable pub get_action_transactions : ℕ → List ActionTransaction → List ActionTransaction
unfolding order_by_height
get_action_transactions id rows = order_by_height (filter (λ t. t.action_id == id) rows)

-- the column is always a JSON array of strings
unfoldable pub extract_first_supernode : List String → String
extract_first_supernode [] = ""
extract_first_supernode (s ∷ _) = s

unfoldable pub to_action : ActionDb → Action
unfolding extract_first_supernode
to_action row = record {
  action_id = row.action_id;
  creator = row.creator;
  action_type = row.action_type;
  state = row.state;
  supernode_account = extract_first_supernode row.super_nodes;
  created_at = row.created_at;
}

abbrev pub is_unenriched : List ActionTransaction → ℕ → ActionDb → Bool
is_unenriched txs min_id row =
    leb min_id row.action_id && not (has_transaction txs row.action_id "register")

-- all rows that GetUnenrichedActions would give without its LIMIT
unfoldable pub unenriched : List ActionTransaction → ℕ → List ActionDb → List ActionDb
unenriched txs min_id rows = order_by ascending action_key (filter (is_unenriched txs min_id) rows)

-- `if limit <= 0 { limit = 100 }`
abbrev batch_limit : ℤ → ℕ
batch_limit (negsuc n) = 100
batch_limit (pos ℕ.zero) = 100
batch_limit (pos (ℕ.suc n)) = ℕ.suc n

unfoldable pub get_unenriched_actions : List ActionTransaction → ℕ → ℤ → List ActionDb → List Action
unfolding unenriched
get_unenriched_actions txs min_id limit rows =
    map to_action (take (batch_limit limit) (unenriched txs min_id rows))
