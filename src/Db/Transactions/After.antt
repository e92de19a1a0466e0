-- ===== src/Db/Transactions/After.antt =====
-- internal/db/db.go: the two lists of actions behind a cursor, and the list of all actions.
use lumescope.Prelude.{ℕ, ◌+◌, ◌≡◌, refl, ap, Bool, List, [], ◌∷◌, filter, map, take, ltb, arith}
use lumescope.Prelude.Int.{ℤ, pos, ltb_ℤ}
use lumescope.Db.Types.{ActionDb, Action}
use lumescope.Db.Keyset.{ascending, order_by}
use lumescope.Db.Keyset.Sort.{sort_rows}
use lumescope.Db.Actions.{action_key}
use lumescope.Db.Transactions.{
  to_action, batch_limit, is_unenriched, unenriched, get_unenriched_actions,
}

-- WHERE "actionID" > $1 ORDER BY "actionID" ASC LIMIT $2
unfoldable pub get_actions_after_id : ℕ → ℤ → List ActionDb → List Action
get_actions_after_id last_id limit rows = map to_action (
    take (batch_limit limit)
      (order_by ascending action_key (filter (λ row. ltb last_id (action_key row)) rows)))

-- the same statement
unfoldable pub get_actions_after_cursor : ℕ → ℤ → List ActionDb → List Action
get_actions_after_cursor cursor_action_id limit rows = map to_action (
    take (batch_limit limit)
      (order_by ascending action_key (filter (λ row. ltb cursor_action_id (action_key row)) rows)))

-- ORDER BY "blockHeight" DESC; the columns mimeType and size are not selected
unfoldable pub list_all_actions : List ActionDb → List ActionDb
list_all_actions rows =
    map (λ (a : ActionDb). record a { mime_type = ""; size = pos 0 })
      (sort_rows (λ (t u : ActionDb). ltb_ℤ u.block_height t.block_height) rows)

filter-same :
    {A : Type 0} (p q : A → Bool)
    → ((x : A) → p x ≡ q x)
    → (xs : List A) → filter p xs ≡ filter q xs
filter-same p q same [] = refl
filter-same p q same (x ∷ xs) = rw (same x, filter-same p q same xs)

is_behind :
    (last_id : ℕ) (row : ActionDb)
    → is_unenriched [] (last_id + 1) row ≡ ltb last_id (action_key row)
unfolding lumescope.Db.Transactions.has_transaction
is_behind last_id row = ground arith

-- While there are no transactions, the enricher's query with the id behind a cursor gives the same
-- page as the query behind the cursor.
pub get_unenriched_actions-after :
    (last_id : ℕ) (limit : ℤ) (rows : List ActionDb)
    → get_unenriched_actions [] (last_id + 1) limit rows ≡ get_actions_after_id last_id limit rows
unfolding get_unenriched_actions unenriched get_actions_after_id
get_unenriched_actions-after last_id limit rows =
    ap (λ found. map to_action (take (batch_limit limit) (order_by ascending action_key found)))
      (filter-same _ _ (is_behind last_id) rows)
