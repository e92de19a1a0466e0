-- ===== src/Db/Actions.antt =====
-- internal/db/db.go: the table `actions`. A table is the list of its rows; the column updatedAt is
-- written and never read, and left out.
pub mod Rows
pub mod Paging
use lumescope.Prelude.{
  ℕ, ◌+◌, String, Bool, true, ◌&&◌, Option, none, some, List, [], ◌∷◌, ◌==◌, nat_eq, string_eq, any,
  filter, find, if◌then◌else◌,
}
use lumescope.Prelude.Int.{ℤ, pos, negsuc, leb_ℤ}
use lumescope.Db.Types.{Time, ActionDb, ActionsFilter}
use lumescope.Db.Keyset.{descending, order_by, is_after, page}

-- INSERT ... ON CONFLICT ("actionID") DO UPDATE: a row that is there keeps createdAt
unfoldable pub upsert_action : Time → ActionDb → List ActionDb → List ActionDb
upsert_action now a [] = record a { created_at = now } ∷ []
upsert_action now a (row ∷ rows) =
    let rest = upsert_action now a rows in
    if row.action_id == a.action_id
    then record a { created_at = row.created_at } ∷ rows
    else row ∷ rest

-- QueryRow over a primary key; `none` is ErrNotFound
unfoldable pub get_action_by_id : ℕ → List ActionDb → Option ActionDb
get_action_by_id id rows = find (λ row. row.action_id == id) rows

abbrev equals : String → Option String → Bool
equals s none = true
equals s (some t) = s == t

abbrev holds_supernode : List String → Option String → Bool
holds_supernode sns none = true
holds_supernode sns (some sn) = any (λ s. s == sn) sns

abbrev at_least : ℤ → Option ℤ → Bool
at_least h none = true
at_least h (some from) = leb_ℤ from h

abbrev at_most : ℤ → Option ℤ → Bool
at_most h none = true
at_most h (some to) = leb_ℤ h to

-- the conditions other than the cursor's
unfoldable pub matches : ActionsFilter → ActionDb → Bool
matches f row =
    equals row.action_type f.kind
    && (equals row.creator f.creator
        && (equals row.state f.state
            && (holds_supernode row.super_nodes f.supernode
                && (at_least row.block_height f.from_height
                    && at_most row.block_height f.to_height))))

-- `if limit <= 0 { limit = 1 }`
abbrev pub row_limit : ℤ → ℕ
row_limit (negsuc n) = 1
row_limit (pos ℕ.zero) = 1
row_limit (pos (ℕ.suc n)) = ℕ.suc n

abbrev pub action_key : ActionDb → ℕ
action_key row = row.action_id

-- the rows of the page, and hasMore
unfoldable pub list_actions_filtered : ActionsFilter → List ActionDb → List ActionDb × Bool
list_actions_filtered f rows = page (row_limit f.limit) (
    order_by descending action_key
      (filter (λ row. matches f row && is_after descending action_key f.cursor_id row) rows))
