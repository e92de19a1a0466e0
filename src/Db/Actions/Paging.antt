-- ===== src/Db/Actions/Paging.antt =====
-- The list of actions, page by page.
use lumescope.Prelude.{ℕ, ◌<◌, ◌≤◌, ◌≡◌, sym, ap, ◌∙◌, Option, none, List, arith, filter, length}
use lumescope.Prelude.Int.{ℤ, pos, negsuc}
use lumescope.Db.Types.{ActionDb, ActionsFilter}
use lumescope.Db.Keyset.{descending, order_by, is_after, page, walk}
use lumescope.Db.Keyset.Order.{Distinct, Distinct-filter, order_by-IsSorted, filter-order_by}
use lumescope.Db.Keyset.Walk.{walk_all, filter-and, filter-true, page_lem, length-take_le}
use lumescope.Db.Actions.{matches, row_limit, action_key, list_actions_filtered}

-- all rows that a filter selects, the cursor aside, the latest id first
abbrev pub selected : ActionsFilter → List ActionDb → List ActionDb
selected f rows = order_by descending action_key (filter (matches f) rows)

abbrev pub with_cursor : ActionsFilter → Option ℕ → ActionsFilter
with_cursor f c = record f { cursor_id = c }

list_is_page :
    (f : ActionsFilter) (c : Option ℕ) (rows : List ActionDb)
    → Distinct action_key rows
    → list_actions_filtered (with_cursor f c) rows
      ≡ page (row_limit f.limit) (filter (is_after descending action_key c) (selected f rows))
unfolding list_actions_filtered matches
list_is_page f c rows d =
    ap (λ l. page (row_limit f.limit) (order_by descending action_key l))
      (filter-and (matches f) (is_after descending action_key c) rows)
    ∙ ap (page (row_limit f.limit)) (
        sym (
          filter-order_by descending action_key (is_after descending action_key c)
            (filter (matches f) rows) (Distinct-filter action_key (matches f) rows d)))

row_limit-pos : (n : ℤ) → 0 < row_limit n
row_limit-pos (negsuc n) = omega arith
row_limit-pos (pos ℕ.zero) = omega arith
row_limit-pos (pos (ℕ.suc n)) = omega arith

-- Over a table with distinct ids that does not change, a client that follows the cursors collects
-- every row that the filter selects exactly once, the latest id first, whatever the limit, if it
-- may ask for more pages than there are such rows.
pub all_pages :
    (f : ActionsFilter) (rows : List ActionDb) (fuel : ℕ)
    → Distinct action_key rows
    → length (selected f rows) < fuel
    → walk action_key (λ c. list_actions_filtered (with_cursor f c) rows) fuel none
      ≡ selected f rows
all_pages f rows fuel d enough =
    walk_all descending action_key (row_limit f.limit) (selected f rows)
      (λ c. list_actions_filtered (with_cursor f c) rows) fuel none
      (order_by-IsSorted descending action_key (filter (matches f) rows)
        (Distinct-filter action_key (matches f) rows d))
      (row_limit-pos f.limit) (λ c. list_is_page f c rows d)
      (rw (filter-true (selected f rows)) enough)
    ∙ filter-true (selected f rows)

-- A page has at most as many rows as the limit (one, for a limit that is not positive).
pub page_size :
    (f : ActionsFilter) (rows : List ActionDb)
    → length (list_actions_filtered f rows).0 ≤ row_limit f.limit
unfolding list_actions_filtered
page_size f rows = rw page_lem (length-take_le _ _)
