-- ===== src/Db/Supernodes/Paging.antt =====
-- The list of supernodes, page by page, in whatever order the database gives to texts.
use lumescope.Prelude.{ℕ, ◌<◌, ◌≡◌, sym, ap, ◌∙◌, Option, none, List, arith, filter, length, String}
use lumescope.Prelude.Int.{ℤ, pos, negsuc}
use lumescope.Db.Types.{SupernodeDb}
use lumescope.Db.Keyset.{KeyOrder, order_by, is_after, page, walk}
use lumescope.Db.Keyset.Order.{Distinct, Distinct-filter, order_by-IsSorted, filter-order_by}
use lumescope.Db.Keyset.Walk.{walk_all, filter-and, filter-true}
use lumescope.Db.Supernodes.Filter.{
  SupernodeMetricsFilter, matches, row_limit, account_key, list_supernode_metrics_filtered,
}

module _ (collation : KeyOrder String) (f : SupernodeMetricsFilter) (rows : List SupernodeDb) where
  -- all rows that the filter selects, the cursor aside, by account
  abbrev pub selected : List SupernodeDb
  selected = order_by collation account_key (filter (matches f) rows)

  abbrev pub with_cursor : Option String → SupernodeMetricsFilter
  with_cursor c = record f { cursor_account = c }

  list_is_page :
      (c : Option String)
      → Distinct account_key rows
      → list_supernode_metrics_filtered collation (with_cursor c) rows
        ≡ page (row_limit f.limit) (filter (is_after collation account_key c) selected)
  unfolding list_supernode_metrics_filtered matches
  list_is_page c d =
      ap (λ l. page (row_limit f.limit) (order_by collation account_key l))
        (filter-and (matches f) (is_after collation account_key c) rows)
      ∙ ap (page (row_limit f.limit)) (
          sym (
            filter-order_by collation account_key (is_after collation account_key c)
              (filter (matches f) rows) (Distinct-filter account_key (matches f) rows d)))

row_limit-pos : (n : ℤ) → 0 < row_limit n
row_limit-pos (negsuc n) = omega arith
row_limit-pos (pos ℕ.zero) = omega arith
row_limit-pos (pos (ℕ.suc n)) = omega arith

-- Over a table with distinct accounts that does not change, a client that follows the cursors
-- collects every supernode that the filter selects exactly once, whatever the limit and whatever
-- the order of texts in the database, if it may ask for more pages than there are such rows.
pub all_supernode_pages :
    (collation : KeyOrder String) (f : SupernodeMetricsFilter) (rows : List SupernodeDb) (fuel : ℕ)
    → Distinct account_key rows
    → length (selected collation f rows) < fuel
    → walk account_key
        (λ c. list_supernode_metrics_filtered collation (with_cursor collation f rows c) rows)
        fuel
        none
      ≡ selected collation f rows
all_supernode_pages collation f rows fuel d enough =
    walk_all collation account_key (row_limit f.limit) (selected collation f rows)
      (λ c. list_supernode_metrics_filtered collation (with_cursor collation f rows c) rows) fuel
      none
      (order_by-IsSorted collation account_key (filter (matches f) rows)
        (Distinct-filter account_key (matches f) rows d))
      (row_limit-pos f.limit) (λ c. list_is_page collation f rows c d)
      (rw (filter-true (selected collation f rows)) enough)
    ∙ filter-true (selected collation f rows)
