-- ===== src/Handlers/Actions/Pages.antt =====
-- What a client of ListActions collects that follows the cursors.
use mathlib.Core.List.{append-nil}
use lumescope.Prelude.{
  ℕ, zero, suc, ◌<◌, String, ◌≡◌, refl, sym, ap, ◌∙◌, Bool, true, false, Option, none, some, List,
  [], ◌∷◌, ◌++◌, ◌==◌, string_eq, All, map, filter, ◌&&◌, length, last?, Option-cases, inl, inr,
}
use lumescope.Db.Types.{Time, ActionDb, ActionsFilter, ActionTransaction}
use lumescope.Db.Keyset.{walk, after_page, order_by, descending, is_after}
use lumescope.Db.Keyset.Order.{Distinct, All-filter, All-order_by}
use lumescope.Db.Keyset.Walk.{All-last, page_lem}
use lumescope.Db.Actions.{action_key, matches, row_limit, list_actions_filtered}
use lumescope.Db.Actions.Paging.{selected, with_cursor as at_cursor, all_pages}
use lumescope.Db.Transactions.{get_action_transactions}
use lumescope.Db.Transactions.Bulk.{map-entry}
use lumescope.Handlers.Reply.{Query, accepted, Reply, ok, bad_request, not_found, internal_error}
use lumescope.Handlers.Actions.Items.{ActionItem, list_item}
use lumescope.Handlers.Actions.{
  Codec, parse_filter, include_transactions, ActionsList, encode_cursor, next_cursor_of, list_page,
  answer_list, list_actions,
}
use lumescope.Handlers.Actions.Cursor.{ReadsBack, with_cursor, next_page_filter}
use lumescope.Handlers.Actions.Detail.{no_failures}

module _ (codec : Codec) (rows : List ActionDb) (txs : List ActionTransaction) where
  pub after_reply : Reply ActionsList → (String → List ActionItem) → List ActionItem
  after_reply (ok list) follow =
      list.items ++ (elim (list.next_cursor == "") [ true ↦ [] | false ↦ follow list.next_cursor ])
  after_reply (bad_request message) follow = []
  after_reply (not_found message) follow = []
  after_reply (internal_error message) follow = []

  -- the items of a query, and of the same query with each next cursor
  unfoldable pub collect : ℕ → Query → List ActionItem
  unfolding after_reply
  collect zero q = []
  collect (suc fuel) q =
      after_reply (list_actions codec no_failures q rows txs) (λ c. collect fuel (with_cursor q c))

  abbrev pub item : Bool → ActionDb → ActionItem
  item with_list a = list_item codec.printer with_list a (get_action_transactions a.action_id txs)

  last-of-page :
      (P : ActionDb → Type 0) (f : ActionsFilter) (x : ActionDb)
      → All P rows
      → last? (list_actions_filtered f rows).0 ≡ some x
      → P x
  unfolding list_actions_filtered
  last-of-page P f x h e =
      let wanted =
        λ (row : ActionDb). matches f row && is_after descending action_key f.cursor_id row in
      let sorted = order_by descending action_key (filter wanted rows) in
      All-last P (row_limit f.limit) sorted x
        (All-order_by descending action_key P (filter wanted rows) (All-filter P wanted rows h))
        (ap (λ (p : List ActionDb × Bool). last? p.0) (sym (page_lem (row_limit f.limit) sorted))
          ∙ e)

  abbrev reply_of : Bool → List ActionDb × Bool → ActionsList
  reply_of with_list p = record {
    items = map (item with_list) p.0;
    next_cursor = next_cursor_of codec p.1 (last? p.0);
  }

  map-append :
      (b : Bool) (xs ys : List ActionDb)
      → map (item b) xs ++ map (item b) ys ≡ map (item b) (xs ++ ys)
  map-append b [] ys = refl
  map-append b (x ∷ xs) ys = ap (λ l. item b x ∷ l) (map-append b xs ys)

  -- one page, if the client goes on rightly behind its last row
  page_step :
      (b : Bool) (page_rows : List ActionDb) (more : Bool)
      → (follow : String → List ActionItem) (next : ℕ → List ActionDb)
      → ((x : ActionDb) → last? page_rows ≡ some x → (encode_cursor codec x == "") ≡ false)
      → ((x : ActionDb)
          → last? page_rows ≡ some x
          → follow (encode_cursor codec x) ≡ map (item b) (next x.action_id))
      → after_reply (ok (reply_of b (page_rows, more))) follow
        ≡ map (item b) (after_page action_key (page_rows, more) next)
  unfolding after_reply
  page_step b page_rows false follow next ne goes_on = append-nil (map (item b) page_rows)
  page_step b page_rows true follow next ne goes_on = elim (Option-cases (last? page_rows)) [
    | inl e ↦ rw (e, after_page) (append-nil (map (item b) page_rows))
    | inr (x, e) ↦
        rw (e, after_page, ne x e)
          (ap (λ o. map (item b) page_rows ++ follow (next_cursor_of codec true o)) e
            ∙ ap (λ l. map (item b) page_rows ++ l) (goes_on x e)
            ∙ map-append b page_rows (next x.action_id))
  ]

  first_reply :
      (q : Query) (f : ActionsFilter)
      → parse_filter codec q ≡ accepted f
      → list_actions codec no_failures q rows txs
        ≡ ok (reply_of (include_transactions q) (list_actions_filtered f rows))
  unfolding list_actions answer_list list_page
  first_reply q f e = rw e (
      ap
        (λ items. ok (record {
          items = items;
          next_cursor =
              next_cursor_of codec (list_actions_filtered f rows).1
                (last? (list_actions_filtered f rows).0);
        }))
        (map-entry action_key (list_item codec.printer (include_transactions q))
          (list_actions_filtered f rows).0 txs))

  abbrev at_position : ActionsFilter → Option Time → Option ℕ → ActionsFilter
  at_position f t c = record f { cursor_ts = t; cursor_id = c }

  collect-walk :
      (second : ActionDb → Time) (f : ActionsFilter) (fuel : ℕ) (q : Query) (t : Option Time)
      (c : Option ℕ)
      → All (λ row. ReadsBack codec row (second row)) rows
      → parse_filter codec q ≡ accepted (at_position f t c)
      → collect fuel q
        ≡ map
            (item (include_transactions q))
            (walk action_key (λ k. list_actions_filtered (at_cursor f k) rows) fuel c)
  unfolding collect walk list_actions_filtered matches
  collect-walk second f zero q t c readable e = refl
  collect-walk second f (suc fuel) q t c readable e =
      let here = at_position f t c in
      let page_here = list_actions_filtered here rows in
      let readable_last = λ (x : ActionDb) (l : last? page_here.0 ≡ some x).
        last-of-page (λ row. ReadsBack codec row (second row)) here x readable l in
      ap (λ r. after_reply r (λ k. collect fuel (with_cursor q k))) (first_reply q here e)
      ∙ page_step (include_transactions q) page_here.0 page_here.1
          (λ k. collect fuel (with_cursor q k))
          (λ id. walk action_key (λ k. list_actions_filtered (at_cursor f k) rows) fuel (some id))
          (λ x l. (readable_last x l).not_empty)
          (λ x l.
            collect-walk second f fuel (with_cursor q (encode_cursor codec x)) (some (second x))
              (some x.action_id) readable
              (next_page_filter codec q here x (second x) (readable_last x l) e))

  -- A client of the API that starts without a cursor and repeats its query with each next_cursor
  -- collects every action that its filter selects exactly once, the latest id first, whatever the
  -- limit: over a database that does not change or fail, with distinct ids and with rows whose
  -- cursors can be read back, if it may send more requests than there are such actions.
  pub collect_lem :
      (second : ActionDb → Time) (f : ActionsFilter) (fuel : ℕ) (q : Query)
      → All (λ row. ReadsBack codec row (second row)) rows
      → Distinct action_key rows
      → parse_filter codec q ≡ accepted f
      → f.cursor_id ≡ none
      → length (selected f rows) < fuel
      → collect fuel q ≡ map (item (include_transactions q)) (selected f rows)
  collect_lem second f fuel q readable distinct e start enough =
      collect-walk second f fuel q f.cursor_ts f.cursor_id readable e
      ∙ ap
          (λ c.
            map (item (include_transactions q))
              (walk action_key (λ k. list_actions_filtered (at_cursor f k) rows) fuel c))
          start
      ∙ ap (map (item (include_transactions q))) (all_pages f rows fuel distinct enough)
