-- ===== src/Handlers/Actions/Cursor.antt =====
-- The limit of a page of actions, and the cursor that leads to the next page.
use lumescope.Prelude.{
  ℕ, ◌≤◌, String, ◌≡◌, refl, ap, ◌∙◌, false, Option, none, some, List, [], ◌∷◌, ◌==◌, string_eq,
  arith, map, length, if◌then◌else◌, if-has, subst,
}
use lumescope.Prelude.Int.{ℤ, pos, negsuc, ◌≤ℤ◌}
use lumescope.Strconv.{parse_int, parse_uint, ok?}
use lumescope.Db.Types.{Time, ActionDb, ActionsFilter, ActionTransaction}
use lumescope.Db.Actions.{list_actions_filtered, row_limit}
use lumescope.Db.Actions.Paging.{page_size}
use lumescope.Handlers.Reply.{
  Query, Checked, accepted, rejected, Reply, ok, bad_request, internal_error, not_found,
}
use lumescope.Handlers.Actions.Items.{ActionItem}
use lumescope.Handlers.Actions.{
  Codec, Failures, CursorFields, cursor_text, read_cursor, complete, answer_list, parse_from,
  parse_to, parse_limit, parse_cursor, filter_from, parse_filter, clamp, clamp_parsed, ActionsList,
  encode_cursor, list_page, list_actions,
}

-- 1 ≤ n ≤ 200
abbrev pub IsPageLimit : ℤ → Type 0
IsPageLimit n = (pos 1 ≤ℤ n) × (n ≤ℤ pos 200)

abbrev pub HasLimit : Checked ℤ → Type 0
HasLimit (accepted n) = IsPageLimit n
HasLimit (rejected message) = Unit

clamp-IsPageLimit : (n : ℤ) → IsPageLimit (clamp n)
clamp-IsPageLimit (pos n) = ground arith
clamp-IsPageLimit (negsuc n) = ground arith

clamp_parsed-HasLimit : (o : Option ℤ) → HasLimit (clamp_parsed o)
unfolding clamp_parsed
clamp_parsed-HasLimit none = tt
clamp_parsed-HasLimit (some n) = clamp-IsPageLimit n

parse_limit-HasLimit : (s : String) → HasLimit (parse_limit s)
unfolding parse_limit
parse_limit-HasLimit s =
    if-has HasLimit (s == "") (accepted (pos 50)) (clamp_parsed (ok? (parse_int s)))
      (λ _. ground arith) (λ _. clamp_parsed-HasLimit (ok? (parse_int s)))

abbrev limit_of : Checked ActionsFilter → ℤ
limit_of (accepted f) = f.limit
limit_of (rejected message) = pos 1

abbrev filter_or : ActionsFilter → Checked ActionsFilter → ActionsFilter
filter_or f (accepted g) = g
filter_or f (rejected message) = f

filter_from-limit :
    (q : Query) (l : Checked ℤ) (from to : Checked (Option ℤ)) (c : Checked CursorFields)
    (f : ActionsFilter)
    → HasLimit l
    → filter_from q l from to c ≡ accepted f
    → IsPageLimit f.limit
unfolding filter_from
filter_from-limit q (accepted l) (accepted from) (accepted to) (accepted c) f h e =
    subst IsPageLimit (ap limit_of e) h
filter_from-limit q (accepted l) (accepted from) (accepted to) (rejected c) f h e = ground arith
filter_from-limit q (accepted l) (accepted from) (rejected to) c f h e = ground arith
filter_from-limit q (accepted l) (rejected from) to c f h e = ground arith
filter_from-limit q (rejected l) from to c f h e = ground arith

parse_filter-limit :
    (codec : Codec) (q : Query) (f : ActionsFilter)
    → parse_filter codec q ≡ accepted f
    → IsPageLimit f.limit
unfolding parse_filter
parse_filter-limit codec q f e =
    filter_from-limit q (parse_limit (q "limit")) (parse_from q) (parse_to q)
      (parse_cursor codec (q "cursor")) f (parse_limit-HasLimit (q "limit")) e

row_limit-IsPageLimit : (n : ℤ) → IsPageLimit n → row_limit n ≤ 200
row_limit-IsPageLimit (negsuc n) h = omega arith
row_limit-IsPageLimit (pos ℕ.zero) h = omega arith
row_limit-IsPageLimit (pos (ℕ.suc n)) h = omega (arith, h.1)

length-map : {A B : Type 0} (f : A → B) (xs : List A) → length (map f xs) ≡ length xs
length-map f [] = refl
length-map f (x ∷ xs) = ap ℕ.suc (length-map f xs)

abbrev pub items_of : Reply ActionsList → List ActionItem
items_of (ok list) = list.items
items_of (bad_request message) = []
items_of (not_found message) = []
items_of (internal_error message) = []

answer_list-size :
    (codec : Codec) (failures : Failures) (q : Query)
    → (rows : List ActionDb) (txs : List ActionTransaction) (o : Checked ActionsFilter)
    → ((f : ActionsFilter) → o ≡ accepted f → IsPageLimit f.limit)
    → length (items_of (answer_list codec failures q rows txs o)) ≤ 200
unfolding answer_list list_page
answer_list-size codec failures q rows txs (rejected message) limited = omega arith
answer_list-size codec failures q rows txs (accepted f) limited =
    let small = if-has (λ r. length (items_of r) ≤ 200) in
    let bound = row_limit-IsPageLimit f.limit (limited f refl) in
    small failures.list_fails _ _ (λ _. omega arith)
      (λ _.
        small failures.transactions_fail _ _ (λ _. omega arith)
          (λ _.
            omega (arith, length-map _ (list_actions_filtered f rows).0, page_size f rows, bound)))

-- Whatever the query, the database and its failures, a reply lists at most 200 actions.
pub list_actions-size :
    (codec : Codec) (failures : Failures) (q : Query)
    → (rows : List ActionDb) (txs : List ActionTransaction)
    → length (items_of (list_actions codec failures q rows txs)) ≤ 200
unfolding list_actions answer_list
list_actions-size codec failures q rows txs =
    answer_list-size codec failures q rows txs (parse_filter codec q) (parse_filter-limit codec q)

-- The cursor behind a row can be read back: what the program relies on of base64, JSON, RFC 3339
-- and decimal numbers, for this row. The time comes back in whole seconds.
pub record ReadsBack (codec : Codec) (last : ActionDb) (second : Time) : Type 0 where
  pub not_empty : (encode_cursor codec last == "") ≡ false
  pub base64 :
      codec.decode_base64 (encode_cursor codec last)
      ≡ some (codec.marshal_cursor (cursor_text codec last))
  pub json :
      codec.unmarshal_cursor (codec.marshal_cursor (cursor_text codec last))
      ≡ some (cursor_text codec last)
  pub time_not_empty : (codec.format_time last.created_at == "") ≡ false
  pub time : codec.parse_time (codec.format_time last.created_at) ≡ some second
  pub id_not_empty : (codec.printer.format_uint last.action_id == "") ≡ false
  pub id : ok? (parse_uint (codec.printer.format_uint last.action_id)) ≡ some last.action_id

parse_encoded :
    (codec : Codec) (last : ActionDb) (second : Time)
    → ReadsBack codec last second
    → parse_cursor codec (encode_cursor codec last) ≡ accepted (some second, some last.action_id)
unfolding parse_cursor
parse_encoded codec last second r = rw (
  r.not_empty, read_cursor, r.base64, r.json, complete, r.time_not_empty, r.id_not_empty, r.time,
  r.id,
)

abbrev pub with_cursor : Query → String → Query
with_cursor q c name = if name == "cursor" then c else q name

filter_from-cursor :
    (q : Query) (l : Checked ℤ) (from to : Checked (Option ℤ)) (c : Checked CursorFields)
    (f : ActionsFilter)
    → (text : String) (next_fields : CursorFields) → filter_from q l from to c ≡ accepted f
    → filter_from (with_cursor q text) l from to (accepted next_fields)
      ≡ accepted (record f { cursor_ts = next_fields.0; cursor_id = next_fields.1 })
unfolding filter_from
filter_from-cursor q (accepted l) (accepted from) (accepted to) (accepted c) f text next_fields e =
    ap
      (λ r.
        accepted (record (filter_or f r) { cursor_ts = next_fields.0; cursor_id = next_fields.1 }))
      e
filter_from-cursor q (accepted l) (accepted from) (accepted to) (rejected c) f text next_fields e =
    ground arith
filter_from-cursor q (accepted l) (accepted from) (rejected to) c f text next_fields e =
    ground arith
filter_from-cursor q (accepted l) (rejected from) to c f text next_fields e = ground arith
filter_from-cursor q (rejected l) from to c f text next_fields e = ground arith

-- If the cursor behind a row can be read back, the same query with this cursor is accepted, and
-- asks with the same conditions for the rows behind that row's id.
pub next_page_filter :
    (codec : Codec) (q : Query) (f : ActionsFilter) (last : ActionDb) (second : Time)
    → ReadsBack codec last second
    → parse_filter codec q ≡ accepted f
    → parse_filter codec (with_cursor q (encode_cursor codec last))
      ≡ accepted (record f { cursor_ts = some second; cursor_id = some last.action_id })
unfolding parse_filter
next_page_filter codec q f last second r e =
    ap
      (filter_from (with_cursor q (encode_cursor codec last)) (parse_limit (q "limit"))
        (parse_from q) (parse_to q))
      (parse_encoded codec last second r)
    ∙ filter_from-cursor q (parse_limit (q "limit")) (parse_from q) (parse_to q)
        (parse_cursor codec (q "cursor")) f (encode_cursor codec last)
        (some second, some last.action_id) e
