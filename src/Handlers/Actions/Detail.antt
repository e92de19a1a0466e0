-- ===== src/Handlers/Actions/Detail.antt =====
-- One action by its path.
pub mod Shown
use Prim.Native.String
use lumescope.Prelude.{
  ℕ, String, ◌≡◌, refl, sym, subst, ap, ◌∙◌, Bool, true, false, Option, none, some, List, [], ◌∷◌,
  ◌++◌, ◌==◌, nat_eq, ◌||◌, ◌&&◌, string_eq, eq_iff, arith, any, Bool-cases, inl, inr,
}
use lumescope.Prelude.Text.{strip_prefix?, strip_prefix?-append, contains_char}
use lumescope.Strconv.{parse_uint, ok?}
use lumescope.Db.Types.{ActionDb, ActionTransaction}
use lumescope.Db.Actions.{get_action_by_id}
use lumescope.Db.Transactions.{get_action_transactions}
use lumescope.Handlers.Reply.{Reply, ok, bad_request, not_found, internal_error}
use lumescope.Handlers.Actions.Items.{TransactionDto, ActionItem, detail_item}
use lumescope.Handlers.Actions.Laws.{flatten_lem}
use lumescope.Handlers.Actions.Detail.Shown.{
  shown_as, is_real, last_of, IsRising, any-shown, shown-IsRising, last_hash, last_time,
}
use lumescope.Handlers.Actions.{
  Codec, Failures, action_id_from_path, id_of_rest, answer_path, answer_id, answer_action,
  get_action,
}

pub id_of_rest_lem :
    (path s : String)
    → strip_prefix? "/v1/actions/" path ≡ some s
    → (s == "" || contains_char b'/' s) ≡ false
    → action_id_from_path path ≡ some s
unfolding action_id_from_path
id_of_rest_lem path s found named = ap id_of_rest found ∙ rw named

abbrev pub no_failures : Failures
no_failures = record { list_fails = false; transactions_fail = false }

not_empty : (s : String) (id : ℕ) → ok? (parse_uint s) ≡ some id → (s == "") ≡ false
unfolding parse_uint
not_empty s id parsed = elim (Bool-cases (s == "")) [
  | inr n ↦ n
  | inl e ↦
      let nothing : none ≡ some id =
        ap (λ t. ok? (parse_uint t)) (sym ((eq_iff s "").0 e)) ∙ parsed in
      ground arith
]

id_of_path :
    (s : String) (id : ℕ)
    → contains_char b'/' s ≡ false
    → ok? (parse_uint s) ≡ some id
    → action_id_from_path (String.◌++◌ "/v1/actions/" s) ≡ some s
unfolding action_id_from_path
id_of_path s id slashless parsed =
    ap id_of_rest (strip_prefix?-append "/v1/actions/" s) ∙ rw (not_empty s id parsed, slashless)

-- where the table has a row of the id, if it has one
data Lookup (id : ℕ) (rows : List ActionDb) : Option ActionDb → Type 0 where
  found :
      (front : List ActionDb) (row : ActionDb) (back : List ActionDb)
      → rows ≡ front ++ row ∷ back
      → row.action_id ≡ id
      → Lookup id rows (some row)
  missing : any (λ row. row.action_id == id) rows ≡ false → Lookup id rows none

look_further :
    (id : ℕ) (row : ActionDb) (rows : List ActionDb) (o : Option ActionDb)
    → (row.action_id == id) ≡ false
    → Lookup id rows o
    → Lookup id (row ∷ rows) o
look_further id row rows o h (found front r back e k) =
    found (row ∷ front) r back (ap (λ l. row ∷ l) e) k
look_further id row rows o h (missing k) = missing (rw h k)

lookup : (id : ℕ) (rows : List ActionDb) → Lookup id rows (get_action_by_id id rows)
unfolding get_action_by_id
lookup id [] = missing refl
lookup id (row ∷ rows) = elim (Bool-cases (row.action_id == id)) [
  | inl e ↦ rw e (found [] row rows refl (ground arith))
  | inr e ↦ rw e (look_further id row rows _ e (lookup id rows))
]

module _ (codec : Codec) (id : ℕ) (rows : List ActionDb) (txs : List ActionTransaction) where
  -- The item shows a row of the id with its transactions in the order of their heights, the
  -- placeholders left out, and the hash and the time of the last one of each type.
  pub record IsDetail (item : ActionItem) : Type 0 where
    pub front : List ActionDb
    pub row : ActionDb
    pub back : List ActionDb
    pub is_listed : rows ≡ front ++ row ∷ back
    pub has_id : row.action_id ≡ id
    pub shown_id : item.id ≡ codec.printer.format_uint id
    pub shown_texts :
        (item.kind ≡ row.action_type)
        × (item.creator ≡ row.creator)
        × (item.state ≡ row.state)
        × (item.mime_type ≡ row.mime_type)
        × (item.price_amount ≡ row.price_amount)
        × (item.price_denom ≡ row.price_denom)
    pub shown_numbers : (item.block_height ≡ row.block_height) × (item.size ≡ row.size)
    pub shown_supernodes : item.super_nodes ≡ row.super_nodes
    pub shown_transactions :
        (p : TransactionDto → Bool)
        → any p item.flattened.transactions ≡ any (λ t. is_real id t && p (shown_as t)) txs
    pub shown_order : IsRising item.flattened.transactions
    pub shown_register :
        (item.flattened.register_tx_id
          ≡ last_of (λ d. d.tx_hash) "register" item.flattened.transactions)
        × (item.flattened.register_tx_time
            ≡ last_of (λ d. d.block_time) "register" item.flattened.transactions)
    pub shown_finalize :
        (item.flattened.finalize_tx_id
          ≡ last_of (λ d. d.tx_hash) "finalize" item.flattened.transactions)
        × (item.flattened.finalize_tx_time
            ≡ last_of (λ d. d.block_time) "finalize" item.flattened.transactions)
    pub shown_approve :
        (item.flattened.approve_tx_id
          ≡ last_of (λ d. d.tx_hash) "approve" item.flattened.transactions)
        × (item.flattened.approve_tx_time
            ≡ last_of (λ d. d.block_time) "approve" item.flattened.transactions)

  abbrev pub IsReply : Reply ActionItem → Type 0
  IsReply (ok item) = IsDetail item
  IsReply (bad_request message) = ⊥
  IsReply (not_found message) = any (λ row. row.action_id == id) rows ≡ false
  IsReply (internal_error message) = ⊥

  detail_item-IsDetail :
      (front : List ActionDb) (row : ActionDb) (back : List ActionDb)
      → rows ≡ front ++ row ∷ back
      → row.action_id ≡ id
      → IsDetail (detail_item codec.printer row (get_action_transactions row.action_id txs))
  unfolding detail_item
  detail_item-IsDetail front row back listed e =
      let own = get_action_transactions row.action_id txs in
      let fields = flatten_lem true own in
      let list = fields.6 in
      record {
        front = front;
        row = row;
        back = back;
        is_listed = listed;
        has_id = e;
        shown_id = ap codec.printer.format_uint e;
        shown_texts = (refl, refl, refl, refl, refl, refl);
        shown_numbers = (refl, refl);
        shown_supernodes = refl;
        shown_transactions = λ p.
            ap (any p) list
            ∙ any-shown row.action_id txs p
            ∙ ap (λ k. any (λ t. is_real k t && p (shown_as t)) txs) e;
        shown_order = subst IsRising (sym list) (shown-IsRising row.action_id txs);
        shown_register = (
          fields.0 ∙ last_hash "register" own ∙ ap (last_of (λ d. d.tx_hash) "register") (sym list),
          fields.1
              ∙ last_time "register" own
              ∙ ap (last_of (λ d. d.block_time) "register") (sym list),
        );
        shown_finalize = (
          fields.2 ∙ last_hash "finalize" own ∙ ap (last_of (λ d. d.tx_hash) "finalize") (sym list),
          fields.3
              ∙ last_time "finalize" own
              ∙ ap (last_of (λ d. d.block_time) "finalize") (sym list),
        );
        shown_approve = (
          fields.4 ∙ last_hash "approve" own ∙ ap (last_of (λ d. d.tx_hash) "approve") (sym list),
          fields.5
              ∙ last_time "approve" own
              ∙ ap (last_of (λ d. d.block_time) "approve") (sym list),
        );
      }

  answer_action-IsReply :
      (o : Option ActionDb) → Lookup id rows o → IsReply (answer_action codec no_failures txs o)
  unfolding answer_action
  answer_action-IsReply o (missing h) = h
  answer_action-IsReply o (found front row back listed e) =
      detail_item-IsDetail front row back listed e

-- If the database does not fail, the path of a number is answered with status 404 if no action has
-- that id, and otherwise with the columns of an action of that id, its metadata apart, and with its
-- transactions: all of them but the placeholders and no others, in the order of their heights, and
-- beside them the hash and the time of the last one of each of the three types.
pub get_action_lem :
    (codec : Codec) (s : String) (id : ℕ) (rows : List ActionDb) (txs : List ActionTransaction)
    → contains_char b'/' s ≡ false
    → ok? (parse_uint s) ≡ some id
    → IsReply codec id rows txs
        (get_action codec no_failures (String.◌++◌ "/v1/actions/" s) rows txs)
unfolding get_action
get_action_lem codec s id rows txs slashless parsed =
    rw (id_of_path s id slashless parsed, answer_path, parsed, answer_id)
      (answer_action-IsReply codec id rows txs (get_action_by_id id rows) (lookup id rows))
