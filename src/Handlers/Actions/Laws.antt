-- ===== src/Handlers/Actions/Laws.antt =====
-- The transactions of an action as the API shows them.
use mathlib.Core.List.{append_assoc, append-nil}
use lumescope.Prelude.{
  String, ◌≡◌, refl, sym, ap, ◌∙◌, Bool, true, false, ◌&&◌, not, Option, none, some, List, [], ◌∷◌,
  ◌++◌, ◌==◌, string_eq, eq_iff, arith, if◌then◌else◌, Bool-cases, inl, inr,
}
use lumescope.Db.Types.{Time, ActionTransaction}
use lumescope.Db.Sql.{coalesce}
use lumescope.Handlers.Actions.Items.{
  TransactionDto, is_placeholder_transaction, action_transaction_to_dto, Flattened, no_transactions,
  add_dto, flatten_one, flatten,
}

abbrev pub is_shown : String → ActionTransaction → Bool
is_shown kind tx = not (is_placeholder_transaction tx) && tx.tx_type == kind

abbrev pub pick : {A : Type 0} → (ActionTransaction → A) → Bool → ActionTransaction → Option A
pick val true tx = some (val tx)
pick val false tx = none

-- the value of the last transaction of a type that is no placeholder
abbrev pub latest :
    {A : Type 0} → (ActionTransaction → A) → String → List ActionTransaction → Option A
latest val kind [] = none
latest val kind (tx ∷ txs) = coalesce (latest val kind txs) (pick val (is_shown kind tx) tx)

abbrev pub tx_hash : ActionTransaction → String
tx_hash tx = tx.tx_hash

abbrev pub block_time : ActionTransaction → Time
block_time tx = tx.block_time

coalesce_assoc :
    {A : Type 0} (a b c : Option A) → coalesce a (coalesce b c) ≡ coalesce (coalesce a b) c
coalesce_assoc none b c = refl
coalesce_assoc (some a) b c = refl

coalesce-none : {A : Type 0} (a : Option A) → coalesce a none ≡ a
coalesce-none none = refl
coalesce-none (some a) = refl

module _ {A : Type 0} (get : Flattened → Option A) (val : ActionTransaction → A) (kind : String)
    (b : Bool)
    (step : (tx : ActionTransaction) (f : Flattened)
      → get (flatten_one b tx f) ≡ coalesce (pick val (is_shown kind tx) tx) (get f)) where
  flatten_field :
      (txs : List ActionTransaction) (f : Flattened)
      → get (flatten b txs f) ≡ coalesce (latest val kind txs) (get f)
  unfolding flatten
  flatten_field [] f = refl
  flatten_field (tx ∷ txs) f =
      flatten_field txs (flatten_one b tx f)
      ∙ ap (coalesce (latest val kind txs)) (step tx f)
      ∙ coalesce_assoc (latest val kind txs) (pick val (is_shown kind tx) tx) (get f)

  field_lem :
      (txs : List ActionTransaction)
      → get no_transactions ≡ none
      → get (flatten b txs no_transactions) ≡ latest val kind txs
  field_lem txs nothing =
      flatten_field txs no_transactions
      ∙ ap (coalesce (latest val kind txs)) nothing
      ∙ coalesce-none (latest val kind txs)

other_kind : (a b t : String) → (a == b) ≡ false → (t == a) ≡ true → (t == b) ≡ false
other_kind a b t ne e = ap (λ s. s == b) ((eq_iff t a).0 e) ∙ ne

register_id_step :
    (b : Bool) (tx : ActionTransaction) (f : Flattened)
    → (flatten_one b tx f).register_tx_id
      ≡ coalesce (pick tx_hash (is_shown "register" tx) tx) f.register_tx_id
register_id_step false tx f = ground arith
register_id_step true tx f = ground arith

register_time_step :
    (b : Bool) (tx : ActionTransaction) (f : Flattened)
    → (flatten_one b tx f).register_tx_time
      ≡ coalesce (pick block_time (is_shown "register" tx) tx) f.register_tx_time
register_time_step false tx f = ground arith
register_time_step true tx f = ground arith

finalize_id_step :
    (b : Bool) (tx : ActionTransaction) (f : Flattened)
    → (flatten_one b tx f).finalize_tx_id
      ≡ coalesce (pick tx_hash (is_shown "finalize" tx) tx) f.finalize_tx_id
finalize_id_step false tx f = ground (arith, other_kind "register" "finalize" tx.tx_type refl)
finalize_id_step true tx f = ground (arith, other_kind "register" "finalize" tx.tx_type refl)

finalize_time_step :
    (b : Bool) (tx : ActionTransaction) (f : Flattened)
    → (flatten_one b tx f).finalize_tx_time
      ≡ coalesce (pick block_time (is_shown "finalize" tx) tx) f.finalize_tx_time
finalize_time_step false tx f = ground (arith, other_kind "register" "finalize" tx.tx_type refl)
finalize_time_step true tx f = ground (arith, other_kind "register" "finalize" tx.tx_type refl)

approve_id_step :
    (b : Bool) (tx : ActionTransaction) (f : Flattened)
    → (flatten_one b tx f).approve_tx_id
      ≡ coalesce (pick tx_hash (is_shown "approve" tx) tx) f.approve_tx_id
approve_id_step false tx f = ground (
  arith,
  other_kind "register" "approve" tx.tx_type refl,
  other_kind "finalize" "approve" tx.tx_type refl,
)
approve_id_step true tx f = ground (
  arith,
  other_kind "register" "approve" tx.tx_type refl,
  other_kind "finalize" "approve" tx.tx_type refl,
)

approve_time_step :
    (b : Bool) (tx : ActionTransaction) (f : Flattened)
    → (flatten_one b tx f).approve_tx_time
      ≡ coalesce (pick block_time (is_shown "approve" tx) tx) f.approve_tx_time
approve_time_step false tx f = ground (
  arith,
  other_kind "register" "approve" tx.tx_type refl,
  other_kind "finalize" "approve" tx.tx_type refl,
)
approve_time_step true tx f = ground (
  arith,
  other_kind "register" "approve" tx.tx_type refl,
  other_kind "finalize" "approve" tx.tx_type refl,
)

-- the list is kept apart from the fields
list_step :
    (b : Bool) (tx : ActionTransaction) (f : Flattened)
    → (flatten_one b tx f).transactions
      ≡ (if is_placeholder_transaction tx then f else add_dto b tx f).transactions
list_step false tx f = ground arith
list_step true tx f = ground arith

-- the transactions that are shown, as the list shows them
abbrev pub shown_list : Bool → List ActionTransaction → List TransactionDto
shown_list with_list [] = []
shown_list with_list (tx ∷ txs) =
    if with_list && not (is_placeholder_transaction tx)
    then action_transaction_to_dto tx ∷ shown_list with_list txs
    else shown_list with_list txs

add_step :
    (b : Bool) (tx : ActionTransaction) (f : Flattened) (rest : List TransactionDto)
    → (if is_placeholder_transaction tx then f else add_dto b tx f).transactions ++ rest
      ≡ f.transactions
        ++ (if b && not (is_placeholder_transaction tx)
            then action_transaction_to_dto tx ∷ rest
            else rest)
add_step false tx f rest = elim (Bool-cases (is_placeholder_transaction tx)) [
  | inl e ↦ rw e
  | inr e ↦ rw e
]
add_step true tx f rest = elim (Bool-cases (is_placeholder_transaction tx)) [
  | inl e ↦ rw e
  | inr e ↦ rw e (append_assoc f.transactions (action_transaction_to_dto tx ∷ []) rest)
]

flatten_list :
    (b : Bool) (txs : List ActionTransaction) (f : Flattened)
    → (flatten b txs f).transactions ≡ f.transactions ++ shown_list b txs
unfolding flatten
flatten_list b [] f = sym (append-nil f.transactions)
flatten_list b (tx ∷ txs) f =
    flatten_list b txs (flatten_one b tx f)
    ∙ ap (λ l. l ++ shown_list b txs) (list_step b tx f)
    ∙ add_step b tx f (shown_list b txs)

-- What the API says of an action's transactions, given those that the database returns: for each
-- of the three types the hash and the time of the last one, and the list where it was asked for,
-- all without the placeholders. An action with nothing but a placeholder shows no transaction.
pub flatten_lem :
    (b : Bool) (txs : List ActionTransaction)
    → let shown = flatten b txs no_transactions in
      (shown.register_tx_id ≡ latest tx_hash "register" txs)
      × (shown.register_tx_time ≡ latest block_time "register" txs)
      × (shown.finalize_tx_id ≡ latest tx_hash "finalize" txs)
      × (shown.finalize_tx_time ≡ latest block_time "finalize" txs)
      × (shown.approve_tx_id ≡ latest tx_hash "approve" txs)
      × (shown.approve_tx_time ≡ latest block_time "approve" txs)
      × (shown.transactions ≡ shown_list b txs)
flatten_lem b txs = (
  field_lem (λ f. f.register_tx_id) tx_hash "register" b (register_id_step b) txs refl,
  field_lem (λ f. f.register_tx_time) block_time "register" b (register_time_step b) txs refl,
  field_lem (λ f. f.finalize_tx_id) tx_hash "finalize" b (finalize_id_step b) txs refl,
  field_lem (λ f. f.finalize_tx_time) block_time "finalize" b (finalize_time_step b) txs refl,
  field_lem (λ f. f.approve_tx_id) tx_hash "approve" b (approve_id_step b) txs refl,
  field_lem (λ f. f.approve_tx_time) block_time "approve" b (approve_time_step b) txs refl,
  flatten_list b txs no_transactions,
)
