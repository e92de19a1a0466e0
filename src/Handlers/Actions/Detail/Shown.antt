-- ===== src/Handlers/Actions/Detail/Shown.antt =====
-- The transactions that a reply shows, against the table.
use lumescope.Prelude.{
  ℕ, String, ◌≡◌, refl, ap, ◌∙◌, Bool, true, false, ◌&&◌, ◌||◌, not, Option, none, some, List, [],
  ◌∷◌, ◌==◌, nat_eq, string_eq, All, any, filter, arith, Bool-cases, inl, inr, if◌then◌else◌,
}
use lumescope.Prelude.Int.{ℤ, ltb_ℤ, ◌≤ℤ◌}
use lumescope.Db.Types.{ActionTransaction}
use lumescope.Db.Sql.{coalesce}
use lumescope.Db.Keyset.Sort.{sort_rows, IsSorted, IsFirst, sort_rows-IsSorted, any-sort_rows}
use lumescope.Db.Transactions.{is_lower, order_by_height, get_action_transactions}
use lumescope.Handlers.Actions.Items.{TransactionDto, is_placeholder_transaction}
use lumescope.Handlers.Actions.Laws.{latest, shown_list, tx_hash, block_time}

-- a transaction as a reply shows it
abbrev pub shown_as : ActionTransaction → TransactionDto
shown_as t = record {
  tx_type = t.tx_type;
  tx_hash = t.tx_hash;
  height = t.height;
  block_time = t.block_time;
  gas_wanted = t.gas_wanted;
  gas_used = t.gas_used;
  action_price = t.action_price;
  action_price_denom = t.action_price_denom;
  flow_payer = t.flow_payer;
  flow_payee = t.flow_payee;
  tx_fee = t.tx_fee;
  tx_fee_denom = t.tx_fee_denom;
}

-- a transaction of the action that is no placeholder
abbrev pub is_real : ℕ → ActionTransaction → Bool
is_real id t = t.action_id == id && not (t.tx_hash == "_NO_TX_FOUND_")

-- the value of the last one of a type
abbrev pub last_of : {A : Type 0} → (TransactionDto → A) → String → List TransactionDto → Option A
last_of val kind [] = none
last_of val kind (d ∷ ds) =
    coalesce (last_of val kind ds) (if d.tx_type == kind then some (val d) else none)

-- the heights do not fall
abbrev pub IsRising : List TransactionDto → Type 0
IsRising [] = Unit
IsRising (d ∷ ds) = All (λ (e : TransactionDto). d.height ≤ℤ e.height) ds × IsRising ds

any-shown_list :
    (p : TransactionDto → Bool) (ts : List ActionTransaction)
    → any p (shown_list true ts)
      ≡ any (λ t. not (is_placeholder_transaction t) && p (shown_as t)) ts
any-shown_list p [] = refl
any-shown_list p (t ∷ ts) = elim (Bool-cases (is_placeholder_transaction t)) [
  | inl e ↦ rw e (any-shown_list p ts)
  | inr e ↦ rw e (ap (λ b. p (shown_as t) || b) (any-shown_list p ts))
]

any-filter :
    (f g : ActionTransaction → Bool) (p : TransactionDto → Bool) (ts : List ActionTransaction)
    → any (λ t. g t && p (shown_as t)) (filter f ts) ≡ any (λ t. (f t && g t) && p (shown_as t)) ts
any-filter f g p [] = refl
any-filter f g p (t ∷ ts) = elim (Bool-cases (f t)) [
  | inl e ↦ rw e (ap (λ b. (g t && p (shown_as t)) || b) (any-filter f g p ts))
  | inr e ↦ rw e (any-filter f g p ts)
]

pub any-shown :
    (id : ℕ) (txs : List ActionTransaction) (p : TransactionDto → Bool)
    → any p (shown_list true (get_action_transactions id txs))
      ≡ any (λ t. is_real id t && p (shown_as t)) txs
unfolding get_action_transactions order_by_height
any-shown id txs p =
    let own = filter (λ (t : ActionTransaction). t.action_id == id) txs in
    any-shown_list p (sort_rows is_lower own)
    ∙ any-sort_rows is_lower _ own
    ∙ any-filter (λ t. t.action_id == id) (λ t. not (is_placeholder_transaction t)) p txs

not_above : (a b : ℤ) → ltb_ℤ b a ≡ false → a ≤ℤ b
not_above a b h = ground arith

above-shown_list :
    (t : ActionTransaction) (ts : List ActionTransaction)
    → IsFirst is_lower t ts
    → All (λ (e : TransactionDto). t.height ≤ℤ e.height) (shown_list true ts)
above-shown_list t [] h = tt
above-shown_list t (u ∷ ts) h = elim (Bool-cases (is_placeholder_transaction u)) [
  | inl e ↦ rw e (above-shown_list t ts h.1)
  | inr e ↦ rw e (not_above t.height u.height h.0, above-shown_list t ts h.1)
]

shown_list-IsRising :
    (ts : List ActionTransaction) → IsSorted is_lower ts → IsRising (shown_list true ts)
shown_list-IsRising [] s = tt
shown_list-IsRising (t ∷ ts) s = elim (Bool-cases (is_placeholder_transaction t)) [
  | inl e ↦ rw e (shown_list-IsRising ts s.1)
  | inr e ↦ rw e (above-shown_list t ts s.0, shown_list-IsRising ts s.1)
]

lower_asymm : (t u : ActionTransaction) → is_lower t u ≡ true → is_lower u t ≡ false
lower_asymm t u h = ground arith

not_lower_trans :
    (t u v : ActionTransaction) → is_lower u t ≡ false → is_lower v u ≡ false → is_lower v t ≡ false
not_lower_trans t u v h k = ground arith

pub shown-IsRising :
    (id : ℕ) (txs : List ActionTransaction)
    → IsRising (shown_list true (get_action_transactions id txs))
unfolding get_action_transactions order_by_height
shown-IsRising id txs = shown_list-IsRising _ (
    sort_rows-IsSorted is_lower lower_asymm not_lower_trans
      (filter (λ (t : ActionTransaction). t.action_id == id) txs))

module _ {A : Type 0} (of_row : ActionTransaction → A) (of_dto : TransactionDto → A)
    (same : (t : ActionTransaction) → of_row t ≡ of_dto (shown_as t)) where
  none_behind : {B : Type 0} (o : Option B) → coalesce o none ≡ o
  none_behind none = refl
  none_behind (some b) = refl

  latest-last_of :
      (kind : String) (ts : List ActionTransaction)
      → latest of_row kind ts ≡ last_of of_dto kind (shown_list true ts)
  latest-last_of kind [] = refl
  latest-last_of kind (t ∷ ts) = elim (Bool-cases (is_placeholder_transaction t)) [
    | inl e ↦ rw e (none_behind (latest of_row kind ts) ∙ latest-last_of kind ts)
    | inr e ↦ elim (Bool-cases (t.tx_type == kind)) [
      | inl k ↦
          rw (e, k)
            (ap (λ o. coalesce o (some (of_row t))) (latest-last_of kind ts)
              ∙ ap (λ v. coalesce (last_of of_dto kind (shown_list true ts)) (some v)) (same t))
      | inr k ↦ rw (e, k) (ap (λ o. coalesce o none) (latest-last_of kind ts))
    ]
  ]

pub last_hash :
    (kind : String) (ts : List ActionTransaction)
    → latest tx_hash kind ts ≡ last_of (λ d. d.tx_hash) kind (shown_list true ts)
last_hash = latest-last_of tx_hash (λ d. d.tx_hash) (λ t. refl)

pub last_time :
    (kind : String) (ts : List ActionTransaction)
    → latest block_time kind ts ≡ last_of (λ d. d.block_time) kind (shown_list true ts)
last_time = latest-last_of block_time (λ d. d.block_time) (λ t. refl)
