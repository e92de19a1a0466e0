-- ===== src/Db/Transactions/Laws.antt =====
-- What an upsert of a transaction does to the table.
use lumescope.Prelude.{
  ℕ, String, ◌≡◌, refl, true, false, ◌&&◌, ◌||◌, List, [], ◌∷◌, ◌==◌, nat_eq, string_eq, eq_iff,
  arith, All, Bool-cases, inl, inr,
}
use lumescope.Db.Types.{Time, ActionTransaction}
use lumescope.Db.Keyset.Order.{All-map}
use lumescope.Db.Transactions.{same_key, upsert_transaction, has_transaction}

-- After an upsert the table has a row of the given action and type if it is that of the
-- transaction, and else if it had one before.
pub has-upsert_transaction :
    (now : Time) (t : ActionTransaction) (id : ℕ) (tx_type : String) (rows : List ActionTransaction)
    → has_transaction (upsert_transaction now t rows) id tx_type
      ≡ ((t.action_id == id && t.tx_type == tx_type) || has_transaction rows id tx_type)
unfolding upsert_transaction has_transaction
has-upsert_transaction now t id tx_type [] = refl
has-upsert_transaction now t id tx_type (row ∷ rows) = ground (
  arith,
  has-upsert_transaction now t id tx_type rows,
  eq_iff row.tx_type t.tx_type,
  eq_iff row.tx_type tx_type,
  eq_iff t.tx_type tx_type,
)

abbrev pub HasNoKey : ActionTransaction → List ActionTransaction → Type 0
HasNoKey t rows = All (λ u. same_key u t ≡ false) rows

-- UNIQUE("actionID", "txType")
abbrev pub Unique : List ActionTransaction → Type 0
Unique [] = Unit
Unique (t ∷ rows) = HasNoKey t rows × Unique rows

same_key_trans :
    (t u v : ActionTransaction) → same_key t u ≡ true → same_key v t ≡ false → same_key v u ≡ false
same_key_trans t u v h k =
    ground
      (arith, eq_iff t.tx_type u.tx_type, eq_iff v.tx_type t.tx_type, eq_iff v.tx_type u.tx_type)

HasNoKey-upsert :
    (now : Time) (t row : ActionTransaction) (rows : List ActionTransaction)
    → same_key t row ≡ false
    → HasNoKey row rows
    → HasNoKey row (upsert_transaction now t rows)
unfolding upsert_transaction
HasNoKey-upsert now t row [] ne h = (ne, tt)
HasNoKey-upsert now t row (r ∷ rows) ne h = elim (Bool-cases (same_key r t)) [
  | inl e ↦ rw e (ne, h.1)
  | inr e ↦ rw e (h.0, HasNoKey-upsert now t row rows ne h.1)
]

same_key_sym : (t u : ActionTransaction) → same_key t u ≡ false → same_key u t ≡ false
same_key_sym t u h = ground (arith, eq_iff t.tx_type u.tx_type, eq_iff u.tx_type t.tx_type)

-- An upsert keeps the table unique in (actionID, txType), so that an action never has two
-- transactions of one type.
pub upsert_transaction-Unique :
    (now : Time) (t : ActionTransaction) (rows : List ActionTransaction)
    → Unique rows
    → Unique (upsert_transaction now t rows)
unfolding upsert_transaction
upsert_transaction-Unique now t [] d = (tt, tt)
upsert_transaction-Unique now t (r ∷ rows) d = elim (Bool-cases (same_key r t)) [
  | inl e ↦ rw e (All-map (λ u. same_key_trans r t u e) rows d.0, d.1)
  | inr e ↦ rw e (
    HasNoKey-upsert now t r rows (same_key_sym r t e) d.0,
    upsert_transaction-Unique now t rows d.1,
  )
]
