-- ===== src/Background/Enricher/Step.antt =====
-- What the enricher does for one action, and for a batch.
use lumescope.Prelude.{
  ℕ, String, ◌≡◌, refl, sym, ◌≢◌, ◌∙◌, ap, Bool, true, false, ◌&&◌, ◌||◌, none, List, [], ◌∷◌, ◌==◌,
  nat_eq, string_eq, beq_refl, arith, All, any, length, nat_beq,
}
use lumescope.Db.Types.{ActionDb, ActionTransaction, Action}
use lumescope.Db.Keyset.Order.{All-map}
use lumescope.Db.Transactions.{has_transaction, to_action, is_unenriched}
use lumescope.Db.Transactions.Laws.{has-upsert_transaction}
use lumescope.Lumera.Tx.{get_action_transactions}
use lumescope.Lumera.Tx.Laws.{IsOf, get_action_transactions-IsOf, failed_searches}
use lumescope.Background.Enricher.{
  Env, World, write, write_all, found_or_placeholder, enrich, enrich_all,
}

-- a row of one action does not touch those of another
write-other :
    (env : Env) (id : ℕ) (tx_type : String) (t : ActionTransaction) (txs : List ActionTransaction)
    → t.action_id ≢ id
    → has_transaction (write env t txs) id tx_type ≡ has_transaction txs id tx_type
unfolding write
write-other env id tx_type t txs h = ground (arith, has-upsert_transaction env.now t id tx_type txs)

write_all-other :
    (env : Env) (id : ℕ) (tx_type : String) (ts txs : List ActionTransaction)
    → All (λ t. t.action_id ≢ id) ts
    → has_transaction (write_all env ts txs) id tx_type ≡ has_transaction txs id tx_type
unfolding write_all
write_all-other env id tx_type [] txs h = refl
write_all-other env id tx_type (t ∷ ts) txs h =
    write_all-other env id tx_type ts (write env t txs) h.1 ∙ write-other env id tx_type t txs h.0

found_or_placeholder-id :
    (action : Action) (ts : List ActionTransaction)
    → All (IsOf action) ts
    → All (λ t. t.action_id ≡ action.action_id) (found_or_placeholder action ts)
found_or_placeholder-id action [] h = (refl, tt)
found_or_placeholder-id action (t ∷ ts) h = All-map (λ u k. k.0) (t ∷ ts) h

-- Enriching one action does not change which transactions another action has.
pub enrich-other :
    (env : Env) (action : Action) (w : World) (id : ℕ) (tx_type : String)
    → action.action_id ≢ id
    → has_transaction (enrich env action w).txs id tx_type ≡ has_transaction w.txs id tx_type
unfolding enrich
enrich-other env action w id tx_type ne =
    let found = get_action_transactions (env.chain action.action_id) w.client action in
    let own = get_action_transactions-IsOf (env.chain action.action_id) action w.client in
    write_all-other env id tx_type _ w.txs
      (All-map (λ t k e. ne (sym k ∙ e)) _ (found_or_placeholder-id action found.0 own))

pub enrich_all-other :
    (env : Env) (batch : List Action) (w : World) (id : ℕ) (tx_type : String)
    → All (λ a. a.action_id ≢ id) batch
    → has_transaction (enrich_all env batch w).txs id tx_type ≡ has_transaction w.txs id tx_type
unfolding enrich_all
enrich_all-other env [] w id tx_type h = refl
enrich_all-other env (a ∷ rest) w id tx_type h =
    enrich_all-other env rest (enrich env a w) id tx_type h.1 ∙ enrich-other env a w id tx_type h.0

or_swap : (a b c : Bool) → (a || (b || c)) ≡ ((b || a) || c)
or_swap true true c = refl
or_swap true false c = refl
or_swap false b c = ground arith

module _ (env : Env) (writes : (t : ActionTransaction) → env.write_succeeds t ≡ true) where
  has-write :
      (id : ℕ) (tx_type : String) (t : ActionTransaction) (txs : List ActionTransaction)
      → has_transaction (write env t txs) id tx_type
        ≡ ((t.action_id == id && t.tx_type == tx_type) || has_transaction txs id tx_type)
  unfolding write
  has-write id tx_type t txs =
      rw (writes t, write) (has-upsert_transaction env.now t id tx_type txs)

  has-write_all :
      (id : ℕ) (tx_type : String) (ts txs : List ActionTransaction)
      → has_transaction (write_all env ts txs) id tx_type
        ≡ (has_transaction ts id tx_type || has_transaction txs id tx_type)
  unfolding write_all has_transaction
  has-write_all id tx_type [] txs = refl
  has-write_all id tx_type (t ∷ ts) txs =
      has-write_all id tx_type ts (write env t txs)
      ∙ ap (λ b. has_transaction ts id tx_type || b) (has-write id tx_type t txs)
      ∙ or_swap (has_transaction ts id tx_type) (t.action_id == id && t.tx_type == tx_type)
          (has_transaction txs id tx_type)

  has-found_or_placeholder :
      (action : Action) (found : List ActionTransaction) (id : ℕ) (tx_type : String)
      → has_transaction (found_or_placeholder action found) id tx_type ≡ (
          any (λ t. t.action_id == id && t.tx_type == tx_type) found
          || (nat_beq (length found) 0 && (action.action_id == id && "register" == tx_type)))
  unfolding has_transaction
  has-found_or_placeholder action [] id tx_type = ground arith
  has-found_or_placeholder action (t ∷ ts) id tx_type = ground arith

  -- If no write fails, then after an action has been worked through, the table has a transaction
  -- of a given action and type exactly if one of those that the chain returned for the action is of
  -- that action and type, or the chain returned none at all and it is a 'register' transaction of
  -- the action that is asked for, or the table had one before.
  pub enrich_records :
      (action : Action) (w : World) (id : ℕ) (tx_type : String)
      → let found = (get_action_transactions (env.chain action.action_id) w.client action).0 in
        has_transaction (enrich env action w).txs id tx_type ≡ (
          (any (λ t. t.action_id == id && t.tx_type == tx_type) found
            || (nat_beq (length found) 0 && (action.action_id == id && "register" == tx_type)))
          || has_transaction w.txs id tx_type)
  unfolding enrich
  enrich_records action w id tx_type =
      let found = (get_action_transactions (env.chain action.action_id) w.client action).0 in
      has-write_all id tx_type (found_or_placeholder action found) w.txs
      ∙ ap (λ b. b || has_transaction w.txs id tx_type)
          (has-found_or_placeholder action found id tx_type)

-- If no write fails and every search of the chain fails, as in an outage, the action is recorded
-- as one that has no transactions: it has a 'register' row, and no later run selects it.
pub outage_marks_action :
    (env : Env) (row : ActionDb) (w : World) (min_id : ℕ)
    → ((t : ActionTransaction) → env.write_succeeds t ≡ true)
    → ((event_type : String) → (env.chain row.action_id).search_txs event_type row.action_id ≡ none)
    → is_unenriched (enrich env (to_action row) w).txs min_id row ≡ false
unfolding to_action has_transaction
outage_marks_action env row w min_id writes outage =
    let action = to_action row in
    let found = get_action_transactions (env.chain row.action_id) w.client action in
    let empty : found.0 ≡ [] = failed_searches (env.chain row.action_id) w.client action outage in
    let marked : has_transaction (enrich env action w).txs row.action_id "register" ≡ true =
      enrich_records env writes action w row.action_id "register"
      ∙ ap
          (λ ts.
            (any (λ t. t.action_id == row.action_id && t.tx_type == "register") ts
              || (nat_beq (length ts) 0
                  && (row.action_id == row.action_id && ◌==◌ {A = String} "register" "register")))
            || has_transaction w.txs row.action_id "register")
          empty
      ∙ rw (beq_refl row.action_id) in
    ground (arith, marked)
