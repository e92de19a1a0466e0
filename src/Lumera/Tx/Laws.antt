-- ===== src/Lumera/Tx/Laws.antt =====
-- What the client returns for an action, and what it caches.
use lumescope.Prelude.{
  String, ◌≡◌, refl, ◌≢◌, ◌⊎◌, inl, inr, true, false, ◌==◌, Option, none, some, List, [], ◌∷◌, ◌++◌,
  arith, All, All-append, eq_iff, string_eq,
}
use lumescope.Db.Types.{Action, ActionTransaction}
use lumescope.Lumera.Tx.{
  Chain, Client, TxResult, TxResponse, parse_tx_result, parse_results, queries, query_all,
  get_action_module_account, set_action_module_account, get_action_transactions,
}

-- A record of the action, of one of the three kinds.
abbrev pub IsOf : Action → ActionTransaction → Type 0
IsOf action t =
    (t.action_id ≡ action.action_id)
    × ((t.tx_type ≡ "register") ⊎ (t.tx_type ≡ "finalize") ⊎ (t.tx_type ≡ "approve"))

module _ (chain : Chain) (action : Action) where
  parse_tx_result-keys :
      (tx_type : String) (r : TxResult) (tx : Option TxResponse) (addr : String)
      → ((parse_tx_result chain action tx_type r tx addr).action_id ≡ action.action_id)
        × ((parse_tx_result chain action tx_type r tx addr).tx_type ≡ tx_type)
  unfolding parse_tx_result
  parse_tx_result-keys tx_type r tx addr = ground arith

  parse_results-All :
      (P : ActionTransaction → Type 0) (tx_type addr : String)
      → ((r : TxResult) (tx : Option TxResponse)
          → P (parse_tx_result chain action tx_type r tx addr))
      → (rs : List TxResult) (txs : List TxResponse)
      → All P (parse_results chain action tx_type addr rs txs)
  unfolding parse_results
  parse_results-All P tx_type addr each [] txs = tt
  parse_results-All P tx_type addr each (r ∷ rs) [] =
      (each r none, parse_results-All P tx_type addr each rs [])
  parse_results-All P tx_type addr each (r ∷ rs) (tx ∷ txs) =
      (each r (some tx), parse_results-All P tx_type addr each rs txs)

  query_all-All :
      (P : ActionTransaction → Type 0) (addr : String) (qs : List (String × String))
      → All
          (λ q.
            (r : TxResult) (tx : Option TxResponse)
            → P (parse_tx_result chain action q.1 r tx addr))
          qs
      → All P (query_all chain action addr qs)
  unfolding query_all
  query_all-All P addr [] each = tt
  query_all-All P addr ((event_type, tx_type) ∷ rest) (here, each) =
      elim (chain.search_txs event_type action.action_id)
        as (λ found. All P (elim found [
          | none ↦ query_all chain action addr rest
          | some out ↦
              parse_results chain action tx_type addr out.tx_responses out.txs
              ++ query_all chain action addr rest
        ])) [
          | none ↦ query_all-All P addr rest each
          | some out ↦
              All-append P _ _ (parse_results-All P tx_type addr here out.tx_responses out.txs)
                (query_all-All P addr rest each)
        ]

  kept_keys :
      (tx_type addr : String)
      → (tx_type ≡ "register") ⊎ (tx_type ≡ "finalize") ⊎ (tx_type ≡ "approve")
      → (r : TxResult) (tx : Option TxResponse)
      → IsOf action (parse_tx_result chain action tx_type r tx addr)
  kept_keys tx_type addr kind r tx =
      let (id, same) = parse_tx_result-keys tx_type r tx addr in (id, rw same kind)

  -- Every record that is returned carries the action's id, and is of one of the three types.
  pub get_action_transactions-IsOf :
      (c : Client) → All (IsOf action) (get_action_transactions chain c action).0
  unfolding get_action_transactions
  get_action_transactions-IsOf c = query_all-All (IsOf action) _ queries (
    kept_keys "register" _ (inl refl),
    (kept_keys "finalize" _ (inr (inl refl)), (kept_keys "approve" _ (inr (inr refl)), tt)),
  )

-- where every search fails, nothing is returned
pub failed_searches :
    (chain : Chain) (c : Client) (action : Action)
    → ((event_type : String) → chain.search_txs event_type action.action_id ≡ none)
    → (get_action_transactions chain c action).0 ≡ []
unfolding get_action_transactions query_all
failed_searches chain c action fails = rw (
  fails "action_registered.action_id",
  fails "action_finalized.action_id",
  fails "action_approved.action_id",
)

abbrev IsCached : Client → String → Type 0
IsCached c addr = (c.module_addr_fetched ≡ true) × (c.action_module_addr ≡ addr) × (addr ≢ "")

fetched-IsCached :
    (chain : Chain) (c : Client) (addr : String)
    → (get_action_module_account chain c).0 ≡ some addr
    → IsCached (get_action_module_account chain c).1 addr
unfolding get_action_module_account
fetched-IsCached chain c addr h = ground (arith, eq_iff addr "", eq_iff c.action_module_addr "")

cached-answer :
    (chain : Chain) (c : Client) (addr : String)
    → IsCached c addr
    → get_action_module_account chain c ≡ (some addr, c)
unfolding get_action_module_account
cached-answer chain c addr h = ground (arith, eq_iff addr "")

-- Once the address of the module account is known it is not empty, and every later call returns it
-- and leaves the client alone, whatever the chain answers then.
pub module_account_cached :
    (chain later : Chain) (c : Client) (addr : String)
    → (get_action_module_account chain c).0 ≡ some addr
    → (addr ≢ "")
      × (get_action_module_account later (get_action_module_account chain c).1
          ≡ (some addr, (get_action_module_account chain c).1))
module_account_cached chain later c addr h =
    let kept = fetched-IsCached chain c addr h in
    (kept.2, cached-answer later (get_action_module_account chain c).1 addr kept)

-- An address that was set and is not empty is returned from then on, whatever the chain answers.
get-set_action_module_account :
    (chain : Chain) (addr : String) (c : Client)
    → (addr == "") ≡ false
    → get_action_module_account chain (set_action_module_account addr c)
      ≡ (some addr, set_action_module_account addr c)
unfolding get_action_module_account set_action_module_account
get-set_action_module_account chain addr c h = rw h
