-- ===== src/Background/Sync/Laws.antt =====
-- What a full pass of each sync leaves in the database and in the runner.
use lumescope.Prelude.{
  ℕ, ◌≤◌, String, ◌≡◌, ap, ◌∙◌, Bool, true, false, Option, none, some, List, ◌∷◌, ◌++◌, ◌==◌,
  nat_eq, string_eq, beq_refl, All, Bool-cases, Option-cases, inl, inr,
}
use lumescope.Strconv.{parse_uint, ok?}
use lumescope.Db.Types.{SupernodeDb, ActionDb}
use lumescope.Db.Supernodes.{get_supernode_by_id}
use lumescope.Db.Supernodes.Rows.{stored, get-upsert_supernode}
use lumescope.Db.Actions.{get_action_by_id}
use lumescope.Db.Actions.Rows.{stored as stored_action, get-upsert_action}
use lumescope.Background.Feed.{
  state_of, Serves, each_page_lem, visit_all, visit_all-one, visit_all-apart,
}
use lumescope.Background.Sync.{
  Env, Monikers, Supernode, ChainAction, supernode_record, store_supernode, sync_supernodes,
  action_record, store_parsed, store_action, sync_actions,
}

module _ (env : Env) (monikers : Monikers) (account : String) where
  store_supernode-apart :
      (sn : Supernode) (rows : List SupernodeDb)
      → (sn.supernode_account == account) ≡ false
      → get_supernode_by_id account (store_supernode env monikers sn rows)
        ≡ get_supernode_by_id account rows
  unfolding store_supernode supernode_record
  store_supernode-apart sn rows h =
      elim (Bool-cases (env.supernode_write_succeeds (supernode_record env monikers sn))) [
        | inl e ↦ rw e (get-upsert_supernode (supernode_record env monikers sn) account rows ∙ rw h)
        | inr e ↦ rw e
      ]

  -- If the chain serves a finite listing without an error, a pass of the supernode sync ends
  -- without one, and the row of an account that the listing does not name is as it was.
  pub sync_supernodes-unlisted :
      (n : ℕ) (sns : List Supernode) (fuel : ℕ) (rows : List SupernodeDb)
      → Serves env.get_supernodes n "" sns
      → n ≤ fuel
      → All (λ sn. (sn.supernode_account == account) ≡ false) sns
      → get_supernode_by_id account (state_of (sync_supernodes env monikers fuel rows))
        ≡ get_supernode_by_id account rows
  unfolding sync_supernodes
  sync_supernodes-unlisted n sns fuel rows served enough unlisted =
      ap (λ o. get_supernode_by_id account (state_of o))
        (each_page_lem (store_supernode env monikers) env.get_supernodes n "" sns fuel rows served
          enough)
      ∙ visit_all-apart (store_supernode env monikers) (get_supernode_by_id account)
          (λ sn. sn.supernode_account == account) store_supernode-apart sns rows unlisted

stored_by :
    (env : Env) (monikers : Monikers) (sn : Supernode) (rows : List SupernodeDb)
    → env.supernode_write_succeeds (supernode_record env monikers sn) ≡ true
    → get_supernode_by_id sn.supernode_account (store_supernode env monikers sn rows)
      ≡ some (
          stored (supernode_record env monikers sn) (get_supernode_by_id sn.supernode_account rows))
unfolding store_supernode supernode_record
stored_by env monikers sn rows ok = rw ok (
    get-upsert_supernode (supernode_record env monikers sn) sn.supernode_account rows
    ∙ rw (beq_refl sn.supernode_account))

-- If the chain serves a finite listing without an error, names an account once, and the write of
-- its row succeeds, then a pass of the supernode sync leaves that account with the chain's columns
-- of this entry, laid over the row that was there, or in a new row.
pub sync_supernodes-listed :
    (env : Env) (monikers : Monikers) (n : ℕ) (xs : List Supernode) (sn : Supernode)
    → (ys : List Supernode) (fuel : ℕ) (rows : List SupernodeDb)
    → Serves env.get_supernodes n "" (xs ++ sn ∷ ys)
    → n ≤ fuel
    → All (λ o. (o.supernode_account == sn.supernode_account) ≡ false) xs
    → All (λ o. (o.supernode_account == sn.supernode_account) ≡ false) ys
    → env.supernode_write_succeeds (supernode_record env monikers sn) ≡ true
    → get_supernode_by_id sn.supernode_account (state_of (sync_supernodes env monikers fuel rows))
      ≡ some (
          stored (supernode_record env monikers sn) (get_supernode_by_id sn.supernode_account rows))
unfolding sync_supernodes
sync_supernodes-listed env monikers n xs sn ys fuel rows served enough before_it after_it ok =
    let account = sn.supernode_account in
    let store = store_supernode env monikers in
    let apart = store_supernode-apart env monikers account in
    let named = λ (o : Supernode). o.supernode_account == account in
    let earlier = visit_all store xs rows in
    ap (λ o. get_supernode_by_id account (state_of o))
      (each_page_lem store env.get_supernodes n "" (xs ++ sn ∷ ys) fuel rows served enough)
    ∙ visit_all-one store (get_supernode_by_id account) named apart xs sn ys rows after_it
    ∙ stored_by env monikers sn earlier ok
    ∙ ap (λ o. some (stored (supernode_record env monikers sn) o))
        (visit_all-apart store (get_supernode_by_id account) named apart xs rows before_it)

-- the id of an entry, if it is a number, is `id`
abbrev pub has_id : Option ℕ → ℕ → Bool
has_id none id = false
has_id (some i) id = i == id

module _ (env : Env) (id : ℕ) where
  store_action-apart :
      (a : ChainAction) (rows : List ActionDb)
      → has_id (ok? (parse_uint a.action_id)) id ≡ false
      → get_action_by_id id (store_action env a rows) ≡ get_action_by_id id rows
  unfolding store_action action_record
  store_action-apart a rows h = elim (Option-cases (ok? (parse_uint a.action_id))) [
    | inl e ↦ rw (e, store_parsed)
    | inr (i, e) ↦
        let other : (i == id) ≡ false = rw e at h in
        elim (Bool-cases (env.action_write_succeeds (action_record env a i))) [
          | inl w ↦
              rw (e, store_parsed, w)
                (get-upsert_action env.now (action_record env a i) id rows ∙ rw other)
          | inr w ↦ rw (e, store_parsed, w)
        ]
  ]

  action_stored_by :
      (a : ChainAction) (rows : List ActionDb)
      → ok? (parse_uint a.action_id) ≡ some id
      → env.action_write_succeeds (action_record env a id) ≡ true
      → get_action_by_id id (store_action env a rows)
        ≡ some (stored_action env.now (action_record env a id) (get_action_by_id id rows))
  unfolding store_action action_record
  action_stored_by a rows own ok =
      rw (own, store_parsed, ok)
        (get-upsert_action env.now (action_record env a id) id rows ∙ rw (beq_refl id))

  -- If the chain serves a finite listing without an error, a pass of the action sync leaves every
  -- action alone whose id the listing does not give, be it that an entry's id is no number.
  pub sync_actions-unlisted :
      (n : ℕ) (actions : List ChainAction) (fuel : ℕ) (rows : List ActionDb)
      → Serves env.get_actions n "" actions
      → n ≤ fuel
      → All (λ a. has_id (ok? (parse_uint a.action_id)) id ≡ false) actions
      → get_action_by_id id (state_of (sync_actions env fuel rows)) ≡ get_action_by_id id rows
  unfolding sync_actions
  sync_actions-unlisted n actions fuel rows served enough unlisted =
      ap (λ o. get_action_by_id id (state_of o))
        (each_page_lem (store_action env) env.get_actions n "" actions fuel rows served enough)
      ∙ visit_all-apart (store_action env) (get_action_by_id id)
          (λ a. has_id (ok? (parse_uint a.action_id)) id) store_action-apart actions rows unlisted

  -- If the chain serves a finite listing without an error, gives an id once, and the write of its
  -- row succeeds, then a pass of the action sync leaves this entry under its id, with the creation
  -- time of the row that was there, or the present time for a new row.
  pub sync_actions-listed :
      (n : ℕ) (xs : List ChainAction) (a : ChainAction) (ys : List ChainAction)
      → (fuel : ℕ) (rows : List ActionDb) → Serves env.get_actions n "" (xs ++ a ∷ ys)
      → n ≤ fuel
      → ok? (parse_uint a.action_id) ≡ some id
      → All (λ o. has_id (ok? (parse_uint o.action_id)) id ≡ false) xs
      → All (λ o. has_id (ok? (parse_uint o.action_id)) id ≡ false) ys
      → env.action_write_succeeds (action_record env a id) ≡ true
      → get_action_by_id id (state_of (sync_actions env fuel rows))
        ≡ some (stored_action env.now (action_record env a id) (get_action_by_id id rows))
  unfolding sync_actions
  sync_actions-listed n xs a ys fuel rows served enough own before_it after_it ok =
      let store = store_action env in
      let named = λ (o : ChainAction). has_id (ok? (parse_uint o.action_id)) id in
      let earlier = visit_all store xs rows in
      ap (λ o. get_action_by_id id (state_of o))
        (each_page_lem store env.get_actions n "" (xs ++ a ∷ ys) fuel rows served enough)
      ∙ visit_all-one store (get_action_by_id id) named store_action-apart xs a ys rows after_it
      ∙ action_stored_by a earlier own ok
      ∙ ap (λ o. some (stored_action env.now (action_record env a id) o))
          (visit_all-apart store (get_action_by_id id) named store_action-apart xs rows before_it)
