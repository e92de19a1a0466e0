-- ===== src/Background/Sync/Requests.antt =====
-- The syncs of internal/background/scheduler.go over the requests of internal/lumera/client.go: the
-- limits that the loops ask for, and what a pass does for any answers of the chain.
use lumescope.Prelude.{
  ℕ, ◌≤◌, String, Bool, true, false, ◌≡◌, ap, ◌∙◌, Option, none, some, List, [], ◌++◌, ◌==◌,
  string_eq, Bool-cases, inl, inr,
}
use lumescope.Db.Types.{SupernodeDb, ActionDb}
use lumescope.Background.Feed.{visit_all}
use lumescope.Background.Feed.Walk.{Walk, ends, breaks, goes_on, ended, each_page-Walk}
use lumescope.Lumera.Listings.{
  Request, Response, Transport, Endpoint, ListResponse, is_success, read_json, request_of, do_json,
  page_of, next_key_of, page_query, action_query, validators_path, supernodes_path, actions_path,
  get_validators, get_supernodes, get_actions,
}
use lumescope.Background.Sync.{
  Env, Monikers, Validator, Supernode, ChainAction, add_moniker, keep_if_done, sync_validators,
  supernode_record, store_supernode, sync_supernodes, action_record, store_parsed, store_action,
  sync_actions,
}

-- json.Decoder.Decode for the three kinds of a response
pub record Decoders : Type 0 where
  pub validators : String → Option (ListResponse Validator)
  pub supernodes : String → Option (ListResponse Supernode)
  pub actions : String → Option (ListResponse ChainAction)

-- the calls of the three loops, with their limits
unfoldable pub over_requests : Transport → Endpoint → Decoders → Env → Env
over_requests t c json env = record env {
  get_validators = λ key. get_validators t c json.validators key 200;
  get_supernodes = λ key. get_supernodes t c json.supernodes key 200;
  get_actions = λ key.
      get_actions t c json.actions "ACTION_TYPE_UNSPECIFIED" "ACTION_STATE_UNSPECIFIED" key 100;
}

-- From `key` on, `n` requests are sent, which list `xs`. The last of them has no next key (true), or
-- fails (false): there is no response, its status is not from 200 to 299, or its body is no page.
pub data Answers {A : Type 0} (t : Transport) (decode : String → Option (ListResponse A))
    (request : String → Request) : Bool → ℕ → String → List A → Type 0 where
  last_page :
      (key : String) (resp : Response) (out : ListResponse A)
      → t.send (request key) ≡ some resp
      → is_success resp.status ≡ true
      → decode resp.body ≡ some out
      → next_key_of out.pagination ≡ ""
      → Answers t decode request true 1 key out.entries
  no_response :
      (key : String) → t.send (request key) ≡ none → Answers t decode request false 1 key []
  no_success :
      (key : String) (resp : Response)
      → t.send (request key) ≡ some resp
      → is_success resp.status ≡ false
      → Answers t decode request false 1 key []
  no_page :
      (key : String) (resp : Response)
      → t.send (request key) ≡ some resp
      → decode resp.body ≡ none
      → Answers t decode request false 1 key []
  more_pages :
      (b : Bool) (n : ℕ) (key : String) (resp : Response) (out : ListResponse A) (ys : List A)
      → t.send (request key) ≡ some resp
      → is_success resp.status ≡ true
      → decode resp.body ≡ some out
      → (next_key_of out.pagination == "") ≡ false
      → Answers t decode request b n (next_key_of out.pagination) ys
      → Answers t decode request b (ℕ.suc n) key (out.entries ++ ys)

module _ {A : Type 0} (t : Transport) (decode : String → Option (ListResponse A))
    (request : String → Request) where
  fetched : String → Option (List A × String)
  fetched key = page_of (read_json decode (t.send (request key)))

  fetched-page :
      (key : String) (resp : Response) (out : ListResponse A)
      → t.send (request key) ≡ some resp
      → is_success resp.status ≡ true
      → decode resp.body ≡ some out
      → fetched key ≡ some (out.entries, next_key_of out.pagination)
  unfolding fetched read_json
  fetched-page key resp out sent good read = rw (sent, good, read)

  Answers-Walk :
      (b : Bool) (n : ℕ) (key : String) (xs : List A)
      → Answers t decode request b n key xs
      → Walk fetched b n key xs
  unfolding fetched read_json
  Answers-Walk b n key xs (last_page _ resp out sent good read last) =
      ends key out.entries
        (fetched-page key resp out sent good read ∙ ap (λ k. some (out.entries, k)) last)
  Answers-Walk b n key xs (no_response _ sent) = breaks key (rw sent)
  Answers-Walk b n key xs (no_success _ resp sent bad) = breaks key (rw (sent, bad))
  Answers-Walk b n key xs (no_page _ resp sent garbled) =
      breaks key (elim (Bool-cases (is_success resp.status)) [
        | inl good ↦ rw (sent, good, garbled)
        | inr bad ↦ rw (sent, bad)
      ])
  Answers-Walk b n key xs (more_pages _ m _ resp out ys sent good read more rest) =
      goes_on b m key (next_key_of out.pagination) out.entries ys
        (fetched-page key resp out sent good read) more
        (Answers-Walk b m (next_key_of out.pagination) ys rest)

-- the requests of the three loops for the page of a key
abbrev pub validators_request : Transport → Endpoint → String → Request
validators_request t c key = request_of t c validators_path (page_query t key 200)

abbrev pub supernodes_request : Transport → Endpoint → String → Request
supernodes_request t c key = request_of t c supernodes_path (page_query t key 200)

abbrev pub actions_request : Transport → Endpoint → String → Request
actions_request t c key =
    request_of t c actions_path
      (action_query t "ACTION_TYPE_UNSPECIFIED" "ACTION_STATE_UNSPECIFIED" key 100)

module _ (t : Transport) (c : Endpoint) (json : Decoders) (env : Env) where
  -- If the chain's answers come to an end or to a failure within the fuel, a pass of the supernode
  -- sync ends: without an error in the first case and with one in the second. In both it has stored
  -- the entries of the pages before, each once, in the chain's order.
  pub sync_supernodes-Answers :
      (monikers : Monikers) (b : Bool) (n : ℕ) (sns : List Supernode) (fuel : ℕ)
      → (rows : List SupernodeDb) → Answers t json.supernodes (supernodes_request t c) b n "" sns
      → n ≤ fuel
      → sync_supernodes (over_requests t c json env) monikers fuel rows
        ≡ ended b (visit_all (store_supernode env monikers) sns rows)
  unfolding sync_supernodes over_requests get_supernodes do_json store_supernode fetched
      supernode_record
  sync_supernodes-Answers monikers b n sns fuel rows answers enough =
      each_page-Walk (store_supernode env monikers)
        (fetched t json.supernodes (supernodes_request t c)) b n "" sns fuel rows
        (Answers-Walk t json.supernodes (supernodes_request t c) b n "" sns answers) enough

  -- If the chain's answers come to an end or to a failure within the fuel, a pass of the action sync
  -- ends: without an error in the first case and with one in the second. In both it has stored the
  -- entries of the pages before, each once, in the chain's order.
  pub sync_actions-Answers :
      (b : Bool) (n : ℕ) (actions : List ChainAction) (fuel : ℕ) (rows : List ActionDb)
      → Answers t json.actions (actions_request t c) b n "" actions
      → n ≤ fuel
      → sync_actions (over_requests t c json env) fuel rows
        ≡ ended b (visit_all (store_action env) actions rows)
  unfolding sync_actions over_requests get_actions do_json store_action store_parsed action_record
      fetched
  sync_actions-Answers b n actions fuel rows answers enough =
      each_page-Walk (store_action env) (fetched t json.actions (actions_request t c)) b n ""
        actions fuel rows (Answers-Walk t json.actions (actions_request t c) b n "" actions answers)
        enough

  -- If an answer of the chain to the request for a page of validators fails, the runner's monikers
  -- stay as they were, whatever the pages before listed.
  pub sync_validators-failed :
      (n : ℕ) (vals : List Validator) (fuel : ℕ) (old : Monikers)
      → Answers t json.validators (validators_request t c) false n "" vals
      → n ≤ fuel
      → sync_validators (over_requests t c json env) fuel old ≡ old
  unfolding sync_validators over_requests get_validators do_json fetched keep_if_done
  sync_validators-failed n vals fuel old answers enough =
      ap (λ o. keep_if_done o old)
        (each_page-Walk add_moniker (fetched t json.validators (validators_request t c)) false n ""
          vals fuel []
          (Answers-Walk t json.validators (validators_request t c) false n "" vals answers) enough)
