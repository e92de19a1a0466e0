-- ===== src/Tests/Requests.antt =====
-- The requests of the syncs on a chain whose second page fails.
use Prim.Native.String
use lumescope.Prelude.{
  String, ◌≡◌, refl, false, none, some, [], ◌∷◌, ◌++◌, ◌==◌, string_eq, arith, if◌then◌else◌,
}
use lumescope.Background.Feed.{visit_all}
use lumescope.Background.Feed.Walk.{ended}
use lumescope.Background.Sync.{Supernode, store_supernode, sync_supernodes, sync_validators}
use lumescope.Background.Sync.Requests.{
  Decoders, over_requests, Answers, no_success, more_pages, supernodes_request, validators_request,
  sync_supernodes-Answers, sync_validators-failed,
}
use lumescope.Lumera.Listings.{
  Request, Response, Transport, Values, Endpoint, ListResponse, new_client,
}
use lumescope.Tests.Sync.{env, supernode}

abbrev encode : Values → String
encode [] = ""
encode ((k, v) ∷ []) = String.◌++◌ k (String.◌++◌ "=" v)
encode ((k, v) ∷ w ∷ q) =
    String.◌++◌ (String.◌++◌ k (String.◌++◌ "=" v)) (String.◌++◌ "&" (encode (w ∷ q)))

abbrev endpoint : Endpoint
endpoint = record { base_url = "http://lumera"; user_agent = "lumescope/preview" }

-- the first page of a listing is there; the second gives a status 500
abbrev transport : Transport
transport = record {
  send = λ r.
      if r.url
        == "http://lumera/LumeraProtocol/lumera/supernode/v1/list_super_nodes?pagination.limit=200"
      then some (record { status = 200; body = "page 1" })
      else some (record { status = 500; body = "" });
  encode = encode;
  sprint = λ n. "200";
}

abbrev first_page : ListResponse Supernode
first_page = record {
  entries = supernode "node1" ∷ supernode "node2" ∷ [];
  pagination = some (record { next_key = "k" });
}

abbrev decoders : Decoders
decoders = record {
  validators = λ body. none;
  supernodes = λ body. some first_page;
  actions = λ body. none;
}

new_client_test : new_client "http://lumera//" ≡ endpoint
unfolding new_client
new_client_test = refl

supernodes-Answers :
    Answers transport decoders.supernodes
      (supernodes_request transport endpoint)
      false
      2
      ""
      (first_page.entries ++ [])
unfolding lumescope.Lumera.Listings.request_of lumescope.Lumera.Listings.page_query
supernodes-Answers =
    more_pages false 1 "" (record { status = 200; body = "page 1" }) first_page [] refl refl refl
      refl (no_success "k" (record { status = 500; body = "" }) refl refl)

sync_supernodes-Answers_example :
    sync_supernodes (over_requests transport endpoint decoders env) [] 2 []
    ≡ ended false (visit_all (store_supernode env []) (first_page.entries ++ []) [])
sync_supernodes-Answers_example =
    sync_supernodes-Answers transport endpoint decoders env [] false 2 (first_page.entries ++ []) 2
      [] supernodes-Answers (omega arith)

validators-Answers :
    Answers transport decoders.validators (validators_request transport endpoint) false 1 "" []
unfolding lumescope.Lumera.Listings.request_of lumescope.Lumera.Listings.page_query
validators-Answers = no_success "" (record { status = 500; body = "" }) refl refl

sync_validators-failed_example :
    sync_validators (over_requests transport endpoint decoders env) 1 (("val1", "one") ∷ [])
    ≡ (("val1", "one") ∷ [])
sync_validators-failed_example =
    sync_validators-failed transport endpoint decoders env 1 [] 1 (("val1", "one") ∷ [])
      validators-Answers (omega arith)
