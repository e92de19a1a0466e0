-- ===== src/Tests/Stats.antt =====
-- The statistics on concrete inputs.
use lumescope.Prelude.{
  ℕ, ◌≤◌, String, ◌≡◌, refl, Bool, true, false, not, ◌&&◌, Option, none, some, List, [], ◌∷◌, ◌==◌,
  string_eq, option_eq, any, arith, map, filter, length, All, if◌then◌else◌,
}
use lumescope.Prelude.Int.{ℤ}
use lumescope.Db.Types.{Time, Float64, ActionDb, ActionTransaction, SupernodeDb}
use lumescope.Db.Keyset.{descending}
use lumescope.Db.Keyset.Order.{Distinct}
use lumescope.Db.Keyset.Ties.{IsOrdered}
use lumescope.Db.Stats.{ActionStatsFilter, json_array}
use lumescope.Db.Stats.Laws.{in_state}
use lumescope.Db.Stats.Extended.{is_counted}
use lumescope.Db.Stats.Versions.{VersionRow, list_version_matrix, version_of, is_known, total_key}
use lumescope.Db.Stats.Versions.Laws.{IsRowOf, with_version, list_version_matrix_lem}
use lumescope.Db.Stats.Payments.{get_supernode_payment_stats}
use lumescope.Db.Stats.Payments.Laws.{
  IsAnswer, pays, payments_in, denoms, get_supernode_payment_stats_lem,
}
use lumescope.Handlers.Reply.{Query, ok}
use lumescope.Handlers.Version.{VersionMatrixResponse, version_matrix}
use lumescope.Handlers.Version.Laws.{latest_version_lem}
use lumescope.Handlers.Stats.States.{count_in, positive}
use lumescope.Handlers.Stats.{
  ActionStatsResponse, SupernodeActionStatsResponse, get_action_stats_handler,
  get_supernode_action_stats_handler,
}
use lumescope.Handlers.Stats.Laws.{action_stats_reply, supernode_action_stats_reply, served}
use lumescope.Tests.Db.{action, transaction, node}

abbrev rows : List ActionDb
rows = action 3 ∷ action 5 ∷ record (action 6) { state = "ACTION_STATE_PENDING" } ∷ []

abbrev txs : List ActionTransaction
txs = transaction 3 "register" ∷ transaction 3 "finalize" ∷ transaction 6 "register" ∷ []

abbrev read_time : String → Option Time
read_time s = if s == "t4" then some 4 else none

abbrev from_4 : Query
from_4 name = if name == "from" then "t4" else ""

abbrev since_4 : ActionStatsFilter
since_4 = record { action_type = none; from = some 4; to = none }

abbrev no_average : List ℤ → Float64
no_average sizes = 0

action_stats_reply_example :
    (resp : ActionStatsResponse) × (get_action_stats_handler read_time no_average false from_4 txs
        rows
      ≡ ok resp)
    × (resp.total ≡ 2)
    × ((s : String)
        → count_in s resp.states ≡ positive (in_state s (filter (is_counted since_4 txs) rows)))
unfolding lumescope.Handlers.Stats.parse_stats_filter lumescope.Prelude.Text.trim_space
action_stats_reply_example =
    action_stats_reply read_time no_average from_4 since_4 txs rows refl
      ((refl, (refl, tt)), ((refl, tt), (tt, tt)))

-- the cast of the array of a plain address
abbrev jsonb : String → Option (List String → Bool)
jsonb text = if text == "[\"node1\"]" then some (any (λ sn. sn == "node1")) else none

abbrev of_node1 : Query
of_node1 name = if name == "address" then " node1" else ""

supernode_action_stats_reply_example :
    (resp : SupernodeActionStatsResponse) × (get_supernode_action_stats_handler jsonb false of_node1
        rows
      ≡ ok resp)
    × (resp.total ≡ 3)
    × ((s : String) → count_in s resp.states ≡ positive (in_state s (served of_node1 rows)))
unfolding lumescope.Prelude.Text.trim_space
supernode_action_stats_reply_example = supernode_action_stats_reply jsonb of_node1 rows refl refl

abbrev nodes : List SupernodeDb
nodes =
    node "node1" true none
    ∷ record (node "node2" false none) { last_known_actual_version = some "2.4.1" }
    ∷ node "node3" false none
    ∷ record (node "node4" false none) { actual_version = "" }
    ∷ []

list_version_matrix_lem_example :
    All (IsRowOf nodes) (list_version_matrix nodes)
    × ((v : String)
        → any (λ (vr : VersionRow). vr.version == v) (list_version_matrix nodes)
          ≡ any (λ row. version_of row == v) (filter is_known nodes))
    × IsOrdered descending total_key (list_version_matrix nodes)
list_version_matrix_lem_example = list_version_matrix_lem nodes

latest_version_lem_example :
    (resp : VersionMatrixResponse) × (version_matrix false nodes ≡ ok resp)
    × (length (with_version "2.4.1" nodes) ≤ length (with_version resp.latest_version nodes))
latest_version_lem_example = latest_version_lem nodes "2.4.1"

abbrev payment : ℕ → String → ActionTransaction
payment id denom = record (transaction id "finalize") {
  flow_payee = some "node1";
  action_price = some "5";
  action_price_denom = some denom;
}

abbrev payments : List ActionTransaction
payments = payment 3 "ulume" ∷ payment 4 "uatom" ∷ payment 5 "ulume" ∷ txs

abbrev first_text : List String → Option String
first_text [] = none
first_text (s ∷ ss) = some s

get_supernode_payment_stats_lem_example :
    IsAnswer first_text
      (payments_in "node1" payments)
      (denoms "node1" payments)
      (get_supernode_payment_stats first_text "node1" payments)
    × Distinct (λ (k : Option String). k) (denoms "node1" payments)
    × ((k : Option String)
        → any (λ d. d == k) (denoms "node1" payments)
          ≡ any (λ t. pays "node1" t && t.action_price_denom == k) payments)
get_supernode_payment_stats_lem_example =
    get_supernode_payment_stats_lem first_text "node1" payments

stats_tests :
    (list_version_matrix nodes
      ≡ record { version = "2.4.0"; total = 2; available = 1; unavailable = 1 }
        ∷ record { version = "2.4.1"; total = 1; available = 0; unavailable = 1 }
        ∷ [])
    × (denoms "node1" payments ≡ some "ulume" ∷ some "uatom" ∷ [])
unfolding list_version_matrix version_of lumescope.Db.Supernodes.Filter.shown_version
    lumescope.Db.Stats.Groups.group_by lumescope.Db.Keyset.order_by
stats_tests = (refl, refl)
