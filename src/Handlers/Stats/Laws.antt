-- ===== src/Handlers/Stats/Laws.antt =====
-- What the replies with statistics say of the tables.
use lumescope.Prelude.{
  String, ◌≡◌, ap, Bool, false, Option, some, List, ◌==◌, string_eq, any, filter, length,
}
use lumescope.Prelude.Int.{ℤ}
use lumescope.Prelude.Text.{trim_space}
use lumescope.Db.Types.{Time, Float64, ActionDb, ActionTransaction}
use lumescope.Db.Transactions.Laws.{Unique}
use lumescope.Db.Stats.{ActionStatsFilter, json_array, get_action_stats_extended}
use lumescope.Db.Stats.Laws.{in_state, served_by, get_supernode_action_stats_lem}
use lumescope.Db.Stats.Extended.{is_counted, extended_states}
use lumescope.Handlers.Reply.{Query, accepted, ok}
use lumescope.Handlers.Stats.States.{count_in, positive, states_map_lem}
use lumescope.Handlers.Stats.{
  ActionStatsResponse, SupernodeActionStatsResponse, parse_stats_filter, stats_response,
  answer_stats, get_action_stats_handler, answer_action_stats, get_supernode_action_stats_handler,
}

-- Where no action has two transactions of one type, the reply to a request for statistics that is
-- well formed gives as the total the number of actions of the type and in the range of time, and
-- maps each state to the number of these actions in it, leaving out the states without any.
pub action_stats_reply :
    (parse_time : String → Option Time) (avg : List ℤ → Float64) (q : Query) (f : ActionStatsFilter)
    (txs : List ActionTransaction) (rows : List ActionDb)
    → parse_stats_filter parse_time q ≡ accepted f
    → Unique txs
    → (resp : ActionStatsResponse) × (get_action_stats_handler parse_time avg false q txs rows
        ≡ ok resp)
      × (resp.total ≡ length (filter (is_counted f txs) rows))
      × ((s : String)
          → count_in s resp.states ≡ positive (in_state s (filter (is_counted f txs) rows)))
unfolding get_action_stats_handler stats_response
action_stats_reply parse_time avg q f txs rows parsed u =
    let stats = get_action_stats_extended avg f txs rows in
    let counts = extended_states avg f txs rows u in
    (
      stats_response stats,
      ap (answer_stats avg false txs rows) parsed,
      counts.total,
      λ s. states_map_lem _ (filter (is_counted f txs) rows) s counts,
    )

-- the address and the type that a request asks for
abbrev pub asked_address : Query → String
asked_address q = trim_space (q "address")

abbrev pub asked_type : Query → String
asked_type q = trim_space (q "type")

abbrev pub served : Query → List ActionDb → List ActionDb
served q rows = filter (served_by (asked_address q) (asked_type q)) rows

-- A request for the statistics of an address that is not blank is answered, where the text that is
-- built around the trimmed address is the JSON array of it alone, with the number of the actions of
-- the type that have it among their supernodes, in all and for each state that occurs.
pub supernode_action_stats_reply :
    (jsonb : String → Option (List String → Bool)) (q : Query) (rows : List ActionDb)
    → (asked_address q == "") ≡ false
    → jsonb (json_array (asked_address q)) ≡ some (any (λ sn. sn == asked_address q))
    → (resp : SupernodeActionStatsResponse) × (get_supernode_action_stats_handler jsonb false q rows
        ≡ ok resp)
      × (resp.total ≡ length (served q rows))
      × ((s : String) → count_in s resp.states ≡ positive (in_state s (served q rows)))
unfolding get_supernode_action_stats_handler answer_action_stats
supernode_action_stats_reply jsonb q rows given plain =
    let (stats, found, counts) =
      get_supernode_action_stats_lem jsonb (asked_address q) (asked_type q) rows plain in
    (
      record { total = stats.total; states = _; supernode_address = asked_address q },
      rw given (ap (answer_action_stats (asked_address q)) found),
      counts.total,
      λ s. states_map_lem stats (served q rows) s counts,
    )
