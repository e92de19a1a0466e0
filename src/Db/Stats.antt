-- ===== src/Db/Stats.antt =====
-- internal/db/db.go: the statements that count and sum: GetSupernodeActionStats, GetActionStats,
-- GetActionStatsExtended, GetAggregatedHardwareStats, GetSupernodePaymentStats. PostgreSQL's cast
-- to jsonb, its AVG, and its sums of numeric and double precision are parameters. The columns
-- mimeType, size and state are never NULL.
pub mod Groups
pub mod Laws
pub mod Extended
pub mod Mime
pub mod Versions
pub mod Hardware
pub mod Payments
use Prim.Native.String as Text
use lumescope.Prelude.{
  ℕ, ◌+◌, ◌≤◌, String, Bool, true, false, not, ◌&&◌, ◌||◌, Option, none, some, List, [], ◌∷◌, ◌++◌,
  ◌==◌, nat_eq, string_eq, any, filter, length, map, leb, if◌then◌else◌,
}
use lumescope.Prelude.Int.{ℤ, pos, ◌+ℤ◌, pos_part, neg_part}
use lumescope.Strconv.{max_int64}
use lumescope.Db.Types.{Time, Float64, ActionDb, ActionTransaction, SupernodeDb}
use lumescope.Db.Supernodes.Filter.{is_available, stopped}
use lumescope.Db.Stats.Groups.{group_by}

pub record StateCount : Type 0 where
  pub state : String
  pub count : ℕ

-- also ActionStats
pub record SupernodeActionStats : Type 0 where
  pub total : ℕ
  pub state_counts : List StateCount

-- SELECT "state", COUNT(*) ... GROUP BY "state"
unfoldable pub count_states : List ActionDb → List StateCount
count_states rows =
    map (λ g. record { state = g.0; count = length g.1 })
      (group_by (λ (a : ActionDb). a.state) rows)

-- the loop over the groups
unfoldable pub add_counts : ℕ → List StateCount → ℕ
add_counts total [] = total
add_counts total (sc ∷ scs) = add_counts (total + sc.count) scs

abbrev pub stats_of : List StateCount → SupernodeActionStats
stats_of scs = record { total = add_counts 0 scs; state_counts = scs }

-- `if actionType != ""`
abbrev pub of_type : String → ActionDb → Bool
of_type action_type a = if action_type == "" then true else a.action_type == action_type

counted_for : String → List ActionDb → Option (List String → Bool) → Option SupernodeActionStats
unfolding count_states
counted_for action_type rows none = none
counted_for action_type rows (some contained) =
    some (
      stats_of (count_states (filter (λ a. contained a.super_nodes && of_type action_type a) rows)))

-- fmt.Sprintf(`["%s"]`, address)
abbrev pub json_array : String → String
json_array address = Text.◌++◌ "[\"" (Text.◌++◌ address "\"]")

-- `jsonb` is "superNodes" @> $1::jsonb: for a text that is JSON, the test that an array of strings
-- contains it; the query fails on any other text
unfoldable pub get_supernode_action_stats :
    (String → Option (List String → Bool))
    → String
    → String
    → List ActionDb
    → Option SupernodeActionStats
unfolding counted_for
get_supernode_action_stats jsonb address action_type rows =
    counted_for action_type rows (jsonb (json_array address))

unfoldable pub get_action_stats : String → List ActionDb → SupernodeActionStats
unfolding count_states
get_action_stats action_type rows = stats_of (count_states (filter (of_type action_type) rows))

pub record ActionStatsFilter : Type 0 where
  pub action_type : Option String
  pub from : Option Time
  pub to : Option Time

pub record MimeTypeStat : Type 0 where
  pub mime_type : String
  pub count : ℕ
  pub avg_size : Float64

pub record ActionStatsExtended : Type 0 where
  pub total : ℕ
  pub state_counts : List StateCount
  pub mime_type_stats : List MimeTypeStat

abbrev pub needs_join : ActionStatsFilter → Bool
needs_join f = elim f.from [ some t ↦ true | none ↦ elim f.to [ some t ↦ true | none ↦ false ] ]

abbrev pub of_given_type : Option String → ActionDb → Bool
of_given_type none a = true
of_given_type (some action_type) a = of_type action_type a

abbrev pub is_from : Option Time → Time → Bool
is_from none t = true
is_from (some from) t = leb from t

abbrev pub is_until : Option Time → Time → Bool
is_until none t = true
is_until (some to) t = leb t to

-- ON a."actionID" = at."actionID" AND at."txType" = 'register', and the conditions on the time
abbrev pub registered_at : ActionStatsFilter → ActionDb → ActionTransaction → Bool
registered_at f a t =
    (t.action_id == a.action_id && t.tx_type == "register")
    && (is_from f.from t.block_time && is_until f.to t.block_time)

-- the join gives an action once for each row of the other table that fits
unfoldable pub join_registered :
    ActionStatsFilter → List ActionTransaction → List ActionDb → List ActionDb
join_registered f txs [] = []
join_registered f txs (a ∷ rest) =
    map (λ t. a) (filter (registered_at f a) txs) ++ join_registered f txs rest

unfoldable pub selected : ActionStatsFilter → List ActionTransaction → List ActionDb → List ActionDb
unfolding join_registered
selected f txs rows =
    let typed = filter (of_given_type f.action_type) rows in
    if needs_join f then join_registered f txs typed else typed

unfoldable pub count_mime_types : (List ℤ → Float64) → List ActionDb → List MimeTypeStat
count_mime_types avg rows =
    filter (λ (ms : MimeTypeStat). not (ms.mime_type == ""))
      (map
        (λ g. record {
          mime_type = g.0;
          count = length g.1;
          avg_size = avg (map (λ (a : ActionDb). a.size) g.1);
        })
        (group_by (λ (a : ActionDb). a.mime_type) rows))

unfoldable pub get_action_stats_extended :
    (List ℤ → Float64)
    → ActionStatsFilter
    → List ActionTransaction
    → List ActionDb
    → ActionStatsExtended
unfolding selected count_states count_mime_types
get_action_stats_extended avg f txs rows =
    let states = count_states (selected f txs rows) in
    record {
      total = add_counts 0 states;
      state_counts = states;
      mime_type_stats = count_mime_types avg (selected f txs rows);
    }
