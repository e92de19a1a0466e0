-- ===== src/Db/Stats/Laws.antt =====
-- The counts by state.
use lumescope.Prelude.{
  ℕ, ◌+◌, String, ◌≡◌, refl, ap, ◌∙◌, List, [], ◌∷◌, ◌==◌, string_eq, All, All-image, any-image,
  filter, length, map, arith, Option, some, ◌&&◌, any, Bool,
}
use lumescope.Db.Types.{ActionDb}
use lumescope.Db.Keyset.Order.{Distinct, All-map, Distinct-image}
use lumescope.Db.Stats.Groups.{
  group_by, group_by-Distinct, group_by-sum, group_by-rows, any-group_by, sum_of, size,
}
use lumescope.Db.Stats.{
  StateCount, SupernodeActionStats, count_states, add_counts, stats_of, of_type, get_action_stats,
  get_supernode_action_stats, json_array, counted_for,
}

abbrev state_of : ActionDb → String
state_of a = a.state

abbrev pub count_key : StateCount → String
count_key sc = sc.state

abbrev to_count : String × List ActionDb → StateCount
to_count g = record { state = g.0; count = length g.1 }

abbrev pub in_state : String → List ActionDb → ℕ
in_state s rows = length (filter (λ a. a.state == s) rows)

-- What the counts of a table are: for each state that occurs one count, of the rows in it, and
-- their sum.
pub record Counts (stats : SupernodeActionStats) (rows : List ActionDb) : Type 0 where
  pub total : stats.total ≡ length rows
  pub sum : sum_of (λ (sc : StateCount). sc.count) stats.state_counts ≡ length rows
  pub each : All (λ (sc : StateCount). sc.count ≡ in_state sc.state rows) stats.state_counts
  pub listed :
      (s : String)
      → any (λ (sc : StateCount). sc.state == s) stats.state_counts
        ≡ any (λ (a : ActionDb). a.state == s) rows
  pub once : Distinct count_key stats.state_counts

add_counts_lem :
    (n : ℕ) (gs : List (String × List ActionDb))
    → add_counts n (map to_count gs) ≡ n + sum_of (size state_of) gs
unfolding add_counts
add_counts_lem n [] = omega arith
add_counts_lem n (g ∷ gs) = omega (arith, add_counts_lem (n + length g.1) gs)

sum_counts :
    (gs : List (String × List ActionDb))
    → sum_of (λ (sc : StateCount). sc.count) (map to_count gs) ≡ sum_of (size state_of) gs
sum_counts [] = refl
sum_counts (g ∷ gs) = ap (λ n. length g.1 + n) (sum_counts gs)

pub stats_of-Counts : (rows : List ActionDb) → Counts (stats_of (count_states rows)) rows
unfolding count_states
stats_of-Counts rows =
    let gs = group_by state_of rows in
    record {
      total = omega (arith, add_counts_lem 0 gs, group_by-sum state_of rows);
      sum = sum_counts gs ∙ group_by-sum state_of rows;
      each =
          All-image _ to_count gs (All-map (λ g e. ap length e) gs (group_by-rows state_of rows));
      listed = λ s. any-image _ to_count gs ∙ any-group_by state_of s rows;
      once = Distinct-image count_key to_count gs (group_by-Distinct state_of rows);
    }

-- The statistics of a type of actions, or of all for the empty type, count exactly the rows of that
-- type: the total is their number, the states that are listed are those that occur, each is listed
-- once with the number of rows in it, and these numbers add up to the total.
pub get_action_stats_lem :
    (action_type : String) (rows : List ActionDb)
    → Counts (get_action_stats action_type rows) (filter (of_type action_type) rows)
unfolding get_action_stats
get_action_stats_lem action_type rows = stats_of-Counts (filter (of_type action_type) rows)

abbrev pub served_by : String → String → ActionDb → Bool
served_by address action_type a = any (λ sn. sn == address) a.super_nodes && of_type action_type a

-- Where the text that is built around the address is the JSON array of the address alone, the
-- statistics of a supernode count exactly the actions of the given type that have it among their
-- supernodes.
pub get_supernode_action_stats_lem :
    (jsonb : String → Option (List String → Bool)) (address action_type : String)
    (rows : List ActionDb)
    → jsonb (json_array address) ≡ some (any (λ sn. sn == address))
    → (stats : SupernodeActionStats) × (get_supernode_action_stats jsonb address action_type rows
        ≡ some stats)
      × Counts stats (filter (served_by address action_type) rows)
unfolding get_supernode_action_stats
get_supernode_action_stats_lem jsonb address action_type rows plain = (
  stats_of (count_states (filter (served_by address action_type) rows)),
  ap (counted_for action_type rows) plain,
  stats_of-Counts (filter (served_by address action_type) rows),
)
