-- ===== src/Db/Stats/Extended.antt =====
-- The statistics with a range of time: the join with the 'register' transactions, and the MIME types.
use lumescope.Prelude.{
  ◌≡◌, refl, subst, sym, ap, ◌∙◌, Bool, true, false, ◌&&◌, List, [], ◌∷◌, ◌++◌, string_eq, nat_eq,
  eq_iff, filter, any, map, arith, if◌then◌else◌, Bool-cases, inl, inr, if-has,
}
use lumescope.Prelude.Int.{ℤ}
use lumescope.Db.Types.{ActionDb, ActionTransaction, Float64}
use lumescope.Db.Transactions.{same_key}
use lumescope.Db.Transactions.Laws.{Unique, HasNoKey}
use lumescope.Db.Stats.Laws.{Counts, stats_of-Counts}
use lumescope.Db.Stats.{
  ActionStatsFilter, ActionStatsExtended, SupernodeActionStats, needs_join, of_given_type,
  registered_at, join_registered, selected, get_action_stats_extended, stats_of, count_states,
}

module _ (f : ActionStatsFilter) where
  one_key :
      (a : ActionDb) (t u : ActionTransaction)
      → registered_at f a t ≡ true
      → registered_at f a u ≡ true
      → same_key u t ≡ true
  one_key a t u h k =
      ground (
        arith,
        eq_iff u.tx_type t.tx_type,
        eq_iff u.tx_type "register",
        eq_iff t.tx_type "register",
      )

  none_registered :
      (a : ActionDb) (t : ActionTransaction) (txs : List ActionTransaction)
      → registered_at f a t ≡ true
      → HasNoKey t txs
      → filter (registered_at f a) txs ≡ []
  none_registered a t [] h new = refl
  none_registered a t (u ∷ txs) h new =
      if-has (λ l. l ≡ []) (registered_at f a u) _ _
        (λ e. absurd (ground (arith, one_key a t u h e, new.0)))
        (λ _. none_registered a t txs h new.1)

  -- what the join makes of one action
  joined_once :
      (a : ActionDb) (txs : List ActionTransaction)
      → Unique txs
      → map (λ t. a) (filter (registered_at f a) txs)
        ≡ (if any (registered_at f a) txs then a ∷ [] else [])
  joined_once a [] u = refl
  joined_once a (t ∷ txs) u = elim (Bool-cases (registered_at f a t)) [
    | inl e ↦ rw e (ap (λ l. a ∷ map (λ t. a) l) (none_registered a t txs e u.0))
    | inr e ↦ rw e (joined_once a txs u.1)
  ]

  pub join_registered_lem :
      (txs : List ActionTransaction) (rows : List ActionDb)
      → Unique txs
      → join_registered f txs rows ≡ filter (λ a. any (registered_at f a) txs) rows
  unfolding join_registered
  join_registered_lem txs [] u = refl
  join_registered_lem txs (a ∷ rows) u =
      ap (λ l. l ++ join_registered f txs rows) (joined_once a txs u)
      ∙ if-has
          (λ l. l ++ join_registered f txs rows ≡ (
            if any (registered_at f a) txs
            then a ∷ filter (λ b. any (registered_at f b) txs) rows
            else filter (λ b. any (registered_at f b) txs) rows))
          (any (registered_at f a) txs) (a ∷ []) []
          (λ e. rw e (ap (λ l. a ∷ l) (join_registered_lem txs rows u)))
          (λ e. rw e (join_registered_lem txs rows u))

-- the actions that are counted
abbrev pub is_counted : ActionStatsFilter → List ActionTransaction → ActionDb → Bool
is_counted f txs a =
    of_given_type f.action_type a && (if needs_join f then any (registered_at f a) txs else true)

filter_twice :
    (p q : ActionDb → Bool) (rows : List ActionDb)
    → filter q (filter p rows) ≡ filter (λ a. p a && q a) rows
filter_twice p q [] = refl
filter_twice p q (a ∷ rows) = elim (Bool-cases (p a)) [
  | inl e ↦ elim (Bool-cases (q a)) [
    | inl k ↦ rw (e, k) (ap (λ l. a ∷ l) (filter_twice p q rows))
    | inr k ↦ rw (e, k) (filter_twice p q rows)
  ]
  | inr e ↦ rw e (filter_twice p q rows)
]

filter_as :
    (p q : ActionDb → Bool)
    → ((a : ActionDb) → p a ≡ q a)
    → (rows : List ActionDb) → filter p rows ≡ filter q rows
filter_as p q h [] = refl
filter_as p q h (a ∷ rows) = cc (h a, filter_as p q h rows)

joined_or_not :
    (b : Bool) (f : ActionStatsFilter) (txs : List ActionTransaction) (rows : List ActionDb)
    → Unique txs
    → (let typed = filter (of_given_type f.action_type) rows in
        if b then join_registered f txs typed else typed)
      ≡ filter
          (λ a. of_given_type f.action_type a && (if b then any (registered_at f a) txs else true))
          rows
joined_or_not true f txs rows u =
    join_registered_lem f txs (filter (of_given_type f.action_type) rows) u
    ∙ filter_twice (of_given_type f.action_type) (λ a. any (registered_at f a) txs) rows
joined_or_not false f txs rows u = filter_as _ _ (λ a. ground arith) rows

pub selected_lem :
    (f : ActionStatsFilter) (txs : List ActionTransaction) (rows : List ActionDb)
    → Unique txs
    → selected f txs rows ≡ filter (is_counted f txs) rows
unfolding selected
selected_lem f txs rows u = joined_or_not (needs_join f) f txs rows u

abbrev pub by_state : ActionStatsExtended → SupernodeActionStats
by_state stats = record { total = stats.total; state_counts = stats.state_counts }

-- Where no action has two transactions of one type, the statistics with a range of time count each
-- action of the type once, and with a bound on the time only those whose 'register' transaction
-- lies within the bounds: the total is their number, the states that are listed are those that
-- occur, and each is listed once with the number of these actions in it.
pub extended_states :
    (avg : List ℤ → Float64) (f : ActionStatsFilter) (txs : List ActionTransaction)
    (rows : List ActionDb)
    → Unique txs
    → Counts (by_state (get_action_stats_extended avg f txs rows)) (filter (is_counted f txs) rows)
unfolding get_action_stats_extended
extended_states avg f txs rows u =
    subst (λ l. Counts (stats_of (count_states l)) (filter (is_counted f txs) rows))
      (sym (selected_lem f txs rows u)) (stats_of-Counts (filter (is_counted f txs) rows))
