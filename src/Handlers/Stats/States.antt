-- ===== src/Handlers/Stats/States.antt =====
-- The map of states in a reply, built from the counts of the database.
use lumescope.Prelude.{
  ℕ, String, ◌≡◌, refl, subst, sym, ap, ◌∙◌, ◌≢◌, Bool, Option, none, some, List, [], ◌∷◌, ◌==◌,
  string_eq, nat_eq, eq_iff, All, any, find, arith, Bool-cases, inl, inr, if-has, if◌then◌else◌,
}
use lumescope.Db.Types.{ActionDb}
use lumescope.Db.Keyset.Order.{Distinct}
use lumescope.Db.Supernodes.Rows.{other_account}
use lumescope.Db.Stats.{StateCount, SupernodeActionStats}
use lumescope.Db.Stats.Laws.{Counts, in_state, count_key}

-- an association list with distinct keys
abbrev pub StateMap : Type 0
StateMap = List (String × ℕ)

pub set_count : StateCount → StateMap → StateMap
set_count sc [] = (sc.state, sc.count) ∷ []
set_count sc (e ∷ es) =
    let rest = set_count sc es in if e.0 == sc.state then (sc.state, sc.count) ∷ es else e ∷ rest

-- `for _, sc := range counts { m[sc.State] = sc.Count }`
unfoldable pub states_map : StateMap → List StateCount → StateMap
unfolding set_count
states_map m [] = m
states_map m (sc ∷ scs) = states_map (set_count sc m) scs

abbrev pub count_in : String → StateMap → Option ℕ
count_in s [] = none
count_in s (e ∷ es) = if e.0 == s then some e.1 else count_in s es

count_in-set :
    (s : String) (sc : StateCount) (m : StateMap)
    → count_in s (set_count sc m) ≡ (if sc.state == s then some sc.count else count_in s m)
unfolding set_count
count_in-set s sc [] = refl
count_in-set s sc (e ∷ es) = elim (Bool-cases (e.0 == sc.state)) [
  | inl y ↦
      let same = ap (λ t. t == s) ((eq_iff e.0 sc.state).0 y) in
      elim (Bool-cases (sc.state == s)) [ inl z ↦ rw (y, z) | inr z ↦ rw (y, z, same ∙ z) ]
  | inr n ↦ elim (Bool-cases (e.0 == s)) [
    | inl y ↦ let other = other_account e.0 sc.state s y n in rw (n, y, other)
    | inr k ↦ rw (n, k) (count_in-set s sc es)
  ]
]

abbrev or_count : Option StateCount → Option ℕ → Option ℕ
or_count none o = o
or_count (some sc) o = some sc.count

abbrev pub is_state : String → StateCount → Bool
is_state s sc = sc.state == s

not_found_later :
    (s : String) (scs : List StateCount)
    → All (λ (sc : StateCount). s ≢ sc.state) scs
    → find (is_state s) scs ≡ none
not_found_later s [] h = refl
not_found_later s (sc ∷ scs) h =
    if-has (λ o. o ≡ none) (sc.state == s) _ _ (λ e. absurd (h.0 (sym ((eq_iff sc.state s).0 e))))
      (λ _. not_found_later s scs h.1)

count_in-states_map :
    (s : String) (m : StateMap) (scs : List StateCount)
    → Distinct count_key scs
    → count_in s (states_map m scs) ≡ or_count (find (is_state s) scs) (count_in s m)
unfolding states_map
count_in-states_map s m [] d = refl
count_in-states_map s m (sc ∷ scs) d =
    count_in-states_map s (set_count sc m) scs d.1
    ∙ ap (or_count (find (is_state s) scs)) (count_in-set s sc m)
    ∙ elim (Bool-cases (sc.state == s)) [
      | inl e ↦
          let same = (eq_iff sc.state s).0 e in
          rw (
            e,
            not_found_later s scs
                (subst (λ t. All (λ (other : StateCount). t ≢ other.state) scs) same d.0),
          )
      | inr e ↦ rw e
    ]

-- how many there are, if there are any
abbrev pub positive : ℕ → Option ℕ
positive n = if n == 0 then none else some n

find_lem :
    (s : String) (rows : List ActionDb) (scs : List StateCount)
    → All (λ (sc : StateCount). sc.count ≡ in_state sc.state rows) scs
    → or_count (find (is_state s) scs) none
      ≡ (if any (is_state s) scs then some (in_state s rows) else none)
find_lem s rows [] h = refl
find_lem s rows (sc ∷ scs) h = elim (Bool-cases (sc.state == s)) [
  | inl e ↦ rw e (ap some (h.0 ∙ ap (λ t. in_state t rows) ((eq_iff sc.state s).0 e)))
  | inr e ↦ rw e (find_lem s rows scs h.1)
]

positive_lem :
    (s : String) (rows : List ActionDb)
    → (if any (λ (a : ActionDb). a.state == s) rows then some (in_state s rows) else none)
      ≡ positive (in_state s rows)
positive_lem s [] = refl
positive_lem s (a ∷ rows) = ground (arith, positive_lem s rows)

pub states_map_lem :
    (stats : SupernodeActionStats) (rows : List ActionDb) (s : String)
    → Counts stats rows
    → count_in s (states_map [] stats.state_counts) ≡ positive (in_state s rows)
states_map_lem stats rows s counts =
    count_in-states_map s [] stats.state_counts counts.once
    ∙ find_lem s rows stats.state_counts counts.each
    ∙ ap (λ b. if b then some (in_state s rows) else none) (counts.listed s)
    ∙ positive_lem s rows
