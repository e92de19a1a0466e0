-- ===== src/Handlers/Supernodes/Laws.antt =====
-- What the filter of a request holds, and the time that a page of supernodes gives.
use lumescope.Prelude.{
  String, ◌≡◌, refl, subst, true, Option, none, some, ◌==◌, ◌||◌, string_eq, any, arith, if-has,
}
use lumescope.Prelude.Int.{ℤ, pos, ◌≤ℤ◌, ltb_ℤ}
use lumescope.Strconv.{parse_int, ok?}
use lumescope.Db.Supernodes.Filter.{SupernodeMetricsFilter}
use lumescope.Handlers.Reply.{Query, Checked, accepted, rejected}
use lumescope.Handlers.Supernodes.{
  Codec, valid_chain_states, statuses, parse_chain_state, parse_status, parse_version, in_range,
  at_least, parse_min_failed, parse_limit, parse_cursor, filter_from, parse_filter,
}

abbrev pub Holds : {A : Type 0} → (A → Type 0) → Checked A → Type 0
Holds P (accepted a) = P a
Holds P (rejected message) = Unit

abbrev pub IsChainState : Option String → Type 0
IsChainState none = Unit
IsChainState (some s) = any (λ v. s == v) valid_chain_states ≡ true

-- What a list request may ask the database for.
pub record IsValid (f : SupernodeMetricsFilter) : Type 0 where
  pub chain_state : IsChainState f.chain_state
  pub status : any (λ v. f.status == v) statuses ≡ true
  pub min_failed : pos 0 ≤ℤ f.min_failed
  pub limit : (pos 1 ≤ℤ f.limit) × (f.limit ≤ℤ pos 200)

chain_state_lem : (s : String) → Holds IsChainState (parse_chain_state s)
unfolding parse_chain_state
chain_state_lem s =
    if-has (Holds IsChainState) (s == "") _ _ (λ _. tt)
      (λ _.
        if-has (Holds IsChainState) (any (λ v. s == v) valid_chain_states) _ _ (λ e. e) (λ _. tt))

abbrev IsStatus : String → Type 0
IsStatus s = any (λ v. s == v) statuses ≡ true

status_lem : (s : String) → Holds IsStatus (parse_status s)
unfolding parse_status
status_lem s =
    if-has (Holds IsStatus) (s == "") _ _ (λ _. refl)
      (λ _. if-has (Holds IsStatus) (any (λ v. s == v) statuses) _ _ (λ e. e) (λ _. tt))

abbrev IsNatural : ℤ → Type 0
IsNatural n = pos 0 ≤ℤ n

at_least_lem : (message : String) (o : Option ℤ) → Holds IsNatural (at_least message (pos 0) o)
unfolding at_least
at_least_lem message none = tt
at_least_lem message (some n) =
    if-has (Holds IsNatural) (ltb_ℤ n (pos 0)) _ _ (λ _. tt) (λ e. ground arith)

min_failed_lem : (s : String) → Holds IsNatural (parse_min_failed s)
unfolding parse_min_failed
min_failed_lem s =
    if-has (Holds IsNatural) (s == "") _ _ (λ _. ground arith)
      (λ _. at_least_lem _ (ok? (parse_int s)))

abbrev IsPageLimit : ℤ → Type 0
IsPageLimit n = (pos 1 ≤ℤ n) × (n ≤ℤ pos 200)

in_range_lem :
    (unread outside : String) (o : Option ℤ)
    → Holds IsPageLimit (in_range unread outside (pos 1) (pos 200) o)
unfolding in_range
in_range_lem unread outside none = tt
in_range_lem unread outside (some n) =
    if-has (Holds IsPageLimit) (ltb_ℤ n (pos 1) || ltb_ℤ (pos 200) n) _ _ (λ _. tt)
      (λ e. ground arith)

limit_lem : (s : String) → Holds IsPageLimit (parse_limit s)
unfolding parse_limit
limit_lem s =
    if-has (Holds IsPageLimit) (s == "") _ _ (λ _. ground arith)
      (λ _. in_range_lem _ _ (ok? (parse_int s)))

filter_from_lem :
    (version : Option String) (state : Checked (Option String)) (status : Checked String)
    (min_failed limit : Checked ℤ)
    → (cursor : Checked (Option String)) → Holds IsChainState state
    → Holds IsStatus status
    → Holds IsNatural min_failed
    → Holds IsPageLimit limit
    → Holds IsValid (filter_from version state status min_failed limit cursor)
unfolding filter_from
filter_from_lem v (accepted a) (accepted b) (accepted c) (accepted d) (accepted e) p q r s =
    record { chain_state = p; status = q; min_failed = r; limit = s }
filter_from_lem v (accepted a) (accepted b) (accepted c) (accepted d) (rejected m) p q r s = tt
filter_from_lem v (accepted a) (accepted b) (accepted c) (rejected m) e p q r s = tt
filter_from_lem v (accepted a) (accepted b) (rejected m) d e p q r s = tt
filter_from_lem v (accepted a) (rejected m) c d e p q r s = tt
filter_from_lem v (rejected m) b c d e p q r s = tt

-- A list request that is not refused asks for one of the known chain states or for all, for one of
-- the three statuses, for at least a natural number of failures, and for 1 to 200 rows.
pub parse_filter-IsValid :
    (codec : Codec) (q : Query) (f : SupernodeMetricsFilter)
    → parse_filter codec q ≡ accepted f
    → IsValid f
unfolding parse_filter
parse_filter-IsValid codec q f e = subst (Holds IsValid) e (
    filter_from_lem (parse_version (q "version")) _ _ _ _ (parse_cursor codec (q "cursor"))
      (chain_state_lem (q "currentState")) (status_lem (q "status"))
      (min_failed_lem (q "minFailedProbeCounter")) (limit_lem (q "limit")))
