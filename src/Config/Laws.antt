-- ===== src/Config/Laws.antt =====
-- What a loaded configuration holds, whatever the environment is.
use lumescope.Prelude.{
  ℕ, ◌^◌, ◌≤◌, ◌<◌, String, ◌≡◌, ◌≢◌, refl, false, Option, none, some, List, [], ◌∷◌, ◌==◌,
  string_eq, All, All-image, filter, map, not, if-has, arith,
}
use lumescope.Prelude.Int.{ℤ, pos, negsuc, pos_part, neg_part, wrap_int}
use lumescope.Prelude.Text.{
  split, split-lacks, trim_space, trim_space_twice, contains_char, contains-trim_space,
}
use lumescope.Strconv.{
  Parsed, parsed, syntax_error, range_error, parse_int, parse_uint, ok?, value_or, max_uint64,
}
use lumescope.Strconv.Bounds.{parse_uint-le-max}
use lumescope.Db.Keyset.Order.{All-map}
use lumescope.Server.Cors.{lists}
use lumescope.Config.{
  Environment, load, split_and_clean, or_any, int32_env, to_int32, uint64_env, read_env,
  value_or_default, getenv,
}

-- an origin that a configuration may list
abbrev pub IsOrigin : String → Type 0
IsOrigin o = ((o == "") ≡ false) × (contains_char b',' o ≡ false) × (trim_space o ≡ o)

abbrev IsPart : String → Type 0
IsPart p = (contains_char b',' p ≡ false) × (trim_space p ≡ p)

filter-has :
    (parts : List String) → All IsPart parts → All IsOrigin (filter (λ p. not (p == "")) parts)
filter-has [] h = tt
filter-has (p ∷ parts) h =
    if-has (All IsOrigin) (not (p == "")) _ _
      (λ e. ((ground arith, h.0.0, h.0.1), filter-has parts h.1)) (λ _. filter-has parts h.1)

or_any-has : (os : List String) → All IsOrigin os → All IsOrigin (or_any os)
unfolding or_any trim_space
or_any-has [] h = ((refl, refl, refl), tt)
or_any-has (o ∷ os) h = h

or_any_filled : (os : List String) → or_any os ≢ []
unfolding or_any
or_any_filled [] e = ground (arith, e)
or_any_filled (o ∷ os) e = ground (arith, e)

split_and_clean_lem : (s : String) → All IsOrigin (split_and_clean s) × (split_and_clean s ≢ [])
unfolding split_and_clean
split_and_clean_lem s =
    let parts = split b',' s in
    let clean = All-image IsPart trim_space parts (
      All-map (λ p h. (contains-trim_space b',' p h, trim_space_twice p)) parts
        (split-lacks b',' s)) in
    (
      or_any-has (filter (λ p. not (p == "")) (map trim_space parts))
          (filter-has (map trim_space parts) clean),
      or_any_filled _,
    )

abbrev pub IsInt32 : ℤ → Type 0
IsInt32 z = (pos_part z < 2 ^ 31) × (neg_part z ≤ 2 ^ 31)

wrap_int-IsInt32 : (z : ℤ) → IsInt32 (wrap_int 32 z)
wrap_int-IsInt32 (pos n) = ground arith
wrap_int-IsInt32 (negsuc n) = ground arith

no_empty : (os : List String) → All IsOrigin os → lists os "" ≡ false
no_empty [] h = refl
no_empty (o ∷ os) h = rw (h.0.0, no_empty os h.1)

read_env-has :
    {A : Type 0} (P : A → Type 0) (read : String → Option A) (env : Environment) (key : String)
    (def : A)
    → P def
    → ((s : String) → P (value_or_default def (read s)))
    → P (read_env read env key def)
read_env-has P read env key def h k = if-has P (env key == "") def _ (λ _. h) (λ _. k (env key))

value_or_default-IsInt32 :
    (def : ℤ) (o : Option ℤ) → IsInt32 def → IsInt32 (value_or_default def (to_int32 o))
value_or_default-IsInt32 def none h = h
value_or_default-IsInt32 def (some z) h = wrap_int-IsInt32 z

value_or_default-le-max :
    (p : Parsed ℕ) → value_or 0 p ≤ max_uint64 → value_or_default 0 (ok? p) ≤ max_uint64
value_or_default-le-max (parsed n) h = h
value_or_default-le-max syntax_error h = h
value_or_default-le-max (range_error n) h = omega arith

-- Whatever the environment is, the loaded configuration lists at least one origin; each is trimmed, not
-- empty and without a comma; the number of connections is an int32, and the first id of the
-- enricher a uint64.
pub load_lem :
    (parse_duration : String → Option ℤ) (env : Environment)
    → All IsOrigin (load parse_duration env).allow_origins
      × ((load parse_duration env).allow_origins ≢ [])
      × (lists (load parse_duration env).allow_origins "" ≡ false)
      × IsInt32 (load parse_duration env).db_max_conns
      × ((load parse_duration env).action_enricher_start_id ≤ max_uint64)
unfolding load int32_env uint64_env
load_lem parse_duration env =
    let (origins, filled) = split_and_clean_lem (getenv env "CORS_ALLOW_ORIGINS" "*") in
    (
      origins,
      filled,
      no_empty _ origins,
      read_env-has IsInt32 (λ s. to_int32 (ok? (parse_int s))) env "DB_MAX_CONNS" (pos 10)
          (ground arith)
          (λ s. value_or_default-IsInt32 (pos 10) (ok? (parse_int s)) (ground arith)),
      read_env-has (λ n. n ≤ max_uint64) (λ s. ok? (parse_uint s)) env "ACTION_ENRICHER_START_ID" 0
          (omega arith) (λ s. value_or_default-le-max (parse_uint s) (parse_uint-le-max s)),
    )
