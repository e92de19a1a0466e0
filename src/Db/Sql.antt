-- ===== src/Db/Sql.antt =====
-- The SQL that the statements use: NULL in conditions, NULLIF and COALESCE.
use lumescope.Prelude.{
  String, Bool, true, false, not, Option, none, some, ◌==◌, string_eq, if◌then◌else◌,
}

-- a condition: `none` is NULL
abbrev pub Condition : Type 0
Condition = Option Bool

-- WHERE keeps a row only if the condition is true, not if it is NULL
abbrev pub holds : Condition → Bool
holds none = false
holds (some b) = b

abbrev pub or_null : Condition → Condition → Condition
or_null (some true) c = some true
or_null (some false) c = c
or_null none (some true) = some true
or_null none _ = none

-- x != 'true' for a text that is 'true' or 'false', or NULL
abbrev pub is_not_true : Option Bool → Condition
is_not_true none = none
is_not_true (some b) = some (not b)

-- NULLIF(s, '')
abbrev pub null_if_empty : String → Option String
null_if_empty s = if s == "" then none else some s

-- COALESCE(a, b)
abbrev pub coalesce {ℓ} : {A : Type ℓ} → Option A → Option A → Option A
coalesce none b = b
coalesce (some a) b = some a
