-- ===== src/Db/Actions/Rows.antt =====
-- Storing an action: the primary key, what is found afterwards, and what stays.
use lumescope.Prelude.{
  ℕ, ◌≡◌, subst, ◌≢◌, Option, none, some, List, [], ◌∷◌, ◌==◌, nat_eq, arith, All, Bool-cases, inl,
  inr, if◌then◌else◌,
}
use lumescope.Db.Types.{Time, ActionDb}
use lumescope.Db.Keyset.Order.{Distinct, IsNew}
use lumescope.Db.Actions.{upsert_action, get_action_by_id, action_key}

-- the row that is stored: that of the upsert, with the creation time of the row that was there
abbrev pub stored : Time → ActionDb → Option ActionDb → ActionDb
stored now a none = record a { created_at = now }
stored now a (some old) = record a { created_at = old.created_at }

-- An upsert is an update of one key: a lookup of the action's id finds the new values with the
-- creation time of the row that was there, or else the present time. Every other lookup is
-- unchanged.
pub get-upsert_action :
    (now : Time) (a : ActionDb) (id : ℕ) (rows : List ActionDb)
    → get_action_by_id id (upsert_action now a rows) ≡ (
        if a.action_id == id
        then some (stored now a (get_action_by_id a.action_id rows))
        else get_action_by_id id rows)
unfolding upsert_action get_action_by_id
get-upsert_action now a id [] = ground arith
get-upsert_action now a id (row ∷ rows) = ground (arith, get-upsert_action now a id rows)

IsNew-upsert :
    (now : Time) (a row : ActionDb) (rows : List ActionDb)
    → row.action_id ≢ a.action_id
    → IsNew action_key row rows
    → IsNew action_key row (upsert_action now a rows)
unfolding upsert_action
IsNew-upsert now a row [] ne h = (ne, tt)
IsNew-upsert now a row (r ∷ rows) ne h = elim (Bool-cases (r.action_id == a.action_id)) [
  | inl e ↦ rw e (ne, h.1)
  | inr e ↦ rw e (h.0, IsNew-upsert now a row rows ne h.1)
]

-- An upsert keeps the primary key: no two rows get one id.
pub upsert_action-Distinct :
    (now : Time) (a : ActionDb) (rows : List ActionDb)
    → Distinct action_key rows
    → Distinct action_key (upsert_action now a rows)
unfolding upsert_action
upsert_action-Distinct now a [] d = (tt, tt)
upsert_action-Distinct now a (row ∷ rows) d = elim (Bool-cases (row.action_id == a.action_id)) [
  | inl e ↦
      let same : row.action_id ≡ a.action_id = ground arith in
      rw e (subst (λ k. All (λ r. k ≢ action_key r) rows) same d.0, d.1)
  | inr e ↦
      rw e (IsNew-upsert now a row rows (ground arith) d.0, upsert_action-Distinct now a rows d.1)
]
