-- ===== src/Db/Supernodes/Keys.antt =====
-- What every write to the table of supernodes keeps: one row for an account, and what a row says of
-- its probes.
use lumescope.Prelude.{
  String, ◌≡◌, sym, ◌∙◌, ◌≢◌, Option, none, some, List, [], ◌∷◌, ◌==◌, string_eq, eq_iff, map, All,
  false, Bool-cases, inl, inr, if-has,
}
use lumescope.Db.Types.{Time, SupernodeDb, SupernodeProbeUpdate}
use lumescope.Db.Sql.{coalesce, null_if_empty}
use lumescope.Db.Keyset.Order.{Distinct, IsNew}
use lumescope.Db.Supernodes.{upsert_supernode, probe_row}
use lumescope.Db.Supernodes.Filter.{account_key}

IsNew-upsert :
    (sn row : SupernodeDb) (rows : List SupernodeDb)
    → row.supernode_account ≢ sn.supernode_account
    → IsNew account_key row rows
    → IsNew account_key row (upsert_supernode sn rows)
unfolding upsert_supernode
IsNew-upsert sn row [] ne h = (ne, tt)
IsNew-upsert sn row (r ∷ rows) ne h =
    if-has (IsNew account_key row) (r.supernode_account == sn.supernode_account) _ _ (λ _. h)
      (λ _. (h.0, IsNew-upsert sn row rows ne h.1))

not_same : (a b : String) → (a == b) ≡ false → a ≢ b
not_same a b h e = cc ((eq_iff a b).1 e, h)

pub upsert_supernode-Distinct :
    (sn : SupernodeDb) (rows : List SupernodeDb)
    → Distinct account_key rows
    → Distinct account_key (upsert_supernode sn rows)
unfolding upsert_supernode
upsert_supernode-Distinct sn [] d = (tt, tt)
upsert_supernode-Distinct sn (row ∷ rows) d =
    if-has (Distinct account_key) (row.supernode_account == sn.supernode_account) _ _ (λ _. d)
      (λ e. (IsNew-upsert sn row rows (not_same _ _ e) d.0, upsert_supernode-Distinct sn rows d.1))

module _ (f : SupernodeDb → SupernodeDb)
    (same : (row : SupernodeDb) → (f row).supernode_account ≡ row.supernode_account) where
  map-IsNew :
      (row : SupernodeDb) (rows : List SupernodeDb)
      → IsNew account_key row rows
      → IsNew account_key (f row) (map f rows)
  map-IsNew row [] h = tt
  map-IsNew row (r ∷ rows) h = (λ e. h.0 (sym (same row) ∙ e ∙ same r), map-IsNew row rows h.1)

  pub map-Distinct :
      (rows : List SupernodeDb) → Distinct account_key rows → Distinct account_key (map f rows)
  map-Distinct [] d = tt
  map-Distinct (row ∷ rows) d = (map-IsNew row rows d.0, map-Distinct rows d.1)

-- A last known version is not empty, and comes with the time of a successful probe.
abbrev pub KnownByProbe : Option String → Option Time → Type 0
KnownByProbe none t = Unit
KnownByProbe (some v) none = ⊥
KnownByProbe (some v) (some t) = (v == "") ≡ false

abbrev pub IsProbedRow : SupernodeDb → Type 0
IsProbedRow row = KnownByProbe row.last_known_actual_version row.last_successful_probe

pub upsert_supernode-IsProbedRow :
    (sn : SupernodeDb) (rows : List SupernodeDb)
    → All IsProbedRow rows
    → All IsProbedRow (upsert_supernode sn rows)
unfolding upsert_supernode
upsert_supernode-IsProbedRow sn [] h = (tt, tt)
upsert_supernode-IsProbedRow sn (row ∷ rows) h =
    if-has (All IsProbedRow) (row.supernode_account == sn.supernode_account) _ _ (λ _. h)
      (λ _. (h.0, upsert_supernode-IsProbedRow sn rows h.1))

still_known :
    (old : Option String) (before : Option Time) (now : Time)
    → KnownByProbe old before
    → KnownByProbe old (some now)
still_known none before now h = tt
still_known (some v) none now h = absurd h
still_known (some v) (some t) now h = h

kept_or_new :
    (v : String) (old : Option String) (before : Option Time) (now : Time)
    → KnownByProbe old before
    → KnownByProbe (coalesce (null_if_empty v) old) (some now)
kept_or_new v old before now h = elim (Bool-cases (v == "")) [
  | inl e ↦ rw e (still_known old before now h)
  | inr e ↦ rw e e
]

pub probe_row-IsProbedRow :
    (p : SupernodeProbeUpdate) (row : SupernodeDb) → IsProbedRow row → IsProbedRow (probe_row p row)
unfolding probe_row
probe_row-IsProbedRow p row h =
    if-has IsProbedRow p.is_status_api_available _ _
      (λ _.
        kept_or_new p.actual_version row.last_known_actual_version row.last_successful_probe
          p.probe_time_utc h)
      (λ _. h)
