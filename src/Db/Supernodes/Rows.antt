-- ===== src/Db/Supernodes/Rows.antt =====
-- The chain's sync against the probes: what an upsert keeps of a row, and what it takes away.
use lumescope.Prelude.{
  String, ◌≡◌, sym, ◌∙◌, ap, true, false, ◌&&◌, Option, none, some, List, [], ◌∷◌, ◌==◌, string_eq,
  beq_refl, eq_iff, arith, if◌then◌else◌, Bool-cases, inl, inr,
}
use lumescope.Db.Types.{SupernodeDb, aggregate, probed, Json}
use lumescope.Db.Supernodes.{inserted, updated, upsert_supernode, get_supernode_by_id}
use lumescope.Db.Supernodes.Filter.{is_available, is_unavailable}

pub other_account : (a b c : String) → (a == c) ≡ true → (a == b) ≡ false → (b == c) ≡ false
other_account a b c y n = elim (Bool-cases (b == c)) [
  | inr m ↦ m
  | inl z ↦ cc ((eq_iff a b).1 ((eq_iff a c).0 y ∙ sym ((eq_iff b c).0 z)), n)
]

abbrev pub stored : SupernodeDb → Option SupernodeDb → SupernodeDb
stored sn none = inserted sn
stored sn (some row) = updated sn row

-- An upsert sets the row of one account: a lookup of it finds the row that was there with the
-- chain's columns replaced, or else a new row. Every other lookup is unchanged.
pub get-upsert_supernode :
    (sn : SupernodeDb) (account : String) (rows : List SupernodeDb)
    → get_supernode_by_id account (upsert_supernode sn rows) ≡ (
        if sn.supernode_account == account
        then some (stored sn (get_supernode_by_id sn.supernode_account rows))
        else get_supernode_by_id account rows)
unfolding upsert_supernode get_supernode_by_id
get-upsert_supernode sn account [] = elim (Bool-cases (sn.supernode_account == account)) [
  | inl e ↦ rw e
  | inr e ↦ rw e
]
get-upsert_supernode sn account (row ∷ rows) =
    elim (Bool-cases (row.supernode_account == sn.supernode_account)) [
      | inl e ↦
          let same =
            ap (λ a. a == account) ((eq_iff row.supernode_account sn.supernode_account).0 e) in
          elim (Bool-cases (row.supernode_account == account)) [
            | inl y ↦ rw (e, y, sym same ∙ y)
            | inr n ↦ rw (e, n, sym same ∙ n)
          ]
      | inr e ↦
          let other = get-upsert_supernode sn account rows in
          elim (Bool-cases (row.supernode_account == account)) [
            | inl y ↦
                let differs =
                  other_account row.supernode_account sn.supernode_account account y e in
                rw (e, y, differs)
            | inr n ↦ rw (e, n) other
          ]
    ]

upsert-found :
    (sn row : SupernodeDb) (rows : List SupernodeDb)
    → get_supernode_by_id sn.supernode_account rows ≡ some row
    → get_supernode_by_id sn.supernode_account (upsert_supernode sn rows) ≡ some (updated sn row)
upsert-found sn row rows h =
    get-upsert_supernode sn sn.supernode_account rows ∙ rw (beq_refl sn.supernode_account, h)

-- A row is never both: no supernode passes the status filters "available" and "unavailable".
pub available-unavailable : (row : SupernodeDb) → (is_available row && is_unavailable row) ≡ false
unfolding is_available is_unavailable
available-unavailable row = elim row.metrics_report [
  | none ↦ ground arith
  | some (aggregate j) ↦ ground arith
  | some (probed ports status) ↦ ground arith
]

-- An upsert of a chain's aggregate, which is what the sync writes, takes the ports of the last
-- probe away: a supernode that has a row, and whose status API answered that probe, is then neither
-- available nor unavailable.
pub sync_hides_supernode :
    (sn row : SupernodeDb) (j : Json) (rows : List SupernodeDb)
    → get_supernode_by_id sn.supernode_account rows ≡ some row
    → row.is_status_api_available ≡ true
    → sn.metrics_report ≡ some (aggregate j)
    → (found : SupernodeDb) × (get_supernode_by_id sn.supernode_account (upsert_supernode sn rows)
        ≡ some found)
      × (is_available found ≡ false)
      × (is_unavailable found ≡ false)
unfolding is_available is_unavailable
sync_hides_supernode sn row j rows h up m =
    (updated sn row, upsert-found sn row rows h, rw (up, m), rw (up, m))
