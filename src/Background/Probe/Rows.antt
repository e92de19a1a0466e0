-- ===== src/Background/Probe/Rows.antt =====
-- A pass of probes, row by row: the updates of the targets one after the other come to one update of
-- each row, because an account has one row.
use lumescope.Prelude.{
  String, ◌≡◌, refl, sym, ap, ◌∙◌, ◌≢◌, subst, true, false, Option, none, some, List, [], ◌∷◌, ◌==◌,
  string_eq, eq_iff, beq_refl, map, All, if◌then◌else◌, Bool, Bool-cases, inl, inr, if-has,
}
use lumescope.Prelude.Int.{ℤ}
use lumescope.Db.Types.{SupernodeDb, SupernodeProbeUpdate, ProbeTarget}
use lumescope.Db.Keyset.Order.{Distinct, IsNew}
use lumescope.Db.Supernodes.{probe_row, update_supernode_probe_data, list_known_supernodes}
use lumescope.Db.Supernodes.Filter.{account_key}
use lumescope.Db.Supernodes.Probes.{probe_row-account}
use lumescope.Background.Probe.{
  Net, probe_address, probe_update, store_probe, probe_target, probe_each, probe_supernodes,
}

abbrev pub target_of : SupernodeDb → ProbeTarget
target_of row = record {
  supernode_account = row.supernode_account;
  ip_address = row.ip_address;
  p2p_port = row.p2p_port;
}

abbrev pub probed_with : Net → ProbeTarget → Option (String × ℤ) → SupernodeDb → SupernodeDb
probed_with net t none row = row
probed_with net t (some address) row =
    let p = probe_update net t address in if net.update_succeeds p then probe_row p row else row

-- what a target's turn makes of a row of its account
abbrev pub probed_as : Net → ProbeTarget → SupernodeDb → SupernodeDb
probed_as net t row = probed_with net t (probe_address net t) row

-- the row after its own turn
abbrev pub probed_row : (ProbeTarget → Net) → SupernodeDb → SupernodeDb
probed_row nets row = probed_as (nets (target_of row)) (target_of row) row

if_same : {A : Type 0} (b : Bool) (x : A) → (if b then x else x) ≡ x
if_same true x = refl
if_same false x = refl

map-same : {A : Type 0} (f : A → A) → ((a : A) → f a ≡ a) → (xs : List A) → xs ≡ map f xs
map-same f h [] = refl
map-same f h (x ∷ xs) = cc (h x, map-same f h xs)

map-as : {A : Type 0} (f g : A → A) (xs : List A) → All (λ x. f x ≡ g x) xs → map f xs ≡ map g xs
map-as f g [] h = refl
map-as f g (x ∷ xs) h = cc (h.0, map-as f g xs h.1)

update-map :
    (p : SupernodeProbeUpdate) (rows : List SupernodeDb)
    → update_supernode_probe_data p rows
      ≡ map
          (λ row. if row.supernode_account == p.supernode_account then probe_row p row else row)
          rows
unfolding update_supernode_probe_data
update-map p [] = refl
update-map p (row ∷ rows) = elim (Bool-cases (row.supernode_account == p.supernode_account)) [
  | inl e ↦ rw e (ap (λ l. probe_row p row ∷ l) (update-map p rows))
  | inr e ↦ rw e (ap (λ l. row ∷ l) (update-map p rows))
]

-- what the turn of an account makes of a row
abbrev pub touch : (SupernodeDb → SupernodeDb) → String → SupernodeDb → SupernodeDb
touch f account row = if row.supernode_account == account then f row else row

touch_same :
    (f : SupernodeDb → SupernodeDb) (row : SupernodeDb) → touch f row.supernode_account row ≡ f row
touch_same f row = rw (beq_refl row.supernode_account)

touch_missed :
    (f : SupernodeDb → SupernodeDb) (account : String) (row : SupernodeDb)
    → row.supernode_account ≢ account
    → touch f account row ≡ row
touch_missed f account row ne =
    if-has (λ r. r ≡ row) (row.supernode_account == account) _ _
      (λ e. absurd (ne ((eq_iff row.supernode_account account).0 e))) (λ _. refl)

touch_nothing :
    (account : String) (rows : List SupernodeDb) → rows ≡ map (touch (λ row. row) account) rows
touch_nothing account = map-same _ (λ row. if_same (row.supernode_account == account) row)

guarded_update :
    (b : Bool) (p : SupernodeProbeUpdate) (rows : List SupernodeDb)
    → (if b then update_supernode_probe_data p rows else rows)
      ≡ map (touch (λ row. if b then probe_row p row else row) p.supernode_account) rows
guarded_update true p rows = update-map p rows
guarded_update false p rows = touch_nothing p.supernode_account rows

pub store_probe-map :
    (net : Net) (t : ProbeTarget) (address : Option (String × ℤ)) (rows : List SupernodeDb)
    → store_probe net t address rows
      ≡ map (touch (probed_with net t address) t.supernode_account) rows
unfolding store_probe probe_update
store_probe-map net t none rows = touch_nothing t.supernode_account rows
store_probe-map net t (some address) rows =
    guarded_update (net.update_succeeds (probe_update net t address)) (probe_update net t address)
      rows

pub probed_with-account :
    (net : Net) (t : ProbeTarget) (address : Option (String × ℤ)) (row : SupernodeDb)
    → (probed_with net t address row).supernode_account ≡ row.supernode_account
probed_with-account net t none row = refl
probed_with-account net t (some address) row =
    if-has (λ (r : SupernodeDb). r.supernode_account ≡ row.supernode_account)
      (net.update_succeeds (probe_update net t address)) _ _
      (λ _. probe_row-account (probe_update net t address) row) (λ _. refl)

module _ (nets : ProbeTarget → Net) where
  abbrev turn : ProbeTarget → SupernodeDb → SupernodeDb
  turn t = touch (probed_as (nets t) t) t.supernode_account

  abbrev turns : List ProbeTarget → SupernodeDb → SupernodeDb
  turns [] row = row
  turns (t ∷ ts) row = turns ts (turn t row)

  turn-account :
      (t : ProbeTarget) (row : SupernodeDb) → (turn t row).supernode_account ≡ row.supernode_account
  turn-account t row =
      if-has (λ (r : SupernodeDb). r.supernode_account ≡ row.supernode_account)
        (row.supernode_account == t.supernode_account) _ _
        (λ _. probed_with-account (nets t) t (probe_address (nets t) t) row) (λ _. refl)

  map-turns :
      (t : ProbeTarget) (ts : List ProbeTarget) (rows : List SupernodeDb)
      → map (turns ts) (map (turn t) rows) ≡ map (turns (t ∷ ts)) rows
  map-turns t ts [] = refl
  map-turns t ts (row ∷ rows) = ap (λ l. turns ts (turn t row) ∷ l) (map-turns t ts rows)

  probe_each-map :
      (ts : List ProbeTarget) (rows : List SupernodeDb)
      → probe_each nets ts rows ≡ map (turns ts) rows
  unfolding probe_each probe_target
  probe_each-map [] rows = map-same (turns []) (λ row. refl) rows
  probe_each-map (t ∷ ts) rows =
      ap (probe_each nets ts) (store_probe-map (nets t) t (probe_address (nets t) t) rows)
      ∙ probe_each-map ts (map (turn t) rows)
      ∙ map-turns t ts rows

  abbrev own_turn : SupernodeDb → SupernodeDb → SupernodeDb
  own_turn x = probed_as (nets (target_of x)) (target_of x)

  pub probed_row-account :
      (row : SupernodeDb) → (probed_row nets row).supernode_account ≡ row.supernode_account
  probed_row-account row =
      probed_with-account (nets (target_of row)) (target_of row)
        (probe_address (nets (target_of row)) (target_of row)) row

  turns_other :
      (row : SupernodeDb) (rows : List SupernodeDb)
      → All (λ other. row.supernode_account ≢ other.supernode_account) rows
      → turns (map target_of rows) row ≡ row
  turns_other row [] h = refl
  turns_other row (other ∷ rows) h =
      ap (turns (map target_of rows))
        (touch_missed (own_turn other) other.supernode_account row h.0)
      ∙ turns_other row rows h.1

  turn_first :
      (x : SupernodeDb) (ts : List ProbeTarget) (ys : List SupernodeDb)
      → IsNew account_key x ys
      → All (λ row. turns ts row ≡ probed_row nets row) ys
      → All (λ row. turns (target_of x ∷ ts) row ≡ probed_row nets row) ys
  turn_first x ts [] new h = tt
  turn_first x ts (y ∷ ys) new h = (
    ap (turns ts) (touch_missed (own_turn x) x.supernode_account y (λ e. new.0 (sym e))) ∙ h.0,
    turn_first x ts ys new.1 h.1,
  )

  turns_own :
      (rows : List SupernodeDb)
      → Distinct account_key rows
      → All (λ row. turns (map target_of rows) row ≡ probed_row nets row) rows
  turns_own [] d = tt
  turns_own (x ∷ rows) d = (
    ap (turns (map target_of rows)) (touch_same (own_turn x) x)
        ∙ turns_other (probed_row nets x) rows (
            subst (λ a. All (λ other. a ≢ other.supernode_account) rows)
              (sym (probed_row-account x)) d.0),
    turn_first x (map target_of rows) rows d.0 (turns_own rows d.1),
  )

  -- Where each account has one row, a pass of probes over a table that can list its targets changes
  -- each row by its own probe alone: a row whose target is skipped, or whose update fails, stays as
  -- it was, and any other becomes what its update makes of it. A pass that cannot list them changes
  -- nothing.
  pub probe_supernodes_lem :
      (listed : Bool) (rows : List SupernodeDb)
      → Distinct account_key rows
      → probe_supernodes listed nets rows ≡ (if listed then map (probed_row nets) rows else rows)
  unfolding probe_supernodes list_known_supernodes
  probe_supernodes_lem false rows d = refl
  probe_supernodes_lem true rows d =
      probe_each-map (map target_of rows) rows ∙ map-as _ (probed_row nets) rows (turns_own rows d)
