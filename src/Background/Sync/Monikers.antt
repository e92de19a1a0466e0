-- ===== src/Background/Sync/Monikers.antt =====
-- The map of monikers after a pass over the validators.
use lumescope.Prelude.{
  ℕ, ◌≤◌, String, ◌≡◌, ap, ◌∙◌, false, List, [], ◌∷◌, ◌++◌, ◌==◌, string_eq, beq_refl, All,
}
use lumescope.Background.Feed.{Serves, each_page_lem, visit_all, visit_all-one}
use lumescope.Background.Sync.{
  Env, Monikers, Validator, add_moniker, keep_if_done, sync_validators, get_moniker_for,
}

add_moniker-apart :
    (address : String) (v : Validator) (monikers : Monikers)
    → (v.operator_address == address) ≡ false
    → get_moniker_for (add_moniker v monikers) address ≡ get_moniker_for monikers address
unfolding get_moniker_for add_moniker
add_moniker-apart address v monikers h = rw h

newest :
    (v : Validator) (monikers : Monikers)
    → get_moniker_for (add_moniker v monikers) v.operator_address ≡ v.moniker
unfolding get_moniker_for add_moniker
newest v monikers = rw (beq_refl v.operator_address)

-- If the chain serves the validators as a finite listing without an error, then after a pass an
-- operator's address has the moniker of the last entry for it, whatever the map held before.
pub sync_validators_lem :
    (env : Env) (n : ℕ) (xs : List Validator) (v : Validator) (ys : List Validator)
    → (fuel : ℕ) (old : Monikers) → Serves env.get_validators n "" (xs ++ v ∷ ys)
    → n ≤ fuel
    → All (λ o. (o.operator_address == v.operator_address) ≡ false) ys
    → get_moniker_for (sync_validators env fuel old) v.operator_address ≡ v.moniker
unfolding sync_validators
sync_validators_lem env n xs v ys fuel old served enough after_it =
    ap (λ o. get_moniker_for (keep_if_done o old) v.operator_address)
      (each_page_lem add_moniker env.get_validators n "" (xs ++ v ∷ ys) fuel [] served enough)
    ∙ visit_all-one add_moniker (λ m. get_moniker_for m v.operator_address)
        (λ o. o.operator_address == v.operator_address) (add_moniker-apart v.operator_address) xs v
        ys [] after_it
    ∙ newest v (visit_all add_moniker xs [])
