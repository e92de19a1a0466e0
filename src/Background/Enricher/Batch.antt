-- ===== src/Background/Enricher/Batch.antt =====
-- One batch of the enricher, and lists of actions.
use lumescope.Prelude.{
  ℕ, suc, ◌<◌, ◌≡◌, refl, ap, some, List, [], ◌∷◌, ◌++◌, arith, take, length, last?, map, lt→ltb,
}
use lumescope.Prelude.Int.{pos}
use lumescope.Db.Types.{ActionDb, Action, ActionTransaction}
use lumescope.Db.Transactions.{unenriched, to_action, get_unenriched_actions}
use lumescope.Background.Enricher.{
  Env, World, enrich, enrich_all, batch_size, Outcome, completed, after_batch,
}

pub enrich_all-append :
    (env : Env) (xs ys : List Action) (w : World)
    → enrich_all env (xs ++ ys) w ≡ enrich_all env ys (enrich_all env xs w)
unfolding enrich_all
enrich_all-append env [] ys w = refl
enrich_all-append env (x ∷ xs) ys w = enrich_all-append env xs ys (enrich env x w)

pub last?-map :
    (xs : List ActionDb) (x : ActionDb)
    → last? xs ≡ some x
    → last? (map to_action xs) ≡ some (to_action x)
last?-map [] x h = cc
last?-map (y ∷ []) x h = let same : y ≡ x = cc in ap (λ r. some (to_action r)) same
last?-map (y ∷ z ∷ xs) x h = last?-map (z ∷ xs) x h

pub length-map-to_action : (xs : List ActionDb) → length (map to_action xs) ≡ length xs
length-map-to_action [] = refl
length-map-to_action (x ∷ xs) = ap suc (length-map-to_action xs)

pub map-append_to_action :
    (xs ys : List ActionDb) → map to_action (xs ++ ys) ≡ map to_action xs ++ map to_action ys
map-append_to_action [] ys = refl
map-append_to_action (x ∷ xs) ys = ap (λ l. to_action x ∷ l) (map-append_to_action xs ys)

pub batch_lem :
    (txs : List ActionTransaction) (min_id : ℕ) (rows : List ActionDb)
    → get_unenriched_actions txs min_id (pos batch_size) rows
      ≡ map to_action (take batch_size (unenriched txs min_id rows))
unfolding get_unenriched_actions
batch_lem txs min_id rows = refl

pub after_short :
    (env : Env) (batch : List Action) (w : World) (later : Outcome)
    → length batch < batch_size
    → after_batch batch w (enrich_all env batch w) later ≡ completed (enrich_all env batch w)
unfolding enrich_all
after_short env [] w later h = refl
after_short env (a ∷ rest) w later h = rw (lt→ltb _ _ h)

pub after_full :
    (batch : List Action) (w w' : World) (later : Outcome)
    → length batch ≡ batch_size
    → after_batch batch w w' later ≡ later
after_full [] w w' later h = absurd (omega arith)
after_full (a ∷ rest) w w' later h = rw h
