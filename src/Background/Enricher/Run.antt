-- ===== src/Background/Enricher/Run.antt =====
-- A run, batch after batch, does for each unenriched action once what the enricher does.
use lumescope.Prelude.{
  ℕ, zero, suc, ◌+◌, ◌^◌, ◌≤◌, ◌<◌, ◌≡◌, refl, sym, ◌≢◌, ◌∙◌, ap, true, false, ◌&&◌, some, List, [],
  ◌∷◌, arith, All, Bool-cases, Option-cases, inl, inr, filter, take, drop, length, last?, map,
  take-append-drop, ltb, ltb→lt,
}
use lumescope.Db.Types.{ActionDb}
use lumescope.Db.Keyset.{ascending, order_by, is_after}
use lumescope.Db.Keyset.Order.{
  All-filter, All-order_by, Distinct, Distinct-filter, IsSorted, order_by-IsSorted, filter-order_by,
}
use lumescope.Db.Keyset.Walk.{
  All-last, length-drop, length-take_full, take_all, last?-none, cut, filter-and, filter_cong,
  filter_sound, page_before_last,
}
use lumescope.Db.Actions.{action_key}
use lumescope.Db.Transactions.{is_unenriched, unenriched, to_action}
use lumescope.Background.Enricher.{
  Env, World, enrich_all, next_id, batch_size, completed, after_batch, run_batches,
  run_action_tx_enricher,
}
use lumescope.Background.Enricher.Step.{enrich_all-other}
use lumescope.Background.Enricher.Batch.{
  enrich_all-append, last?-map, length-map-to_action, map-append_to_action, batch_lem, after_short,
  after_full,
}

to_action-id : (row : ActionDb) → (to_action row).action_id ≡ row.action_id
unfolding to_action
to_action-id row = refl

module _ (env : Env) (rows : List ActionDb) (distinct : Distinct action_key rows) where
  unenriched-IsSorted :
      (w : World) (min_id : ℕ) → IsSorted ascending action_key (unenriched w.txs min_id rows)
  unfolding unenriched
  unenriched-IsSorted w min_id =
      order_by-IsSorted ascending action_key _ (Distinct-filter action_key _ rows distinct)

  unenriched-All :
      (w : World) (min_id : ℕ)
      → All (λ a. is_unenriched w.txs min_id a ≡ true) (unenriched w.txs min_id rows)
  unfolding unenriched
  unenriched-All w min_id =
      All-order_by ascending action_key _ _ (filter_sound (is_unenriched w.txs min_id) rows)

  batch-ne :
      (x a : ActionDb) (batch : List ActionDb)
      → All (λ y. ltb x.action_id y.action_id ≡ false) batch
      → ltb x.action_id a.action_id ≡ true
      → All (λ b. b.action_id ≢ a.action_id) (map to_action batch)
  batch-ne x a [] h k = tt
  batch-ne x a (b ∷ batch) h k =
      (λ e. ground (arith, to_action-id b, h.0), batch-ne x a batch h.1 k)

  module _ (w : World) (min_id : ℕ) where
    abbrev todo : List ActionDb
    todo = unenriched w.txs min_id rows

    abbrev after_first : World
    after_first = enrich_all env (map to_action (take batch_size todo)) w

    -- behind the last action of a batch, what was unenriched still is, and nothing else is
    selects_rest :
        (x a : ActionDb)
        → last? (take batch_size todo) ≡ some x
        → is_unenriched after_first.txs (x.action_id + 1) a
          ≡ (is_unenriched w.txs min_id a && ltb x.action_id a.action_id)
    selects_rest x a e = elim (Bool-cases (ltb x.action_id a.action_id)) [
      | inr early ↦ ground (arith, early)
      | inl late ↦
          let here = All-last _ batch_size todo x (unenriched-All w min_id) e in
          let before =
            page_before_last ascending action_key batch_size todo x (unenriched-IsSorted w min_id)
              e in
          let same =
            enrich_all-other env (map to_action (take batch_size todo)) w a.action_id "register"
              (batch-ne x a (take batch_size todo) before late) in
          ground (arith, here, same)
    ]

    rest_unenriched :
        (x : ActionDb)
        → last? (take batch_size todo) ≡ some x
        → unenriched after_first.txs (x.action_id + 1) rows ≡ drop batch_size todo
    unfolding unenriched
    rest_unenriched x e =
        let behind = is_after ascending action_key (some x.action_id) in
        let p = is_unenriched w.txs min_id in
        ap (order_by ascending action_key) (
          filter_cong _ (λ a. p a && behind a) (λ a. selects_rest x a e) rows
          ∙ filter-and p behind rows)
        ∙ sym (
            filter-order_by ascending action_key behind (filter p rows)
              (Distinct-filter action_key p rows distinct))
        ∙ cut ascending action_key batch_size todo x (unenriched-IsSorted w min_id) e

module _ (env : Env) (rows : List ActionDb) (distinct : Distinct action_key rows)
    (fits : All (λ a. a.action_id + 1 < 2 ^ 64) rows)
    (queries : (n : ℕ) → env.query_succeeds n ≡ true) where
  run_step :
      (fuel n min_id : ℕ) (w : World)
      → let batch = map to_action (take batch_size (unenriched w.txs min_id rows)) in
        run_batches (suc fuel) env rows n min_id w
        ≡ after_batch batch w
            (enrich_all env batch w)
            (run_batches fuel env rows (n + 1) (next_id min_id batch) (enrich_all env batch w))
  unfolding run_batches
  run_step fuel n min_id w = rw (queries n, batch_lem w.txs min_id rows)

  unenriched-fits :
      (w : World) (min_id : ℕ) → All (λ a. a.action_id + 1 < 2 ^ 64) (unenriched w.txs min_id rows)
  unfolding unenriched
  unenriched-fits w min_id =
      All-order_by ascending action_key _ _ (All-filter _ (is_unenriched w.txs min_id) rows fits)

  next_id_lem :
      (w : World) (min_id : ℕ) (x : ActionDb)
      → last? (take batch_size (unenriched w.txs min_id rows)) ≡ some x
      → next_id min_id (map to_action (take batch_size (unenriched w.txs min_id rows)))
        ≡ x.action_id + 1
  unfolding next_id
  next_id_lem w min_id x e =
      let todo = unenriched w.txs min_id rows in
      let small : x.action_id + 1 < 2 ^ 64 =
        All-last _ batch_size todo x (unenriched-fits w min_id) e in
      rw (last?-map _ x e, next_id, to_action-id x) (omega arith)

  -- a full batch, and then a run from the id behind it
  run_full :
      (fuel n min_id : ℕ) (w : World) (x : ActionDb)
      → last? (take batch_size (unenriched w.txs min_id rows)) ≡ some x
      → batch_size ≤ length (unenriched w.txs min_id rows)
      → run_batches (suc fuel) env rows n min_id w
        ≡ run_batches fuel env rows
            (n + 1)
            (x.action_id + 1)
            (after_first env rows distinct w min_id)
  run_full fuel n min_id w x last full =
      let todo = unenriched w.txs min_id rows in
      let batch = map to_action (take batch_size todo) in
      let w' = enrich_all env batch w in
      run_step fuel n min_id w
      ∙ after_full batch w w' _
          (length-map-to_action (take batch_size todo) ∙ length-take_full batch_size todo full)
      ∙ ap (λ m. run_batches fuel env rows (n + 1) m w') (next_id_lem w min_id x last)

  -- the actions of the first batch and then those of the rest are all
  first_and_rest :
      (w : World) (min_id : ℕ)
      → let todo = unenriched w.txs min_id rows in
        enrich_all env
          (map to_action (drop batch_size todo))
          (after_first env rows distinct w min_id)
        ≡ enrich_all env (map to_action todo) w
  first_and_rest w min_id =
      let todo = unenriched w.txs min_id rows in
      sym (
        enrich_all-append env (map to_action (take batch_size todo))
          (map to_action (drop batch_size todo)) w)
      ∙ ap (λ l. enrich_all env l w)
          (sym (map-append_to_action (take batch_size todo) (drop batch_size todo))
            ∙ ap (map to_action) (take-append-drop batch_size todo))

  run_batches_lem :
      (fuel n min_id : ℕ) (w : World)
      → length (unenriched w.txs min_id rows) < fuel
      → run_batches fuel env rows n min_id w
        ≡ completed (enrich_all env (map to_action (unenriched w.txs min_id rows)) w)
  run_batches_lem zero n min_id w enough = absurd (omega arith)
  run_batches_lem (suc fuel) n min_id w enough =
      let todo = unenriched w.txs min_id rows in
      elim (Bool-cases (ltb (length todo) batch_size)) [
        | inl short ↦
            let few = ltb→lt (length todo) batch_size short in
            let whole = take_all batch_size todo (omega (arith, few)) in
            run_step fuel n min_id w
            ∙ after_short env (map to_action (take batch_size todo)) w _ (
                omega (
                  arith,
                  few,
                  length-map-to_action (take batch_size todo),
                  ap (λ (l : List ActionDb). length l) whole,
                ))
            ∙ ap (λ l. completed (enrich_all env (map to_action l) w)) whole
        | inr full ↦
            let many : batch_size ≤ length todo = ground (arith, full) in
            elim (Option-cases (last? (take batch_size todo))) [
              | inl gone ↦
                  let empty = last?-none batch_size todo (omega arith) gone in
                  absurd (omega (arith, many, ap (λ (l : List ActionDb). length l) empty))
              | inr (x, last) ↦
                  let rest = rest_unenriched env rows distinct w min_id x last in
                  let w' = after_first env rows distinct w min_id in
                  let fewer =
                    ap (λ (l : List ActionDb). length l) rest ∙ length-drop batch_size todo in
                  run_full fuel n min_id w x last many
                  ∙ run_batches_lem fuel (n + 1) (x.action_id + 1) w'
                      (omega (arith, fewer, many, enough))
                  ∙ ap (λ l. completed (enrich_all env (map to_action l) w')) rest
                  ∙ ap completed (first_and_rest w min_id)
            ]
      ]

-- If no query fails, and the ids are distinct and leave room for the next one on 64 bits, a run of
-- the enricher completes, given more rounds than it has actions to work through. Its effect is that of enriching, one after the other and once each, the
-- actions from the start id on that had no 'register' row when it began, in ascending order of
-- their ids: the batches make no difference, whatever the writes and the chain do.
pub enricher_run :
    (env : Env) (rows : List ActionDb) (fuel start_id : ℕ) (w : World)
    → Distinct action_key rows
    → All (λ a. a.action_id + 1 < 2 ^ 64) rows
    → ((n : ℕ) → env.query_succeeds n ≡ true)
    → length (unenriched w.txs start_id rows) < fuel
    → run_action_tx_enricher fuel env rows start_id w
      ≡ completed (enrich_all env (map to_action (unenriched w.txs start_id rows)) w)
unfolding run_action_tx_enricher
enricher_run env rows fuel start_id w distinct fits queries enough =
    run_batches_lem env rows distinct fits queries fuel 1 start_id w enough
