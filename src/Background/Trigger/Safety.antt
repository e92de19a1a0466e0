-- ===== src/Background/Trigger/Safety.antt =====
-- At most one manual run at a time, and no lost flag.
use mathlib.Core.Bool.{false≢true}
use lumescope.Prelude.{
  ℕ, ◌+◌, ◌≤◌, ◌≡◌, refl, ap, ◌∙◌, Bool, true, false, List, [], ◌∷◌, ◌++◌, ◌↔◌, arith, length,
  length-append,
}
use lumescope.Background.Trigger.{
  Phase, syncing, probing, leaving, Runner, idle, trigger_sync_and_probe, Returns, sync_returns,
  probe_returns, finish, Step, request, advance, leave, Reach, here, next,
}

-- The flag counts the goroutines: there is one if it is set, and none otherwise.
abbrev pub counted : Bool → ℕ
counted true = 1
counted false = 0

abbrev pub IsCounted : Runner → Type 0
IsCounted r = length r.jobs ≡ counted r.sync_running

trigger-IsCounted : (r : Runner) → IsCounted r → IsCounted (trigger_sync_and_probe r).0
unfolding trigger_sync_and_probe
trigger-IsCounted r h = ground arith

counted-le-1 : (b : Bool) → counted b ≤ 1
counted-le-1 true = omega arith
counted-le-1 false = omega arith

Step-IsCounted : {r s : Runner} → Step r s → IsCounted r → IsCounted s
Step-IsCounted (request r) h = trigger-IsCounted r h
Step-IsCounted (advance r before after p q e returned) h =
    let old = ap (λ (l : List Phase). length l) e ∙ length-append before (p ∷ after) in
    omega (arith, old, h, length-append before (q ∷ after))
Step-IsCounted (leave r before after e) h =
    let old = ap (λ (l : List Phase). length l) e ∙ length-append before (leaving ∷ after) in
    unfold finish in omega (arith, old, h, counted-le-1 r.sync_running, length-append before after)

Reach-IsCounted : {r s : Runner} → IsCounted r → Reach r s → IsCounted s
Reach-IsCounted h here = h
Reach-IsCounted h (next path step) = Step-IsCounted step (Reach-IsCounted h path)

empty_jobs : (jobs : List Phase) → length jobs ≡ 0 → jobs ≡ []
empty_jobs [] h = refl
empty_jobs (p ∷ jobs) h = absurd (omega arith)

accepts_iff : (r : Runner) → IsCounted r → ((trigger_sync_and_probe r).1 ≡ true) ↔ (r.jobs ≡ [])
unfolding trigger_sync_and_probe
accepts_iff r h = (
  λ accepted. empty_jobs r.jobs (ground arith),
  λ none_left. let zero_jobs = ap (λ (l : List Phase). length l) none_left in ground arith,
)

-- However requests and goroutines interleave, at most one manual run is in progress, and a request
-- starts a run exactly if none is.
pub one_run_at_a_time :
    (r : Runner)
    → Reach idle r
    → (length r.jobs ≤ 1) × (((trigger_sync_and_probe r).1 ≡ true) ↔ (r.jobs ≡ []))
one_run_at_a_time r path =
    let counted_jobs = Reach-IsCounted refl path in
    (omega (arith, counted_jobs, counted-le-1 r.sync_running), accepts_iff r counted_jobs)

append-Step : {r s t : Runner} → Step r s → Reach s t → Reach r t
append-Step step here = next here step
append-Step step (next path last) = next (append-Step step path) last

alone : Bool → Phase → Runner
alone b p = record { sync_running = b; jobs = p ∷ [] }

leaves : (b : Bool) (p : Phase) → Reach (alone b p) idle
unfolding alone finish
leaves b leaving = next here (leave (alone b leaving) [] [] refl)
leaves b probing =
    next (next here (advance (alone b probing) [] [] probing leaving refl probe_returns))
      (leave (alone b leaving) [] [] refl)
leaves b syncing =
    next
      (next (next here (advance (alone b syncing) [] [] syncing probing refl sync_returns))
        (advance (alone b probing) [] [] probing leaving refl probe_returns))
      (leave (alone b leaving) [] [] refl)

drains :
    (b : Bool) (jobs : List Phase)
    → length jobs ≡ counted b
    → Reach (record { sync_running = b; jobs = jobs }) idle
unfolding alone
drains true [] h = absurd (omega arith)
drains false [] h = here
drains b (p ∷ []) h = leaves b p
drains b (p ∷ q ∷ jobs) h = absurd (omega (arith, counted-le-1 b))

-- what a goroutine has before its last step
abbrev to_go : Phase → ℕ
to_go syncing = 2
to_go probing = 1
to_go leaving = 0

all_to_go : List Phase → ℕ
all_to_go [] = 0
all_to_go (p ∷ jobs) = to_go p + all_to_go jobs

all_to_go-append : (xs ys : List Phase) → all_to_go (xs ++ ys) ≡ all_to_go xs + all_to_go ys
unfolding all_to_go
all_to_go-append [] ys = omega arith
all_to_go-append (p ∷ xs) ys = omega (arith, all_to_go-append xs ys)

-- 1 for a step of a goroutine, 0 for a request
abbrev pub is_work : {r s : Runner} → Step r s → ℕ
is_work (request r) = 0
is_work (advance r before after p q e returned) = 1
is_work (leave r before after e) = 1

-- A run during which the flag is set throughout, with the number of steps of goroutines in it.
pub data Held (start : Runner) : ℕ → Runner → Type 0 where
  held_here : start.sync_running ≡ true → Held start 0 start
  held_next :
      {n : ℕ} {r s : Runner}
      → Held start n r
      → (step : Step r s) → s.sync_running ≡ true
      → Held start (is_work step + n) s

Held-set : {start r : Runner} {n : ℕ} → Held start n r → r.sync_running ≡ true
Held-set (held_here h) = h
Held-set (held_next held step h) = h

Held-Reach : {start r : Runner} {n : ℕ} → Held start n r → Reach start r
Held-Reach (held_here h) = here
Held-Reach (held_next held step h) = next (Held-Reach held) step

returned_phase : {p q : Phase} → Returns p q → 1 + to_go q ≡ to_go p
returned_phase sync_returns = refl
returned_phase probe_returns = refl

refused : (r : Runner) → r.sync_running ≡ true → (trigger_sync_and_probe r).0 ≡ r
unfolding trigger_sync_and_probe
refused r h = rw h

step_to_go :
    {r s : Runner} (step : Step r s)
    → r.sync_running ≡ true
    → s.sync_running ≡ true
    → is_work step + all_to_go s.jobs ≡ all_to_go r.jobs
unfolding all_to_go finish
step_to_go (request r) h k = omega (arith, ap (λ (s : Runner). all_to_go s.jobs) (refused r h))
step_to_go (advance r before after p q e returned) h k = omega (
  arith,
  ap all_to_go e,
  all_to_go-append before (p ∷ after),
  all_to_go-append before (q ∷ after),
  returned_phase returned,
)
step_to_go (leave r before after e) h k = absurd (false≢true k)

Held-to_go :
    {start r : Runner} {n : ℕ} → Held start n r → n + all_to_go r.jobs ≡ all_to_go start.jobs
Held-to_go (held_here h) = omega arith
Held-to_go (held_next held step h) =
    omega (arith, Held-to_go held, step_to_go step (Held-set held) h)

one_to_go : (b : Bool) (jobs : List Phase) → length jobs ≡ counted b → all_to_go jobs ≤ 2
unfolding all_to_go
one_to_go b [] h = omega arith
one_to_go b (syncing ∷ []) h = omega arith
one_to_go b (probing ∷ []) h = omega arith
one_to_go b (leaving ∷ []) h = omega arith
one_to_go b (p ∷ q ∷ jobs) h = absurd (omega (arith, counted-le-1 b))

-- However requests come in between, the goroutines take at most two steps while the flag stays set,
-- so that the next one they take clears it; and from every state on the way there is a run to the
-- idle state, in which syncSupernodes and probeSupernodes return. That they do return, and that a
-- goroutine takes its next step, is not stated.
pub flag_is_cleared : (r s : Runner) (n : ℕ) → Reach idle r → Held r n s → (n ≤ 2) × Reach s idle
flag_is_cleared r s n path held =
    let counted_start = Reach-IsCounted refl path in
    let counted_end = Reach-IsCounted counted_start (Held-Reach held) in
    (
      omega (arith, Held-to_go held, one_to_go r.sync_running r.jobs counted_start),
      drains s.sync_running s.jobs counted_end,
    )
