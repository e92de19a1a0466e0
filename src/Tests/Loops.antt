-- ===== src/Tests/Loops.antt =====
-- The loop of the enricher, from its first pass to its second.
use lumescope.Prelude.{◌≡◌, ◌≢◌, refl, true, false, [], ◌∷◌, any}
use lumescope.Background.Loops.{
  Loop, enricher, draining, waiting, passing, started, moved, ticked, Run, here, next, drained,
  tick, begin_pass, wake, end_pass, drain_tick, phase_after_pass, Step,
}
use lumescope.Background.Loops.Ticks.{is_tick, fresh_tick}

abbrev behind_first : Loop
behind_first = record { kind = enricher; phase = draining; pending = false; cancelled = false }

abbrev in_select : Loop
in_select = record behind_first { phase = waiting }

abbrev in_second : Loop
in_second = record behind_first { phase = passing }

-- the sleep and the first pass
first_pass : Run (started enricher) (moved ∷ moved ∷ []) behind_first
unfolding started
first_pass = next moved (next moved here (wake (started enricher) refl)) (end_pass in_second refl)

-- a tick that came during the pass is waiting
abbrev late_in_first : Loop
late_in_first = record { kind = enricher; phase = passing; pending = true; cancelled = false }

left_first : Loop
left_first = record {
  kind = enricher;
  phase = phase_after_pass enricher;
  pending = true;
  cancelled = false;
}

to_second : Run left_first (moved ∷ ticked ∷ moved ∷ moved ∷ []) in_second
unfolding left_first
to_second =
    next moved
      (next ticked
        (next moved (next moved here (drain_tick left_first refl refl))
          (drained behind_first refl refl))
        (tick in_select refl))
      (begin_pass (record in_select { pending = true }) refl refl)

not_passing : left_first.phase ≢ passing
unfolding left_first
not_passing e = cc e

leaves_first : Step late_in_first moved left_first
unfolding left_first
leaves_first = end_pass late_in_first refl

fresh_tick_example : any is_tick (moved ∷ ticked ∷ moved ∷ moved ∷ []) ≡ true
fresh_tick_example =
    fresh_tick moved (moved ∷ ticked ∷ moved ∷ moved ∷ []) refl refl leaves_first not_passing
      to_second refl
