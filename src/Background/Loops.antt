-- ===== src/Background/Loops.antt =====
-- internal/background/scheduler.go: the five loops that Start sets off and drainTicker. A ticker's
-- channel holds one tick, and a tick that finds it full is dropped. A pass is one stretch between
-- two steps; where the channel and the context are both ready, select takes either.
pub mod Ticks
use lumescope.Prelude.{◌≡◌, Bool, true, false, List, [], ◌∷◌}

pub data Kind : Type 0 where
  validators supernodes actions probes enricher : Kind

-- where a loop stands: before its ticker, in a pass, in drainTicker, in the select, or at its end
pub data LoopPhase : Type 0 where
  sleeping passing draining waiting returned : LoopPhase

pub record Loop : Type 0 where
  pub kind : Kind
  pub phase : LoopPhase
  pub pending : Bool
  pub cancelled : Bool

-- only the enricher sleeps first
abbrev first_phase : Kind → LoopPhase
first_phase validators = passing
first_phase supernodes = passing
first_phase actions = passing
first_phase probes = passing
first_phase enricher = sleeping

unfoldable pub started : Kind → Loop
started kind = record { kind = kind; phase = first_phase kind; pending = false; cancelled = false }

-- only the enricher drains its ticker behind a pass
abbrev pub phase_after_pass : Kind → LoopPhase
phase_after_pass validators = waiting
phase_after_pass supernodes = waiting
phase_after_pass actions = waiting
phase_after_pass probes = waiting
phase_after_pass enricher = draining

-- the ticker is made behind the sleep, and stopped at the return
abbrev pub has_ticker : LoopPhase → Bool
has_ticker sleeping = false
has_ticker passing = true
has_ticker draining = true
has_ticker waiting = true
has_ticker returned = false

pub data Event : Type 0 where
  ticked done moved : Event

pub data Step : Loop → Event → Loop → Type 0 where
  tick : (l : Loop) → has_ticker l.phase ≡ true → Step l ticked (record l { pending = true })
  cancel : (l : Loop) → Step l done (record l { cancelled = true })
  wake : (l : Loop) → l.phase ≡ sleeping → Step l moved (record l { phase = passing })
  end_pass :
      (l : Loop) → l.phase ≡ passing → Step l moved (record l { phase = phase_after_pass l.kind })
  drain_tick :
      (l : Loop)
      → l.phase ≡ draining
      → l.pending ≡ true
      → Step l moved (record l { pending = false })
  drained :
      (l : Loop)
      → l.phase ≡ draining
      → l.pending ≡ false
      → Step l moved (record l { phase = waiting })
  begin_pass :
      (l : Loop)
      → l.phase ≡ waiting
      → l.pending ≡ true
      → Step l moved (record l { phase = passing; pending = false })
  return :
      (l : Loop)
      → l.phase ≡ waiting
      → l.cancelled ≡ true
      → Step l moved (record l { phase = returned })

-- the steps of a loop, with their events, the last one first
pub data Run (start : Loop) : List Event → Loop → Type 0 where
  here : Run start [] start
  next :
      {es : List Event} {l m : Loop} (e : Event)
      → Run start es l
      → Step l e m
      → Run start (e ∷ es) m
