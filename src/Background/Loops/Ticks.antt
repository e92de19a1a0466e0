-- ===== src/Background/Loops/Ticks.antt =====
-- When a loop starts its next pass, and that it can end.
use mathlib.Core.Bool.{true≢false, false≢true}
use lumescope.Prelude.{
  ◌≡◌, ◌≢◌, refl, sym, subst, ◌∙◌, inl, inr, Bool, true, false, List, [], ◌∷◌, any, ◌||◌, arith,
  Bool-cases,
}
use lumescope.Background.Loops.{
  Kind, validators, supernodes, actions, probes, enricher, LoopPhase, sleeping, passing, draining,
  waiting, returned, Loop, phase_after_pass, Event, ticked, done, moved, Step, tick, cancel, wake,
  end_pass, drain_tick, drained, begin_pass, return, Run, here, next,
}

abbrev pub is_tick : Event → Bool
is_tick ticked = true
is_tick done = false
is_tick moved = false

-- what a loop that has drained may be, until a tick comes
abbrev IsQuiet : LoopPhase → Bool → Type 0
IsQuiet sleeping p = ⊥
IsQuiet passing p = ⊥
IsQuiet draining p = Unit
IsQuiet waiting p = p ≡ false
IsQuiet returned p = Unit

step-IsQuiet :
    {l m : Loop} (e : Event)
    → Step l e m
    → is_tick e ≡ false
    → IsQuiet l.phase l.pending
    → IsQuiet m.phase m.pending
step-IsQuiet e (tick l t) h q = absurd (true≢false h)
step-IsQuiet e (cancel l) h q = q
step-IsQuiet e (wake l p) h q = subst (λ x. IsQuiet x l.pending) p q
step-IsQuiet e (end_pass l p) h q = absurd (subst (λ x. IsQuiet x l.pending) p q)
step-IsQuiet e (drain_tick l p t) h q = subst (λ x. IsQuiet x false) (sym p) tt
step-IsQuiet e (drained l p t) h q = t
step-IsQuiet e (begin_pass l p t) h q = false≢true (sym (subst (λ x. IsQuiet x l.pending) p q) ∙ t)
step-IsQuiet e (return l p c) h q = tt

left_false : (a b : Bool) → (a || b) ≡ false → a ≡ false
left_false a b h = ground arith

right_false : (a b : Bool) → (a || b) ≡ false → b ≡ false
right_false a b h = ground arith

Run-IsQuiet :
    {l m : Loop} (es : List Event)
    → Run l es m
    → any is_tick es ≡ false
    → IsQuiet l.phase l.pending
    → IsQuiet m.phase m.pending
Run-IsQuiet es here h q = q
Run-IsQuiet es (next e r s) h q =
    step-IsQuiet e s (left_false (is_tick e) _ h) (Run-IsQuiet _ r (right_false (is_tick e) _ h) q)

-- where a pass of the enricher leaves it
ended-IsQuiet :
    {l m : Loop} (e : Event)
    → Step l e m
    → l.kind ≡ enricher
    → l.phase ≡ passing
    → m.phase ≢ passing
    → IsQuiet m.phase m.pending
ended-IsQuiet e (tick l t) k p left = absurd (left p)
ended-IsQuiet e (cancel l) k p left = absurd (left p)
ended-IsQuiet e (wake l s) k p left = absurd (left refl)
ended-IsQuiet e (end_pass l q) k p left =
    subst (λ kind. IsQuiet (phase_after_pass kind) l.pending) (sym k) tt
ended-IsQuiet e (drain_tick l d t) k p left = absurd (left p)
ended-IsQuiet e (drained l d t) k p left = t
ended-IsQuiet e (begin_pass l w t) k p left = absurd (left refl)
ended-IsQuiet e (return l w c) k p left = tt

-- After the step in which the loop of the enricher leaves a pass, it starts no other pass before its
-- ticker has sent a tick since: the ticks that came during the pass start none.
pub fresh_tick :
    {l left m : Loop} (e : Event) (es : List Event)
    → l.kind ≡ enricher
    → l.phase ≡ passing
    → Step l e left
    → left.phase ≢ passing
    → Run left es m
    → m.phase ≡ passing
    → any is_tick es ≡ true
fresh_tick {l} {left} {m} e es kind in_pass leaves has_left r passes =
    elim (Bool-cases (any is_tick es)) [
      | inl h ↦ h
      | inr h ↦ absurd (
          subst (λ x. IsQuiet x m.pending) passes
            (Run-IsQuiet es r h (ended-IsQuiet e leaves kind in_pass has_left)))
    ]

-- A run from the loop to its return, without another tick.
pub data CanReturn (start : Loop) : Type 0 where
  returns :
      (es : List Event) (l : Loop)
      → Run start es l
      → any is_tick es ≡ false
      → l.phase ≡ returned
      → CanReturn start

module _ {start : Loop} where
  from_waiting :
      (es : List Event) (l : Loop)
      → Run start es l
      → any is_tick es ≡ false
      → l.cancelled ≡ true
      → l.phase ≡ waiting
      → CanReturn start
  from_waiting es l r quiet c p =
      returns (moved ∷ es) (record l { phase = returned }) (next moved r (return l p c)) quiet refl

  from_draining :
      (es : List Event) (l : Loop)
      → Run start es l
      → any is_tick es ≡ false
      → l.cancelled ≡ true
      → l.phase ≡ draining
      → CanReturn start
  from_draining es l r quiet c p = elim (Bool-cases l.pending) [
    | inl full ↦
        let r' = next moved r (drain_tick l p full) in
        let l' : Loop = record l { pending = false } in
        from_waiting (moved ∷ moved ∷ es) (record l' { phase = waiting })
          (next moved r' (drained l' p refl)) quiet c refl
    | inr empty ↦
        from_waiting (moved ∷ es) (record l { phase = waiting }) (next moved r (drained l p empty))
          quiet c refl
  ]

  behind_pass :
      (kind : Kind) (es : List Event) (l : Loop)
      → Run start es l
      → any is_tick es ≡ false
      → l.cancelled ≡ true
      → l.phase ≡ phase_after_pass kind
      → CanReturn start
  behind_pass validators = from_waiting
  behind_pass supernodes = from_waiting
  behind_pass actions = from_waiting
  behind_pass probes = from_waiting
  behind_pass enricher = from_draining

  from_passing :
      (es : List Event) (l : Loop)
      → Run start es l
      → any is_tick es ≡ false
      → l.cancelled ≡ true
      → l.phase ≡ passing
      → CanReturn start
  from_passing es l r quiet c p =
      behind_pass l.kind (moved ∷ es) (record l { phase = phase_after_pass l.kind })
        (next moved r (end_pass l p)) quiet c refl

  from_phase :
      (phase : LoopPhase) (l : Loop)
      → Run start [] l
      → l.cancelled ≡ true
      → l.phase ≡ phase
      → CanReturn start
  from_phase sleeping l r c p =
      from_passing (moved ∷ []) (record l { phase = passing }) (next moved r (wake l p)) refl c refl
  from_phase passing l r c p = from_passing [] l r refl c p
  from_phase draining l r c p = from_draining [] l r refl c p
  from_phase waiting l r c p = from_waiting [] l r refl c p
  from_phase returned l r c p = returns [] l r refl p

-- Once the context is done, every loop can come to its return without waiting for another tick,
-- wherever it stands.
pub can_return : (l : Loop) → l.cancelled ≡ true → CanReturn l
can_return l c = from_phase l.phase l here c refl

-- A loop that has returned starts no further pass.
pub returned-final : {l m : Loop} (e : Event) → Step l e m → l.phase ≡ returned → m.phase ≡ returned
returned-final e (tick l t) h = h
returned-final e (cancel l) h = h
returned-final e (wake l p) h = cc (p, h)
returned-final e (end_pass l p) h = cc (p, h)
returned-final e (drain_tick l p t) h = h
returned-final e (drained l p t) h = cc (p, h)
returned-final e (begin_pass l p t) h = cc (p, h)
returned-final e (return l p t) h = refl
