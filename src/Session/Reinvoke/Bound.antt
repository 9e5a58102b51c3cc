-- ===== src/Session/Reinvoke/Bound.antt =====
-- When NeedsReinvocation answers true, and how often it can.
use kubernaut_apifrontend.Common.{
  ℕ, suc, ◌≤◌, ◌<◌, ◌≡◌, refl, ◌↔◌, true, false, Option, List, [], ◌∷◌, ◌++◌, arith, inl, inr,
  Bool-cases, if◌then◌else◌,
}
use kubernaut_apifrontend.Session.Phase.{SessionPhase, active, phase_eq}
use kubernaut_apifrontend.Session.Trimming.{Event}
use kubernaut_apifrontend.Session.Reinvoke.{
  needs_reinvocation, has_tool_call, last_event, max_reinvocations,
}

module _ {V : Type 0} where
  last_event-append :
      (ev : Option (Event V)) (pre : List (Option (Event V))) (last : Option (Event V))
      → last_event ev (pre ++ last ∷ []) ≡ last
  unfolding last_event
  last_event-append ev [] last = refl
  last_event-append ev (x ∷ pre) last = last_event-append x pre last

  -- With `last` as the last event: the phase is Active, the last event calls no tool, and fewer
  -- than three reinvocations were made.
  pub needs_reinvocation_iff :
      (phase : SessionPhase) (pre : List (Option (Event V))) (last : Option (Event V)) (count : ℕ)
      → (needs_reinvocation phase (pre ++ last ∷ []) count ≡ true)
        ↔ ((phase ≡ active) × (has_tool_call last ≡ false) × (count < max_reinvocations))
  unfolding needs_reinvocation phase_eq last_event
  needs_reinvocation_iff phase [] last count = ground arith
  needs_reinvocation_iff phase (x ∷ pre) last count = ground (arith, last_event-append x pre last)

  -- The driver that counts: whatever the agent answers, an invocation is repeated while
  -- NeedsReinvocation says so. `answers` are the event lists after each turn.
  pub reinvocations : SessionPhase → List (List (Option (Event V))) → ℕ → ℕ
  reinvocations phase [] count = count
  reinvocations phase (events ∷ more) count =
      if needs_reinvocation phase events count then reinvocations phase more (suc count) else count

  needs_reinvocation-lt :
      (phase : SessionPhase) (events : List (Option (Event V))) (count : ℕ)
      → needs_reinvocation phase events count ≡ true
      → count < max_reinvocations
  unfolding needs_reinvocation
  needs_reinvocation-lt phase [] count h = cc
  needs_reinvocation-lt phase (ev ∷ rest) count h = ground arith

  -- No sequence of turns makes the counter pass three.
  pub reinvocations_bounded :
      (phase : SessionPhase) (turns : List (List (Option (Event V)))) (count : ℕ)
      → count ≤ max_reinvocations
      → reinvocations phase turns count ≤ max_reinvocations
  unfolding reinvocations
  reinvocations_bounded phase [] count h = h
  reinvocations_bounded phase (events ∷ more) count h =
      elim (Bool-cases (needs_reinvocation phase events count)) [
        | inl again ↦ rw again (
            reinvocations_bounded phase more (suc count)
              (needs_reinvocation-lt phase events count again))
        | inr over ↦ rw over h
      ]
