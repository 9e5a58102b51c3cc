-- ===== src/Session/Reinvoke.antt =====
-- When the agent is invoked again, internal/session/reinvoke.go.
pub mod Bound
use kubernaut_apifrontend.Common.{
  ℕ, suc, Bool, true, false, Option, none, some, List, [], ◌∷◌, if◌then◌else◌, leb, not,
}
use kubernaut_apifrontend.Session.Phase.{SessionPhase, active, phase_eq}
use kubernaut_apifrontend.Session.Trimming.{Event, Part}

abbrev pub max_reinvocations : ℕ
max_reinvocations = 3

module _ {V : Type 0} where
  unfoldable pub any_call : List (Option (Part V)) → Bool
  any_call [] = false
  any_call (none ∷ rest) = any_call rest
  any_call (some p ∷ rest) =
      let later = any_call rest in elim p.function_call [ some _ ↦ true | none ↦ later ]

  unfoldable pub has_tool_call : Option (Event V) → Bool
  unfolding any_call
  has_tool_call none = false
  has_tool_call (some ev) = elim ev.content [ none ↦ false | some parts ↦ any_call parts ]

  -- `events.At(events.Len() - 1)`, of a list that is not empty.
  last_event : Option (Event V) → List (Option (Event V)) → Option (Event V)
  last_event ev [] = ev
  last_event ev (next ∷ rest) = last_event next rest

  unfoldable pub needs_reinvocation : SessionPhase → List (Option (Event V)) → ℕ → Bool
  unfolding phase_eq has_tool_call last_event
  needs_reinvocation phase [] count = false
  needs_reinvocation phase (ev ∷ rest) count =
      if not (phase_eq phase active)
      then false
      else (if leb max_reinvocations count then false else not (has_tool_call (last_event ev rest)))
