-- ===== src/Session/Phase.antt =====
-- The phases of a session (api/apifrontend/v1alpha1/investigationsession_types.go) and the state
-- machine over them (internal/session/statemachine.go). A phase is a string in the source; `other`
-- stands for every string that is none of the five constants, the empty one included.
pub mod Graph
use kubernaut_apifrontend.Common.{
  String, Bool, true, false, Option, none, some, List, [], ◌∷◌, str_eq, if◌then◌else◌, eq_iff, ◌↔◌,
  ◌≡◌, arith,
}

pub data SessionPhase : Type 0 where
  active disconnected completed cancelled failed : SessionPhase
  other : String → SessionPhase

-- `==` on two phases.
unfoldable pub phase_eq : SessionPhase → SessionPhase → Bool
phase_eq active active = true
phase_eq disconnected disconnected = true
phase_eq completed completed = true
phase_eq cancelled cancelled = true
phase_eq failed failed = true
phase_eq (other s) (other t) = str_eq s t
phase_eq _ _ = false

pub phase_eq_iff : (p q : SessionPhase) → (phase_eq p q ≡ true) ↔ (p ≡ q)
unfolding phase_eq
phase_eq_iff (other s) (other t) = ground (arith, eq_iff s t)
phase_eq_iff _ _ = ground arith

abbrev pub phase_string : SessionPhase → String
phase_string active = "Active"
phase_string disconnected = "Disconnected"
phase_string completed = "Completed"
phase_string cancelled = "Cancelled"
phase_string failed = "Failed"
phase_string (other s) = s

-- The map `validTransitions`: `none` for a phase that is no key of it.
unfoldable pub valid_transitions : SessionPhase → Option (List SessionPhase)
valid_transitions active = some (completed ∷ cancelled ∷ failed ∷ disconnected ∷ [])
valid_transitions disconnected = some (active ∷ cancelled ∷ failed ∷ [])
valid_transitions _ = none

unfoldable pub is_terminal : SessionPhase → Bool
is_terminal completed = true
is_terminal cancelled = true
is_terminal failed = true
is_terminal _ = false

pub data TransitionError : Type 0 where
  terminal_phase : SessionPhase → TransitionError
  invalid_transition : SessionPhase → SessionPhase → TransitionError

-- The loop over the allowed phases.
allowed_loop : SessionPhase → SessionPhase → List SessionPhase → Option TransitionError
allowed_loop from to [] = some (invalid_transition from to)
allowed_loop from to (a ∷ rest) = if phase_eq a to then none else allowed_loop from to rest

-- `none` is the nil error.
unfoldable pub validate_transition : SessionPhase → SessionPhase → Option TransitionError
unfolding phase_eq valid_transitions allowed_loop
validate_transition from to = elim (valid_transitions from) [
  | none ↦ some (terminal_phase from)
  | some allowed ↦ allowed_loop from to allowed
]
