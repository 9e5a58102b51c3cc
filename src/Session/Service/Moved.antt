-- ===== src/Session/Service/Moved.antt =====
-- What a transition of UpdatePhase (internal/session/statemachine.go) makes of a session's status.
use kubernaut_apifrontend.Common.{ℕ, ◌≤◌, ◌≡◌, none, some, List, arith, length, if◌then◌else◌}
use kubernaut_apifrontend.Session.Phase.{
  SessionPhase, active, disconnected, is_terminal, phase_eq, validate_transition,
}
use kubernaut_apifrontend.Session.Crd.{InvestigationSessionStatus, connected, offline}
use kubernaut_apifrontend.Session.Service.{change_phase, max_phase_message_len}

-- What a status looks like after a transition to `to` at the time `now`, by the fields that the
-- resource documents: a session that ended has its completion time, one that is left or taken up
-- again that time and the connection state, and all else is as it was.
pub record Moved (now : ℕ) (old : InvestigationSessionStatus) (to : SessionPhase)
    (new : InvestigationSessionStatus) : Type 0 where
  pub phase : new.phase ≡ to
  pub message : length new.message ≤ max_phase_message_len
  pub started : new.started_at ≡ old.started_at
  pub completed : new.completed_at ≡ (if is_terminal to then some now else old.completed_at)
  pub left_at :
      new.disconnected_at ≡ (if phase_eq to disconnected then some now else old.disconnected_at)
  pub back_at : new.reconnected_at ≡ (if phase_eq to active then some now else old.reconnected_at)
  pub connection : new.connection_state ≡ (
      if phase_eq to disconnected
      then offline
      else (if phase_eq to active then connected else old.connection_state))

pub change_phase-Moved :
    (m : List ℕ) (now : ℕ) (st : InvestigationSessionStatus) (from to : SessionPhase)
    → length m ≤ max_phase_message_len
    → validate_transition from to ≡ none
    → Moved now st to (change_phase from to m now st)
unfolding change_phase is_terminal phase_eq validate_transition
change_phase-Moved m now st from to short valid = record {
  phase = ground arith;
  message = ground arith;
  started = ground arith;
  completed = ground arith;
  left_at = ground arith;
  back_at = ground arith;
  connection = ground arith;
}
