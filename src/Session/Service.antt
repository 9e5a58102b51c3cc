-- ===== src/Session/Service.antt =====
-- The CRD session service, CRDSessionService of internal/session/service.go, and its UpdatePhase
-- (internal/session/statemachine.go). A method takes the world and the service and returns both;
-- the audit events and the gauge are kept in the service's state. Locks are not modelled: each
-- method is one step of its process, and what happens meanwhile elsewhere is in the world.
pub mod Moved
pub mod Writes
pub mod Retries
pub mod Commit
pub mod Success
pub mod Unhindered
use kubernaut_apifrontend.Common.{
  ℕ, String, Bool, true, false, Option, none, some, List, [], ◌∷◌, take, truncate, if◌then◌else◌,
  length, ltb, ◌&&◌, codes,
}
use kubernaut_apifrontend.Common.Dict.{Dict, lookup, insert, delete}
use kubernaut_apifrontend.Common.Int.{ℤ, pos, ◌+ℤ◌, ◌-ℤ◌}
use kubernaut_apifrontend.Session.Phase.{
  SessionPhase, active, disconnected, phase_eq, phase_string, is_terminal, validate_transition,
  TransitionError,
}
use kubernaut_apifrontend.Session.Crd.{
  InvestigationSession, InvestigationSessionStatus, Env, ApiError, ApiResult, ok, err, Err, api,
  get_for_update, reread, get_phase, transition, nil_map_write, connected, offline,
}

pub data EventType : Type 0 where
  session_created session_deleted session_phase_changed : EventType

pub record AuditEvent : Type 0 where
  pub type : EventType
  pub user_id : String
  pub detail : Dict String

-- The session gauge, af_sessions_active by phase.
abbrev pub Gauge : Type 0
Gauge = SessionPhase → ℤ

-- A nil auditor or gauge is `none`; the audit events stand newest first.
pub record CrdSessionService : Type 0 where
  pub namespace : String
  pub has_api_reader : Bool
  pub auditor : Option (List AuditEvent)
  pub sessions_active : Option Gauge
  pub crd_index : Dict String

abbrev pub label_phase : String
label_phase = "apifrontend.kubernaut.ai/phase"

abbrev pub max_phase_message_len : ℕ
max_phase_message_len = 256

unfoldable pub new_service :
    String → Bool → Option (List AuditEvent) → Option Gauge → CrdSessionService
new_service ns reader auditor gauge = record {
  namespace = ns;
  has_api_reader = reader;
  auditor = auditor;
  sessions_active = gauge;
  crd_index = [];
}

unfoldable pub emit_audit : CrdSessionService → EventType → String → Dict String → CrdSessionService
emit_audit s t user detail = record s {
  auditor = elim s.auditor [
    | none ↦ none
    | some events ↦ some (record { type = t; user_id = user; detail = detail } ∷ events)
  ];
}

add_at : SessionPhase → (ℤ → ℤ) → Option Gauge → Option Gauge
unfolding phase_eq
add_at p f none = none
add_at p f (some g) = some (λ q. if phase_eq p q then f (g q) else g q)

unfoldable pub inc_session_gauge : CrdSessionService → SessionPhase → CrdSessionService
unfolding add_at ◌+ℤ◌
inc_session_gauge s p = record s { sessions_active = add_at p (λ n. n +ℤ pos 1) s.sessions_active }

unfoldable pub dec_session_gauge : CrdSessionService → SessionPhase → CrdSessionService
unfolding add_at ◌-ℤ◌
dec_session_gauge s p = record s { sessions_active = add_at p (λ n. n -ℤ pos 1) s.sessions_active }

-- The name of the CRD of a session: its index entry, or the session's ID itself.
unfoldable pub crd_name_of : CrdSessionService → String → String
unfolding lookup
crd_name_of s id = elim (lookup id s.crd_index) [ none ↦ id | some name ↦ name ]

unfoldable pub forget : CrdSessionService → String → CrdSessionService
unfolding delete
forget s id = record s { crd_index = delete id s.crd_index }

-- The `switch` of UpdatePhase on the new phase, with the assignments above it.
unfoldable pub change_phase :
    SessionPhase
    → SessionPhase
    → List ℕ
    → ℕ
    → InvestigationSessionStatus
    → InvestigationSessionStatus
unfolding is_terminal phase_eq
change_phase from to message now st =
    let moved = record st { phase = to; message = message } in
    if is_terminal to
    then record moved { completed_at = some now }
    else (if phase_eq to disconnected
        then record moved { disconnected_at = some now; connection_state = offline }
        else (if phase_eq from disconnected && phase_eq to active
            then record moved { reconnected_at = some now; connection_state = connected }
            else moved))

-- `crd.Labels[LabelPhase] = string(to)`.
unfoldable pub set_phase_label : SessionPhase → InvestigationSession → Option InvestigationSession
unfolding insert
set_phase_label to crd = elim crd.labels [
  | none ↦ none
  | some labels ↦
      some (record crd { labels = some (insert label_phase (codes (phase_string to)) labels) })
]

unfoldable pub truncate_message : List ℕ → List ℕ
truncate_message m = truncate max_phase_message_len m

-- What UpdatePhase does once the CRD is written.
unfoldable pub commit_phase :
    CrdSessionService → String → SessionPhase → SessionPhase → String → CrdSessionService
unfolding emit_audit inc_session_gauge dec_session_gauge forget is_terminal
commit_phase s id from to user =
    let detail = ("session_id", id) ∷ ("from", phase_string from) ∷ ("to", phase_string to) ∷ [] in
    let moved =
      inc_session_gauge (dec_session_gauge (emit_audit s session_phase_changed user detail) from)
        to in
    if is_terminal to then forget moved id else moved

module _ (e : Env) where
  open e use {World, now, get_cached, get_live, update_status, update_object, retry_on_conflict}

  unfoldable pub read_crd : CrdSessionService → World → String → ApiResult InvestigationSession
  read_crd s w name = if s.has_api_reader then get_live w name else get_cached w name

  -- The closure that UpdatePhase retries, part by part; `from` is its captured variable.
  label_write :
      SessionPhase
      → SessionPhase
      → World
      → InvestigationSession
      → (World × SessionPhase) × Option Err
  unfolding set_phase_label
  label_write from to w crd = elim (set_phase_label to crd) [
    | none ↦ ((w, from), some nil_map_write)
    | some labelled ↦
        let (w', r) = update_object w labelled in
        elim r [ ok _ ↦ ((w', from), none) | err x ↦ ((w', from), some (api x)) ]
  ]

  status_write :
      CrdSessionService
      → String
      → SessionPhase
      → SessionPhase
      → World
      → InvestigationSession
      → (World × SessionPhase) × Option Err
  unfolding label_write read_crd
  status_write s name from to w crd =
      let (w', r) = update_status w crd in
      elim r [
        | err x ↦ ((w', from), some (api x))
        | ok _ ↦ elim (read_crd s w' name) [
          | err x ↦ ((w', from), some (reread x))
          | ok again ↦ label_write from to w' again
        ]
      ]

  unfoldable pub phase_attempt :
      CrdSessionService
      → String
      → SessionPhase
      → List ℕ
      → World × SessionPhase
      → (World × SessionPhase) × Option Err
  unfolding status_write read_crd change_phase validate_transition
  phase_attempt s name to message (w, captured) = elim (read_crd s w name) [
    | err x ↦ ((w, captured), some (get_for_update x))
    | ok crd ↦
        let from = crd.status.phase in
        elim (validate_transition from to) [
          | some x ↦ ((w, from), some (transition x))
          | none ↦
              status_write s name from to w
                (record crd { status = change_phase from to message (now w) crd.status })
        ]
  ]

  unfoldable pub update_phase :
      CrdSessionService
      → World
      → String
      → SessionPhase
      → List ℕ
      → String
      → World × CrdSessionService × Option Err
  unfolding truncate_message crd_name_of phase_attempt commit_phase
  update_phase s w id to message user =
      let ((w', from), r) =
        retry_on_conflict (phase_attempt s (crd_name_of s id) to (truncate_message message))
          (w, SessionPhase.other "") in
      elim r [ some x ↦ (w', s, some x) | none ↦ (w', commit_phase s id from to user, none) ]
