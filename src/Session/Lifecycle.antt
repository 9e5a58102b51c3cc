-- ===== src/Session/Lifecycle.antt =====
-- Create, Delete, AppendEvent, GetSessionPhase and PruneTerminalEntries of the CRD session service
-- (internal/session/service.go).
pub mod Create
pub mod Prune
pub mod Books
use kubernaut_apifrontend.Common.{
  ℕ, suc, String, Bool, true, false, Option, none, some, List, [], ◌∷◌, str_eq, ◌&&◌, ◌||◌,
  if◌then◌else◌, length, codes,
}
use kubernaut_apifrontend.Common.Dict.{Dict, lookup, insert, delete}
use kubernaut_apifrontend.Session.Phase.{SessionPhase, active, phase_string, is_terminal}
use kubernaut_apifrontend.Session.Crd.{
  InvestigationSession, InvestigationSessionStatus, InvestigationSessionSpec, Env, ApiError,
  ApiResult, ok, err, Err, api, create_crd, initial_status, delegate_failed, get_phase, Outcome,
  done, refused, invalid_config_type, invalid_session_id, connected, CreateRequest, CreateConfig,
  StateEntry, absent, wrong_type, nil_config, config, unspecified,
}
use kubernaut_apifrontend.Session.Labels.{sanitize_label_value, valid_crd_name}
use kubernaut_apifrontend.Session.Trimming.{Event, trim_event_function_responses}
use mathlib.Core.Option
use kubernaut_apifrontend.Session.Service.{
  CrdSessionService, session_created, session_deleted, emit_audit, inc_session_gauge,
  dec_session_gauge, crd_name_of, forget, read_crd, label_phase,
}

abbrev pub label_user : String
label_user = "apifrontend.kubernaut.ai/user"

abbrev pub label_rr_name : String
label_rr_name = "apifrontend.kubernaut.ai/rr-name"

abbrev pub label_managed_by : String
label_managed_by = "app.kubernetes.io/managed-by"

abbrev pub no_spec : InvestigationSessionSpec
no_spec = record {
  remediation_request_ref = record { name = ""; namespace = "" };
  a2a_task_id = "";
  user_identity = record { username = ""; groups = [] };
  join_mode = unspecified;
}

-- The status of a session that starts at `now`.
abbrev pub started_status : ℕ → InvestigationSessionStatus
started_status now = record {
  phase = active;
  ai_analysis_ref = "";
  ka_correlation_id = "";
  connection_state = connected;
  started_at = some now;
  completed_at = none;
  disconnected_at = none;
  reconnected_at = none;
  message = [];
}

-- The CRD as the literal of Create has it.
unfoldable pub bare_crd : CrdSessionService → String → ℕ → InvestigationSession
bare_crd s name now = record {
  name = name;
  namespace = s.namespace;
  labels = some (
      (label_phase, codes (phase_string active))
      ∷ (label_managed_by, codes "kubernaut-apifrontend")
      ∷ []);
  owner_references = [];
  resource_version = 0;
  spec = no_spec;
  status = started_status now;
}

with_config : CreateConfig → InvestigationSession → InvestigationSession
unfolding insert sanitize_label_value
with_config c crd = record crd {
  owner_references = if str_eq c.owner_ref "" then crd.owner_references else c.owner_ref ∷ [];
  labels =
      Option.map
        (λ l.
          insert label_rr_name (sanitize_label_value (codes c.remediation_ref.name))
            (insert label_user (sanitize_label_value (codes c.user.username)) l))
        crd.labels;
  spec = record {
    remediation_request_ref = c.remediation_ref;
    a2a_task_id = c.task_id;
    user_identity = c.user;
    join_mode = c.join_mode;
  };
}

-- The CRD that Create writes, for the entry of the request's state (`wrong_type` never gets here).
unfoldable pub requested_crd : CrdSessionService → String → ℕ → StateEntry → InvestigationSession
unfolding bare_crd with_config
requested_crd s name now (config c) = with_config c (bare_crd s name now)
requested_crd s name now _ = bare_crd s name now

unfoldable pub register : CrdSessionService → String → String → String → CrdSessionService
unfolding insert emit_audit inc_session_gauge
register s id name user =
    inc_session_gauge
      (emit_audit (record s { crd_index = insert id name s.crd_index }) session_created user
        (("session_id", id) ∷ ("crd_name", name) ∷ ("phase", phase_string active) ∷ []))
      active

module _ (e : Env) where
  open e use {
    World, now, get_cached, create_object, update_status, delete_object, generated_name,
    delegate_create, delegate_delete, delegate_append, Value, marshal,
  }

  delegate_step :
      CrdSessionService
      → World
      → CreateRequest
      → String
      → World × CrdSessionService × Outcome String
  unfolding register
  delegate_step s w req name =
      let (w', r) = delegate_create w req in
      elim r [
        | err x ↦ ((delete_object w' name).0, s, refused (delegate_failed x))
        | ok id ↦ (w', register s id name req.user_id, done id)
      ]

  unfoldable pub create_named :
      CrdSessionService
      → World
      → CreateRequest
      → String
      → World × CrdSessionService × Outcome String
  unfolding requested_crd delegate_step
  create_named s w req name =
      let crd = requested_crd s name (now w) req.create_config in
      let (w₁, r₁) = create_object w crd in
      elim r₁ [
        | err x ↦ (w₁, s, refused (create_crd x))
        | ok stored ↦
            let (w₂, r₂) = update_status w₁ (record stored { status = crd.status }) in
            elim r₂ [
              | err x ↦ ((delete_object w₂ name).0, s, refused (initial_status x))
              | ok _ ↦ delegate_step s w₂ req name
            ]
      ]

  -- The name of the CRD: the session ID of the request, or one made from the clock.
  unfoldable pub requested_name : World → CreateRequest → String
  requested_name w req = if str_eq req.session_id "" then generated_name w else req.session_id

  create_checked :
      CrdSessionService → World → CreateRequest → World × CrdSessionService × Outcome String
  unfolding requested_name valid_crd_name create_named
  create_checked s w req =
      if valid_crd_name (codes (requested_name w req))
      then create_named s w req (requested_name w req)
      else (w, s, refused invalid_session_id)

  unfoldable pub create :
      CrdSessionService → World → CreateRequest → World × CrdSessionService × Outcome String
  unfolding create_checked
  create s w req = elim req.create_config [
    | wrong_type ↦ (w, s, refused invalid_config_type)
    | _ ↦ create_checked s w req
  ]

  -- The phase that Delete takes off the gauge: the CRD's, or Active if it cannot be read.
  unfoldable pub deleted_phase : CrdSessionService → World → String → SessionPhase
  unfolding read_crd
  deleted_phase s w name = elim (read_crd e s w name) [ ok crd ↦ crd.status.phase | err _ ↦ active ]

  unfoldable pub delete_session :
      CrdSessionService → World → String → String → World × CrdSessionService × Option ApiError
  unfolding deleted_phase crd_name_of forget emit_audit dec_session_gauge
  delete_session s w id user =
      let name = crd_name_of s id in
      let phase = deleted_phase s w name in
      let (w₁, _) = delete_object w name in
      let s₁ =
        emit_audit (forget s id) session_deleted user
          (("session_id", id) ∷ ("crd_name", name) ∷ []) in
      let (w₂, r) = delegate_delete w₁ id in (w₂, dec_session_gauge s₁ phase, r)

  -- The best-effort status update of AppendEvent writes the object back as it was read.
  unfoldable pub touch_crd : CrdSessionService → World → String → World
  unfolding read_crd lookup
  touch_crd s w id = elim (lookup id s.crd_index) [
    | none ↦ w
    | some name ↦ elim (read_crd e s w name) [ err _ ↦ w | ok crd ↦ (update_status w crd).0 ]
  ]

  unfoldable pub append_event :
      CrdSessionService → World → String → Option (Event Value) → World × Option ApiError
  unfolding touch_crd trim_event_function_responses
  append_event s w id ev =
      let (w', r) = delegate_append w id (trim_event_function_responses marshal ev) in
      elim r [ some x ↦ (w', some x) | none ↦ (touch_crd s w' id, none) ]

  unfoldable pub get_session_phase : CrdSessionService → World → String → Outcome SessionPhase
  unfolding crd_name_of read_crd
  get_session_phase s w id = elim (read_crd e s w (crd_name_of s id)) [
    | err x ↦ refused (get_phase x)
    | ok crd ↦ done crd.status.phase
  ]

  -- The test of PruneTerminalEntries.
  unfoldable pub is_stale : World → String → Bool
  unfolding is_terminal
  is_stale w name = elim (get_cached w name) [
    | err _ ↦ true
    | ok crd ↦ is_terminal crd.status.phase
  ]

  unfoldable pub prune_loop : World → Dict String → CrdSessionService → ℕ → CrdSessionService × ℕ
  unfolding forget
  prune_loop w [] s pruned = (s, pruned)
  prune_loop w ((id, name) ∷ rest) s pruned =
      let gone = is_stale w name in
      prune_loop w rest (if gone then forget s id else s) (if gone then suc pruned else pruned)

  -- The loop runs over a snapshot of the index.
  unfoldable pub prune_terminal_entries : CrdSessionService → World → CrdSessionService × ℕ
  unfolding prune_loop
  prune_terminal_entries s w = prune_loop w s.crd_index s 0
