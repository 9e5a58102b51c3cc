-- ===== src/Controller.antt =====
-- The cleanup of sessions, SessionCleanupReconciler of internal/controller/ttl.go, over the world
-- and the session service of internal/session. The reconciler's audit events and counters are
-- kept in its state, newest first.
pub mod Retention
pub mod Expiry
pub mod Wait
pub mod Direct
mod Tests
use kubernaut_apifrontend.Common.{
  ℕ, suc, ◌+◌, ◌*◌, String, Bool, true, false, Option, none, some, List, [], ◌∷◌, if◌then◌else◌,
  codes, str_eq,
}
use kubernaut_apifrontend.Common.Dict.{Dict, insert}
use kubernaut_apifrontend.Common.Int.{ℤ, pos, sub_ℕ, ◌-ℤ◌, ltb_ℤ}
use kubernaut_apifrontend.Session.Phase.{
  SessionPhase, active, disconnected, completed, cancelled, failed, phase_string,
  validate_transition, TransitionError,
}
use kubernaut_apifrontend.Session.Crd.{
  ConnectionState, unset, InvestigationSession, Env, ApiError, not_found, ApiResult, ok, err, Err,
}
use kubernaut_apifrontend.Session.Service.{CrdSessionService, update_phase, label_phase}
use kubernaut_apifrontend.Session.Lifecycle.{prune_terminal_entries}

-- NIST AU-11's 30 days, in nanoseconds.
abbrev pub min_retention_ttl : ℕ
min_retention_ttl = 30 * 24 * 3600 * 1000000000

pub data TtlEvent : Type 0 where
  auto_cancelled : String → ℤ → TtlEvent
  retention_deleted : String → SessionPhase → ℤ → TtlEvent

-- Durations are nanoseconds; a nil auditor, counter or service is `none`. The counter af_ttl_actions
-- has the labels "cancel" and "delete".
pub record SessionCleanupReconciler : Type 0 where
  pub disconnect_ttl : ℤ
  pub retention_ttl : ℤ
  pub auditor : Option (List TtlEvent)
  pub ttl_actions : Option (ℕ × ℕ)
  pub session_service : Option CrdSessionService

pub data ReconcileError : Type 0 where
  get_session cancel_session update_labels delete_expired : ApiError → ReconcileError
  invalid_expiry : TransitionError → ReconcileError
  auto_cancel : Err → ReconcileError

-- ctrl.Result with its RequeueAfter (0 for none), or the error.
pub data Verdict : Type 0 where
  requeue_after : ℤ → Verdict
  error : ReconcileError → Verdict

abbrev pub settled : Verdict
settled = requeue_after (pos 0)

unfoldable pub new_reconciler :
    ℤ
    → ℤ
    → Option (List TtlEvent)
    → Option (ℕ × ℕ)
    → Option CrdSessionService
    → SessionCleanupReconciler
new_reconciler disconnect retention auditor actions service = record {
  disconnect_ttl = disconnect;
  retention_ttl =
      if ltb_ℤ retention (pos min_retention_ttl) then pos min_retention_ttl else retention;
  auditor = auditor;
  ttl_actions = actions;
  session_service = service;
}

emit_audit : SessionCleanupReconciler → TtlEvent → SessionCleanupReconciler
emit_audit r ev = record r {
  auditor = elim r.auditor [ none ↦ none | some events ↦ some (ev ∷ events) ];
}

count_cancel : SessionCleanupReconciler → SessionCleanupReconciler
count_cancel r = record r {
  ttl_actions = elim r.ttl_actions [
    | none ↦ none
    | some (cancels, deletes) ↦ some (suc cancels, deletes)
  ];
}

count_delete : SessionCleanupReconciler → SessionCleanupReconciler
count_delete r = record r {
  ttl_actions = elim r.ttl_actions [
    | none ↦ none
    | some (cancels, deletes) ↦ some (cancels, suc deletes)
  ];
}

unfoldable pub expired_message : List ℕ
expired_message = codes "auto-cancelled: disconnect TTL expired"

or_empty : Option (Dict (List ℕ)) → Dict (List ℕ)
or_empty none = []
or_empty (some l) = l

-- The session as the branch without a service changes it in memory.
unfoldable pub cancelled_in_memory : ℕ → InvestigationSession → InvestigationSession
unfolding or_empty insert expired_message
cancelled_in_memory now sess = record sess {
  status = record sess.status {
    phase = cancelled;
    completed_at = some now;
    message = expired_message;
  };
  labels = some (insert label_phase (codes (phase_string cancelled)) (or_empty sess.labels));
}

-- What json.Unmarshal makes of a map that is there already: the entries of the answer over the old
-- ones. A field that the answer leaves out, as `omitempty` does with an empty one, is kept.
unfoldable pub merged_labels : Dict (List ℕ) → Dict (List ℕ) → Dict (List ℕ)
unfolding insert
merged_labels [] old = old
merged_labels ((key, value) ∷ more) old = insert key value (merged_labels more old)

kept {ℓ} : {A : Type ℓ} → Option A → Option A → Option A
kept (some x) old = some x
kept none old = old

kept_text : String → String → String
kept_text answered old = if str_eq answered "" then old else answered

kept_list {ℓ} : {A : Type ℓ} → List A → List A → List A
kept_list [] old = old
kept_list (x ∷ more) old = x ∷ more

kept_connection : ConnectionState → ConnectionState → ConnectionState
kept_connection unset old = old
kept_connection state old = state

unfoldable pub decoded_labels :
    Option (Dict (List ℕ)) → Option (Dict (List ℕ)) → Option (Dict (List ℕ))
unfolding or_empty merged_labels
decoded_labels none old = old
decoded_labels (some l) old = some (merged_labels l (or_empty old))

-- The client decodes the server's answer into the object that it was given.
unfoldable pub decoded_into : InvestigationSession → InvestigationSession → InvestigationSession
unfolding decoded_labels kept kept_text kept_list kept_connection
decoded_into sess answered = record answered {
  labels = decoded_labels answered.labels sess.labels;
  owner_references = kept_list answered.owner_references sess.owner_references;
  status = record answered.status {
    ai_analysis_ref = kept_text answered.status.ai_analysis_ref sess.status.ai_analysis_ref;
    ka_correlation_id = kept_text answered.status.ka_correlation_id sess.status.ka_correlation_id;
    connection_state =
        kept_connection answered.status.connection_state sess.status.connection_state;
    started_at = kept answered.status.started_at sess.status.started_at;
    completed_at = kept answered.status.completed_at sess.status.completed_at;
    disconnected_at = kept answered.status.disconnected_at sess.status.disconnected_at;
    reconnected_at = kept answered.status.reconnected_at sess.status.reconnected_at;
    message = kept_list answered.status.message sess.status.message;
  };
}

module _ (e : Env) where
  open e use {World, now, get_cached, update_status, update_object, delete_object}

  -- The two writes of that branch. The second one sends the session with the first one's answer.
  unfoldable pub cancel_directly : World → InvestigationSession → World × Option ReconcileError
  unfolding cancelled_in_memory decoded_into
  cancel_directly w sess =
      let changed = cancelled_in_memory (now w) sess in
      let (w₁, r₁) = update_status w changed in
      elim r₁ [
        | err x ↦ (w₁, some (cancel_session x))
        | ok answered ↦
            let (w₂, r₂) = update_object w₁ (decoded_into changed answered) in
            elim r₂ [ err x ↦ (w₂, some (update_labels x)) | ok _ ↦ (w₂, none) ]
      ]

  cancelled_event : SessionCleanupReconciler → InvestigationSession → ℤ → SessionCleanupReconciler
  unfolding emit_audit count_cancel
  cancelled_event r sess elapsed = count_cancel (emit_audit r (auto_cancelled sess.name elapsed))

  unfoldable pub cancel_expired :
      SessionCleanupReconciler
      → World
      → InvestigationSession
      → ℤ
      → World × SessionCleanupReconciler × Verdict
  unfolding cancel_directly cancelled_event validate_transition
  cancel_expired r w sess elapsed = elim (validate_transition sess.status.phase cancelled) [
    | some x ↦ (w, r, error (invalid_expiry x))
    | none ↦ elim r.session_service [
      | some svc ↦
          let (w', svc', x) = update_phase e svc w sess.name cancelled expired_message "" in
          let r' = record r { session_service = some svc' } in
          elim x [
            | some y ↦ (w', r', error (auto_cancel y))
            | none ↦ (w', cancelled_event r' sess elapsed, settled)
          ]
      | none ↦
          let (w', x) = cancel_directly w sess in
          elim x [
            | some y ↦ (w', r, error y)
            | none ↦ (w', cancelled_event r sess elapsed, settled)
          ]
    ]
  ]

  unfoldable pub handle_disconnected :
      SessionCleanupReconciler
      → World
      → InvestigationSession
      → World × SessionCleanupReconciler × Verdict
  unfolding cancel_expired
  handle_disconnected r w sess = elim sess.status.disconnected_at [
    | none ↦ (w, r, settled)
    | some at ↦
        let elapsed = sub_ℕ (now w) at in
        if ltb_ℤ elapsed r.disconnect_ttl
        then (w, r, requeue_after (r.disconnect_ttl -ℤ elapsed))
        else cancel_expired r w sess elapsed
  ]

  prune_service : SessionCleanupReconciler → World → SessionCleanupReconciler
  unfolding prune_terminal_entries
  prune_service r w = record r {
    session_service = elim r.session_service [
      | none ↦ none
      | some svc ↦ some (prune_terminal_entries e svc w).0
    ];
  }

  unfoldable pub delete_expired_session :
      SessionCleanupReconciler
      → World
      → InvestigationSession
      → ℤ
      → World × SessionCleanupReconciler × Verdict
  unfolding emit_audit count_delete prune_service
  delete_expired_session r w sess elapsed =
      let (w', x) = delete_object w sess.name in
      let counted =
        count_delete (emit_audit r (retention_deleted sess.name sess.status.phase elapsed)) in
      elim x [
        | some not_found ↦ (w', r, settled)
        | some y ↦ (w', r, error (delete_expired y))
        | none ↦ (w', prune_service counted w', settled)
      ]

  unfoldable pub handle_terminal :
      SessionCleanupReconciler
      → World
      → InvestigationSession
      → World × SessionCleanupReconciler × Verdict
  unfolding delete_expired_session
  handle_terminal r w sess = elim sess.status.completed_at [
    | none ↦ (w, r, settled)
    | some at ↦
        let elapsed = sub_ℕ (now w) at in
        if ltb_ℤ elapsed r.retention_ttl
        then (w, r, requeue_after (r.retention_ttl -ℤ elapsed))
        else delete_expired_session r w sess elapsed
  ]

  unfoldable pub reconcile :
      SessionCleanupReconciler → World → String → World × SessionCleanupReconciler × Verdict
  unfolding handle_disconnected handle_terminal
  reconcile r w name = elim (get_cached w name) [
    | err not_found ↦ (w, r, settled)
    | err x ↦ (w, r, error (get_session x))
    | ok sess ↦ elim sess.status.phase [
      | active ↦ (w, r, settled)
      | disconnected ↦ handle_disconnected r w sess
      | completed ↦ handle_terminal r w sess
      | cancelled ↦ handle_terminal r w sess
      | failed ↦ handle_terminal r w sess
      | _ ↦ (w, r, settled)
    ]
  ]
