-- ===== src/Controller/Expiry.antt =====
-- When a disconnected session is cancelled, and by which writes (internal/controller/ttl.go).
use kubernaut_apifrontend.Common.{
  ℕ, String, ◌≡◌, refl, ap, sym, subst, inl, inr, true, false, none, some, arith, Bool-cases,
  Option-cases,
}
use kubernaut_apifrontend.Common.Int.{ℤ, sub_ℕ, ◌-ℤ◌, ltb_ℤ}
use kubernaut_apifrontend.Session.Phase.{disconnected, cancelled, validate_transition, is_terminal}
use kubernaut_apifrontend.Session.Crd.{InvestigationSession, Env, ok, RetryLaw}
use kubernaut_apifrontend.Session.Service.{CrdSessionService, crd_name_of, update_phase}
use kubernaut_apifrontend.Session.Service.Writes.{PhaseWrites, unchanged, update_phase-PhaseWrites}
use kubernaut_apifrontend.Controller.{
  SessionCleanupReconciler, requeue_after, settled, handle_disconnected, cancel_expired,
  expired_message, reconcile,
}

module _ (e : Env) where
  open e use {World, now, get_cached, get_live, update_status, update_object}

  pub handle_disconnected_early :
      (r : SessionCleanupReconciler) (w : World) (sess : InvestigationSession) (at : ℕ)
      → sess.status.disconnected_at ≡ some at
      → ltb_ℤ (sub_ℕ (now w) at) r.disconnect_ttl ≡ true
      → handle_disconnected e r w sess
        ≡ (w, r, requeue_after (r.disconnect_ttl -ℤ sub_ℕ (now w) at))
  unfolding handle_disconnected
  handle_disconnected_early r w sess at since early = simp (since, early, handle_disconnected) refl

  pub handle_disconnected_late :
      (r : SessionCleanupReconciler) (w : World) (sess : InvestigationSession) (at : ℕ)
      → sess.status.disconnected_at ≡ some at
      → ltb_ℤ (sub_ℕ (now w) at) r.disconnect_ttl ≡ false
      → handle_disconnected e r w sess ≡ cancel_expired e r w sess (sub_ℕ (now w) at)
  unfolding handle_disconnected
  handle_disconnected_late r w sess at since late = simp (since, late, handle_disconnected) refl

  cancel_expired_world :
      (r : SessionCleanupReconciler) (w : World) (sess : InvestigationSession) (elapsed : ℤ)
      (svc : CrdSessionService)
      → validate_transition sess.status.phase cancelled ≡ none
      → r.session_service ≡ some svc
      → (cancel_expired e r w sess elapsed).0
        ≡ (update_phase e svc w sess.name cancelled expired_message "").0
  unfolding cancel_expired
  cancel_expired_world r w sess elapsed svc valid has =
      elim (Option-cases (update_phase e svc w sess.name cancelled expired_message "").2) [
        | inl k ↦ simp (valid, has, k, cancel_expired) refl
        | inr (x, k) ↦ simp (valid, has, k, cancel_expired) refl
      ]

  cancel_expired-PhaseWrites :
      RetryLaw e
      → (r : SessionCleanupReconciler) (w : World) (sess : InvestigationSession) (elapsed : ℤ)
        (svc : CrdSessionService)
      → r.session_service ≡ some svc
      → PhaseWrites e svc
          (crd_name_of svc sess.name)
          cancelled
          w
          (cancel_expired e r w sess elapsed).0
  unfolding cancel_expired
  cancel_expired-PhaseWrites law r w sess elapsed svc has =
      let Writes = PhaseWrites e svc (crd_name_of svc sess.name) cancelled w in
      elim (Option-cases (validate_transition sess.status.phase cancelled)) [
        | inr (x, k) ↦
            let q : (cancel_expired e r w sess elapsed).0 ≡ w = simp (k, cancel_expired) refl in
            subst Writes (sym q) unchanged
        | inl k ↦
            subst Writes (sym (cancel_expired_world r w sess elapsed svc k has))
              (update_phase-PhaseWrites e law svc w sess.name cancelled expired_message "")
      ]

  handle_disconnected-PhaseWrites :
      RetryLaw e
      → (r : SessionCleanupReconciler) (w : World) (sess : InvestigationSession)
        (svc : CrdSessionService)
      → r.session_service ≡ some svc
      → PhaseWrites e svc (crd_name_of svc sess.name) cancelled w (handle_disconnected e r w sess).0
  unfolding handle_disconnected
  handle_disconnected-PhaseWrites law r w sess svc has =
      let Writes = PhaseWrites e svc (crd_name_of svc sess.name) cancelled w in
      elim (Option-cases sess.status.disconnected_at) [
        | inl k ↦
            let q : (handle_disconnected e r w sess).0 ≡ w = simp (k, handle_disconnected) refl in
            subst Writes (sym q) unchanged
        | inr (at, k) ↦ elim (Bool-cases (ltb_ℤ (sub_ℕ (now w) at) r.disconnect_ttl)) [
          | inl early ↦
              subst Writes (sym (ap (λ z. z.0) (handle_disconnected_early r w sess at k early)))
                unchanged
          | inr late ↦
              subst Writes (sym (ap (λ z. z.0) (handle_disconnected_late r w sess at k late)))
                (cancel_expired-PhaseWrites law r w sess (sub_ℕ (now w) at) svc has)
        ]
      ]

  -- With a session service, reconciling a disconnected session changes stored objects only by
  -- UpdatePhase's writes to Cancelled, each along an edge of the state machine.
  pub reconcile-PhaseWrites :
      RetryLaw e
      → (r : SessionCleanupReconciler) (w : World) (name : String) (sess : InvestigationSession)
        (svc : CrdSessionService)
      → r.session_service ≡ some svc
      → get_cached w name ≡ ok sess
      → sess.status.phase ≡ disconnected
      → PhaseWrites e svc (crd_name_of svc sess.name) cancelled w (reconcile e r w name).0
  unfolding reconcile
  reconcile-PhaseWrites law r w name sess svc has got phase =
      let q : reconcile e r w name ≡ handle_disconnected e r w sess = ground arith in
      subst (λ z. PhaseWrites e svc (crd_name_of svc sess.name) cancelled w z.0) (sym q)
        (handle_disconnected-PhaseWrites law r w sess svc has)

  -- A session that is neither disconnected nor terminal is never touched.
  pub reconcile_idle :
      (r : SessionCleanupReconciler) (w : World) (name : String) (sess : InvestigationSession)
      → get_cached w name ≡ ok sess
      → (sess.status.phase ≡ disconnected → ⊥)
      → is_terminal sess.status.phase ≡ false
      → reconcile e r w name ≡ (w, r, settled)
  unfolding reconcile is_terminal
  reconcile_idle r w name sess got connected live = ground arith
