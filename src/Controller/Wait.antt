-- ===== src/Controller/Wait.antt =====
-- When a disconnected session is reconciled again, and what is done then
-- (internal/controller/ttl.go).
use kubernaut_apifrontend.Common.{
  ℕ, suc, List, ◌∷◌, Option, ◌⊎◌, ◌≡◌, refl, sym, subst, inl, inr, false, none, some, arith,
  Bool-cases, Option-cases,
}
use kubernaut_apifrontend.Common.Int.{
  ℤ, pos, sub_ℕ, ◌+ℤ◌, ◌-ℤ◌, ◌<ℤ◌, ltb_ℤ, -ℤ_parts, +ℤ_parts, eq_of_parts, ◌≤ℤ◌, sub_ℕ_parts,
  ltb_ℤ_of_lt, ltb_ℤ_of_le, lt_of_ltb_ℤ, le_of_ltb_ℤ,
}
use kubernaut_apifrontend.Session.Phase.{disconnected, cancelled, validate_transition}
use kubernaut_apifrontend.Session.Crd.{InvestigationSession, Env, Err}
use kubernaut_apifrontend.Session.Service.{CrdSessionService, update_phase}
use kubernaut_apifrontend.Controller.{
  SessionCleanupReconciler, Verdict, requeue_after, error, auto_cancel, TtlEvent, auto_cancelled,
  settled, cancelled_event, emit_audit, count_cancel, handle_disconnected, cancel_expired,
  expired_message,
}
use kubernaut_apifrontend.Controller.Expiry.{handle_disconnected_early, handle_disconnected_late}

-- One event more, where events are kept.
abbrev pub Noted : Option (List TtlEvent) → TtlEvent → Option (List TtlEvent) → Type 0
Noted none event after = after ≡ none
Noted (some events) event after = after ≡ some (event ∷ events)

-- One cancellation more, where the actions are counted.
abbrev pub CountedCancel : Option (ℕ × ℕ) → Option (ℕ × ℕ) → Type 0
CountedCancel none after = after ≡ none
CountedCancel (some (n, m)) after = after ≡ some (suc n, m)

module _ (e : Env) where
  open e use {World, now}

  -- The session is reconciled again when its time is up, which is at `due`.
  pub record Waits (due : ℤ) (w : World) (r : SessionCleanupReconciler)
      (result : World × SessionCleanupReconciler × Verdict) : Type 0 where
    pub wait : ℤ
    pub requeued : result ≡ (w, r, requeue_after wait)
    pub positive : pos 0 <ℤ wait
    pub until : pos (now w) +ℤ wait ≡ due

  abbrev pub expire :
      CrdSessionService → World → InvestigationSession → World × CrdSessionService × Option Err
  expire svc w sess = update_phase e svc w sess.name cancelled expired_message ""

  -- UpdatePhase is called once, to Cancelled; on its success one audit event, with the time since the
  -- disconnection, and one cancellation are recorded, and on its error the error is returned and nothing is.
  pub data Cancels (at : ℕ) (svc : CrdSessionService) (w : World) (sess : InvestigationSession)
      (r : SessionCleanupReconciler) (result : World × SessionCleanupReconciler × Verdict)
      : Type 0 where
    cancels :
        (elapsed : ℤ)
        → pos at +ℤ elapsed ≡ pos (now w)
        → (expire svc w sess).2 ≡ none
        → result.0 ≡ (expire svc w sess).0
        → result.1.session_service ≡ some (expire svc w sess).1
        → Noted r.auditor (auto_cancelled sess.name elapsed) result.1.auditor
        → CountedCancel r.ttl_actions result.1.ttl_actions
        → result.2 ≡ settled
        → Cancels at svc w sess r result
    fails :
        (x : Err)
        → (expire svc w sess).2 ≡ some x
        → result ≡ (
          (expire svc w sess).0,
          record r { session_service = some (expire svc w sess).1 },
          error (auto_cancel x),
        )
        → Cancels at svc w sess r result

  cancel_expired-Cancels :
      (r : SessionCleanupReconciler) (w : World) (sess : InvestigationSession) (at : ℕ)
      (svc : CrdSessionService)
      → sess.status.phase ≡ disconnected
      → r.session_service ≡ some svc
      → Cancels at svc w sess r (cancel_expired e r w sess (sub_ℕ (now w) at))
  unfolding cancel_expired cancelled_event emit_audit count_cancel validate_transition
  cancel_expired-Cancels r w sess at svc gone has =
      let elapsed = sub_ℕ (now w) at in
      let valid : validate_transition sess.status.phase cancelled ≡ none = rw gone refl in
      let since =
        eq_of_parts (pos at +ℤ elapsed) (pos (now w))
          (omega (arith, sub_ℕ_parts (now w) at, +ℤ_parts (pos at) elapsed)) in
      let u = expire svc w sess in
      elim (Option-cases u.2) [
        | inr (x, k) ↦ fails x k (simp (valid, has, k, cancel_expired) refl)
        | inl k ↦
            let r' = record r { session_service = some u.1 } in
            let q : cancel_expired e r w sess elapsed
                ≡ (u.0, cancelled_event e r' sess elapsed, settled) =
              simp (valid, has, k, cancel_expired) refl in
            subst (Cancels at svc w sess r) (sym q) (
              cancels elapsed since k refl refl (noted elapsed r.auditor) (counted r.ttl_actions)
                refl)
      ]
    where
      noted :
          (elapsed : ℤ) (a : Option (List TtlEvent))
          → Noted a (auto_cancelled sess.name elapsed) (elim a [
            | none ↦ none
            | some events ↦ some (auto_cancelled sess.name elapsed ∷ events)
          ])
      noted elapsed none = refl
      noted elapsed (some events) = refl

      counted :
          (a : Option (ℕ × ℕ))
          → CountedCancel a (elim a [ none ↦ none | some (n, m) ↦ some (suc n, m) ])
      counted none = refl
      counted (some (n, m)) = refl

  -- With a session service, a disconnected session is cancelled in time. Before `disconnectedAt` and
  -- the TTL it is requeued, and for the time that is left until then. In a later world, with the
  -- session unchanged, it is again only requeued for the time that is left, if the clock has not
  -- advanced by the first wait; and once it has, UpdatePhase is called to Cancelled, and the
  -- cancellation is recorded unless that call failed.
  pub handle_disconnected_wait :
      (r : SessionCleanupReconciler) (w w' : World) (sess : InvestigationSession) (at : ℕ)
      (svc : CrdSessionService)
      → r.session_service ≡ some svc
      → sess.status.phase ≡ disconnected
      → sess.status.disconnected_at ≡ some at
      → pos (now w) <ℤ pos at +ℤ r.disconnect_ttl
      → (first : Waits (pos at +ℤ r.disconnect_ttl) w r (handle_disconnected e r w sess)) × (((pos
                (now w')
              <ℤ pos (now w) +ℤ first.wait)
            × Waits (pos at +ℤ r.disconnect_ttl) w' r (handle_disconnected e r w' sess))
          ⊎ ((pos (now w) +ℤ first.wait ≤ℤ pos (now w'))
              × Cancels at svc w' sess r (handle_disconnected e r w' sess)))
  handle_disconnected_wait r w w' sess at svc has gone since early =
      let first = waits w early in
      (
        first,
        rw first.until (elim (Bool-cases (ltb_ℤ (pos (now w')) due)) [
          | inl soon ↦ let h = lt_of_ltb_ℤ (pos (now w')) due soon in inl (h, waits w' h)
          | inr over ↦
              let h = le_of_ltb_ℤ (pos (now w')) due over in
              let late : ltb_ℤ (sub_ℕ (now w') at) ttl ≡ false =
                ltb_ℤ_of_le (sub_ℕ (now w') at) ttl
                  (omega (arith, h, sub_ℕ_parts (now w') at, +ℤ_parts (pos at) ttl)) in
              inr (
                h,
                subst (Cancels at svc w' sess r)
                    (sym (handle_disconnected_late e r w' sess at since late))
                    (cancel_expired-Cancels r w' sess at svc gone has),
              )
        ]),
      )
    where
      ttl : ℤ
      ttl = r.disconnect_ttl

      due : ℤ
      due = pos at +ℤ ttl

      waits : (v : World) → pos (now v) <ℤ due → Waits due v r (handle_disconnected e r v sess)
      waits v h =
          let wait = ttl -ℤ sub_ℕ (now v) at in
          record {
            wait = wait;
            requeued = handle_disconnected_early e r v sess at since (
                ltb_ℤ_of_lt (sub_ℕ (now v) at) ttl
                  (omega (arith, h, sub_ℕ_parts (now v) at, +ℤ_parts (pos at) ttl)));
            positive = omega (
              arith,
              h,
              -ℤ_parts ttl (sub_ℕ (now v) at),
              sub_ℕ_parts (now v) at,
              +ℤ_parts (pos at) ttl,
            );
            until = eq_of_parts (pos (now v) +ℤ wait) due (
                omega (
                  arith,
                  -ℤ_parts ttl (sub_ℕ (now v) at),
                  sub_ℕ_parts (now v) at,
                  +ℤ_parts (pos at) ttl,
                  +ℤ_parts (pos (now v)) wait,
                ));
          }
