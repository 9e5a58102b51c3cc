-- ===== src/Controller/Retention.antt =====
-- How long sessions are kept and when they are looked at again (internal/controller/ttl.go).
use kubernaut_apifrontend.Common.{
  ℕ, ◌+◌, ◌<◌, String, ◌≡◌, refl, ◌∙◌, inl, inr, true, Option, some, List, arith, Bool-cases,
}
use kubernaut_apifrontend.Common.Int.{
  ℤ, pos, sub_ℕ, ◌-ℤ◌, ◌≤ℤ◌, ◌<ℤ◌, ltb_ℤ, -ℤ_parts, sub_ℕ_parts, ltb_ℤ_of_lt, lt_of_ltb_ℤ,
  le_of_ltb_ℤ,
}
use kubernaut_apifrontend.Session.Phase.{is_terminal}
use kubernaut_apifrontend.Session.Crd.{InvestigationSession, Env, ok}
use kubernaut_apifrontend.Session.Service.{CrdSessionService}
use kubernaut_apifrontend.Controller.{
  SessionCleanupReconciler, TtlEvent, requeue_after, min_retention_ttl, new_reconciler,
  handle_terminal, reconcile,
}

-- A configured retention below 30 days is raised to 30 days, and another is taken as it is.
pub new_reconciler-retention :
    (d t : ℤ) (a : Option (List TtlEvent)) (c : Option (ℕ × ℕ)) (s : Option CrdSessionService)
    → (pos min_retention_ttl ≤ℤ (new_reconciler d t a c s).retention_ttl)
      × (t ≤ℤ (new_reconciler d t a c s).retention_ttl)
unfolding new_reconciler
new_reconciler-retention d t a c s = elim (Bool-cases (ltb_ℤ t (pos min_retention_ttl))) [
  | inl low ↦ rw low (omega arith, omega (arith, lt_of_ltb_ℤ t (pos min_retention_ttl) low))
  | inr high ↦ rw high (le_of_ltb_ℤ t (pos min_retention_ttl) high, omega arith)
]

module _ (e : Env) where
  open e use {World, now, get_cached}

  reconcile-terminal :
      (r : SessionCleanupReconciler) (w : World) (name : String) (sess : InvestigationSession)
      → get_cached w name ≡ ok sess
      → is_terminal sess.status.phase ≡ true
      → reconcile e r w name ≡ handle_terminal e r w sess
  unfolding reconcile is_terminal
  reconcile-terminal r w name sess got ended = ground arith

  handle_terminal_early :
      (r : SessionCleanupReconciler) (w : World) (sess : InvestigationSession) (at : ℕ)
      → sess.status.completed_at ≡ some at
      → ltb_ℤ (sub_ℕ (now w) at) r.retention_ttl ≡ true
      → handle_terminal e r w sess ≡ (w, r, requeue_after (r.retention_ttl -ℤ sub_ℕ (now w) at))
  unfolding handle_terminal
  handle_terminal_early r w sess at done early = simp (done, early, handle_terminal) refl

  -- A terminal session that ended less than 30 days ago is left alone, by any reconciler that
  -- NewSessionCleanupReconciler makes: nothing is written, and it is looked at again later.
  pub reconcile_retains :
      (d t : ℤ) (a : Option (List TtlEvent)) (c : Option (ℕ × ℕ)) (s : Option CrdSessionService)
      (w : World) (name : String) (sess : InvestigationSession) (at : ℕ)
      → get_cached w name ≡ ok sess
      → is_terminal sess.status.phase ≡ true
      → sess.status.completed_at ≡ some at
      → now w < at + min_retention_ttl
      → let r = new_reconciler d t a c s in
        (wait : ℤ) × (reconcile e r w name ≡ (w, r, requeue_after wait)) × (pos 0 <ℤ wait)
  reconcile_retains d t a c s w name sess at got ended done early =
      let r = new_reconciler d t a c s in
      let elapsed = sub_ℕ (now w) at in
      let short : elapsed <ℤ r.retention_ttl =
        omega (arith, (new_reconciler-retention d t a c s).0, sub_ℕ_parts (now w) at) in
      (
        r.retention_ttl -ℤ elapsed,
        reconcile-terminal r w name sess got ended
            ∙ handle_terminal_early r w sess at done (ltb_ℤ_of_lt elapsed r.retention_ttl short),
        omega (arith, -ℤ_parts r.retention_ttl elapsed),
      )
