-- ===== src/Session/Service/Retries.antt =====
-- An attempt of UpdatePhase (internal/session/statemachine.go) whose label update meets a conflict.
use kubernaut_apifrontend.Common.{
  ℕ, String, ◌≡◌, refl, ◌≢◌, false, Option, none, some, List, inl, inr, Option-cases,
}
use kubernaut_apifrontend.Session.Phase.{SessionPhase, other, validate_transition, TransitionError}
use kubernaut_apifrontend.Session.Phase.Graph.{Edge-ne, validate_transition-iff-Edge}
use kubernaut_apifrontend.Session.Crd.{
  InvestigationSession, Env, ok, Err, api, conflict, transition, is_conflict, Iterates, stop, again,
  RetryLaw,
}
use kubernaut_apifrontend.Session.Service.{
  CrdSessionService, read_crd, crd_name_of, phase_attempt, update_phase, truncate_message,
}

module _ (e : Env) (s : CrdSessionService) (name : String) (to : SessionPhase) where
  open e use {World, now, update_status, update_object}

  -- A CRD that has the phase already is refused.
  phase_attempt_moved :
      (m : List ℕ) (w : World) (captured : SessionPhase) (crd : InvestigationSession)
      → read_crd e s w name ≡ ok crd
      → crd.status.phase ≡ to
      → (x : TransitionError) × (phase_attempt e s name to m (w, captured)
          ≡ ((w, crd.status.phase), some (transition x)))
  unfolding phase_attempt
  phase_attempt_moved m w captured crd k moved =
      elim (Option-cases (validate_transition crd.status.phase to)) [
        | inl q ↦ absurd (Edge-ne ((validate_transition-iff-Edge _ _).0 q) moved)
        | inr (x, q) ↦ (x, rw (k, phase_attempt) (rw (q, phase_attempt)))
      ]

-- A conflict whose repetition fails otherwise is no success, wherever the retries end.
Iterates-stuck :
    {S : Type 0} (fn : S → S × Option Err) (y z : Err)
    → is_conflict z ≡ false
    → {t : S} {r : Option Err} {s u v : S} → Iterates fn t r s
    → fn s ≡ (u, some y)
    → fn u ≡ (v, some z)
    → r ≢ none
Iterates-stuck fn y z nc (stop h) a b = λ e. cc
Iterates-stuck fn y z nc (again u' x h c (stop k)) a b = λ e. cc
Iterates-stuck fn y z nc (again u' x h c (again u₂ x₂ k c₂ rest)) a b = λ e. cc

module _ (e : Env) (law : RetryLaw e) where
  open e use {World, retry_on_conflict}

  -- A conflict on the label update loses the bookkeeping: where the first attempt has written the
  -- status and only its label update meets a conflict, so that the CRD is read with the new phase,
  -- UpdatePhase returns an error and leaves audit log, gauge and index as they were, whether or
  -- not the attempt is repeated.
  pub update_phase_label_conflict :
      (s : CrdSessionService) (w w' : World) (id : String) (from to : SessionPhase)
      (message : List ℕ) (user : String) (crd : InvestigationSession)
      → phase_attempt e s (crd_name_of s id) to (truncate_message message) (w, other "")
        ≡ ((w', from), some (api conflict))
      → read_crd e s w' (crd_name_of s id) ≡ ok crd
      → crd.status.phase ≡ to
      → ((update_phase e s w id to message user).2 ≢ none)
        × ((update_phase e s w id to message user).1 ≡ s)
  unfolding update_phase truncate_message
  update_phase_label_conflict s w w' id from to message user crd first reread moved =
      let fn = phase_attempt e s (crd_name_of s id) to (truncate_message message) in
      let (x, second) =
        phase_attempt_moved e s (crd_name_of s id) to (truncate_message message) w' from crd reread
          moved in
      let failed =
        Iterates-stuck fn (api conflict) (transition x) refl (law fn (w, other "")) first second in
      elim (Option-cases (retry_on_conflict fn (w, other "")).1) [
        | inl k ↦ absurd (failed k)
        | inr (y, k) ↦ (rw (k, update_phase) (λ z. cc), rw (k, update_phase))
      ]
