-- ===== src/Session/Service/Writes.antt =====
-- What UpdatePhase (internal/session/statemachine.go) does to the stored objects, as a step
-- relation.
use kubernaut_apifrontend.Common.{
  ℕ, String, ◌≤◌, ◌≡◌, refl, subst, Option, some, List, length, length-truncate-le, inl, inr,
  Option-cases,
}
use kubernaut_apifrontend.Session.Phase.{SessionPhase, other, validate_transition}
use kubernaut_apifrontend.Session.Phase.Graph.{Edge, validate_transition-iff-Edge}
use kubernaut_apifrontend.Session.Crd.{
  InvestigationSession, InvestigationSessionStatus, Env, ok, Err, Iterates, stop, again, RetryLaw,
  ApiResult-cases,
}
use kubernaut_apifrontend.Session.Service.{
  CrdSessionService, read_crd, crd_name_of, change_phase, set_phase_label, label_write,
  status_write, phase_attempt, update_phase, truncate_message, max_phase_message_len,
}
use kubernaut_apifrontend.Session.Service.Moved.{Moved, change_phase-Moved}

module _ (e : Env) (s : CrdSessionService) (name : String) (to : SessionPhase) where
  open e use {World, now, update_status, update_object, retry_on_conflict}

  -- One write: the status of a CRD that was just read, moved along an edge of the state machine,
  -- or the phase label of a CRD that was just read.
  pub data PhaseWrite (w w' : World) : Type 0 where
    status_step :
        (crd : InvestigationSession) (status : InvestigationSessionStatus)
        → read_crd e s w name ≡ ok crd
        → Edge crd.status.phase to
        → Moved (now w) crd.status to status
        → w' ≡ (update_status w (record crd { status = status })).0
        → PhaseWrite w w'
    label_step :
        (crd labelled : InvestigationSession)
        → read_crd e s w name ≡ ok crd
        → set_phase_label to crd ≡ some labelled
        → w' ≡ (update_object w labelled).0
        → PhaseWrite w w'

  pub data PhaseWrites (w : World) : World → Type 0 where
    unchanged : PhaseWrites w w
    and_then : {u v : World} → PhaseWrites w u → PhaseWrite u v → PhaseWrites w v

  label_write_world :
      (w : World) (from : SessionPhase) (crd labelled : InvestigationSession)
      → set_phase_label to crd ≡ some labelled
      → (label_write e from to w crd).0.0 ≡ (update_object w labelled).0
  unfolding label_write
  label_write_world w from crd labelled h = elim (ApiResult-cases (update_object w labelled).1) [
    | inl (_, k) ↦ rw (h, label_write) (rw (k, label_write))
    | inr (_, k) ↦ rw (h, label_write) (rw (k, label_write))
  ]

  label_write-PhaseWrites :
      (w₀ w : World) (from : SessionPhase) (crd : InvestigationSession)
      → PhaseWrites w₀ w
      → read_crd e s w name ≡ ok crd
      → PhaseWrites w₀ (label_write e from to w crd).0.0
  unfolding label_write
  label_write-PhaseWrites w₀ w from crd ws h = elim (Option-cases (set_phase_label to crd)) [
    | inl bare ↦ rw (bare, label_write) ws
    | inr (labelled, l) ↦
        and_then ws (label_step crd labelled h l (label_write_world w from crd labelled l))
  ]

  status_write-PhaseWrites :
      (w₀ w w₁ : World) (from : SessionPhase) (crd : InvestigationSession)
      → (update_status w crd).0 ≡ w₁
      → PhaseWrites w₀ w₁
      → PhaseWrites w₀ (status_write e s name from to w crd).0.0
  unfolding status_write
  status_write-PhaseWrites w₀ w w₁ from crd eq ws = elim (ApiResult-cases (update_status w crd).1) [
    | inr (x, k) ↦ rw (k, status_write) (rw eq ws)
    | inl (_, k) ↦ elim (ApiResult-cases (read_crd e s (update_status w crd).0 name)) [
      | inr (x, q) ↦ rw (k, status_write) (rw (q, status_write) (rw eq ws))
      | inl (crd', q) ↦
          rw (k, status_write)
            (rw (q, status_write)
              (label_write-PhaseWrites w₀ (update_status w crd).0 from crd' (rw eq ws) q))
    ]
  ]

  pub phase_attempt-PhaseWrites :
      (m : List ℕ) (w₀ w : World) (captured : SessionPhase)
      → length m ≤ max_phase_message_len
      → PhaseWrites w₀ w
      → PhaseWrites w₀ (phase_attempt e s name to m (w, captured)).0.0
  unfolding phase_attempt
  phase_attempt-PhaseWrites m w₀ w captured short ws =
      elim (ApiResult-cases (read_crd e s w name)) [
        | inr (x, k) ↦ rw (k, phase_attempt) ws
        | inl (crd, k) ↦ elim (Option-cases (validate_transition crd.status.phase to)) [
          | inr (x, q) ↦ rw (k, phase_attempt) (rw (q, phase_attempt) ws)
          | inl q ↦
              rw (k, phase_attempt)
                (rw (q, phase_attempt)
                  (status_write-PhaseWrites w₀ w _ crd.status.phase _ refl
                    (and_then ws (moved_step w crd k ((validate_transition-iff-Edge _ _).0 q)))))
        ]
      ]
    where
      moved_step :
          (v : World) (crd : InvestigationSession)
          → read_crd e s v name ≡ ok crd
          → Edge crd.status.phase to
          → PhaseWrite v
              (update_status v
                (record crd { status = change_phase crd.status.phase to m (now v) crd.status })).0
      moved_step v crd k edge =
          status_step crd _ k edge
            (change_phase-Moved m (now v) crd.status crd.status.phase to short
              ((validate_transition-iff-Edge _ _).1 edge))
            refl

  Iterates-PhaseWrites :
      (m : List ℕ) (w₀ : World) {t : World × SessionPhase} {r : Option Err}
      {st : World × SessionPhase}
      → length m ≤ max_phase_message_len
      → PhaseWrites w₀ st.0
      → Iterates (phase_attempt e s name to m) t r st
      → PhaseWrites w₀ t.0
  Iterates-PhaseWrites m w₀ {st = st} short ws (stop h) =
      subst (λ z. PhaseWrites w₀ z.0.0) h (phase_attempt-PhaseWrites m w₀ st.0 st.1 short ws)
  Iterates-PhaseWrites m w₀ {st = st} short ws (again u x h c rest) =
      Iterates-PhaseWrites m w₀ short
        (subst (λ z. PhaseWrites w₀ z.0.0) h (phase_attempt-PhaseWrites m w₀ st.0 st.1 short ws))
        rest

module _ (e : Env) (law : RetryLaw e) where
  open e use {World, retry_on_conflict}

  -- UpdatePhase changes the stored objects by the two kinds of writes alone, however often it is
  -- retried and whatever it returns: each status written is that of a CRD that was just read,
  -- moved along an edge of the state machine with the times and the connection state that go with
  -- the new phase and at most 256 bytes of message; each other write changes the phase label.
  pub update_phase-PhaseWrites :
      (s : CrdSessionService) (w : World) (id : String) (to : SessionPhase) (message : List ℕ)
      (user : String)
      → PhaseWrites e s (crd_name_of s id) to w (update_phase e s w id to message user).0
  unfolding update_phase truncate_message
  update_phase-PhaseWrites s w id to message user =
      let run =
        Iterates-PhaseWrites e s (crd_name_of s id) to (truncate_message message) w
          (length-truncate-le max_phase_message_len message) unchanged
          (law (phase_attempt e s (crd_name_of s id) to (truncate_message message))
            (w, other "")) in
      elim (Option-cases
        (retry_on_conflict (phase_attempt e s (crd_name_of s id) to (truncate_message message))
          (w, other "")).1) [
            | inl k ↦ rw (k, update_phase) run
            | inr (x, k) ↦ rw (k, update_phase) run
          ]
