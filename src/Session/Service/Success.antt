-- ===== src/Session/Service/Success.antt =====
-- When UpdatePhase (internal/session/statemachine.go) reports success, and what it then records.
use kubernaut_apifrontend.Common.{
  ℕ, String, ◌≤◌, ◌≡◌, sym, ap, subst, arith, Option, none, some, List, length, ◌⊎◌, inl, inr,
  length-truncate-le, Option-cases, ◌∙◌,
}
use kubernaut_apifrontend.Session.Phase.{SessionPhase, other, validate_transition}
use kubernaut_apifrontend.Session.Phase.Graph.{Edge, validate_transition-iff-Edge}
use kubernaut_apifrontend.Session.Crd.{
  InvestigationSession, InvestigationSessionStatus, Env, ok, Err, Iterates, stop, again, RetryLaw,
  ApiResult-cases,
}
use kubernaut_apifrontend.Session.Service.{
  CrdSessionService, read_crd, crd_name_of, change_phase, status_write, label_write, phase_attempt,
  update_phase, truncate_message, max_phase_message_len,
}
use kubernaut_apifrontend.Session.Service.Moved.{Moved, change_phase-Moved}
use kubernaut_apifrontend.Session.Service.Commit.{Committed, commit_phase-Committed}
use kubernaut_apifrontend.Session.Service.Writes.{PhaseWrites, unchanged, phase_attempt-PhaseWrites}

module _ (e : Env) (s : CrdSessionService) (name : String) (to : SessionPhase) where
  open e use {World, now, update_status}

  -- What a successful update has found: a CRD that was read after some of its writes, whose phase has
  -- an edge to the new one, and whose changed status the API server has accepted.
  pub record Found (before : World) (from : SessionPhase) : Type 0 where
    pub seen : World
    pub reached : PhaseWrites e s name to before seen
    pub crd : InvestigationSession
    pub read : read_crd e s seen name ≡ ok crd
    pub is_from : crd.status.phase ≡ from
    pub edge : Edge from to
    pub status : InvestigationSessionStatus
    pub moved : Moved (now seen) crd.status to status
    pub stored : InvestigationSession
    pub accepted : (update_status seen (record crd { status = status })).1 ≡ ok stored

  status_write_from :
      (w : World) (from : SessionPhase) (crd : InvestigationSession)
      → (status_write e s name from to w crd).0.1 ≡ from
  unfolding status_write label_write
  status_write_from w from crd = ground arith

  status_write_accepted :
      (w : World) (from : SessionPhase) (crd : InvestigationSession) (t : World × SessionPhase)
      → status_write e s name from to w crd ≡ (t, none)
      → (stored : InvestigationSession) × ((update_status w crd).1 ≡ ok stored)
  unfolding status_write
  status_write_accepted w from crd t h = elim (ApiResult-cases (update_status w crd).1) [
    | inl (stored, k) ↦ (stored, k)
    | inr (x, k) ↦ absurd (let bad = rw (k, status_write) at h in cc bad)
  ]

  phase_attempt-Found :
      (m : List ℕ) (before : World) (st t : World × SessionPhase)
      → length m ≤ max_phase_message_len
      → PhaseWrites e s name to before st.0
      → phase_attempt e s name to m st ≡ (t, none)
      → Found before t.1
  unfolding phase_attempt
  phase_attempt-Found m before (w, captured) t short ws h =
      elim (ApiResult-cases (read_crd e s w name)) [
        | inr (x, k) ↦ absurd (let bad = rw (k, phase_attempt) at h in cc bad)
        | inl (crd, k) ↦ elim (Option-cases (validate_transition crd.status.phase to)) [
          | inr (x, q) ↦
              absurd (let bad = rw (q, phase_attempt) at (rw (k, phase_attempt) at h) in cc bad)
          | inl q ↦
              let good = rw (q, phase_attempt) at (rw (k, phase_attempt) at h) in
              let edge = (validate_transition-iff-Edge crd.status.phase to).0 q in
              let same = sym (status_write_from w crd.status.phase _) ∙ ap (λ z. z.0.1) good in
              let written = status_write_accepted w crd.status.phase _ t good in
              record {
                seen = w;
                reached = ws;
                crd = crd;
                read = k;
                is_from = same;
                edge = subst (λ z. Edge z to) same edge;
                status = change_phase crd.status.phase to m (now w) crd.status;
                moved = change_phase-Moved m (now w) crd.status crd.status.phase to short q;
                stored = written.0;
                accepted = written.1;
              }
        ]
      ]

  Iterates-Found :
      (m : List ℕ) (before : World) {t : World × SessionPhase} {r : Option Err}
      {st : World × SessionPhase}
      → length m ≤ max_phase_message_len
      → PhaseWrites e s name to before st.0
      → Iterates (phase_attempt e s name to m) t r st
      → r ≡ none
      → Found before t.1
  Iterates-Found m before {t = t} {st = st} short ws (stop h) nil =
      phase_attempt-Found m before st t short ws (rw nil at h)
  Iterates-Found m before {st = st} short ws (again u x h c rest) nil =
      Iterates-Found m before short
        (subst (λ z. PhaseWrites e s name to before z.0.0) h
          (phase_attempt-PhaseWrites e s name to m before st.0 st.1 short ws))
        rest nil

module _ (e : Env) (law : RetryLaw e) where
  open e use {World, retry_on_conflict}

  -- On an error the service is as it was. UpdatePhase reports success only if the status of a CRD
  -- that it read, moved from that CRD's phase along an edge to the new one, was accepted by the API
  -- server; then, from that phase to the new one, exactly one audit event with the session, both
  -- phases and the user is added where there is an auditor, the gauge counts one session less in the
  -- old phase and one more in the new one, and the session leaves the index exactly if the new phase
  -- is terminal.
  pub update_phase_cases :
      (s : CrdSessionService) (w : World) (id : String) (to : SessionPhase) (message : List ℕ)
      (user : String)
      → let r = update_phase e s w id to message user in
        ((x : Err) × (r.2 ≡ some x) × (r.1 ≡ s))
        ⊎ ((from : SessionPhase) × (r.2 ≡ none)
            × Found e s (crd_name_of s id) to w from
            × Committed s id from to user r.1)
  unfolding update_phase truncate_message
  update_phase_cases s w id to message user =
      let fn = phase_attempt e s (crd_name_of s id) to (truncate_message message) in
      elim (Option-cases (retry_on_conflict fn (w, other "")).1) [
        | inl k ↦
            let found =
              Iterates-Found e s (crd_name_of s id) to (truncate_message message) w
                (length-truncate-le max_phase_message_len message) unchanged (law fn (w, other ""))
                k in
            inr (
              (retry_on_conflict fn (w, other "")).0.1,
              rw (k, update_phase),
              found,
              rw (k, update_phase) (commit_phase-Committed s id user _ to found.edge),
            )
        | inr (x, k) ↦ inl (x, rw (k, update_phase), rw (k, update_phase))
      ]
