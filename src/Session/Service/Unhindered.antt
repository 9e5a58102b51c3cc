-- ===== src/Session/Service/Unhindered.antt =====
-- UpdatePhase (internal/session/statemachine.go) where the API server accepts its calls.
use kubernaut_apifrontend.Common.{
  ℕ, String, ◌≡◌, refl, sym, ap, subst, Option, none, some, List, codes, ◌∙◌,
}
use kubernaut_apifrontend.Common.Dict.{Dict, insert}
use kubernaut_apifrontend.Session.Phase.{SessionPhase, other, phase_string}
use kubernaut_apifrontend.Session.Phase.Graph.{Edge, validate_transition-iff-Edge}
use kubernaut_apifrontend.Session.Crd.{
  InvestigationSession, InvestigationSessionStatus, Env, ok, Err, Iterates, stop, again, RetryLaw,
}
use kubernaut_apifrontend.Session.Service.{
  CrdSessionService, read_crd, crd_name_of, change_phase, label_phase, set_phase_label, label_write,
  status_write, phase_attempt, commit_phase, update_phase, truncate_message,
}
use kubernaut_apifrontend.Session.Service.Commit.{Committed, commit_phase-Committed}

module _ (e : Env) (s : CrdSessionService) (name : String) (to : SessionPhase) where
  open e use {World, now, update_status, update_object}

  -- The API server accepts a status for a CRD, has then a CRD with labels to read, and accepts new
  -- labels for that one.
  pub record Accepts (w : World) (crd : InvestigationSession) (status : InvestigationSessionStatus)
      : Type 0 where
    pub answered : InvestigationSession
    pub written : (update_status w (record crd { status = status })).1 ≡ ok answered
    pub reread : InvestigationSession
    pub read_again :
        read_crd e s (update_status w (record crd { status = status })).0 name ≡ ok reread
    pub labels : Dict (List ℕ)
    pub labelled : reread.labels ≡ some labels
    pub relabelled :
        (new : Option (Dict (List ℕ)))
        → (stored : InvestigationSession) × ((update_object
              (update_status w (record crd { status = status })).0
              (record reread { labels = new })).1
            ≡ ok stored)

  phase_attempt_accepted :
      (m : List ℕ) (crd : InvestigationSession) (w : World) (captured : SessionPhase)
      → read_crd e s w name ≡ ok crd
      → Edge crd.status.phase to
      → ((status : InvestigationSessionStatus) → Accepts w crd status)
      → (w' : World) × (phase_attempt e s name to m (w, captured) ≡ ((w', crd.status.phase), none))
  unfolding phase_attempt status_write label_write set_phase_label
  phase_attempt_accepted m crd w captured read edge accepts =
      let valid = (validate_transition-iff-Edge crd.status.phase to).1 edge in
      let status = change_phase crd.status.phase to m (now w) crd.status in
      let a = accepts status in
      let new : Option (Dict (List ℕ)) =
        some (insert label_phase (codes (phase_string to)) a.labels) in
      let b = a.relabelled new in
      (
        (update_object (update_status w (record crd { status = status })).0
            (record a.reread { labels = new })).0,
        simp
            (
              read, valid, a.written, a.read_again, a.labelled, b.1, phase_attempt, status_write,
              label_write, set_phase_label,
            )
            refl,
      )

-- A first run without an error is the only one.
Iterates-at_once :
    {S : Type 0} (fn : S → S × Option Err) {t : S} {r : Option Err} {s u : S}
    → Iterates fn t r s
    → fn s ≡ (u, none)
    → (t ≡ u) × (r ≡ none)
Iterates-at_once fn (stop h) a = (ap (λ z. z.0) (sym h ∙ a), ap (λ z. z.1) (sym h ∙ a))
Iterates-at_once fn (again u' x h c rest) a =
    absurd (let q : none ≡ some x = ap (λ z. z.1) (sym a ∙ h) in cc)

module _ (e : Env) (law : RetryLaw e) where
  open e use {World, retry_on_conflict}

  -- UpdatePhase succeeds, and records the transition, wherever it can: if the CRD can be read, its
  -- phase has an edge to the new one, and the API server accepts any status for it, then has a CRD
  -- with labels to read, and accepts any labels for that one.
  pub update_phase-succeeds :
      (s : CrdSessionService) (w : World) (id : String) (to : SessionPhase) (message : List ℕ)
      (user : String) (crd : InvestigationSession)
      → read_crd e s w (crd_name_of s id) ≡ ok crd
      → Edge crd.status.phase to
      → ((status : InvestigationSessionStatus) → Accepts e s (crd_name_of s id) to w crd status)
      → ((update_phase e s w id to message user).2 ≡ none)
        × Committed s id crd.status.phase to user (update_phase e s w id to message user).1
  unfolding update_phase truncate_message
  update_phase-succeeds s w id to message user crd read edge accepts =
      let fn = phase_attempt e s (crd_name_of s id) to (truncate_message message) in
      let (w', first) =
        phase_attempt_accepted e s (crd_name_of s id) to (truncate_message message) crd w (other "")
          read edge accepts in
      let (state, result) = Iterates-at_once fn (law fn (w, other "")) first in
      let q : update_phase e s w id to message user
          ≡ (w', commit_phase s id crd.status.phase to user, none) =
        ap finish (λ i. (state i, result i)) in
      subst (λ z. (z.2 ≡ none) × Committed s id crd.status.phase to user z.1) (sym q)
        (refl, commit_phase-Committed s id user crd.status.phase to edge)
    where
      finish : (World × SessionPhase) × Option Err → World × CrdSessionService × Option Err
      finish ((v, from), r) = elim r [
        | some x ↦ (v, s, some x)
        | none ↦ (v, commit_phase s id from to user, none)
      ]
