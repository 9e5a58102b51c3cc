-- ===== src/Session/Service/Commit.antt =====
-- The bookkeeping of a phase change (internal/session/statemachine.go): the session index, the
-- gauge and the audit log.
use kubernaut_apifrontend.Common.{
  String, Option, true, inl, inr, ◌⊎◌, ◌∙◌, refl, Bool-cases, ◌≡◌, ◌≢◌, ◌&&◌, none, some, List, [],
  ◌∷◌, arith, if◌then◌else◌, str_eq,
}
use kubernaut_apifrontend.Common.Dict.{lookup, lookup-delete}
use kubernaut_apifrontend.Common.Int.{ℤ, pos, ◌+ℤ◌, ◌-ℤ◌}
use kubernaut_apifrontend.Session.Phase.{
  SessionPhase, completed, cancelled, failed, phase_eq, phase_eq_iff, phase_string, is_terminal,
}
use kubernaut_apifrontend.Session.Phase.Graph.{Edge, Edge-ne}
use kubernaut_apifrontend.Session.Service.{
  CrdSessionService, AuditEvent, Gauge, session_phase_changed, commit_phase,
}

-- A session is dropped from the index exactly when its phase becomes terminal; no other
-- session's entry changes.
pub commit_phase-index :
    (s : CrdSessionService) (id j user : String) (from to : SessionPhase)
    → lookup j (commit_phase s id from to user).crd_index
      ≡ (if is_terminal to && str_eq id j then none else lookup j s.crd_index)
unfolding commit_phase
commit_phase-index s id j user from to = ground (arith, lookup-delete id j s.crd_index)

moved : SessionPhase → SessionPhase → Gauge → Gauge
unfolding phase_eq
moved from to g q =
    let left = if phase_eq from q then g q -ℤ pos 1 else g q in
    if phase_eq to q then left +ℤ pos 1 else left

moved_lem :
    (from to q : SessionPhase) (g : Gauge)
    → from ≢ to
    → moved from to g q
      ≡ (if phase_eq q from then g q -ℤ pos 1 else (if phase_eq q to then g q +ℤ pos 1 else g q))
unfolding moved
moved_lem from to q g n =
    ground (arith, phase_eq_iff from q, phase_eq_iff to q, phase_eq_iff q from, phase_eq_iff q to)

-- Along an edge one session moves from the old phase to the new one in the gauge too: the old
-- phase counts one less, the new one counts one more, and every other phase counts the same.
pub commit_phase-gauge :
    (s : CrdSessionService) (id user : String) (from to q : SessionPhase) (g : Gauge)
    → s.sessions_active ≡ some g
    → Edge from to
    → (g' : Gauge) × ((commit_phase s id from to user).sessions_active ≡ some g')
      × (g' q ≡ (
          if phase_eq q from then g q -ℤ pos 1 else (if phase_eq q to then g q +ℤ pos 1 else g q)))
unfolding commit_phase
commit_phase-gauge s id user from to q g h e =
    (moved from to g, unfold moved in ground arith, moved_lem from to q g (Edge-ne e))

-- One audit event is emitted, which names the session and both phases.
pub commit_phase-audit :
    (s : CrdSessionService) (id user : String) (from to : SessionPhase) (events : List AuditEvent)
    → s.auditor ≡ some events
    → (commit_phase s id from to user).auditor
      ≡ some (
          record {
            type = session_phase_changed;
            user_id = user;
            detail =
                ("session_id", id) ∷ ("from", phase_string from) ∷ ("to", phase_string to) ∷ [];
          }
          ∷ events)
unfolding commit_phase
commit_phase-audit s id user from to events h = ground arith

-- One event more, where events are kept.
abbrev pub Audited : Option (List AuditEvent) → AuditEvent → Option (List AuditEvent) → Type 0
Audited none event after = after ≡ none
Audited (some events) event after = after ≡ some (event ∷ events)

-- One session less in the old phase and one more in the new one, where there is a gauge.
abbrev pub Counted : SessionPhase → SessionPhase → Option Gauge → Option Gauge → Type 0
Counted from to none after = after ≡ none
Counted from to (some g) after =
    (g' : Gauge) × (after ≡ some g')
    × (g' from ≡ g from -ℤ pos 1)
    × (g' to ≡ g to +ℤ pos 1)
    × ((q : SessionPhase) → (q ≡ from) ⊎ ((q ≡ to) ⊎ (g' q ≡ g q)))

abbrev pub IsOver : SessionPhase → Type 0
IsOver p = (p ≡ completed) ⊎ ((p ≡ cancelled) ⊎ (p ≡ failed))

-- The effects of a phase change on the service.
pub record Committed (s : CrdSessionService) (id : String) (from to : SessionPhase) (user : String)
    (after : CrdSessionService) : Type 0 where
  pub audited :
      Audited s.auditor
        (record {
          type = session_phase_changed;
          user_id = user;
          detail = ("session_id", id) ∷ ("from", phase_string from) ∷ ("to", phase_string to) ∷ [];
        })
        after.auditor
  pub counted : Counted from to s.sessions_active after.sessions_active
  pub index :
      (IsOver to
        × ((j : String)
            → lookup j after.crd_index ≡ (if str_eq id j then none else lookup j s.crd_index)))
      ⊎ ((IsOver to → ⊥) × (after.crd_index ≡ s.crd_index))

commit_phase-Audited :
    (s : CrdSessionService) (id user : String) (from to : SessionPhase)
    (a : Option (List AuditEvent))
    → s.auditor ≡ a
    → Audited a
        (record {
          type = session_phase_changed;
          user_id = user;
          detail = ("session_id", id) ∷ ("from", phase_string from) ∷ ("to", phase_string to) ∷ [];
        })
        (commit_phase s id from to user).auditor
unfolding commit_phase
commit_phase-Audited s id user from to none h = ground arith
commit_phase-Audited s id user from to (some events) h =
    commit_phase-audit s id user from to events h

commit_phase-Counted :
    (s : CrdSessionService) (id user : String) (from to : SessionPhase) (a : Option Gauge)
    → s.sessions_active ≡ a
    → Edge from to
    → Counted from to a (commit_phase s id from to user).sessions_active
unfolding commit_phase
commit_phase-Counted s id user from to none h edge = ground arith
commit_phase-Counted s id user from to (some g) h edge =
    let apart = Edge-ne edge in
    let at : (q : SessionPhase)
        → moved from to g q ≡ (
            if phase_eq q from
            then g q -ℤ pos 1
            else (if phase_eq q to then g q +ℤ pos 1 else g q)) =
      λ q. moved_lem from to q g apart in
    (
      moved from to g,
      unfold moved in ground arith,
      at from ∙ ground (arith, phase_eq_iff from from),
      at to ∙ ground (arith, apart, phase_eq_iff to from, phase_eq_iff to to),
      (λ q. elsewhere from to q (moved from to g q) g (at q)),
    )
  where
    elsewhere :
        (from to q : SessionPhase) (n : ℤ) (g : Gauge)
        → n ≡ (
            if phase_eq q from then g q -ℤ pos 1 else (if phase_eq q to then g q +ℤ pos 1 else g q))
        → (q ≡ from) ⊎ ((q ≡ to) ⊎ (n ≡ g q))
    elsewhere from to q n g e = ground (arith, phase_eq_iff q from, phase_eq_iff q to)

is_terminal-IsOver : (p : SessionPhase) → is_terminal p ≡ true → IsOver p
unfolding is_terminal
is_terminal-IsOver completed h = inl refl
is_terminal-IsOver cancelled h = inr (inl refl)
is_terminal-IsOver failed h = inr (inr refl)
is_terminal-IsOver _ h = cc

IsOver-is_terminal : (p : SessionPhase) → IsOver p → is_terminal p ≡ true
unfolding is_terminal
IsOver-is_terminal p (inl h) = rw h refl
IsOver-is_terminal p (inr (inl h)) = rw h refl
IsOver-is_terminal p (inr (inr h)) = rw h refl

pub commit_phase-Committed :
    (s : CrdSessionService) (id user : String) (from to : SessionPhase)
    → Edge from to
    → Committed s id from to user (commit_phase s id from to user)
unfolding commit_phase
commit_phase-Committed s id user from to edge = record {
  audited = commit_phase-Audited s id user from to s.auditor refl;
  counted = commit_phase-Counted s id user from to s.sessions_active refl edge;
  index = elim (Bool-cases (is_terminal to)) [
    | inl over ↦ inl (
      is_terminal-IsOver to over,
      (λ j. ground (arith, over, commit_phase-index s id j user from to)),
    )
    | inr live ↦ inr ((λ o. absurd (let z = IsOver-is_terminal to o in cc)), ground (arith, live))
  ];
}
