-- ===== src/Session/Phase/Graph.antt =====
-- What the state machine of internal/session/statemachine.go allows, as a relation.
use kubernaut_apifrontend.Common.{◌≡◌, ◌⊎◌, inl, inr, refl, true, none, ◌≢◌, ◌↔◌, arith}
use kubernaut_apifrontend.Session.Phase.{
  SessionPhase, active, disconnected, completed, cancelled, failed, is_terminal,
  validate_transition,
}

-- The diagram of docs/design/ARCHITECTURE.md.
pub data Documented : SessionPhase → SessionPhase → Type 0 where
  connection_drops : Documented active disconnected
  user_accepts : Documented active completed
  user_cancels : Documented active cancelled
  unrecoverable : Documented active failed
  user_reconnects : Documented disconnected active
  ttl_expires : Documented disconnected cancelled

-- The transitions of the code: those of that diagram, and from Disconnected to Failed.
pub data Edge : SessionPhase → SessionPhase → Type 0 where
  complete : Edge active completed
  cancel : Edge active cancelled
  fail : Edge active failed
  disconnect : Edge active disconnected
  reconnect : Edge disconnected active
  expire : Edge disconnected cancelled
  fail_offline : Edge disconnected failed

pub data Reach (p : SessionPhase) : SessionPhase → Type 0 where
  here : Reach p p
  next : {q r : SessionPhase} → Reach p q → Edge q r → Reach p r

ruleset edges = (complete, cancel, fail, disconnect, reconnect, expire, fail_offline)

validate_transition-of-Edge :
    (from to : SessionPhase) → Edge from to → validate_transition from to ≡ none
unfolding validate_transition
validate_transition-of-Edge from to complete = refl
validate_transition-of-Edge from to cancel = refl
validate_transition-of-Edge from to fail = refl
validate_transition-of-Edge from to disconnect = refl
validate_transition-of-Edge from to reconnect = refl
validate_transition-of-Edge from to expire = refl
validate_transition-of-Edge from to fail_offline = refl

Edge-of-validate_transition :
    (from to : SessionPhase) → validate_transition from to ≡ none → Edge from to
unfolding validate_transition
Edge-of-validate_transition active completed h = complete
Edge-of-validate_transition active cancelled h = cancel
Edge-of-validate_transition active failed h = fail
Edge-of-validate_transition active disconnected h = disconnect
Edge-of-validate_transition disconnected active h = reconnect
Edge-of-validate_transition disconnected cancelled h = expire
Edge-of-validate_transition disconnected failed h = fail_offline
Edge-of-validate_transition _ _ h = cc

pub validate_transition-iff-Edge :
    (from to : SessionPhase) → (validate_transition from to ≡ none) ↔ Edge from to
validate_transition-iff-Edge from to =
    (Edge-of-validate_transition from to, validate_transition-of-Edge from to)

Edge-iff-Documented :
    (from to : SessionPhase)
    → Edge from to ↔ (Documented from to ⊎ ((from ≡ disconnected) × (to ≡ failed)))
Edge-iff-Documented from to = (split, join)
  where
    split : {p q : SessionPhase} → Edge p q → Documented p q ⊎ ((p ≡ disconnected) × (q ≡ failed))
    split complete = inl user_accepts
    split cancel = inl user_cancels
    split fail = inl unrecoverable
    split disconnect = inl connection_drops
    split reconnect = inl user_reconnects
    split expire = inl ttl_expires
    split fail_offline = inr (refl, refl)

    join : {p q : SessionPhase} → Documented p q ⊎ ((p ≡ disconnected) × (q ≡ failed)) → Edge p q
    join (inl user_accepts) = complete
    join (inl user_cancels) = cancel
    join (inl unrecoverable) = fail
    join (inl connection_drops) = disconnect
    join (inl user_reconnects) = reconnect
    join (inl ttl_expires) = expire
    join (inr (a, b)) = rw (a, b) fail_offline

-- For any two phases, `ValidateTransition` returns nil exactly on the six transitions of the design
-- document's diagram, and on the one from Disconnected to Failed, which the diagram does not have.
pub validate_transition-iff-Documented :
    (from to : SessionPhase)
    → (validate_transition from to ≡ none)
      ↔ (Documented from to ⊎ ((from ≡ disconnected) × (to ≡ failed)))
validate_transition-iff-Documented from to =
    let a = validate_transition-iff-Edge from to in
    let b = Edge-iff-Documented from to in ((λ h. b.0 (a.0 h)), (λ d. a.1 (b.1 d)))

not-Edge-of-terminal : {p q : SessionPhase} → is_terminal p ≡ true → Edge p q → ⊥
unfolding is_terminal
not-Edge-of-terminal h complete = cc
not-Edge-of-terminal h cancel = cc
not-Edge-of-terminal h fail = cc
not-Edge-of-terminal h disconnect = cc
not-Edge-of-terminal h reconnect = cc
not-Edge-of-terminal h expire = cc
not-Edge-of-terminal h fail_offline = cc

-- A terminal phase is absorbing: any run of transitions from it ends where it began.
pub terminal_absorbs : {p q : SessionPhase} → is_terminal p ≡ true → Reach p q → q ≡ p
terminal_absorbs h here = refl
terminal_absorbs {p} h (next {q = r} w e) =
    absurd (not-Edge-of-terminal (rw (terminal_absorbs h w) h) e)

-- A transition never ends where it starts.
pub Edge-ne : {p q : SessionPhase} → Edge p q → p ≢ q
Edge-ne complete = λ e. cc
Edge-ne cancel = λ e. cc
Edge-ne fail = λ e. cc
Edge-ne disconnect = λ e. cc
Edge-ne reconnect = λ e. cc
Edge-ne expire = λ e. cc
Edge-ne fail_offline = λ e. cc

-- From a phase that has transitions at all, cancellation is one of them.
pub cancel_live :
    (p q : SessionPhase) → validate_transition p q ≡ none → validate_transition p cancelled ≡ none
unfolding validate_transition
cancel_live p q h = ground arith
