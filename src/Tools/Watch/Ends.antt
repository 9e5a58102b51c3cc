-- ===== src/Tools/Watch/Ends.antt =====
-- When HandleWatch (internal/tools/crd_tools.go) returns, and with what.
use kubernaut_apifrontend.Common.{
  ℕ, ◌≡◌, refl, ap, sym, ◌∙◌, ◌⊎◌, inl, inr, String, true, Option, none, some, List, [], ◌∷◌, ◌++◌,
  arith, Option-cases, eq_iff,
}
use kubernaut_apifrontend.Common.All.{All}
use mathlib.Core.List.{append_assoc, append-nil}
use kubernaut_apifrontend.Tools.Errors.{is_terminal_phase}
use kubernaut_apifrontend.Tools.Watch.{
  EventType, added, modified, deleted, bookmark, error_event, Received, context_done,
  channel_closed, event, WatchEvent, WatchStatus, completed, cancelled, WatchResult, is_change,
  reported, ends_with, append_event, watch_loop,
}

abbrev pub IsTerminal : String → Type 0
IsTerminal phase = (phase ≡ "Completed") ⊎ ((phase ≡ "Failed") ⊎ (phase ≡ "Cancelled"))

abbrev pub IsChange : EventType → Type 0
IsChange kind = (kind ≡ added) ⊎ (kind ≡ modified)

-- What ends a watch: the context's end, the end of the stream, and a terminal phase.
pub data Final : Received → WatchStatus → Type 0 where
  stopped : Final context_done cancelled
  closed : Final channel_closed completed
  finished :
      (at : ℕ) (kind : EventType) (phase : String)
      → IsChange kind
      → IsTerminal phase
      → Final (event at kind (some phase)) completed

pub is_terminal_phase-iff-IsTerminal :
    (phase : String)
    → ((is_terminal_phase phase ≡ true) → IsTerminal phase)
      × (IsTerminal phase → is_terminal_phase phase ≡ true)
unfolding is_terminal_phase
is_terminal_phase-iff-IsTerminal phase = (
  (λ h. ground (arith, eq_iff phase "Completed", eq_iff phase "Failed", eq_iff phase "Cancelled")),
  (λ h. ground (arith, eq_iff phase "Completed", eq_iff phase "Failed", eq_iff phase "Cancelled")),
)

-- An added or a modified object that has a phase gives an event of its time and phase; nothing else
-- that is received gives one.
abbrev pub events_of : List Received → List WatchEvent
events_of [] = []
events_of (event at added (some phase) ∷ more) =
    record { timestamp = at; phase = phase } ∷ events_of more
events_of (event at modified (some phase) ∷ more) =
    record { timestamp = at; phase = phase } ∷ events_of more
events_of (_ ∷ more) = events_of more

events_of_cons :
    (x : Received) (more : List Received)
    → events_of (x ∷ more) ≡ append_event [] (reported x) ++ events_of more
unfolding append_event reported is_change
events_of_cons context_done more = refl
events_of_cons channel_closed more = refl
events_of_cons (event at added none) more = refl
events_of_cons (event at modified none) more = refl
events_of_cons (event at deleted none) more = refl
events_of_cons (event at bookmark none) more = refl
events_of_cons (event at error_event none) more = refl
events_of_cons (event at added (some phase)) more = refl
events_of_cons (event at modified (some phase)) more = refl
events_of_cons (event at deleted (some phase)) more = refl
events_of_cons (event at bookmark (some phase)) more = refl
events_of_cons (event at error_event (some phase)) more = refl

-- The steps up to the first that ends the watch.
pub record EndsAt (received : List Received) (r : WatchResult) : Type 0 where
  pub before : List Received
  pub last : Received
  pub after : List Received
  pub splits : received ≡ before ++ last ∷ after
  pub goes_on : All (λ x. (s : WatchStatus) → Final x s → ⊥) before
  pub ends : Final last r.status
  pub events : r.events ≡ events_of (before ++ last ∷ [])

is_change-IsChange : (kind : EventType) → is_change kind ≡ true → IsChange kind
unfolding is_change
is_change-IsChange added h = inl refl
is_change-IsChange modified h = inr refl
is_change-IsChange deleted h = cc
is_change-IsChange bookmark h = cc
is_change-IsChange error_event h = cc

IsChange-is_change : (kind : EventType) → IsChange kind → is_change kind ≡ true
unfolding is_change
IsChange-is_change kind (inl h) = rw h refl
IsChange-is_change kind (inr h) = rw h refl

ends_with-Final : (x : Received) (s : WatchStatus) → ends_with x ≡ some s → Final x s
unfolding ends_with
ends_with-Final context_done s h = let p : s ≡ cancelled = cc in rw p stopped
ends_with-Final channel_closed s h = let p : s ≡ completed = cc in rw p closed
ends_with-Final (event at kind none) s h = cc
ends_with-Final (event at kind (some phase)) s h =
    let p : s ≡ completed = ground arith in
    let c : is_change kind ≡ true = ground arith in
    let t : is_terminal_phase phase ≡ true = ground arith in
    rw p (
      finished at kind phase (is_change-IsChange kind c)
        ((is_terminal_phase-iff-IsTerminal phase).0 t))

Final-ends_with : {x : Received} {s : WatchStatus} → Final x s → ends_with x ≡ some s
unfolding ends_with
Final-ends_with stopped = refl
Final-ends_with closed = refl
Final-ends_with (finished at kind phase c t) =
    rw (IsChange-is_change kind c) (rw ((is_terminal_phase-iff-IsTerminal phase).1 t) refl)

append_event-append :
    (events : List WatchEvent) (e : Option WatchEvent)
    → append_event events e ≡ events ++ append_event [] e
unfolding append_event
append_event-append events none = sym (append-nil events)
append_event-append events (some e) = refl

-- A loop that has some events already.
abbrev From : List WatchEvent → List Received → Type 0
From events received =
    ((watch_loop events received ≡ none) × All (λ x. (s : WatchStatus) → Final x s → ⊥) received)
    ⊎ ((more : List WatchEvent) × (s : WatchStatus) × (watch_loop events received
          ≡ some (record { events = events ++ more; status = s }))
        × EndsAt received (record { events = more; status = s }))

watch_loop-From : (events : List WatchEvent) (received : List Received) → From events received
unfolding watch_loop
watch_loop-From events [] = inl (refl, tt)
watch_loop-From events (x ∷ rest) = elim (Option-cases (ends_with x)) [
  | inr (s, h) ↦ inr (
    append_event [] (reported x),
    s,
    rw (h, watch_loop)
        (ap (λ es. some (record { events = es; status = s }))
          (append_event-append events (reported x))),
    record {
      before = [];
      last = x;
      after = rest;
      splits = refl;
      goes_on = tt;
      ends = ends_with-Final x s h;
      events = sym (events_of_cons x [] ∙ append-nil (append_event [] (reported x)));
    },
  )
  | inl h ↦
      let go_on : (s : WatchStatus) → Final x s → ⊥ =
        λ s f. absurd (let q = Final-ends_with f in cc) in
      elim (watch_loop-From (append_event events (reported x)) rest) [
        | inl (waits, all) ↦ inl (rw (h, watch_loop) waits, (go_on, all))
        | inr (more, s, ends, at) ↦ inr (
          append_event [] (reported x) ++ more,
          s,
          rw (h, watch_loop)
              (ends
                ∙ ap (λ es. some (record { events = es; status = s }))
                    (ap (λ es. es ++ more) (append_event-append events (reported x))
                      ∙ append_assoc events (append_event [] (reported x)) more)),
          record {
            before = x ∷ at.before;
            last = at.last;
            after = at.after;
            splits = ap (λ xs. x ∷ xs) at.splits;
            goes_on = (go_on, at.goes_on);
            ends = at.ends;
            events =
                ap (λ es. append_event [] (reported x) ++ es) at.events
                ∙ sym (events_of_cons x (at.before ++ at.last ∷ []));
          },
        )
      ]
]

-- The loop waits as long as it has received nothing that ends a watch. With the first step that ends
-- it, it returns the status of that step and the events of all steps so far, in their order: those
-- of added and modified objects. What comes later is not read.
pub watch_loop_ends :
    (received : List Received)
    → ((watch_loop [] received ≡ none) × All (λ x. (s : WatchStatus) → Final x s → ⊥) received)
      ⊎ ((r : WatchResult) × (watch_loop [] received ≡ some r) × EndsAt received r)
watch_loop_ends received = elim (watch_loop-From [] received) [
  | inl h ↦ inl h
  | inr (more, s, ends, at) ↦ inr (record { events = more; status = s }, ends, at)
]
