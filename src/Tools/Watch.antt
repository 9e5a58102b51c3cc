-- ===== src/Tools/Watch.antt =====
-- HandleWatch of internal/tools/crd_tools.go. What the select of its loop receives is a list of
-- steps, which the environment chooses.
pub mod Ends
use kubernaut_apifrontend.Common.{
  ℕ, String, Bool, true, false, Option, none, some, List, [], ◌∷◌, ◌++◌, ◌||◌, not, if◌then◌else◌,
}
use kubernaut_apifrontend.Validate.{NameRules, valid_namespace, valid_resource_name}
use kubernaut_apifrontend.Tools.Errors.{
  ToolError, k8s_unavailable, invalid_input, KubeError, to_user_friendly_error, is_terminal_phase,
}

pub data EventType : Type 0 where
  added modified deleted bookmark error_event : EventType

-- A receive: of the context's end, of the closed channel, or of an event. The phase of an event is
-- `none` where its object is not unstructured; a phase that is not there is empty.
pub data Received : Type 0 where
  context_done channel_closed : Received
  event : (at : ℕ) → EventType → (phase : Option String) → Received

-- The resource and the message of an event are constant or follow from the phase.
pub record WatchEvent : Type 0 where
  pub timestamp : ℕ
  pub phase : String

pub data WatchStatus : Type 0 where
  completed cancelled : WatchStatus

pub record WatchResult : Type 0 where
  pub events : List WatchEvent
  pub status : WatchStatus

-- `evt.Type == watch.Modified || evt.Type == watch.Added`
unfoldable pub is_change : EventType → Bool
is_change modified = true
is_change added = true
is_change _ = false

-- The event that is appended, if any.
unfoldable pub reported : Received → Option WatchEvent
unfolding is_change
reported (event at kind (some phase)) =
    if is_change kind then some (record { timestamp = at; phase = phase }) else none
reported _ = none

-- One round: the status that the loop returns with, if it returns.
unfoldable pub ends_with : Received → Option WatchStatus
unfolding is_change is_terminal_phase
ends_with context_done = some cancelled
ends_with channel_closed = some completed
ends_with (event at kind none) = none
ends_with (event at kind (some phase)) =
    if is_change kind then (if is_terminal_phase phase then some completed else none) else none

unfoldable pub append_event : List WatchEvent → Option WatchEvent → List WatchEvent
append_event events none = events
append_event events (some e) = events ++ e ∷ []

-- The loop over what it receives, and `none` as long as it waits for more.
unfoldable pub watch_loop : List WatchEvent → List Received → Option WatchResult
unfolding append_event reported ends_with
watch_loop events [] = none
watch_loop events (x ∷ more) =
    let events' = append_event events (reported x) in
    let rest = watch_loop events' more in
    elim (ends_with x) [ some s ↦ some (record { events = events'; status = s }) | none ↦ rest ]

-- Waiting, an error, or the result.
pub data Watching : Type 0 where
  waiting : Watching
  failed : ToolError → Watching
  returned : WatchResult → Watching

pub data WatchCall : Type 0 where
  stream : List Received → WatchCall
  no_stream : KubeError → WatchCall

unfoldable pub watching : Option WatchResult → Watching
watching none = waiting
watching (some r) = returned r

-- `call` is the client's Watch, with what its channel and the context bring so far.
unfoldable pub handle_watch :
    NameRules → Bool → (String → String → WatchCall) → String → String → Watching
unfolding valid_namespace valid_resource_name watch_loop watching
handle_watch rules available call ns name =
    if not available
    then failed k8s_unavailable
    else if not (valid_namespace rules ns)
    then failed invalid_input
    else if not (valid_resource_name rules name)
    then failed invalid_input
    else elim (call ns name) [
      | no_stream x ↦ failed (to_user_friendly_error x)
      | stream received ↦ watching (watch_loop [] received)
    ]
