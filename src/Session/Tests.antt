-- ===== src/Session/Tests.antt =====
-- Runs of internal/session on an API server in memory, and the theorems about it applied to them.
mod Creation
use kubernaut_apifrontend.Common.{
  ℕ, ◌≡◌, refl, ◌≢◌, ◌⊎◌, true, false, Option, none, some, List, [], ◌∷◌, codes, arith, ◌↔◌,
  if◌then◌else◌, str_eq, ◌&&◌, ◌<◌, ◌++◌, subst, zero, suc,
}
use kubernaut_apifrontend.Common.Dict.{insert, lookup, Dict}
use kubernaut_apifrontend.Common.Int.{pos, ◌+ℤ◌, ◌-ℤ◌}
use kubernaut_apifrontend.Session.Phase.{
  SessionPhase, active, disconnected, completed, validate_transition, is_terminal, phase_eq,
  phase_string,
}
use kubernaut_apifrontend.Session.Phase.Graph.{
  Edge, disconnect, here, validate_transition-iff-Edge, terminal_absorbs,
}
use kubernaut_apifrontend.Session.Crd.{
  InvestigationSession, InvestigationSessionStatus, Err, CreateRequest, absent, config,
  CreateConfig, start, offline, refused, unauthenticated,
}
use kubernaut_apifrontend.Session.Labels.{
  sanitize_label_value, valid_crd_name, is_alnum, is_lower_alnum, is_label_char,
}
use kubernaut_apifrontend.Session.Labels.Valid.{
  IsLabelValue, sanitize_label_value-IsLabelValue, sanitize_label_value_fixed,
}
use kubernaut_apifrontend.Session.Trimming.{Event, Response, value, trim_event_function_responses}
use kubernaut_apifrontend.Session.Trimming.Size.{
  PartFits, EventFits, trim_event-EventFits, trim_event_fixed,
}
use kubernaut_apifrontend.Common.All.{All}
use kubernaut_apifrontend.Session.Service.{
  change_phase, set_phase_label, CrdSessionService, Gauge, phase_attempt, commit_phase, crd_name_of,
  update_phase, truncate_message, read_crd, label_phase,
}
use kubernaut_apifrontend.Session.Service.Writes.{PhaseWrites, update_phase-PhaseWrites}
use kubernaut_apifrontend.Session.Service.Commit.{Committed}
use kubernaut_apifrontend.Session.Service.Success.{Found, update_phase_cases}
use kubernaut_apifrontend.Session.Service.Unhindered.{Accepts, update_phase-succeeds}
use kubernaut_apifrontend.Session.Service.Retries.{update_phase_label_conflict}
use kubernaut_apifrontend.Session.Service.Commit.{commit_phase-index, commit_phase-gauge}
use kubernaut_apifrontend.Session.Lifecycle.{
  create, register, requested_name, requested_crd, bare_crd, deleted_phase, label_user,
  label_rr_name, label_managed_by, delete_session, prune_terminal_entries,
}
use kubernaut_apifrontend.Session.Lifecycle.Create.{Created, Refused}
use kubernaut_apifrontend.Session.Lifecycle.Books.{delete_session-register, requested_crd-labels}
use kubernaut_apifrontend.Session.Lifecycle.Prune.{kept, prune_terminal_entries-lookup}
use kubernaut_apifrontend.Session.Reinvoke.{needs_reinvocation, has_tool_call, max_reinvocations}
use kubernaut_apifrontend.Session.Reinvoke.Bound.{needs_reinvocation_iff}
use kubernaut_apifrontend.Session.Decorator.{
  CreateContext, Identity, create_config_of, decorated_create,
}
use kubernaut_apifrontend.Session.Decorator.Authenticated.{decorated_create_cases}
use kubernaut_apifrontend.Session.Memory.{
  MemoryWorld, memory, memory-RetryLaw, memory-DeleteLaw, marshal_memory, marshal_memory-MarshalLaw,
}

-- One active session, "isess-1", that the service has in its index under the ADK session's ID.
abbrev svc : CrdSessionService
svc = record {
  namespace = "ns";
  has_api_reader = true;
  auditor = some [];
  sessions_active = some (λ _. pos 1);
  crd_index = ("adk-1", "isess-1") ∷ [];
}

abbrev live_crd : InvestigationSession
unfolding bare_crd
live_crd = record (bare_crd svc "isess-1" 5) { resource_version = 1 }

abbrev world : MemoryWorld
world = record { clock = 9; objects = ("isess-1", live_crd) ∷ []; interfere = false }

abbrev busy : MemoryWorld
busy = record world { interfere = true }

update_phase-PhaseWrites_example :
    PhaseWrites memory svc
      (crd_name_of svc "adk-1")
      disconnected
      world
      (update_phase memory svc world "adk-1" disconnected [] "kim").0
update_phase-PhaseWrites_example =
    update_phase-PhaseWrites memory memory-RetryLaw svc world "adk-1" disconnected [] "kim"

update_phase_cases_example :
    ((x : Err) × ((update_phase memory svc world "adk-1" disconnected [] "kim").2 ≡ some x)
      × ((update_phase memory svc world "adk-1" disconnected [] "kim").1 ≡ svc))
    ⊎ ((from : SessionPhase) × ((update_phase memory svc world "adk-1" disconnected [] "kim").2
          ≡ none)
        × Found memory svc (crd_name_of svc "adk-1") disconnected world from
        × Committed svc "adk-1" from disconnected "kim"
            (update_phase memory svc world "adk-1" disconnected [] "kim").1)
update_phase_cases_example =
    update_phase_cases memory memory-RetryLaw svc world "adk-1" disconnected [] "kim"

abbrev written : InvestigationSession
unfolding bare_crd
written = record live_crd {
  resource_version = 2;
  status = record live_crd.status {
    phase = disconnected;
    disconnected_at = some 9;
    connection_state = offline;
  };
}

abbrev half_done : MemoryWorld
half_done = record world { objects = ("isess-1", written) ∷ [] }

abbrev renamed : InvestigationSession
unfolding bare_crd insert
renamed = record written {
  labels = some (
      insert label_phase (codes "Disconnected") (
        ("apifrontend.kubernaut.ai/phase", codes "Active")
        ∷ (label_managed_by, codes "kubernaut-apifrontend")
        ∷ []));
}

abbrev moved_on : MemoryWorld
moved_on = record world { objects = ("isess-1", record renamed { resource_version = 3 }) ∷ [] }

accepting :
    (status : InvestigationSessionStatus)
    → Accepts memory svc "isess-1" disconnected world live_crd status
unfolding lookup insert bare_crd read_crd crd_name_of
accepting status = record {
  answered = record live_crd { status = status; resource_version = 2 };
  written = refl;
  reread = record live_crd { status = status; resource_version = 2 };
  read_again = refl;
  labels =
      ("apifrontend.kubernaut.ai/phase", codes "Active")
      ∷ (label_managed_by, codes "kubernaut-apifrontend")
      ∷ [];
  labelled = refl;
  relabelled = λ new. (_, refl);
}

update_phase-succeeds_example :
    ((update_phase memory svc world "adk-1" disconnected [] "kim").2 ≡ none)
    × Committed svc "adk-1" active disconnected "kim"
        (update_phase memory svc world "adk-1" disconnected [] "kim").1
unfolding lookup bare_crd read_crd crd_name_of
update_phase-succeeds_example =
    update_phase-succeeds memory memory-RetryLaw svc world "adk-1" disconnected [] "kim" live_crd
      refl disconnect accepting

update_phase_label_conflict_example :
    ((update_phase memory svc busy "adk-1" disconnected [] "kim").2 ≢ none)
    × ((update_phase memory svc busy "adk-1" disconnected [] "kim").1 ≡ svc)
unfolding phase_attempt read_crd crd_name_of truncate_message bare_crd
update_phase_label_conflict_example =
    update_phase_label_conflict memory memory-RetryLaw svc busy half_done "adk-1" active
      disconnected [] "kim" written refl refl refl
