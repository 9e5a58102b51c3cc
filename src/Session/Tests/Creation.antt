-- ===== src/Session/Tests/Creation.antt =====
-- Creation and the other calls of internal/session, and the theorems about them applied.
use kubernaut_apifrontend.Common.{
  ℕ, ◌≡◌, ◌⊎◌, Option, none, some, List, [], ◌∷◌, codes, ◌↔◌, ◌++◌, zero, suc,
}
use kubernaut_apifrontend.Session.Phase.{active, disconnected, failed, validate_transition}
use kubernaut_apifrontend.Session.Phase.Graph.{Documented, validate_transition-iff-Documented}
use kubernaut_apifrontend.Session.Crd.{CreateRequest, absent, CreateConfig, start}
use kubernaut_apifrontend.Session.Labels.{sanitize_label_value}
use kubernaut_apifrontend.Session.Labels.Valid.{IsLabelValue, sanitize_label_value-IsLabelValue}
use kubernaut_apifrontend.Session.Trimming.{Event, Response, value, trim_event_function_responses}
use kubernaut_apifrontend.Session.Trimming.Size.{EventFits, trim_event-EventFits}
use kubernaut_apifrontend.Session.Decorator.{CreateContext, Identity}
use kubernaut_apifrontend.Session.Memory.{marshal_memory, marshal_memory-MarshalLaw}

abbrev request : CreateRequest
request = record { session_id = "isess-2"; user_id = "kim"; create_config = absent }

abbrev chosen : CreateConfig
chosen = record {
  owner_ref = "";
  task_id = "t1";
  user = record { username = "kim@example.com"; groups = [] };
  join_mode = start;
  remediation_ref = record { name = "rr-1"; namespace = "ns" };
}

validate_transition-iff-Documented_example :
    (validate_transition active disconnected ≡ none)
    ↔ (Documented active disconnected ⊎ ((active ≡ disconnected) × (disconnected ≡ failed)))
validate_transition-iff-Documented_example = validate_transition-iff-Documented active disconnected

sanitize_label_value-IsLabelValue_example :
    IsLabelValue (sanitize_label_value (codes "_kim@example.com"))
sanitize_label_value-IsLabelValue_example =
    sanitize_label_value-IsLabelValue (codes "_kim@example.com")

-- A text of twice as many characters for each step.
unfoldable doubled : ℕ → List ℕ
doubled zero = b'a' ∷ []
doubled (suc n) = doubled n ++ doubled n

abbrev answer : Response (List ℕ) → Event (List ℕ)
answer r = record {
  content =
      some
        (some (record { text = ""; function_call = none; function_response = some (some r) }) ∷ []);
}

trim_event-EventFits_example :
    EventFits marshal_memory
      (trim_event_function_responses marshal_memory (some (answer (value (doubled 13)))))
trim_event-EventFits_example =
    trim_event-EventFits marshal_memory marshal_memory-MarshalLaw
      (some (answer (value (doubled 13))))

abbrev sc : CreateContext
sc = record { task_id = "t1"; remediation_ref = record { name = ""; namespace = "" } }

abbrev nobody : Option Identity
nobody = none
