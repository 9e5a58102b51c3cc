-- ===== src/Severity/Tests.antt =====
-- Runs of internal/severity against a fixed Prometheus and LLM, and the theorems applied to them.
use kubernaut_apifrontend.Common.{ℕ, suc, String, true, none, some, List, [], ◌∷◌, ltb}
use kubernaut_apifrontend.Common.Dict.{Dict}
use kubernaut_apifrontend.Common.Int.{pos}
use kubernaut_apifrontend.Severity.Rank.{TriageInput, Alert, Rule}
use kubernaut_apifrontend.Severity.Tiers.{TriageEnv, Config, RulesCache, run_tier2}
use kubernaut_apifrontend.Severity.Tiers.Limits.{Bounded, run_tier2-Bounded}

abbrev web : Dict String
web = ("namespace", "shop") ∷ ("app", "web") ∷ []

abbrev alerts : List Alert
alerts =
    record {
      labels = ("severity", "high") ∷ ("alertname", "Slow") ∷ ("app", "web") ∷ [];
      state = "firing";
    }
    ∷ record {
      labels = ("severity", "critical") ∷ ("alertname", "Down") ∷ ("app", "web") ∷ [];
      state = "firing";
    }
    ∷ []

abbrev rule : String → String → Rule
rule name state = record {
  name = name;
  query = name;
  labels = ("severity", "low") ∷ [];
  state = state;
}

abbrev groups : List (List Rule)
groups = (rule "r1" "inactive" ∷ rule "r2" "pending" ∷ []) ∷ (rule "r3" "inactive" ∷ []) ∷ []

-- A matcher is a label that must be there, and time is all that changes.
abbrev fixed : TriageEnv
fixed = record {
  World = ℕ;
  now = λ w. w;
  cancelled = λ w. none;
  get_alerts = λ w. (suc w, some []);
  get_rules = λ w. (suc w, some groups);
  instant_query = λ w query. (suc w, some 0);
  Matcher = String;
  matcher_name = λ m. m;
  matches = λ m v. true;
  extract_label_matchers = λ query. some ("app" ∷ []);
  Confidence = ℕ;
  zero_confidence = 0;
  lt = ltb;
  triage_with_rules = λ w rules input. (suc w, none);
  triage_pure = λ w input. (suc w, none);
}

abbrev config : Config ℕ
config = record {
  enabled = true;
  max_queries_per_call = pos 1;
  max_rules_evaluated = pos 2;
  llm_confidence = 7;
}

abbrev input : TriageInput
input = record {
  namespace = "shop";
  kind = "Deployment";
  name = "web";
  description = "";
  labels = web;
}

run_tier2-Bounded_example : Bounded fixed config web 3 (run_tier2 fixed config 3 input groups)
run_tier2-Bounded_example = run_tier2-Bounded fixed config 3 input groups

abbrev filled : RulesCache
filled = record { groups = some groups; expire_at = pos 34; ttl = pos 30 }

abbrev app : List String
app = "app" ∷ []
