-- ===== src/Tools/Tests.antt =====
-- Runs of internal/tools against a cluster in memory, and the theorems applied to them.
use kubernaut_apifrontend.Common.{
  ℕ, suc, ◌*◌, ◌≤◌, ◌<◌, zero, ◌≡◌, ◌≢◌, ◌↔◌, ◌⊎◌, refl, String, true, false, none, some, List, [],
  ◌∷◌, arith, length,
}
use kubernaut_apifrontend.Common.All.{All}
use kubernaut_apifrontend.Validate.{NameRules}
use kubernaut_apifrontend.Tools.Errors.{
  Fetched, got, refused, status_error, ok, parse_rr_id, rr_id_of, trim_slice_to_fit,
  max_tool_output_bytes,
}
use kubernaut_apifrontend.Tools.Errors.Names.{HasNoSlash, parse_rr_id-iff-rr_id_of}
use kubernaut_apifrontend.Tools.Errors.Trimmed.{Longest, trim_slice_to_fit-Longest}
use kubernaut_apifrontend.Tools.Owner.{Owned, OwnerApi, ref}
use kubernaut_apifrontend.Tools.Owner.Walk.{WalkEnds, walk, resolve_loop_ends}
use kubernaut_apifrontend.Tools.Remediation.{
  RemediationRequest, RrApi, RemediationArgs, handle_cancel_remediation,
}
use kubernaut_apifrontend.Tools.Remediation.Cancelled.{Cancels, handle_cancel_remediation-Cancels}
use kubernaut_apifrontend.Tools.Watch.{
  WatchResult, WatchStatus, modified, event, context_done, watch_loop,
}
use kubernaut_apifrontend.Tools.Watch.Ends.{Final, EndsAt, watch_loop_ends}
use kubernaut_apifrontend.Tools.Poll.{KaClient, answered, handle_poll_investigation}
use kubernaut_apifrontend.Tools.Poll.Rounds.{Running, Ended, handle_poll_investigation_ends}
use kubernaut_apifrontend.Tools.Create.{
  CreateApi, CreateRrArgs, CreateRrResult, NewRemediationRequest, handle_create_rr, find_live,
  rr_name,
}
use kubernaut_apifrontend.Tools.Create.Unique.{CreatesOnce, cut, handle_create_rr-CreatesOnce}
use kubernaut_apifrontend.Tools.Create.Naming.{rr_name_timeless}

abbrev rules : NameRules
rules = record {
  is_dns1123_label = λ s. true;
  is_dns1123_subdomain = λ s. true;
  is_valid_label_value = λ s. true;
}

-- A Pod that names itself as its owner.
abbrev loop_pod : Owned
loop_pod = record {
  entry = record { kind = "Pod"; name = "web"; api_version = "v1" };
  owner_references = ref true "Pod" "web" ∷ [];
}

abbrev owners : OwnerApi
owners = record { World = ℕ; get_object = λ w gvr ns name. (suc w, got loop_pod); rules = rules }

resolve_loop_ends_example : WalkEnds owners 0 "prod" "Pod" "web" (walk owners 0 "prod" "Pod" "web")
resolve_loop_ends_example = resolve_loop_ends owners 0 "prod" "Pod" "web"

abbrev prod : String
prod = "prod"

abbrev rr_1 : String
rr_1 = "rr-1"

parse_rr_id-iff-rr_id_of_example :
    (parse_rr_id "prod/rr-1" "" "" ≡ ok (prod, rr_1))
    ↔ (("prod/rr-1" ≡ rr_id_of prod rr_1) × HasNoSlash prod × (prod ≢ "") × (rr_1 ≢ ""))
parse_rr_id-iff-rr_id_of_example = parse_rr_id-iff-rr_id_of "prod/rr-1" "" "" prod rr_1 (λ e. cc)

-- Each item takes 2000 bytes.
abbrev size_of : List ℕ → ℕ
size_of items = length items * 2000

abbrev three : List ℕ
three = 1 ∷ 2 ∷ 3 ∷ []

trim_slice_to_fit-Longest_example :
    ((size_of three ≤ max_tool_output_bytes) × (trim_slice_to_fit size_of three ≡ (three, false)))
    ⊎ ((max_tool_output_bytes < size_of three)
        × ((trim_slice_to_fit size_of three).1 ≡ true)
        × ((three ≡ []) ⊎ Longest size_of three 3 (trim_slice_to_fit size_of three).0))
trim_slice_to_fit-Longest_example = trim_slice_to_fit-Longest size_of three

-- The cluster is the list of its remediation requests.
abbrev first_or_missing : List RemediationRequest → Fetched RemediationRequest
first_or_missing [] = refused (status_error 404)
first_or_missing (x ∷ more) = got x

abbrev cluster : RrApi
cluster = record {
  World = List RemediationRequest;
  rules = rules;
  now = λ w. 0;
  list_rr = λ w ns. (w, got w);
  get_rr = λ w ns name. (w, first_or_missing w);
  patch_rr_status = λ w ns name p. (w, none);
  get_rar = λ w ns name. (w, none);
  patch_rar_status = λ w ns name p. (w, none);
}

abbrev running : RemediationRequest
running = record {
  namespace = "prod";
  name = "rr-1";
  overall_phase = "Executing";
  target_kind = "Pod";
  target_name = "web";
  signal_fingerprint = "prod/Pod/web";
}

abbrev by_id : RemediationArgs
by_id = record { namespace = ""; name = ""; rr_id = "prod/rr-1" }

handle_cancel_remediation-Cancels_example :
    Cancels cluster true
      (running ∷ [])
      by_id
      (handle_cancel_remediation cluster true (running ∷ []) by_id)
handle_cancel_remediation-Cancels_example =
    handle_cancel_remediation-Cancels cluster true (running ∷ []) by_id

watch_loop_ends_example :
    ((watch_loop [] (event 1 modified (some "Failed") ∷ context_done ∷ []) ≡ none)
      × All
          (λ x. (s : WatchStatus) → Final x s → ⊥)
          (event 1 modified (some "Failed") ∷ context_done ∷ []))
    ⊎ ((r : WatchResult) × (watch_loop [] (event 1 modified (some "Failed") ∷ context_done ∷ [])
          ≡ some r)
        × EndsAt (event 1 modified (some "Failed") ∷ context_done ∷ []) r)
watch_loop_ends_example = watch_loop_ends (event 1 modified (some "Failed") ∷ context_done ∷ [])

-- An agent that is done at the second poll.
abbrev status_at : ℕ → String
status_at zero = "running"
status_at (suc n) = "completed"

abbrev agent : KaClient
agent = record {
  World = ℕ;
  status = λ w id. (w, answered (status_at w));
  result = λ w id. (w, answered "ok");
  wait = λ w. (suc w, none);
}

handle_poll_investigation_ends_example :
    (n : ℕ) × (at : ℕ) × Running agent "s1" 0 n at
    × (n < 5)
    × Ended agent "s1" at (suc n) (suc n ≡ 5) (handle_poll_investigation agent "s1" 5 0)
handle_poll_investigation_ends_example = handle_poll_investigation_ends agent "s1" 5 0 (omega arith)

abbrev stored : NewRemediationRequest → RemediationRequest
stored new = record {
  namespace = new.namespace;
  name = "rr";
  overall_phase = "";
  target_kind = new.target_kind;
  target_name = new.target_name;
  signal_fingerprint = new.signal_fingerprint;
}

abbrev creating : CreateApi cluster
creating = record {
  millis = λ w. 1700000000000;
  create_rr = λ w ns new. (stored new ∷ w, got (stored new));
  triage = λ w input. (w, none);
  sha256_hex = λ s. s;
}

abbrev web : CreateRrArgs
web = record { namespace = "prod"; kind = "Pod"; name = "web"; severity = "high"; description = [] }

abbrev first_result : CreateRrResult
first_result = record {
  rr_id = "prod/rr";
  already_exists = false;
  severity = "high";
  severity_source = "";
}

handle_create_rr-CreatesOnce_example :
    CreatesOnce creating (cut web) (handle_create_rr creating true false [] web)
unfolding handle_create_rr find_live rr_id_of
handle_create_rr-CreatesOnce_example =
    handle_create_rr-CreatesOnce creating true false [] web first_result refl refl

rr_name_timeless_example :
    rr_name "Deployment" "a-workload-with-a-name-of-forty-nine-characters--" 1
    ≡ rr_name "Deployment" "a-workload-with-a-name-of-forty-nine-characters--" 2
rr_name_timeless_example =
    rr_name_timeless "Deployment" "a-workload-with-a-name-of-forty-nine-characters--" 1 2
      (omega arith)
