-- ===== src/Tools/Create.antt =====
-- af_check_existing_rr and af_create_rr: internal/tools/af_check_existing_rr.go, af_create_rr.go. The
-- Kubernetes client, the triager and SHA-256 are outside. The calls of one fingerprint that come
-- while another runs share its result (golang.org/x/sync/singleflight): `flight` is one run.
pub mod Severity
pub mod Flight
pub mod Unique
pub mod Naming
pub mod Repeat
use kubernaut_apifrontend.Common.{
  ℕ, zero, suc, ◌+◌, ◌/◌, ◌%◌, String, Bool, true, false, Option, none, some, List, [], ◌∷◌, ◌++◌,
  map, ◌&&◌, ◌||◌, not, ltb, if◌then◌else◌, str_eq, codes, truncate,
}
use Prim.Native.String
use kubernaut_apifrontend.Validate.{valid_namespace, valid_kind, is_blank}
use kubernaut_apifrontend.Tools.Errors.{
  KubeError, ToolError, k8s_unavailable, invalid_input, triage_failed, Result, ok, err, Fetched,
  got, refused, to_user_friendly_error, is_terminal_phase, rr_id_of,
}
use kubernaut_apifrontend.Tools.Remediation.{RemediationRequest, RrApi, to_lower}

pub record CheckExistingRrArgs : Type 0 where
  pub namespace : String
  pub kind : String
  pub name : String

pub record CheckExistingRrResult : Type 0 where
  pub exists : Bool
  pub rr_id : String
  pub phase : String

pub record CreateRrArgs : Type 0 where
  pub namespace : String
  pub kind : String
  pub name : String
  pub severity : String
  pub description : List ℕ

pub record CreateRrResult : Type 0 where
  pub rr_id : String
  pub already_exists : Bool
  pub severity : String
  pub severity_source : String

pub record TriageInput : Type 0 where
  pub namespace : String
  pub kind : String
  pub name : String
  pub description : List ℕ

pub record TriageResult : Type 0 where
  pub severity : String
  pub source : String
  pub alert_name : String
  pub rule_name : String

pub record SignalLabels : Type 0 where
  pub severity_source : String
  pub severity_alert_name : Option String
  pub severity_rule_name : Option String

-- The object that is created. Its signalName is "af-manual-<kind>-<name>", its signalType "alert",
-- its targetType "kubernetes" and the target's namespace its own; both times are `received`.
pub record NewRemediationRequest : Type 0 where
  pub namespace : String
  pub name : List ℕ
  pub signal_fingerprint : String
  pub severity : String
  pub received : ℕ
  pub target_kind : String
  pub target_name : String
  pub signal_labels : Option SignalLabels

-- The rest of the client, the triage and the hash. `millis` is time.Now().UnixMilli().
pub record CreateApi (api : RrApi) : Type 0 where
  pub millis : api.World → ℕ
  pub create_rr :
      api.World → String → NewRemediationRequest → api.World × Fetched RemediationRequest
  pub triage : api.World → TriageInput → api.World × Option TriageResult
  pub sha256_hex : String → String

abbrev pub max_description_len : ℕ
max_description_len = 2048

abbrev pub max_rr_name_len : ℕ
max_rr_name_len = 63

unfoldable pub is_valid_severity : String → Bool
is_valid_severity s =
    str_eq s "critical"
    || (str_eq s "high" || (str_eq s "medium" || (str_eq s "low" || str_eq s "info")))

-- The first live request with the fingerprint.
unfoldable pub find_live : String → List RemediationRequest → Option RemediationRequest
unfolding is_terminal_phase
find_live fingerprint [] = none
find_live fingerprint (item ∷ more) =
    let rest = find_live fingerprint more in
    if str_eq item.signal_fingerprint fingerprint
    then (if is_terminal_phase item.overall_phase then rest else some item)
    else rest

-- `%d`, in at most `digits` digits.
unfoldable pub decimal : ℕ → ℕ → List ℕ → List ℕ
decimal zero n out = out
decimal (suc digits) n out =
    let rest = decimal digits (n / 10) ((b'0' + n % 10) ∷ out) in
    if ltb n 10 then (b'0' + n) ∷ out else rest

-- An int64 has at most 19 digits.
abbrev pub int64_digits : ℕ
int64_digits = 19

-- The bytes of the name, for a kind and a name in ASCII.
unfoldable pub long_rr_name : String → String → ℕ → List ℕ
unfolding to_lower decimal
long_rr_name kind name millis =
    codes "rr-"
    ++ (map to_lower (codes kind)
        ++ (b'-' ∷ (map to_lower (codes name) ++ (b'-' ∷ decimal int64_digits millis []))))

unfoldable pub rr_name : String → String → ℕ → List ℕ
unfolding long_rr_name
rr_name kind name millis = truncate max_rr_name_len (long_rr_name kind name millis)

if_given : String → Option String
unfolding is_blank
if_given s = if is_blank s then none else some s

unfoldable pub signal_labels_of : TriageResult → SignalLabels
unfolding if_given
signal_labels_of t = record {
  severity_source = t.source;
  severity_alert_name = if_given t.alert_name;
  severity_rule_name = if_given t.rule_name;
}

-- The severity that is set after the triage, and the triage result where it is used.
unfoldable pub severity_of : String → Option TriageResult → String × Option TriageResult
unfolding is_blank
severity_of given (some t) =
    if is_blank t.severity
    then (if is_blank given then ("medium", none) else (given, none))
    else (t.severity, some t)
severity_of given none = if is_blank given then ("medium", none) else (given, none)

unfoldable pub checked_existing : Option RemediationRequest → CheckExistingRrResult
checked_existing none = record { exists = false; rr_id = ""; phase = "" }
checked_existing (some item) = record {
  exists = true;
  rr_id = rr_id_of item.namespace item.name;
  phase = item.overall_phase;
}

unfoldable pub created_result :
    CreateRrArgs → Option TriageResult → RemediationRequest → CreateRrResult
created_result args none created = record {
  rr_id = rr_id_of created.namespace created.name;
  already_exists = false;
  severity = args.severity;
  severity_source = "";
}
created_result args (some t) created = record {
  rr_id = rr_id_of created.namespace created.name;
  already_exists = false;
  severity = t.severity;
  severity_source = t.source;
}

unfoldable pub existing_result : CheckExistingRrResult → CreateRrResult
existing_result found = record {
  rr_id = found.rr_id;
  already_exists = true;
  severity = "";
  severity_source = "";
}

module _ {api : RrApi} (c : CreateApi api) where
  open api use {World, rules, now, list_rr}
  open c use {millis, create_rr, triage, sha256_hex}

  unfoldable pub rr_fingerprint : String → String → String → String
  rr_fingerprint namespace kind name =
      sha256_hex (String.◌++◌ namespace (String.◌++◌ "/" (String.◌++◌ kind (String.◌++◌ "/" name))))

  unfoldable pub handle_check_existing_rr :
      Bool → World → CheckExistingRrArgs → World × Result CheckExistingRrResult
  unfolding valid_namespace valid_kind is_blank rr_fingerprint find_live checked_existing
  handle_check_existing_rr available w args =
      if not available
      then (w, err k8s_unavailable)
      else if not (valid_namespace rules args.namespace)
      then (w, err invalid_input)
      else if not (valid_kind args.kind)
      then (w, err invalid_input)
      else if is_blank args.name
      then (w, err invalid_input)
      else let (w', r) = list_rr w args.namespace in
        (
          w',
          elim r [
            | refused x ↦ err (to_user_friendly_error x)
            | got items ↦ ok (
                checked_existing
                  (find_live (rr_fingerprint args.namespace args.kind args.name) items))
          ],
        )

  unfoldable pub new_rr : World → CreateRrArgs → Option TriageResult → NewRemediationRequest
  unfolding rr_fingerprint rr_name signal_labels_of
  new_rr w args t = record {
    namespace = args.namespace;
    name = rr_name args.kind args.name (millis w);
    signal_fingerprint = rr_fingerprint args.namespace args.kind args.name;
    severity = args.severity;
    received = now w;
    target_kind = args.kind;
    target_name = args.name;
    signal_labels = elim t [ none ↦ none | some x ↦ some (signal_labels_of x) ];
  }

  -- The creation, once nothing live was found.
  unfoldable pub create_new :
      World → CreateRrArgs → Option TriageResult → World × Result CreateRrResult
  unfolding new_rr created_result
  create_new w args t =
      let (w', r) = create_rr w args.namespace (new_rr w args t) in
      (
        w',
        elim r [
          | refused x ↦ err (to_user_friendly_error x)
          | got created ↦ ok (created_result args t created)
        ],
      )

  -- The function that singleflight runs.
  unfoldable pub flight : World → CreateRrArgs → Option TriageResult → World × Result CreateRrResult
  unfolding handle_check_existing_rr create_new existing_result
  flight w args t =
      let (w', r) =
        handle_check_existing_rr true w
          (record { namespace = args.namespace; kind = args.kind; name = args.name }) in
      elim r [
        | err x ↦ (w', err x)
        | ok found ↦ elim found.exists [
          | true ↦ (w', ok (existing_result found))
          | false ↦ create_new w' args t
        ]
      ]

  -- The request once its arguments were checked and its description cut.
  unfoldable pub triage_and_create : Bool → World → CreateRrArgs → World × Result CreateRrResult
  unfolding severity_of is_blank flight
  triage_and_create has_triager w args = elim (is_blank args.severity && has_triager) [
    | false ↦ flight w (record args { severity = (severity_of args.severity none).0 }) none
    | true ↦
        let (w', r) = triage w (record {
          namespace = args.namespace;
          kind = args.kind;
          name = args.name;
          description = args.description;
        }) in
        elim r [
          | none ↦ (w', err triage_failed)
          | some t ↦
              let (s, used) = severity_of args.severity (some t) in
              flight w' (record args { severity = s }) used
        ]
  ]

  unfoldable pub handle_create_rr :
      Bool → Bool → World → CreateRrArgs → World × Result CreateRrResult
  unfolding valid_namespace is_blank is_valid_severity triage_and_create
  handle_create_rr available has_triager w args =
      if not available
      then (w, err k8s_unavailable)
      else if not (valid_namespace rules args.namespace)
      then (w, err invalid_input)
      else if is_blank args.kind
      then (w, err invalid_input)
      else if is_blank args.name
      then (w, err invalid_input)
      else if not (is_blank args.severity) && not (is_valid_severity args.severity)
      then (w, err invalid_input)
      else triage_and_create has_triager w
          (record args { description = truncate max_description_len args.description })
