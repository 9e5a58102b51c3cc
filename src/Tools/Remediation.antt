-- ===== src/Tools/Remediation.antt =====
-- The remediation tools of internal/tools/crd_tools.go: list, get, approve and cancel. The Kubernetes
-- client is outside, as calls over a world. Times are in seconds, as RFC 3339 writes them; the
-- texts of messages are left out.
pub mod Cancelled
use kubernaut_apifrontend.Common.{
  ℕ, ◌-◌, ◌+◌, String, Bool, true, false, Option, none, some, List, [], ◌∷◌, map, ◌&&◌, not, leb,
  if◌then◌else◌, length, str_eq, codes,
}
use kubernaut_apifrontend.Validate.{NameRules, valid_namespace, valid_resource_name, is_blank}
use kubernaut_apifrontend.Tools.Errors.{
  KubeError, ToolError, k8s_unavailable, invalid_input, already_terminal, Result, ok, err, Fetched,
  got, refused, to_user_friendly_error, parse_rr_id, is_terminal_phase, rr_id_of,
}

-- What the tools read of a RemediationRequest; a string that is not there is empty.
pub record RemediationRequest : Type 0 where
  pub namespace : String
  pub name : String
  pub overall_phase : String
  pub target_kind : String
  pub target_name : String
  pub signal_fingerprint : String

-- The merge patches of the two statuses.
pub record RrPatch : Type 0 where
  pub overall_phase : String
  pub completed_at : ℕ
  pub last_modified_at : ℕ

pub record RarPatch : Type 0 where
  pub decision : List ℕ
  pub decided_by : String
  pub decided_at : ℕ
  pub decision_message : Option String
  pub workflow_override : Option String

pub record RrApi : Type 1 where
  pub World : Type 0
  pub rules : NameRules
  pub now : World → ℕ
  pub list_rr : World → String → World × Fetched (List RemediationRequest)
  pub get_rr : World → String → String → World × Fetched RemediationRequest
  pub patch_rr_status : World → String → String → RrPatch → World × Option KubeError
  pub get_rar : World → String → String → World × Option KubeError
  pub patch_rar_status : World → String → String → RarPatch → World × Option KubeError

pub record ListRemediationsArgs : Type 0 where
  pub namespace : String
  pub phase : String
  pub kind : String
  pub name : String

pub record RemediationSummary : Type 0 where
  pub id : String
  pub namespace : String
  pub name : String
  pub phase : String
  pub kind : String
  pub target : String

pub record ListRemediationsResult : Type 0 where
  pub remediations : List RemediationSummary
  pub count : ℕ

-- `args.X != "" && x != args.X`
unfoldable pub excluded_by : String → String → Bool
unfolding is_blank
excluded_by wanted found = not (is_blank wanted) && not (str_eq found wanted)

unfoldable pub summary_of : RemediationRequest → RemediationSummary
summary_of item = record {
  id = rr_id_of item.namespace item.name;
  namespace = item.namespace;
  name = item.name;
  phase = item.overall_phase;
  kind = item.target_kind;
  target = item.target_name;
}

unfoldable pub list_loop : ListRemediationsArgs → List RemediationRequest → List RemediationSummary
unfolding excluded_by summary_of
list_loop args [] = []
list_loop args (item ∷ more) =
    let rest = list_loop args more in
    if excluded_by args.phase item.overall_phase
    then rest
    else if excluded_by args.kind item.target_kind
    then rest
    else if excluded_by args.name item.target_name
    then rest
    else summary_of item ∷ rest

pub record RemediationArgs : Type 0 where
  pub namespace : String
  pub name : String
  pub rr_id : String

pub record ApproveArgs : Type 0 where
  pub namespace : String
  pub rar_name : String
  pub decision : String
  pub reason : String
  pub workflow_override : String

-- strings.ToUpper and strings.ToLower on an ASCII character.
unfoldable pub to_upper : ℕ → ℕ
to_upper c = if leb b'a' c && leb c b'z' then c - 32 else c

unfoldable pub to_lower : ℕ → ℕ
to_lower c = if leb b'A' c && leb c b'Z' then c + 32 else c

-- The first character in upper case and the others in lower case, for a decision in ASCII.
unfoldable pub normalized_decision : List ℕ → List ℕ
unfolding to_upper to_lower
normalized_decision [] = []
normalized_decision (c ∷ more) = to_upper c ∷ map to_lower more

-- `if args.X != "" { patch["x"] = args.X }`
unfoldable pub if_given : String → Option String
unfolding is_blank
if_given s = if is_blank s then none else some s

abbrev pub cancelled_phase : String
cancelled_phase = "Cancelled"

module _ (api : RrApi) where
  open api use {World, rules, now, list_rr, get_rr, patch_rr_status, get_rar, patch_rar_status}

  -- In each tool `available` is false for a nil client.
  unfoldable pub handle_list_remediations :
      Bool → World → ListRemediationsArgs → World × Result ListRemediationsResult
  unfolding valid_namespace list_loop
  handle_list_remediations available w args =
      if not available
      then (w, err k8s_unavailable)
      else if not (valid_namespace rules args.namespace)
      then (w, err invalid_input)
      else let (w', r) = list_rr w args.namespace in
        (
          w',
          elim r [
            | refused x ↦ err (to_user_friendly_error x)
            | got items ↦
                let found = list_loop args items in
                ok (record { remediations = found; count = length found })
          ],
        )

  unfoldable pub handle_get_remediation :
      Bool → World → RemediationArgs → World × Result RemediationSummary
  unfolding parse_rr_id
  handle_get_remediation available w args =
      if not available
      then (w, err k8s_unavailable)
      else elim (parse_rr_id args.rr_id args.namespace args.name) [
        | err x ↦ (w, err x)
        | ok (ns, name) ↦
            let (w', r) = get_rr w ns name in
            (
              w',
              elim r [
                | refused x ↦ err (to_user_friendly_error x)
                | got obj ↦ ok (record {
                  id = rr_id_of ns name;
                  namespace = ns;
                  name = name;
                  phase = obj.overall_phase;
                  kind = obj.target_kind;
                  target = obj.target_name;
                })
              ],
            )
      ]

  unfoldable pub rar_patch_of : World → ApproveArgs → String → RarPatch
  unfolding normalized_decision if_given
  rar_patch_of w args username = record {
    decision = normalized_decision (codes args.decision);
    decided_by = username;
    decided_at = now w;
    decision_message = if_given args.reason;
    workflow_override = if_given args.workflow_override;
  }

  -- The result is the status, which is the decision as it was given.
  unfoldable pub handle_approve : Bool → World → ApproveArgs → String → World × Result String
  unfolding valid_namespace valid_resource_name is_blank rar_patch_of
  handle_approve available w args username =
      if not available
      then (w, err k8s_unavailable)
      else if not (valid_namespace rules args.namespace)
      then (w, err invalid_input)
      else if not (valid_resource_name rules args.rar_name)
      then (w, err invalid_input)
      else if is_blank args.decision
      then (w, err invalid_input)
      else let (w₁, x) = get_rar w args.namespace args.rar_name in
        elim x [
          | some y ↦ (w₁, err (to_user_friendly_error y))
          | none ↦
              let (w₂, z) =
                patch_rar_status w₁ args.namespace args.rar_name (rar_patch_of w₁ args username) in
              elim z [
                | some y ↦ (w₂, err (to_user_friendly_error y))
                | none ↦ (w₂, ok args.decision)
              ]
        ]

  unfoldable pub cancel_patch : World → RrPatch
  cancel_patch w = record {
    overall_phase = cancelled_phase;
    completed_at = now w;
    last_modified_at = now w;
  }

  unfoldable pub cancel_read : World → String → String → RemediationRequest → World × Result String
  unfolding is_terminal_phase cancel_patch
  cancel_read w ns name obj =
      if is_terminal_phase obj.overall_phase
      then (w, err already_terminal)
      else let (w', z) = patch_rr_status w ns name (cancel_patch w) in
        elim z [ some y ↦ (w', err (to_user_friendly_error y)) | none ↦ (w', ok cancelled_phase) ]

  unfoldable pub handle_cancel_remediation : Bool → World → RemediationArgs → World × Result String
  unfolding parse_rr_id cancel_read
  handle_cancel_remediation available w args =
      if not available
      then (w, err k8s_unavailable)
      else elim (parse_rr_id args.rr_id args.namespace args.name) [
        | err x ↦ (w, err x)
        | ok (ns, name) ↦
            let (w', r) = get_rr w ns name in
            elim r [
              | refused x ↦ (w', err (to_user_friendly_error x))
              | got obj ↦ cancel_read w' ns name obj
            ]
      ]
