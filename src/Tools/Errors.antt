-- ===== src/Tools/Errors.antt =====
-- The helpers of internal/tools/helpers.go: errors, request names, terminal phases, and the cut of a
-- list to the size of a tool result. The text of messages is left out.
pub mod Cases
pub mod Trimmed
pub mod Names
use kubernaut_apifrontend.Common.{
  ℕ, zero, suc, ◌-◌, ◌==◌, String, Bool, true, false, Option, none, some, List, [], ◌∷◌, leb,
  if◌then◌else◌, length, str_eq, ◌||◌,
}
use kubernaut_apifrontend.Validate.{is_blank}
use Prim.Native.Char.{code}
use Prim.Native.String

-- An error of the Kubernetes client: a StatusError with its code, or another one.
pub data KubeError : Type 0 where
  status_error : ℕ → KubeError
  other_error : String → KubeError

-- The errors that the tools answer. The last two are those that only carry a text on.
pub data ToolError : Type 0 where
  k8s_unavailable invalid_input bad_rr_id missing_name : ToolError
  forbidden not_found conflict already_terminal triage_failed : ToolError
  operation_failed : ℕ → ToolError
  kube_error : String → ToolError

pub data Result {ℓ} (A : Type ℓ) : Type ℓ where
  ok : A → Result A
  err : ToolError → Result A

-- What a call of the Kubernetes client answers.
pub data Fetched {ℓ} (A : Type ℓ) : Type ℓ where
  got : A → Fetched A
  refused : KubeError → Fetched A

unfoldable pub to_user_friendly_error : KubeError → ToolError
to_user_friendly_error (status_error code) =
    if code == 403
    then forbidden
    else (if code == 404
        then not_found
        else (if code == 409 then conflict else operation_failed code))
to_user_friendly_error (other_error x) = kube_error x

-- strings.SplitN(s, "/", 2), where there is a slash.
unfoldable pub split_slash : String → Option (String × String)
split_slash String.[] = none
split_slash (String.◌∷◌ c s) =
    if code c == b'/'
    then some ("", s)
    else elim (split_slash s) [ none ↦ none | some (a, b) ↦ some (String.◌∷◌ c a, b) ]

-- `namespace + "/" + name`, the ID that the tools give a remediation.
unfoldable pub rr_id_of : String → String → String
rr_id_of namespace name = String.◌++◌ namespace (String.◌++◌ "/" name)

unfoldable pub parse_rr_id : String → String → String → Result (String × String)
unfolding split_slash is_blank
parse_rr_id rr_id namespace name =
    if is_blank rr_id
    then (if is_blank namespace || is_blank name then err missing_name else ok (namespace, name))
    else elim (split_slash rr_id) [
      | none ↦ err bad_rr_id
      | some (a, b) ↦ if is_blank a || is_blank b then err bad_rr_id else ok (a, b)
    ]

unfoldable pub is_terminal_phase : String → Bool
is_terminal_phase phase =
    str_eq phase "Completed" || (str_eq phase "Failed" || str_eq phase "Cancelled")

abbrev pub max_tool_output_bytes : ℕ
max_tool_output_bytes = 4096

-- `items[:len(items)-1]`
unfoldable pub drop_last {ℓ} : {A : Type ℓ} → List A → List A
drop_last [] = []
drop_last (x ∷ []) = []
drop_last (x ∷ y ∷ more) = x ∷ drop_last (y ∷ more)

-- `size` is the length of a list's JSON. The loop runs while more than one item is left, so that
-- one round fewer is left than there are items.
module _ {ℓ} {A : Type ℓ} (size : List A → ℕ) where
  unfoldable pub trim_loop : ℕ → List A → List A
  trim_loop zero items = items
  trim_loop (suc rounds) items =
      let shorter = drop_last items in
      let rest = trim_loop rounds shorter in
      if leb (size shorter) max_tool_output_bytes then shorter else rest

  unfoldable pub trim_slice_to_fit : List A → List A × Bool
  unfolding trim_loop drop_last
  trim_slice_to_fit items =
      if leb (size items) max_tool_output_bytes
      then (items, false)
      else (trim_loop (length items - 1) items, true)
