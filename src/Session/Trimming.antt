-- ===== src/Session/Trimming.antt =====
-- Trimming of large tool results, internal/session/trimming.go, over ADK's events. `V` stands for
-- the JSON values that a tool returns, and `marshal` for json.Marshal (`none` is its error).
pub mod Size
use kubernaut_apifrontend.Common.{
  ℕ, String, Option, none, some, List, [], ◌∷◌, if◌then◌else◌, length, leb, ltb, take, truncate,
  map,
}

-- FunctionResponse.Response: what the tool answered, or the map that replaces it.
pub data Response (V : Type 0) : Type 0 where
  value : V → Response V
  truncated : ℕ → List ℕ → Response V

-- A nil FunctionCall or FunctionResponse is `none`, and so is a nil Response.
pub record Part (V : Type 0) : Type 0 where
  pub text : String
  pub function_call : Option String
  pub function_response : Option (Option (Response V))

-- The content is a list of pointers, or nil.
pub record Event (V : Type 0) : Type 0 where
  pub content : Option (List (Option (Part V)))

abbrev pub max_tool_result_bytes : ℕ
max_tool_result_bytes = 4096

abbrev pub trim_summary_prefix : ℕ
trim_summary_prefix = 128

module _ {V : Type 0} (marshal : Response V → Option (List ℕ)) where
  trim_response : Response V → Response V
  trim_response r = elim (marshal r) [
    | none ↦ r
    | some raw ↦
        if leb (length raw) max_tool_result_bytes
        then r
        else truncated (length raw) (truncate trim_summary_prefix raw)
  ]

  -- The body of the loop, on one pointer of Content.Parts.
  trim_part : Option (Part V) → Option (Part V)
  unfolding trim_response
  trim_part none = none
  trim_part (some p) = elim p.function_response [
    | none ↦ some p
    | some none ↦ some p
    | some (some r) ↦ some (record p { function_response = some (some (trim_response r)) })
  ]

  unfoldable pub trim_event_function_responses : Option (Event V) → Option (Event V)
  unfolding trim_part
  trim_event_function_responses none = none
  trim_event_function_responses (some ev) = elim ev.content [
    | none ↦ some ev
    | some parts ↦ some (record { content = some (map trim_part parts) })
  ]
