-- ===== src/Handler/Bridge.antt =====
-- wrapTool and checkRBAC of internal/handler/mcp_bridge.go. The tool's handler, the weighted semaphore
-- and the context with its timeout are outside, as calls over a world. What a call leads to is a
-- value: the result, and the labels of its metric and its audit event.
pub mod Rbac
pub mod Guarded
use kubernaut_apifrontend.Common.{
  ℕ, ◌*◌, String, Bool, true, false, Option, none, some, List, [], ◌∷◌, ◌||◌, not, if◌then◌else◌,
  str_eq,
}
use kubernaut_apifrontend.Common.Dict.{Dict, lookup}
use kubernaut_apifrontend.Common.Int.{ℤ, pos, ltb_ℤ}
use kubernaut_apifrontend.Auth.Jwks.{second}
use kubernaut_apifrontend.RateLimit.Rate.{RateLib}
use kubernaut_apifrontend.RateLimit.User.{UserLimiter, allow_tool_call}

pub record Caller : Type 0 where
  pub username : String
  pub groups : List String

pub data RbacError : Type 0 where
  authentication_required role_lacks_access : RbacError

-- `t == toolName || t == "*"` for one of the tools.
unfoldable pub lists_tool : String → List String → Bool
lists_tool tool [] = false
lists_tool tool (t ∷ more) = (str_eq t tool || str_eq t "*") || lists_tool tool more

unfoldable pub role_allows : Dict (List String) → String → String → Bool
unfolding lookup lists_tool
role_allows roles tool role = elim (lookup role roles) [
  | none ↦ false
  | some allowed ↦ lists_tool tool allowed
]

unfoldable pub groups_allow : Dict (List String) → String → List String → Bool
unfolding role_allows
groups_allow roles tool [] = false
groups_allow roles tool (group ∷ more) =
    role_allows roles tool group || groups_allow roles tool more

unfoldable pub check_rbac : Dict (List String) → Option Caller → String → Option RbacError
unfolding role_allows groups_allow
check_rbac roles user tool = if role_allows roles tool "*" then none else elim user [
  | none ↦ some authentication_required
  | some u ↦ if groups_allow roles tool u.groups then none else some role_lacks_access
]

unfoldable pub username_from_ctx : Option Caller → String
username_from_ctx none = "system"
username_from_ctx (some u) = if str_eq u.username "" then "system" else u.username

-- How a handler ends; a result carries its JSON, if it can be marshalled.
pub data HandlerEnd : Type 0 where
  panicked : HandlerEnd
  handler_failed : (redacted : String) → HandlerEnd
  returned : Option String → HandlerEnd

pub data ToolEvent : Type 0 where
  tool_invoked tool_denied : ToolEvent
  tool_failed : String → ToolEvent

-- The text of the result and whether it is an error (a constant text is left out); the label of the
-- one metric that is recorded, and the one audit event with its user name, where there are metrics
-- and an auditor. The label "denied" also counts for the metric of denials.
pub record ToolCall : Type 0 where
  pub is_error : Bool
  pub text : Option String
  pub label : String
  pub event : ToolEvent
  pub user_id : String

-- `acquire` fails if the context ends first; `expired` tells whether it has ended.
pub record BridgeEnv (lib : RateLib) : Type 1 where
  pub World : Type 0
  pub now : World → ℕ
  pub acquire : World → World × Bool
  pub release : World → World
  pub handle : World → World × HandlerEnd
  pub expired : World → Bool

default_tool_timeout : ℤ
default_tool_timeout = pos (30 * second)

unfoldable pub get_tool_timeout : ℤ → ℤ
unfolding default_tool_timeout
get_tool_timeout t = if ltb_ℤ (pos 0) t then t else default_tool_timeout

unfoldable pub get_max_concurrent_tools : ℤ → ℤ
get_max_concurrent_tools n = if ltb_ℤ (pos 0) n then n else pos 10

-- The user name of an audit event, which is empty without an identity.
unfoldable pub audit_user : Option Caller → String
audit_user none = ""
audit_user (some u) = u.username

unfoldable pub failed_call : Option Caller → Option String → String → String → ToolCall
unfolding audit_user
failed_call user text label reason = record {
  is_error = true;
  text = text;
  label = label;
  event = tool_failed reason;
  user_id = audit_user user;
}

-- The last two arguments: whether the context has ended, and how the handler ended.
unfoldable pub finished_call : Option Caller → Bool → HandlerEnd → ToolCall
unfolding failed_call audit_user
finished_call user late panicked = failed_call user (some "internal error") "panic" "internal error"
finished_call user late (handler_failed redacted) =
    failed_call user (some redacted) (if late then "timeout" else "error") redacted
finished_call user late (returned none) = failed_call user none "error" "marshal failure"
finished_call user late (returned (some json)) = record {
  is_error = false;
  text = some json;
  label = "success";
  event = tool_invoked;
  user_id = audit_user user;
}

module _ {lib : RateLib} (b : BridgeEnv lib) where
  open b use {World, now, acquire, release, handle, expired}

  -- The limiter is asked only if there is one.
  unfoldable pub allow_call :
      Option (UserLimiter lib) → ℕ → String → Option (UserLimiter lib) × Bool
  allow_call none t username = (none, true)
  allow_call (some l) t username =
      let (l', allowed) = allow_tool_call lib t username l in (some l', allowed)

  -- With the permit. The deferred release runs on every way out, a panic included.
  unfoldable pub run_handler : Option Caller → World → World × ToolCall
  unfolding finished_call
  run_handler user w = let (w', end) = handle w in (release w', finished_call user (expired w') end)

  unfoldable pub wrap_tool :
      Dict (List String)
      → Option (UserLimiter lib)
      → World
      → Option Caller
      → String
      → World × Option (UserLimiter lib) × ToolCall
  unfolding check_rbac username_from_ctx allow_call run_handler failed_call audit_user
  wrap_tool roles limiter w user tool = elim (check_rbac roles user tool) [
    | some x ↦ (
      w,
      limiter,
      record {
        is_error = true;
        text = none;
        label = "denied";
        event = tool_denied;
        user_id = audit_user user;
      },
    )
    | none ↦
        let (limiter', allowed) = allow_call limiter (now w) (username_from_ctx user) in
        if not allowed
        then (w, limiter', failed_call user none "rate_limited" "rate_limited")
        else let (w', free) = acquire w in
          let (w₂, done) = run_handler user w' in
          if not free
          then (w', limiter', failed_call user none "throttled" "throttled")
          else (w₂, limiter', done)
  ]
