-- ===== src/Handler/Bridge/Guarded.antt =====
-- What stands before a tool's handler, and that its permit is given back: wrapTool of
-- internal/handler/mcp_bridge.go.
use kubernaut_apifrontend.Common.{
  ℕ, suc, ◌≡◌, refl, ap, ◌∙◌, inl, inr, String, Bool, true, false, Option, none, some, List,
  Bool-cases, Option-cases,
}
use kubernaut_apifrontend.Common.Dict.{Dict}
use kubernaut_apifrontend.RateLimit.Rate.{RateLib}
use kubernaut_apifrontend.RateLimit.User.{UserLimiter}
use kubernaut_apifrontend.Handler.Bridge.{
  Caller, audit_user, ToolEvent, check_rbac, username_from_ctx, HandlerEnd, panicked,
  handler_failed, returned, tool_invoked, tool_denied, tool_failed, ToolCall, BridgeEnv,
  failed_call, finished_call, allow_call, run_handler, wrap_tool,
}
use kubernaut_apifrontend.Handler.Bridge.Rbac.{IsAllowed, check_rbac-iff-IsAllowed}

-- The user whom the audit event names.
abbrev pub named : Option Caller → String
named none = ""
named (some u) = u.username

-- How a call that ran its handler is reported: its result, the metric's label and the audit event.
-- A text of `none` is a constant one.
abbrev pub Reports : Option Caller → Bool → HandlerEnd → ToolCall → Type 0
Reports user late panicked c = c ≡ record {
  is_error = true;
  text = some "internal error";
  label = "panic";
  event = tool_failed "internal error";
  user_id = named user;
}
Reports user true (handler_failed x) c = c ≡ record {
  is_error = true;
  text = some x;
  label = "timeout";
  event = tool_failed x;
  user_id = named user;
}
Reports user false (handler_failed x) c = c ≡ record {
  is_error = true;
  text = some x;
  label = "error";
  event = tool_failed x;
  user_id = named user;
}
Reports user late (returned none) c = c ≡ record {
  is_error = true;
  text = none;
  label = "error";
  event = tool_failed "marshal failure";
  user_id = named user;
}
Reports user late (returned (some json)) c = c ≡ record {
  is_error = false;
  text = some json;
  label = "success";
  event = tool_invoked;
  user_id = named user;
}

-- How a call that a guard refused is reported.
abbrev pub Refuses : Option Caller → String → ToolEvent → ToolCall → Type 0
Refuses user label event c =
    c ≡ record { is_error = true; text = none; label = label; event = event; user_id = named user }

audit_user-named : (user : Option Caller) → audit_user user ≡ named user
unfolding audit_user
audit_user-named none = refl
audit_user-named (some u) = refl

finished_call-Reports :
    (user : Option Caller) (late : Bool) (end : HandlerEnd)
    → Reports user late end (finished_call user late end)
unfolding finished_call failed_call
finished_call-Reports user late panicked = rw (audit_user-named user) refl
finished_call-Reports user true (handler_failed x) = rw (audit_user-named user) refl
finished_call-Reports user false (handler_failed x) = rw (audit_user-named user) refl
finished_call-Reports user late (returned none) = rw (audit_user-named user) refl
finished_call-Reports user late (returned (some json)) = rw (audit_user-named user) refl

module _ {lib : RateLib} (b : BridgeEnv lib) where
  open b use {World, now, acquire, release, handle, expired}

  abbrev Called : Type 0
  Called = World × Option (UserLimiter lib) × ToolCall

  -- The limiter's answer for the caller's user name.
  abbrev pub asked :
      Option (UserLimiter lib) → World → Option Caller → Option (UserLimiter lib) × Bool
  asked limiter w user = allow_call b limiter (now w) (username_from_ctx user)

  -- The ways in which a call can go.
  pub data Guarded (roles : Dict (List String)) (limiter : Option (UserLimiter lib)) (w : World)
      (user : Option Caller) (tool : String) (r : Called) : Type 0 where
    denied :
        (IsAllowed roles user tool → ⊥)
        → r.0 ≡ w
        → r.1 ≡ limiter
        → Refuses user "denied" tool_denied r.2
        → Guarded roles limiter w user tool r
    limited :
        IsAllowed roles user tool
        → (asked limiter w user).1 ≡ false
        → r.0 ≡ w
        → r.1 ≡ (asked limiter w user).0
        → Refuses user "rate_limited" (tool_failed "rate_limited") r.2
        → Guarded roles limiter w user tool r
    throttled :
        IsAllowed roles user tool
        → (asked limiter w user).1 ≡ true
        → (acquire w).1 ≡ false
        → r.0 ≡ (acquire w).0
        → r.1 ≡ (asked limiter w user).0
        → Refuses user "throttled" (tool_failed "throttled") r.2
        → Guarded roles limiter w user tool r
    ran :
        IsAllowed roles user tool
        → (asked limiter w user).1 ≡ true
        → (acquire w).1 ≡ true
        → r.0 ≡ release (handle (acquire w).0).0
        → r.1 ≡ (asked limiter w user).0
        → Reports user (expired (handle (acquire w).0).0) (handle (acquire w).0).1 r.2
        → Guarded roles limiter w user tool r

  run_handler_lem :
      (user : Option Caller) (w : World)
      → ((run_handler b user w).0 ≡ release (handle w).0)
        × Reports user (expired (handle w).0) (handle w).1 (run_handler b user w).1
  unfolding run_handler
  run_handler_lem user w = (refl, finished_call-Reports user (expired (handle w).0) (handle w).1)

  -- A tool's handler runs only if the caller is allowed to call the tool, the user's rate limit lets the
  -- call through, and a permit of the semaphore was taken; the permit is given back however the
  -- handler ends, a panic included, and the result, the metric's label and the audit event with its
  -- user name tell how it ended: a panic, a failure, a timeout, a failed encoding or a success.
  -- Otherwise the call is answered with an error and the label and event of the guard that refused
  -- it, and the handler is not called; a denied call takes nothing of the rate limit.
  pub wrap_tool-Guarded :
      (roles : Dict (List String)) (limiter : Option (UserLimiter lib)) (w : World)
      (user : Option Caller) (tool : String)
      → Guarded roles limiter w user tool (wrap_tool b roles limiter w user tool)
  unfolding wrap_tool failed_call
  wrap_tool-Guarded roles limiter w user tool = elim (Option-cases (check_rbac roles user tool)) [
    | inr (x, no_access) ↦
        rw (no_access, wrap_tool)
          (denied (λ a. absurd (let z = (check_rbac-iff-IsAllowed roles tool user).1 a in cc)) refl
            refl (rw (audit_user-named user) refl))
    | inl access ↦
        let allowed = (check_rbac-iff-IsAllowed roles tool user).0 access in
        elim (Bool-cases (asked limiter w user).1) [
          | inr over ↦
              rw (access, wrap_tool)
                (rw (over, wrap_tool)
                  (limited allowed over refl refl (rw (audit_user-named user) refl)))
          | inl within ↦ elim (Bool-cases (acquire w).1) [
            | inr busy ↦
                rw (access, wrap_tool)
                  (rw (within, wrap_tool)
                    (rw (busy, wrap_tool)
                      (throttled allowed within busy refl refl (rw (audit_user-named user) refl))))
            | inl free ↦
                let run = run_handler_lem user (acquire w).0 in
                rw (access, wrap_tool)
                  (rw (within, wrap_tool)
                    (rw (free, wrap_tool) (ran allowed within free run.0 refl run.1)))
          ]
        ]
  ]

  -- `held` counts the permits that are taken, as the semaphore does.
  pub record PermitLaw (held : World → ℕ) : Type 0 where
    pub taken : (w : World) → (acquire w).1 ≡ true → held (acquire w).0 ≡ suc (held w)
    pub not_taken : (w : World) → (acquire w).1 ≡ false → held (acquire w).0 ≡ held w
    pub given_back : (w : World) (n : ℕ) → held w ≡ suc n → held (release w) ≡ n
    pub left_alone : (w : World) → held (handle w).0 ≡ held w

  -- A call leaves as many permits taken as there were before, whatever its outcome.
  pub wrap_tool-held :
      (held : World → ℕ)
      → PermitLaw held
      → (roles : Dict (List String)) (limiter : Option (UserLimiter lib)) (w : World)
        (user : Option Caller) (tool : String)
      → held (wrap_tool b roles limiter w user tool).0 ≡ held w
  wrap_tool-held held law roles limiter w user tool =
      go (wrap_tool-Guarded roles limiter w user tool)
    where
      go :
          Guarded roles limiter w user tool (wrap_tool b roles limiter w user tool)
          → held (wrap_tool b roles limiter w user tool).0 ≡ held w
      go (denied _ e _ _) = ap held e
      go (limited _ _ e _ _) = ap held e
      go (throttled _ _ busy e _ _) = ap held e ∙ law.not_taken w busy
      go (ran _ _ free e _ _) =
          ap held e
          ∙ law.given_back (handle (acquire w).0).0 (held w)
              (law.left_alone (acquire w).0 ∙ law.taken w free)
