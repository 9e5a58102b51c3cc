-- ===== src/Lib.antt =====
-- Verification of kubernaut-apifrontend, the service in front of the Kubernaut agent.
--
-- The program authenticates users, limits their requests, keeps their investigation sessions as
-- InvestigationSession resources in Kubernetes, grades incidents and audits what it does. A request
-- passes the rate limits (internal/ratelimit) around the authentication (internal/auth); a session is
-- created through the decorator and the CRD session service (internal/session), whose phases only
-- UpdatePhase and the cleanup controller (internal/controller) change; the tools (internal/tools),
-- which the bridge of internal/handler guards, work on the remediation requests of the cluster and
-- ask the severity triage (internal/severity); audit events go through the buffered emitter
-- (internal/audit); calls of other services go through the transports of internal/resilience; SSE
-- streams are tracked by internal/streaming. The configuration (internal/config) is validated at the
-- start, and watched files are reloaded.
--
-- Files, by the code that they model. A child module of a model holds its theorems, and each part
-- has a module Tests with runs at concrete inputs.
--   Common            Go's signed integers and maps, tests and lists over native numbers
--   Session/Phase     SessionPhase (api/apifrontend/v1alpha1/investigationsession_types.go),
--                     ValidateTransition and IsTerminal (internal/session/statemachine.go)
--   Session/Crd       the resource, the errors, and the API server, ADK's session service and
--                     RetryOnConflict as the record Env over a state World. What the client
--                     decodes into an object is Controller's decoded_into
--   Session/Labels    validCRDName and sanitizeLabelValue (internal/session/service.go)
--   Session/Trimming  trimEventFunctionResponses (internal/session/trimming.go)
--   Session/Service   CRDSessionService, its audit and gauge, and UpdatePhase
--   Session/Lifecycle Create, Delete, AppendEvent, GetSessionPhase, PruneTerminalEntries
--   Session/Reinvoke  NeedsReinvocation (internal/session/reinvoke.go)
--   Session/Decorator ServiceDecorator.Create (internal/session/decorator.go)
--   Session/Memory    an API server in memory, on which the theorems are applied
--   Controller        SessionCleanupReconciler (internal/controller/ttl.go)
--   RateLimit/Ip, User, Provider, Semaphore, Middleware   internal/ratelimit/ratelimit.go, config.go
--   Severity/Rank     severities and labels (internal/severity/types.go, triage.go,
--                     internal/prometheus/rules.go, types.go)
--   Severity/Tiers    the tiers and the rules cache (internal/severity/triage.go, cache.go)
--   Severity/Pipeline Triage, the tiers in their order
--   Audit/Buffered    BufferedEmitter (internal/audit/buffered.go)
--   Resilience/Retry  RetryTransport (internal/resilience/retry.go)
--   Resilience/Breaker CircuitBreakerTransport (internal/resilience/circuitbreaker.go)
--   Streaming/Tracker ConnectionTracker (internal/streaming/tracker.go)
--   Auth/Replay       ReplayCache (internal/auth/replay_cache.go)
--   Auth/Sanitize     SanitizeClaimValue (internal/auth/sanitize.go)
--   Auth/Config       Config and its Validate (internal/auth/config.go)
--   Auth/Jwks         JWKSCache (internal/auth/jwks_cache.go)
--   Auth/Claims       the checks of claims and buildIdentity (internal/auth/jwt.go, types.go)
--   Auth/Jwt          JWTValidator (internal/auth/jwt.go) and TokenReviewer (tokenreview.go)
--   Auth/Middleware   MiddlewareWithConfig (internal/auth/middleware.go) and ValidateHeaderValue
--                     (internal/security/sanitize.go)
--   Auth/Delegation   ContextJWTDelegationTransport (internal/auth/jwt_delegation.go)
--   Validate          the name checks (internal/validate/k8s.go)
--   Tools/Errors      ParseRRID, ToUserFriendlyError, IsTerminalPhase, TrimSliceToFit
--                     (internal/tools/helpers.go)
--   Tools/Owner       HandleResolveOwner (internal/tools/af_resolve_owner.go)
--   Tools/Remediation list, get, approve and cancel (internal/tools/crd_tools.go)
--   Tools/Watch       HandleWatch (internal/tools/crd_tools.go)
--   Tools/Create      HandleCheckExistingRR and HandleCreateRR (internal/tools/af_check_existing_rr.go,
--                     af_create_rr.go)
--   Tools/Poll        HandlePollInvestigation (internal/tools/ka_tools.go)
--   Config/Types, Settings   Config, its defaults and its validation (internal/config/config.go), and
--                     the retry settings of buildResilientTransport (cmd/apifrontend/main.go)
--   Config/Reload     FileWatcher (internal/config/hotreload.go)
--   Handler/Bridge    wrapTool and checkRBAC (internal/handler/mcp_bridge.go)
--
-- Conventions. A method takes the state and returns it with its result; a Go error is a constructor
-- of a type of errors; a nil pointer is `none`. A call under a lock is one step. What stands outside
-- the repository is a parameter with laws that state its documented behaviour: Env (RetryLaw,
-- DeleteLaw, StatusLaw), RateLib (BucketLaw), MarshalLaw, TriageEnv, Transport, Outside (ExecuteLaw),
-- JwksEnv (ExecuteLaw), JwtEnv, NameRules, OwnerApi, RrApi, CreateApi (ListLaw), KaClient, BridgeEnv
-- (PermitLaw), ConfigEnv, ReloadEnv.
-- The theorems hold for every instance, and every law has an instance in a module Tests. Where
-- goroutines interleave inside a call, as in the LLM semaphore and the audit buffer, the model is a
-- step function and the theorems are about all sequences of steps.
--
-- Bounds. Numbers are unbounded, except that the counters of internal/ratelimit are int32 with their
-- wrap-around; times and durations are nanoseconds. Loops recur on lists or on the attempts that are
-- left. The retries of UpdatePhase are given by RetryLaw, as a relation. Only the decimal digits of a
-- time stamp take a bound, of 19 digits, which an int64 never exceeds (decimal-scan in
-- Tools/Create/Naming). An expiry of a token is any number of
-- seconds; time.Unix, which wraps near the largest int64, is taken without that wrap-around. The owner walk counts the ten rounds that its loop can make.
--
-- Not modelled: the text of log lines, of errors and of problem responses; metrics other than the
-- session gauge, the connection gauge and the counters named in the models; the backoff of
-- retries, which is random and made of floats; the redaction of audit events; Stop, which only
-- ends cleanup ticks; impersonation, the tools for pods, workloads, events and the data storage,
-- the reading of YAML, the routes and the backend clients, which are later parts or wiring of
-- libraries. JOSE, CEL, gobreaker, singleflight, SHA-256 and the Kubernetes client are
-- parameters.
pub mod Common
pub mod Session
pub mod Controller
pub mod RateLimit
pub mod Severity
pub mod Audit
pub mod Resilience
pub mod Streaming
pub mod Auth
pub mod Validate
pub mod Tools
pub mod Handler
pub mod Config
