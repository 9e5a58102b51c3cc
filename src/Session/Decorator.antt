-- ===== src/Session/Decorator.antt =====
-- The decorator that puts a request's CRD configuration into its state, ServiceDecorator.Create of
-- internal/session/decorator.go. The context is its two entries: the create context and the
-- identity that the auth middleware has put there.
pub mod Authenticated
use kubernaut_apifrontend.Common.{String, Option, none, some, List, if◌then◌else◌, str_eq}
use kubernaut_apifrontend.Session.Crd.{
  Env, CreateRequest, CreateConfig, config, ObjectRef, start, Outcome, done, refused,
  unauthenticated,
}
use kubernaut_apifrontend.Session.Service.{CrdSessionService}
use kubernaut_apifrontend.Session.Lifecycle.{create}

pub record CreateContext : Type 0 where
  pub task_id : String
  pub remediation_ref : ObjectRef

-- The fields of auth.UserIdentity that are read here.
pub record Identity : Type 0 where
  pub username : String
  pub groups : List String

abbrev pub pending_ref : ObjectRef
pending_ref = record { name = "pending"; namespace = "kubernaut-system" }

unfoldable pub create_config_of : CreateContext → Identity → CreateConfig
create_config_of sc identity = record {
  owner_ref = "";
  task_id = sc.task_id;
  user = record { username = identity.username; groups = identity.groups };
  join_mode = start;
  remediation_ref = if str_eq sc.remediation_ref.name "" then pending_ref else sc.remediation_ref;
}

-- The request that reaches the inner service, or the error.
unfoldable pub enrich :
    Option CreateContext → Option Identity → CreateRequest → Outcome CreateRequest
unfolding create_config_of
enrich none identity req = done req
enrich (some sc) none req = refused unauthenticated
enrich (some sc) (some identity) req =
    if str_eq identity.username ""
    then refused unauthenticated
    else done (record req { create_config = config (create_config_of sc identity) })

module _ (e : Env) where
  open e use {World}

  -- ServiceDecorator.Create around the CRD session service.
  unfoldable pub decorated_create :
      CrdSessionService
      → World
      → Option CreateContext
      → Option Identity
      → CreateRequest
      → World × CrdSessionService × Outcome String
  unfolding enrich create
  decorated_create s w sc identity req = elim (enrich sc identity req) [
    | refused x ↦ (w, s, refused x)
    | done req' ↦ create e s w req'
  ]
