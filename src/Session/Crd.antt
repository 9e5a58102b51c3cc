-- ===== src/Session/Crd.antt =====
-- The InvestigationSession resource (api/apifrontend/v1alpha1/investigationsession_types.go), and
-- the services that internal/session calls: the API server through controller-runtime's client,
-- ADK's session service and client-go's RetryOnConflict. These are not part of the repository:
-- they are the fields of `Env`, and what the code relies on of them are the laws below it.
use kubernaut_apifrontend.Common.{
  ℕ, String, Bool, true, false, Option, some, List, ◌≡◌, refl, ◌⊎◌, inl, inr,
}
use kubernaut_apifrontend.Common.Dict.{Dict}
use kubernaut_apifrontend.Session.Phase.{SessionPhase, TransitionError}
use kubernaut_apifrontend.Session.Trimming.{Event, Response}

pub data ConnectionState : Type 0 where
  connected offline unset : ConnectionState

pub data SessionJoinMode : Type 0 where
  start takeover unspecified : SessionJoinMode

pub record SessionUser : Type 0 where
  pub username : String
  pub groups : List String

pub record ObjectRef : Type 0 where
  pub name : String
  pub namespace : String

pub record InvestigationSessionSpec : Type 0 where
  pub remediation_request_ref : ObjectRef
  pub a2a_task_id : String
  pub user_identity : SessionUser
  pub join_mode : SessionJoinMode

-- Times are nanoseconds; a nil pointer is `none`. The message is its bytes.
pub record InvestigationSessionStatus : Type 0 where
  pub phase : SessionPhase
  pub ai_analysis_ref : String
  pub ka_correlation_id : String
  pub connection_state : ConnectionState
  pub started_at : Option ℕ
  pub completed_at : Option ℕ
  pub disconnected_at : Option ℕ
  pub reconnected_at : Option ℕ
  pub message : List ℕ

-- The metadata that the code reads or writes, with spec and status. A nil label map is `none`;
-- the value of a label is its characters, and an owner reference the owner's name.
pub record InvestigationSession : Type 0 where
  pub name : String
  pub namespace : String
  pub labels : Option (Dict (List ℕ))
  pub owner_references : List String
  pub resource_version : ℕ
  pub spec : InvestigationSessionSpec
  pub status : InvestigationSessionStatus

pub data ApiError : Type 0 where
  not_found conflict already_exists : ApiError
  other_error : String → ApiError

pub data ApiResult {ℓ} (A : Type ℓ) : Type ℓ where
  ok : A → ApiResult A
  err : ApiError → ApiResult A

pub ApiResult-cases {ℓ} :
    {A : Type ℓ} (r : ApiResult A) → ((a : A) × (r ≡ ok a)) ⊎ ((x : ApiError) × (r ≡ err x))
ApiResult-cases (ok a) = inl (a, refl)
ApiResult-cases (err x) = inr (x, refl)

-- The errors of the session service: an API error as it is or wrapped, or one of its own.
-- `nil_map_write` is the panic of a write to a nil label map, which skips all that follows.
pub data Err : Type 0 where
  api get_for_update reread get_phase : ApiError → Err
  create_crd initial_status delegate_failed : ApiError → Err
  transition : TransitionError → Err
  nil_map_write invalid_config_type invalid_session_id unauthenticated : Err

-- apierrors.IsConflict, which looks through the `%w` wrapping.
abbrev pub is_conflict : Err → Bool
is_conflict (api conflict) = true
is_conflict (get_for_update conflict) = true
is_conflict (reread conflict) = true
is_conflict _ = false

-- A method's value, or its error.
pub data Outcome {ℓ} (A : Type ℓ) : Type ℓ where
  done : A → Outcome A
  refused : Err → Outcome A

-- An entry of a request's state under StateKeyCreateConfig.
pub record CreateConfig : Type 0 where
  pub owner_ref : String
  pub task_id : String
  pub user : SessionUser
  pub join_mode : SessionJoinMode
  pub remediation_ref : ObjectRef

pub data StateEntry : Type 0 where
  absent wrong_type nil_config : StateEntry
  config : CreateConfig → StateEntry

pub record CreateRequest : Type 0 where
  pub session_id : String
  pub user_id : String
  pub create_config : StateEntry

-- All that stands outside the process is one state, `World`: the stored objects, what other
-- writers do during a call, and the clock. A write returns the object as the server answers it.
pub record Env : Type 1 where
  pub World : Type 0
  pub now : World → ℕ
  pub get_cached : World → String → ApiResult InvestigationSession
  pub get_live : World → String → ApiResult InvestigationSession
  pub create_object : World → InvestigationSession → World × ApiResult InvestigationSession
  pub update_status : World → InvestigationSession → World × ApiResult InvestigationSession
  pub update_object : World → InvestigationSession → World × ApiResult InvestigationSession
  pub delete_object : World → String → World × Option ApiError
  pub generated_name : World → String
  pub delegate_create : World → CreateRequest → World × ApiResult String
  pub delegate_delete : World → String → World × Option ApiError
  pub Value : Type 0
  pub marshal : Response Value → Option (List ℕ)
  pub delegate_append : World → String → Option (Event Value) → World × Option ApiError
  pub retry_on_conflict :
      (World × SessionPhase → (World × SessionPhase) × Option Err)
      → World × SessionPhase
      → (World × SessionPhase) × Option Err

-- What RetryOnConflict documents: the function is run, and run again only after a conflict. The
-- run goes from the state of the index to `t` with the result `r`.
pub data Iterates {S : Type 0} (fn : S → S × Option Err) (t : S) (r : Option Err) : S → Type 0 where
  stop : {s : S} → fn s ≡ (t, r) → Iterates fn t r s
  again :
      {s : S} (u : S) (x : Err)
      → fn s ≡ (u, some x)
      → is_conflict x ≡ true
      → Iterates fn t r u
      → Iterates fn t r s

abbrev pub RetryLaw : Env → Type 0
RetryLaw e =
    (fn : e.World × SessionPhase → (e.World × SessionPhase) × Option Err)
    (s : e.World × SessionPhase)
    → Iterates fn (e.retry_on_conflict fn s).0 (e.retry_on_conflict fn s).1 s
