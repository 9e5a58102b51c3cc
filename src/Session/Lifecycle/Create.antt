-- ===== src/Session/Lifecycle/Create.antt =====
-- The outcomes of Create (internal/session/service.go): rollback, the index, the labels.
use kubernaut_apifrontend.Common.{
  String, Option, [], ◌∷◌, false, ◌≢◌, if◌then◌else◌, str_eq, ◌≡◌, ◌⊎◌, true, none, some, codes,
}
use kubernaut_apifrontend.Session.Labels.{valid_crd_name}
use kubernaut_apifrontend.Session.Crd.{
  Env, ApiError, not_found, err, Err, create_crd, invalid_config_type, invalid_session_id,
  CreateRequest, wrong_type, Outcome, done, refused,
}
use kubernaut_apifrontend.Session.Service.{CrdSessionService, Gauge, session_created}
use kubernaut_apifrontend.Session.Service.Commit.{Audited}
use kubernaut_apifrontend.Session.Phase.{SessionPhase, active, phase_eq}
use kubernaut_apifrontend.Common.Dict.{lookup}
use kubernaut_apifrontend.Common.Int.{pos, ◌+ℤ◌}
use kubernaut_apifrontend.Session.Lifecycle.{requested_name}

-- What a delete in the API server does when it succeeds.
abbrev pub DeleteLaw : Env → Type 0
DeleteLaw e =
    (w : e.World) (name : String)
    → (e.delete_object w name).1 ≡ none
    → e.get_live (e.delete_object w name).0 name ≡ err not_found

-- One session more at Active, where there is a gauge.
abbrev pub CountedUp : Option Gauge → Option Gauge → Type 0
CountedUp none after = after ≡ none
CountedUp (some g) after =
    (g' : Gauge) × (after ≡ some g')
    × (g' active ≡ g active +ℤ pos 1)
    × ((q : SessionPhase) → (q ≡ active) ⊎ (g' q ≡ g q))

up : Gauge → Gauge
unfolding phase_eq
up g q = if phase_eq active q then g q +ℤ pos 1 else g q

module _ (e : Env) where
  open e use {World, get_live, delete_object, create_object, update_status, delegate_create}

  -- A delete that failed, or after which the object is not to be found.
  abbrev pub Gone : World → String → Type 0
  Gone w name =
      ((x : ApiError) × ((delete_object w name).1 ≡ some x))
      ⊎ (get_live (delete_object w name).0 name ≡ err not_found)

  -- What a registration does to the service: the session stands in the index, and no other entry
  -- changes; one audit event is added where there is an auditor, and one session is counted at
  -- Active where there is a gauge.
  pub record Registered (s : CrdSessionService) (id name user : String) (after : CrdSessionService)
      : Type 0 where
    pub index :
        (j : String)
        → lookup j after.crd_index ≡ (if str_eq id j then some name else lookup j s.crd_index)
    pub audited :
        Audited s.auditor
          (record {
            type = session_created;
            user_id = user;
            detail = ("session_id", id) ∷ ("crd_name", name) ∷ ("phase", "Active") ∷ [];
          })
          after.auditor
    pub counted : CountedUp s.sessions_active after.sessions_active

  -- How a creation under a name can end, rollback included.
  pub data Created (s : CrdSessionService) (w : World) (req : CreateRequest) (name : String)
      (r : World × CrdSessionService × Outcome String) : Type 0 where
    registered :
        (id : String)
        → r.2 ≡ done id
        → Registered s id name req.user_id r.1
        → Created s w req name r
    nothing_stored :
        (x : ApiError) → r.2 ≡ refused (create_crd x) → r.1 ≡ s → Created s w req name r
    rolled_back :
        (x : Err)
        → r.2 ≡ refused x
        → r.1 ≡ s
        → (w₁ : World) → r.0 ≡ (delete_object w₁ name).0
        → Gone w₁ name
        → Created s w req name r

  -- A refusal, and its reason.
  abbrev pub Refused :
      CrdSessionService
      → World
      → CreateRequest
      → World × CrdSessionService × Outcome String
      → Type 0
  Refused s w req r =
      (r.0 ≡ w)
      × (r.1 ≡ s)
      × (((req.create_config ≡ wrong_type) × (r.2 ≡ refused invalid_config_type))
          ⊎ ((req.create_config ≢ wrong_type)
              × (valid_crd_name (codes (requested_name e w req)) ≡ false)
              × (r.2 ≡ refused invalid_session_id)))

  -- A request with a configuration, or none, and a CRD name.
  abbrev pub IsProper : World → CreateRequest → Type 0
  IsProper w req =
      (req.create_config ≢ wrong_type) × (valid_crd_name (codes (requested_name e w req)) ≡ true)

  abbrev Ends :
      CrdSessionService
      → World
      → CreateRequest
      → World × CrdSessionService × Outcome String
      → Type 0
  Ends s w req r = Refused s w req r ⊎ (IsProper w req × Created s w req (requested_name e w req) r)
