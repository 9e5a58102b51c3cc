-- ===== src/Tools/Create/Repeat.antt =====
-- A request for a target that has a live remediation request (internal/tools/af_create_rr.go).
use kubernaut_apifrontend.Common.{◌≡◌, ap, String, false, Option, List}
use kubernaut_apifrontend.Common.All.{Any}
use kubernaut_apifrontend.Tools.Errors.{Result, got, is_terminal_phase}
use kubernaut_apifrontend.Tools.Remediation.{RemediationRequest, RrApi}
use kubernaut_apifrontend.Tools.Create.{
  CreateApi, CreateRrArgs, CreateRrResult, NewRemediationRequest, new_rr, create_new, TriageResult,
}
use kubernaut_apifrontend.Tools.Create.Flight.{Creates}

-- A request that is live for a fingerprint.
abbrev IsLive : String → RemediationRequest → Type 0
IsLive fp item = (item.signal_fingerprint ≡ fp) × (is_terminal_phase item.overall_phase ≡ false)

module _ {api : RrApi} (c : CreateApi api) where
  open api use {World, rules, list_rr}
  open c use {create_rr}

  -- The API server's reads are consistent: what was created is listed, as it was sent and, as its
  -- status is a subresource, with no phase.
  pub record Listed (w : World) (ns : String) (new : NewRemediationRequest)
      (created : RemediationRequest) : Type 0 where
    pub items : List RemediationRequest
    pub listed : (list_rr (create_rr w ns new).0 ns).1 ≡ got items
    pub there : Any (λ x. x ≡ created) items
    pub same_fingerprint : created.signal_fingerprint ≡ new.signal_fingerprint
    pub no_phase : created.overall_phase ≡ ""

  abbrev pub ListLaw : Type 0
  ListLaw =
      (w : World) (ns : String) (new : NewRemediationRequest) (created : RemediationRequest)
      → (create_rr w ns new).1 ≡ got created
      → Listed w ns new created

  module _ (law : ListLaw) (args : CreateRrArgs) (s : String) (t : Option TriageResult)
      (r : World × Result CreateRrResult) (k : Creates c args s t r) where
    request : NewRemediationRequest
    request = new_rr c (list_rr k.earlier args.namespace).0 (record args { severity = s }) t

    after : r.0 ≡ (create_rr (list_rr k.earlier args.namespace).0 args.namespace request).0
    unfolding create_new request
    after = ap (λ (x : World × Result CreateRrResult). x.0) k.result
