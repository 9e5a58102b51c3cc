-- ===== src/Tools/Create/Unique.antt =====
-- A remediation request is created only where none is live (internal/tools/af_create_rr.go).
use kubernaut_apifrontend.Common.{
  ◌≡◌, sym, ◌∙◌, inl, inr, String, Bool, true, false, Option, none, some, ◌&&◌, not, arith,
  truncate, subst, Bool-cases, Option-cases,
}
use kubernaut_apifrontend.Validate.{valid_namespace, is_blank}
use kubernaut_apifrontend.Tools.Errors.{triage_failed, Result, ok, err}
use kubernaut_apifrontend.Tools.Remediation.{RrApi}
use kubernaut_apifrontend.Tools.Create.{
  CreateApi, TriageInput, max_description_len, CreateRrArgs, CreateRrResult, TriageResult,
  severity_of, is_valid_severity, flight, triage_and_create, handle_create_rr,
}
use kubernaut_apifrontend.Tools.Errors.Cases.{passes}
use kubernaut_apifrontend.Tools.Create.Flight.{Creates, flight-Creates}
use kubernaut_apifrontend.Tools.Create.Severity.{SeverityFrom, severity_of-SeverityFrom, from_user}

-- The request with its description cut.
abbrev pub cut : CreateRrArgs → CreateRrArgs
cut args = record args { description = truncate max_description_len args.description }

module _ {api : RrApi} (c : CreateApi api) where
  open api use {World, rules, list_rr}
  open c use {create_rr}

  -- A creation with a severity from the user, the triage or the default.
  abbrev pub CreatesOnce : CreateRrArgs → World × Result CreateRrResult → Type 0
  CreatesOnce args r =
      (s : String) × (used : Option TriageResult) × SeverityFrom args.severity s used
      × Creates c args s used r

  with_severity :
      (w : World) (args : CreateRrArgs) (s : String) (t : Option TriageResult) (r : CreateRrResult)
      → (flight c w (record args { severity = s }) t).1 ≡ ok r
      → r.already_exists ≡ false
      → Creates c args s t (flight c w (record args { severity = s }) t)
  with_severity w args s t r h new =
      let k = flight-Creates c w (record args { severity = s }) t r h new in
      record {
        valid_ns = k.valid_ns;
        valid_kind' = k.valid_kind';
        named = k.named;
        earlier = k.earlier;
        items = k.items;
        listed = k.listed;
        over = k.over;
        created = k.created;
        is_created = k.is_created;
        result = k.result;
      }

  abbrev input_of : CreateRrArgs → TriageInput
  input_of args = record {
    namespace = args.namespace;
    kind = args.kind;
    name = args.name;
    description = args.description;
  }

  pub direct_flight :
      (has_triager : Bool) (w : World) (args : CreateRrArgs)
      → (is_blank args.severity && has_triager) ≡ false
      → triage_and_create c has_triager w args
        ≡ flight c w (record args { severity = (severity_of args.severity none).0 }) none
  unfolding triage_and_create
  direct_flight has_triager w args direct = rw (direct, triage_and_create)

  failed_triage :
      (has_triager : Bool) (w : World) (args : CreateRrArgs)
      → (is_blank args.severity && has_triager) ≡ true
      → (c.triage w (input_of args)).1 ≡ none
      → triage_and_create c has_triager w args ≡ ((c.triage w (input_of args)).0, err triage_failed)
  unfolding triage_and_create
  failed_triage has_triager w args ask x = rw (ask, triage_and_create) (rw (x, triage_and_create))

  triaged_flight :
      (has_triager : Bool) (w : World) (args : CreateRrArgs) (t : TriageResult)
      → (is_blank args.severity && has_triager) ≡ true
      → (c.triage w (input_of args)).1 ≡ some t
      → triage_and_create c has_triager w args
        ≡ flight c
            (c.triage w (input_of args)).0
            (record args { severity = (severity_of args.severity (some t)).0 })
            (severity_of args.severity (some t)).1
  unfolding triage_and_create
  triaged_flight has_triager w args t ask x =
      rw (ask, triage_and_create) (rw (x, triage_and_create))

  triage_and_create-CreatesOnce :
      (has_triager : Bool) (w : World) (args : CreateRrArgs) (r : CreateRrResult)
      → (not (is_blank args.severity) && not (is_valid_severity args.severity)) ≡ false
      → (triage_and_create c has_triager w args).1 ≡ ok r
      → r.already_exists ≡ false
      → CreatesOnce args (triage_and_create c has_triager w args)
  triage_and_create-CreatesOnce has_triager w args r good h new =
      elim (Bool-cases (is_blank args.severity && has_triager)) [
        | inr direct ↦
            let q = direct_flight has_triager w args direct in
            rw q (
              (severity_of args.severity none).0,
              none,
              from_user args.severity good,
              with_severity w args (severity_of args.severity none).0 none r (rw q at h) new,
            )
        | inl ask ↦ elim (Option-cases (c.triage w (input_of args)).1) [
          | inl x ↦ absurd (let z = rw (failed_triage has_triager w args ask x) at h in cc)
          | inr (t, x) ↦
              let q = triaged_flight has_triager w args t ask x in
              rw q (
                (severity_of args.severity (some t)).0,
                (severity_of args.severity (some t)).1,
                severity_of-SeverityFrom args.severity t (ground (arith, ask)),
                with_severity (c.triage w (input_of args)).0 args
                    (severity_of args.severity (some t)).0 (severity_of args.severity (some t)).1 r
                    (rw q at h) new,
              )
        ]
      ]

  -- If a request is answered as created, then a list of the remediation requests was read right
  -- before the creation, in which those with the target's fingerprint were all over; namespace, kind
  -- and name are valid. The severity
  -- is the user's, one of the five, or the triage's, or "medium" without either. The answer is that
  -- of the creation.
  pub handle_create_rr-CreatesOnce :
      (available has_triager : Bool) (w : World) (args : CreateRrArgs) (r : CreateRrResult)
      → (handle_create_rr c available has_triager w args).1 ≡ ok r
      → r.already_exists ≡ false
      → CreatesOnce (cut args) (handle_create_rr c available has_triager w args)
  unfolding handle_create_rr
  handle_create_rr-CreatesOnce available has_triager w args r h new =
      let o = passes (not available) _ _ _ h in
      let p = passes (not (valid_namespace rules args.namespace)) _ _ _ o.2 in
      let k = passes (is_blank args.kind) _ _ _ p.2 in
      let n = passes (is_blank args.name) _ _ _ k.2 in
      let s =
        passes (not (is_blank args.severity) && not (is_valid_severity args.severity)) _ _ _ n.2 in
      subst (CreatesOnce (cut args)) (sym (o.1 ∙ (p.1 ∙ (k.1 ∙ (n.1 ∙ s.1)))))
        (triage_and_create-CreatesOnce has_triager w (cut args) r s.0 s.2 new)
