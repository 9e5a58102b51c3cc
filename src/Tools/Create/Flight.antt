-- ===== src/Tools/Create/Flight.antt =====
-- The creation that singleflight runs, right after its check (internal/tools/af_create_rr.go,
-- af_check_existing_rr.go).
use kubernaut_apifrontend.Common.{
  ◌≡◌, refl, ap, ◌∙◌, inl, inr, String, true, false, Option, none, some, List, [], ◌∷◌, not, arith,
  Bool-cases, str_eq, eq_iff,
}
use kubernaut_apifrontend.Common.All.{All}
use kubernaut_apifrontend.Validate.{valid_namespace, valid_kind, is_blank}
use kubernaut_apifrontend.Tools.Errors.{ToolError, Result, ok, err, got, is_terminal_phase}
use kubernaut_apifrontend.Tools.Watch.Ends.{IsTerminal, is_terminal_phase-iff-IsTerminal}
use kubernaut_apifrontend.Tools.Remediation.{RemediationRequest, RrApi}
use kubernaut_apifrontend.Tools.Create.{
  CreateApi, CreateRrArgs, CreateRrResult, TriageResult, CheckExistingRrResult, CheckExistingRrArgs,
  find_live, rr_fingerprint, checked_existing, handle_check_existing_rr, new_rr, created_result,
  create_new, existing_result, flight,
}
use kubernaut_apifrontend.Tools.Errors.Cases.{Fetched-cases, Result-cases, passes}

-- A request with another fingerprint, or one that is over.
abbrev pub IsOver : String → RemediationRequest → Type 0
IsOver fingerprint item = item.signal_fingerprint ≡ fingerprint → IsTerminal item.overall_phase

find_live-none :
    (fp : String) (items : List RemediationRequest)
    → find_live fp items ≡ none
    → All (IsOver fp) items
unfolding find_live
find_live-none fp [] h = tt
find_live-none fp (item ∷ more) h = elim (Bool-cases (str_eq item.signal_fingerprint fp)) [
  | inr other ↦ (
    (λ e. absurd (ground (arith, eq_iff item.signal_fingerprint fp))),
    find_live-none fp more (ground arith),
  )
  | inl same ↦
      let over : is_terminal_phase item.overall_phase ≡ true = ground arith in
      (
        (λ _. (is_terminal_phase-iff-IsTerminal item.overall_phase).0 over),
        find_live-none fp more (ground arith),
      )
]

none_found : (o : Option RemediationRequest) → (checked_existing o).exists ≡ false → o ≡ none
unfolding checked_existing
none_found none h = refl
none_found (some x) h = cc

module _ {api : RrApi} (c : CreateApi api) where
  open api use {World, rules, list_rr}
  open c use {create_rr}

  -- What a successful check read, and found.
  record Checked (w : World) (args : CheckExistingRrArgs) (r : World × Result CheckExistingRrResult)
      : Type 0 where
    items : List RemediationRequest
    listed : (list_rr w args.namespace).1 ≡ got items
    valid_ns : valid_namespace rules args.namespace ≡ true
    valid_kind' : valid_kind args.kind ≡ true
    named : is_blank args.name ≡ false
    answers : r ≡ (
      (list_rr w args.namespace).0,
      ok (checked_existing (find_live (rr_fingerprint c args.namespace args.kind args.name) items)),
    )

  check-Checked :
      (w : World) (args : CheckExistingRrArgs) (found : CheckExistingRrResult)
      → (handle_check_existing_rr c true w args).1 ≡ ok found
      → Checked w args (handle_check_existing_rr c true w args)
  unfolding handle_check_existing_rr
  check-Checked w args found h =
      let p = passes (not (valid_namespace rules args.namespace)) _ _ _ h in
      let q = passes (not (valid_kind args.kind)) _ _ _ p.2 in
      let s = passes (is_blank args.name) _ _ _ q.2 in
      elim (Fetched-cases (list_rr w args.namespace).1) [
        | inr (x, e) ↦ absurd (let z = rw e at s.2 in cc)
        | inl (items, e) ↦ record {
          items = items;
          listed = e;
          valid_ns = ground (arith, p.0);
          valid_kind' = ground (arith, q.0);
          named = s.0;
          answers = p.1 ∙ (q.1 ∙ (s.1 ∙ rw e refl));
        }
      ]

  -- A creation, right after a list with no live request for the target.
  pub record Creates (args : CreateRrArgs) (severity : String) (used : Option TriageResult)
      (r : World × Result CreateRrResult) : Type 0 where
    pub valid_ns : valid_namespace rules args.namespace ≡ true
    pub valid_kind' : valid_kind args.kind ≡ true
    pub named : is_blank args.name ≡ false
    pub earlier : World
    pub items : List RemediationRequest
    pub listed : (list_rr earlier args.namespace).1 ≡ got items
    pub over : All (IsOver (rr_fingerprint c args.namespace args.kind args.name)) items
    pub created : RemediationRequest
    pub is_created :
        (create_rr (list_rr earlier args.namespace).0 args.namespace (
          new_rr c (list_rr earlier args.namespace).0 (record args { severity = severity }) used)).1
        ≡ got created
    pub result :
        r
        ≡ create_new c (list_rr earlier args.namespace).0 (record args { severity = severity }) used

  abbrev pub checked : World → CreateRrArgs → World × Result CheckExistingRrResult
  checked w args =
      handle_check_existing_rr c true w
        (record { namespace = args.namespace; kind = args.kind; name = args.name })

  flight_err :
      (w : World) (args : CreateRrArgs) (t : Option TriageResult) (x : ToolError)
      → (checked w args).1 ≡ err x
      → flight c w args t ≡ ((checked w args).0, err x)
  unfolding flight
  flight_err w args t x e = rw (e, flight)

  pub flight_found :
      (w : World) (args : CreateRrArgs) (t : Option TriageResult) (found : CheckExistingRrResult)
      → (checked w args).1 ≡ ok found
      → found.exists ≡ true
      → flight c w args t ≡ ((checked w args).0, ok (existing_result found))
  unfolding flight
  flight_found w args t found e live = rw (e, flight) (rw (live, flight))

  flight_new :
      (w : World) (args : CreateRrArgs) (t : Option TriageResult) (found : CheckExistingRrResult)
      → (checked w args).1 ≡ ok found
      → found.exists ≡ false
      → flight c w args t ≡ create_new c (checked w args).0 args t
  unfolding flight
  flight_new w args t found e gone = rw (e, flight) (rw (gone, flight))

  new_created :
      (w : World) (args : CreateRrArgs) (t : Option TriageResult) (r : CreateRrResult)
      → (create_new c w args t).1 ≡ ok r
      → (created : RemediationRequest) × ((create_rr w args.namespace (new_rr c w args t)).1
          ≡ got created)
        × (r ≡ created_result args t created)
  unfolding create_new
  new_created w args t r h =
      elim (Fetched-cases (create_rr w args.namespace (new_rr c w args t)).1) [
        | inl (created, e) ↦ (created, e, (let z = rw e at h in cc))
        | inr (x, e) ↦ absurd (let z = rw e at h in cc)
      ]

  pub flight-Creates :
      (w : World) (args : CreateRrArgs) (t : Option TriageResult) (r : CreateRrResult)
      → (flight c w args t).1 ≡ ok r
      → r.already_exists ≡ false
      → Creates args args.severity t (flight c w args t)
  flight-Creates w args t r h new = elim (Result-cases (checked w args).1) [
    | inr (x, e) ↦ absurd (let z = rw (flight_err w args t x e) at h in cc)
    | inl (found, e) ↦ elim (Bool-cases found.exists) [
      | inl live ↦
          absurd
            (let z = rw (flight_found w args t found e live) at h in unfold existing_result in cc)
      | inr gone ↦
          let k = check-Checked w _ found e in
          let q : found
              ≡ checked_existing
                  (find_live (rr_fingerprint c args.namespace args.kind args.name) k.items) =
            let z : (checked w args).1
                ≡ ok (
                    checked_existing
                      (find_live (rr_fingerprint c args.namespace args.kind args.name) k.items)) =
              ap (λ (x : World × Result CheckExistingRrResult). x.1) k.answers in
            cc in
          let at : (checked w args).0 ≡ (list_rr w args.namespace).0 =
            ap (λ (x : World × Result CheckExistingRrResult). x.0) k.answers in
          let made : flight c w args t ≡ create_new c (list_rr w args.namespace).0 args t =
            flight_new w args t found e gone ∙ ap (λ v. create_new c v args t) at in
          let n = new_created (list_rr w args.namespace).0 args t r (rw made at h) in
          record {
            valid_ns = k.valid_ns;
            valid_kind' = k.valid_kind';
            named = k.named;
            earlier = w;
            items = k.items;
            listed = k.listed;
            over = find_live-none _ k.items (none_found _ (rw q at gone));
            created = n.0;
            is_created = n.1;
            result = made;
          }
    ]
  ]
