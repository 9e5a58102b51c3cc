-- ===== src/Config/Settings/Parts.antt =====
-- What the parts of Config.Validate (internal/config/config.go) accept.
use kubernaut_apifrontend.Common.{
  ◌≡◌, ◌≢◌, refl, ◌∙◌, ◌↔◌, ◌⊎◌, inl, inr, String, Bool, true, false, none, some, ◌&&◌, ◌||◌, not,
  arith, Bool-cases, Option-cases, str_eq, eq_iff, if◌then◌else◌,
}
use kubernaut_apifrontend.Common.Int.{ℤ, pos, ◌≤ℤ◌, ltb_ℤ}
use kubernaut_apifrontend.Config.Types.{ConfigEnv, SessionConfig, AuthConfig, SeverityTriageConfig}
use kubernaut_apifrontend.Config.Settings.{
  Check, fails_if, validate_session, validate_url, required_url, optional_file, validate_auth,
  validate_severity_triage,
}
use kubernaut_apifrontend.Config.Settings.Valid.{both_iff, checks}

pub port_iff :
    (p : ℤ) → ((ltb_ℤ p (pos 1) || ltb_ℤ (pos 65535) p) ≡ false) ↔ ((pos 1 ≤ℤ p) × (p ≤ℤ pos 65535))
port_iff p = ((λ h. (ground arith, ground arith)), (λ h. ground arith))

blank_iff : (s : String) → (str_eq s "" ≡ false) ↔ (s ≢ "")
blank_iff s = (
  (λ h e. ground (arith, h, e, eq_iff s "")),
  (λ n. elim (Bool-cases (str_eq s "")) [
    | inl same ↦ absurd (n ((eq_iff s "").0 same))
    | inr other ↦ other
  ]),
)

not_iff : (b : Bool) → (not b ≡ false) ↔ (b ≡ true)
not_iff true = ((λ h. refl), (λ h. refl))
not_iff false = ((λ h. cc), (λ h. cc))

-- A session namespace is named, or no TTL is set.
abbrev pub HasNamespace : SessionConfig → Type 0
HasNamespace s = (s.namespace ≢ "") ⊎ ((s.disconnect_ttl ≤ℤ pos 0) × (s.retention_ttl ≤ℤ pos 0))

pub session_iff : (s : SessionConfig) → (validate_session s ≡ none) ↔ HasNamespace s
unfolding validate_session
session_iff s =
    checks _ _
      (test (str_eq s.namespace "") s.disconnect_ttl s.retention_ttl (blank_iff s.namespace))
  where
    test :
        (b : Bool) (d r : ℤ) {A : Type 0}
        → (b ≡ false) ↔ A
        → ((b && (ltb_ℤ (pos 0) d || ltb_ℤ (pos 0) r)) ≡ false)
          ↔ (A ⊎ ((d ≤ℤ pos 0) × (r ≤ℤ pos 0)))
    test false d r f = ((λ h. inl (f.0 refl)), (λ h. refl))
    test true d r f = (
      (λ h. inr (ground arith, ground arith)),
      (λ h. elim h [ inl a ↦ absurd (let z = f.1 a in cc) | inr k ↦ ground (arith, k.0, k.1) ]),
    )

module _ (e : ConfigEnv) where
  open e use {is_below_zero, is_above_one, scheme_of, accessible}

  -- A URL that parses, with a scheme.
  abbrev pub IsUrl : String → Type 0
  IsUrl raw = (scheme : String) × (scheme_of raw ≡ some scheme) × (scheme ≢ "")

  -- A file that is accessible, where one is named.
  abbrev pub IsFile : String → Type 0
  IsFile path = (path ≡ "") ⊎ (accessible path ≡ true)

  -- An issuer with its JWKS URL, or none, where TLS is not required.
  abbrev pub IsAuth : Bool → AuthConfig → Type 0
  IsAuth tls_required a =
      ((a.issuer_url ≡ "") × (tls_required ≡ false))
      ⊎ ((a.issuer_url ≢ "") × IsUrl a.issuer_url × ((a.jwks_url ≡ "") ⊎ IsUrl a.jwks_url))

  abbrev pub IsTriage : SeverityTriageConfig e → Type 0
  IsTriage st =
      (st.enabled ≡ false)
      ⊎ ((st.prometheus_url ≢ "")
          × IsUrl st.prometheus_url
          × (is_below_zero st.llm_confidence ≡ false)
          × (is_above_one st.llm_confidence ≡ false)
          × IsFile st.prometheus_bearer_token_file)

  pub IsUrl-iff : (field raw : String) → (validate_url e field raw ≡ none) ↔ IsUrl raw
  unfolding validate_url fails_if
  IsUrl-iff field raw = elim (Option-cases (scheme_of raw)) [
    | inl gone ↦
        ((λ h. absurd (ground (arith, gone, h))), (λ k. absurd (let z = k.1 in let y = gone in cc)))
    | inr (scheme, found) ↦ (
      (λ h. (scheme, found, (blank_iff scheme).0 (ground (arith, found, h)))),
      (λ k.
          (let q : k.0 ≡ scheme = (let z = k.1 in cc) in
            let n : str_eq scheme "" ≡ false = (blank_iff scheme).1 (λ x. k.2 (q ∙ x)) in
            ground (arith, found, n))),
    )
  ]

  pub required_iff :
      (field raw : String) → (required_url e field raw ≡ none) ↔ ((raw ≢ "") × IsUrl raw)
  unfolding required_url
  required_iff field raw = both_iff _ _ (checks _ _ (blank_iff raw)) (IsUrl-iff field raw)

  -- A check that is made only where something is named.
  given_iff :
      {A : Type 0} (s : String) (x : Check)
      → (x ≡ none) ↔ A
      → ((if str_eq s "" then none else x) ≡ none) ↔ ((s ≡ "") ⊎ A)
  given_iff s x f = elim (Bool-cases (str_eq s "")) [
    | inl blank ↦ ((λ h. inl ((eq_iff s "").0 blank)), (λ k. ground (arith, blank)))
    | inr given ↦ (
      (λ h. inr (f.0 (ground (arith, given, h)))),
      (λ k. elim k [
        | inl q ↦ absurd ((blank_iff s).0 given q)
        | inr a ↦ (let z = f.1 a in ground (arith, given, z))
      ]),
    )
  ]

  pub IsFile-iff : (field path : String) → (optional_file e field path ≡ none) ↔ IsFile path
  unfolding optional_file
  IsFile-iff field path = given_iff path _ (checks _ _ (not_iff (accessible path)))

  pub IsAuth-iff :
      (tls_required : Bool) (a : AuthConfig)
      → (validate_auth e tls_required a ≡ none) ↔ IsAuth tls_required a
  unfolding validate_auth
  IsAuth-iff tls_required a = elim (Bool-cases (str_eq a.issuer_url "")) [
    | inl blank ↦ (
      (λ h. inl (
        (eq_iff a.issuer_url "").0 blank,
        (checks tls_required "auth.issuerURL" ((λ z. z), (λ z. z))).0 (rw blank at h),
      )),
      (λ k. elim k [
        | inl q ↦ rw blank ((checks tls_required "auth.issuerURL" ((λ z. z), (λ z. z))).1 q.1)
        | inr q ↦ absurd (q.0 ((eq_iff a.issuer_url "").0 blank))
      ]),
    )
    | inr given ↦
        let both =
          both_iff _ _ (IsUrl-iff "auth.issuerURL" a.issuer_url)
            (given_iff a.jwks_url _ (IsUrl-iff "auth.jwksURL" a.jwks_url)) in
        (
          (λ h.
              inr (let z = both.0 (rw given at h) in ((blank_iff a.issuer_url).0 given, z.0, z.1))),
          (λ k. elim k [
            | inl q ↦ absurd ((blank_iff a.issuer_url).0 given q.0)
            | inr q ↦ rw given (both.1 (q.1, q.2))
          ]),
        )
  ]

  confidence_iff : (a b : Bool) → ((a || b) ≡ false) ↔ ((a ≡ false) × (b ≡ false))
  confidence_iff true b = ((λ h. cc), (λ h. cc))
  confidence_iff false b = ((λ h. (refl, h)), (λ h. h.1))

  pub triage_iff :
      (st : SeverityTriageConfig e) → (validate_severity_triage e st ≡ none) ↔ IsTriage st
  unfolding validate_severity_triage
  triage_iff st = elim (Bool-cases st.enabled) [
    | inr off ↦ ((λ h. inl off), (λ k. ground (arith, off)))
    | inl on ↦
        let all = both_iff _ _ (required_iff "severityTriage.prometheusURL" st.prometheus_url) (
          both_iff _ _
            (checks _ "severityTriage.llmConfidence"
              (confidence_iff (is_below_zero st.llm_confidence) (is_above_one st.llm_confidence)))
            (IsFile-iff "severityTriage.prometheusBearerTokenFile"
              st.prometheus_bearer_token_file)) in
        (
          (λ h.
              inr
                (let z = all.0 (ground (arith, on, h)) in (z.0.0, z.0.1, z.1.0.0, z.1.0.1, z.1.1))),
          (λ k. elim k [
            | inl off ↦ absurd (ground (arith, on, off))
            | inr q ↦ (let z = all.1 ((q.0, q.1), ((q.2, q.3), q.4)) in ground (arith, on, z))
          ]),
        )
  ]
