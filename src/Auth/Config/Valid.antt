-- ===== src/Auth/Config/Valid.antt =====
-- What Config.Validate (internal/auth/config.go) accepts.
use kubernaut_apifrontend.Common.{
  ℕ, ◌≤◌, ◌≡◌, ◌≢◌, refl, ap, ◌∙◌, ◌↔◌, ◌⊎◌, inl, inr, String, Bool, true, false, Option, none,
  some, List, [], ◌∷◌, arith, Bool-cases, Option-cases, length, codes, str_eq, eq_iff, ltb_false→le,
  le→ltb_false,
}
use kubernaut_apifrontend.Common.All.{All}
use kubernaut_apifrontend.Auth.Config.{
  ValidationRule, ProviderConfig, Config, max_issuer_url_len, has_null, has_empty_expression,
  is_member, no_entries, validate_issuer_url, validate_provider, validate_providers,
  validate_config,
}

module _ (scheme_of : String → Option String) (insecure : Bool) where
  -- A URL of at most 4096 bytes, none of them null, with the scheme https, or http where insecure
  -- issuers are allowed.
  pub record IsIssuerUrl (url : String) : Type 0 where
    pub short : length (codes url) ≤ max_issuer_url_len
    pub no_null : All (λ b. b ≢ 0) (codes url)
    pub secure :
        (scheme_of url ≡ some "https") ⊎ ((scheme_of url ≡ some "http") × (insecure ≡ true))

  pub record IsProvider (p : ProviderConfig) : Type 0 where
    pub named : p.issuer.url ≢ ""
    pub issuer : IsIssuerUrl p.issuer.url
    pub audiences : p.issuer.audiences ≢ []
    pub jwks : (p.issuer.jwks_url ≡ "") ⊎ IsIssuerUrl p.issuer.jwks_url
    pub rules : All (λ (r : ValidationRule). r.expression ≢ "") p.user_validation_rules

has_null-All : (bs : List ℕ) → has_null bs ≡ false → All (λ b. b ≢ 0) bs
unfolding has_null
has_null-All [] h = tt
has_null-All (b ∷ more) h = ((λ e. ground arith), has_null-All more (ground arith))

All-has_null : (bs : List ℕ) → All (λ b. b ≢ 0) bs → has_null bs ≡ false
unfolding has_null
All-has_null [] h = refl
All-has_null (b ∷ more) h = ground (arith, h.0, All-has_null more h.1)

has_empty-All :
    (rs : List ValidationRule)
    → has_empty_expression rs ≡ false
    → All (λ (r : ValidationRule). r.expression ≢ "") rs
unfolding has_empty_expression
has_empty-All [] h = tt
has_empty-All (r ∷ more) h =
    ((λ e. ground (arith, eq_iff r.expression "")), has_empty-All more (ground arith))

All-has_empty :
    (rs : List ValidationRule)
    → All (λ (r : ValidationRule). r.expression ≢ "") rs
    → has_empty_expression rs ≡ false
unfolding has_empty_expression
All-has_empty [] h = refl
All-has_empty (r ∷ more) h = ground (arith, h.0, eq_iff r.expression "", All-has_empty more h.1)

is_member-All : (s : String) (xs : List String) → is_member s xs ≡ false → All (λ x. x ≢ s) xs
unfolding is_member
is_member-All s [] h = tt
is_member-All s (x ∷ more) h =
    ((λ e. ground (arith, eq_iff x s)), is_member-All s more (ground arith))

All-is_member : (s : String) (xs : List String) → All (λ x. x ≢ s) xs → is_member s xs ≡ false
unfolding is_member
All-is_member s [] h = refl
All-is_member s (x ∷ more) h = ground (arith, h.0, eq_iff x s, All-is_member s more h.1)

module _ (scheme_of : String → Option String) (insecure : Bool) where
  url_accepted :
      (url : String)
      → validate_issuer_url scheme_of insecure url ≡ none
      → IsIssuerUrl scheme_of insecure url
  unfolding validate_issuer_url
  url_accepted url h = record {
    short = ltb_false→le _ _ (ground arith);
    no_null = has_null-All (codes url) (ground arith);
    secure = elim (Option-cases (scheme_of url)) [
      | inl gone ↦ absurd (ground arith)
      | inr (s, found) ↦ elim (Bool-cases (str_eq s "https")) [
        | inl tls ↦ inl (found ∙ ap some ((eq_iff s "https").0 tls))
        | inr other ↦
            let plain : str_eq s "http" ≡ true = ground arith in
            inr (found ∙ ap some ((eq_iff s "http").0 plain), ground arith)
      ]
    ];
  }

  accepted_url :
      (url : String)
      → IsIssuerUrl scheme_of insecure url
      → validate_issuer_url scheme_of insecure url ≡ none
  unfolding validate_issuer_url
  accepted_url url v =
      let a = le→ltb_false max_issuer_url_len (length (codes url)) v.short in
      let b = All-has_null (codes url) v.no_null in
      elim v.secure [
        | inl s ↦ rw a (rw b (rw (s, validate_issuer_url) refl))
        | inr s ↦ rw a (rw b (rw (s.0, validate_issuer_url) (rw s.1 refl)))
      ]

abbrev NotIn : List String → ProviderConfig → Type 0
NotIn seen p = All (λ x. x ≢ p.issuer.url) seen

-- No two providers have the same issuer URL.
abbrev pub DistinctIssuers : List ProviderConfig → Type 0
DistinctIssuers [] = Unit
DistinctIssuers (p ∷ more) =
    All (λ (q : ProviderConfig). p.issuer.url ≢ q.issuer.url) more × DistinctIssuers more

split_seen :
    (url : String) (seen : List String) (ps : List ProviderConfig)
    → All (NotIn (url ∷ seen)) ps
    → All (λ (q : ProviderConfig). url ≢ q.issuer.url) ps × All (NotIn seen) ps
split_seen url seen [] h = (tt, tt)
split_seen url seen (p ∷ more) h =
    let ih = split_seen url seen more h.1 in ((h.0.0, ih.0), (h.0.1, ih.1))

join_seen :
    (url : String) (seen : List String) (ps : List ProviderConfig)
    → All (λ (q : ProviderConfig). url ≢ q.issuer.url) ps
    → All (NotIn seen) ps
    → All (NotIn (url ∷ seen)) ps
join_seen url seen [] a b = tt
join_seen url seen (p ∷ more) a b = ((a.0, b.0), join_seen url seen more a.1 b.1)

none_seen : (ps : List ProviderConfig) → All (NotIn []) ps
none_seen [] = tt
none_seen (p ∷ more) = (tt, none_seen more)

no_entries-nil {ℓ} : {A : Type ℓ} (xs : List A) → no_entries xs ≡ false → xs ≢ []
unfolding no_entries
no_entries-nil [] h e = cc
no_entries-nil (x ∷ more) h e = cc

nil-no_entries {ℓ} : {A : Type ℓ} (xs : List A) → xs ≢ [] → no_entries xs ≡ false
unfolding no_entries
nil-no_entries [] h = absurd (h refl)
nil-no_entries (x ∷ more) h = refl

module _ (scheme_of : String → Option String) (insecure : Bool) where
  validate_provider-IsProvider :
      (seen : List String) (p : ProviderConfig)
      → validate_provider scheme_of insecure seen p ≡ none
      → IsProvider scheme_of insecure p × NotIn seen p
  unfolding validate_provider
  validate_provider-IsProvider seen p h = (
    record {
      named = λ e. ground (arith, eq_iff p.issuer.url "");
      issuer = url_accepted scheme_of insecure p.issuer.url (ground arith);
      audiences = no_entries-nil p.issuer.audiences (ground arith);
      jwks = elim (Bool-cases (str_eq p.issuer.jwks_url "")) [
        | inl e ↦ inl ((eq_iff p.issuer.jwks_url "").0 e)
        | inr e ↦ inr (url_accepted scheme_of insecure p.issuer.jwks_url (ground arith))
      ];
      rules = has_empty-All p.user_validation_rules (ground arith);
    },
    is_member-All p.issuer.url seen (ground arith),
  )

  accepted_provider :
      (seen : List String) (p : ProviderConfig)
      → IsProvider scheme_of insecure p
      → NotIn seen p
      → validate_provider scheme_of insecure seen p ≡ none
  unfolding validate_provider
  accepted_provider seen p v n =
      let jwks : (str_eq p.issuer.jwks_url "" ≡ true)
          ⊎ ((str_eq p.issuer.jwks_url "" ≡ false)
              × (validate_issuer_url scheme_of insecure p.issuer.jwks_url ≡ none)) =
        elim (Bool-cases (str_eq p.issuer.jwks_url "")) [
          | inl e ↦ inl e
          | inr e ↦ inr (
            e,
            (elim v.jwks [
              | inl same ↦ absurd (ground (arith, e, same, eq_iff p.issuer.jwks_url ""))
              | inr url ↦ accepted_url scheme_of insecure p.issuer.jwks_url url
            ]),
          )
        ] in
      ground (
        arith,
        v.named,
        eq_iff p.issuer.url "",
        accepted_url scheme_of insecure p.issuer.url v.issuer,
        nil-no_entries p.issuer.audiences v.audiences,
        jwks,
        All-has_empty p.user_validation_rules v.rules,
        All-is_member p.issuer.url seen n,
      )

  providers_accepted :
      (seen : List String) (ps : List ProviderConfig)
      → validate_providers scheme_of insecure seen ps ≡ none
      → All (IsProvider scheme_of insecure) ps × DistinctIssuers ps × All (NotIn seen) ps
  unfolding validate_providers
  providers_accepted seen [] h = (tt, tt, tt)
  providers_accepted seen (p ∷ more) h =
      let first : validate_provider scheme_of insecure seen p ≡ none = ground arith in
      let rest : validate_providers scheme_of insecure (p.issuer.url ∷ seen) more ≡ none =
        ground arith in
      let a = validate_provider-IsProvider seen p first in
      let b = providers_accepted (p.issuer.url ∷ seen) more rest in
      let c = split_seen p.issuer.url seen more b.2 in ((a.0, b.0), (c.0, b.1), (a.1, c.1))

  accepted_providers :
      (seen : List String) (ps : List ProviderConfig)
      → All (IsProvider scheme_of insecure) ps
      → DistinctIssuers ps
      → All (NotIn seen) ps
      → validate_providers scheme_of insecure seen ps ≡ none
  unfolding validate_providers
  accepted_providers seen [] v d n = refl
  accepted_providers seen (p ∷ more) v d n =
      rw (accepted_provider seen p v.0 n.0, validate_providers)
        (accepted_providers (p.issuer.url ∷ seen) more v.1 d.1
          (join_seen p.issuer.url seen more d.0 n.1))

-- A configuration is accepted exactly if every provider has a non-empty issuer URL, an audience, no
-- empty rule, an acceptable issuer URL and JWKS URL, where it has one (at most 4096 bytes, none of
-- them null, with https, or http where that is allowed), and no two providers have the same issuer.
pub validate_config-iff-IsProvider :
    (scheme_of : String → Option String) (c : Config)
    → (validate_config scheme_of c ≡ none)
      ↔ (All (IsProvider scheme_of c.allow_insecure_issuers) c.jwt × DistinctIssuers c.jwt)
unfolding validate_config
validate_config-iff-IsProvider scheme_of c = (
  (λ h. (let r = providers_accepted scheme_of c.allow_insecure_issuers [] c.jwt h in (r.0, r.1))),
  (λ h. accepted_providers scheme_of c.allow_insecure_issuers [] c.jwt h.0 h.1 (none_seen c.jwt)),
)
