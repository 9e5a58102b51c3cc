-- ===== src/Auth/Delegation/Forwarded.antt =====
-- What the delegation (internal/auth/jwt_delegation.go) sends for a user whom the middleware
-- (internal/auth/middleware.go) let through.
use kubernaut_apifrontend.Common.{
  ℕ, ◌<◌, ◌≡◌, ◌≢◌, refl, ap, sym, ◌∙◌, ◌⊎◌, inl, inr, String, true, false, Option, none, some,
  Bool-cases, str_eq, eq_iff,
}
use Prim.Native.String
use Prim.Native.String.append
use kubernaut_apifrontend.Common.Int.{ℤ, pos, ◌<ℤ◌, lt_of_ltb_ℤ, ltb_ℤ_of_lt}
use kubernaut_apifrontend.Auth.Jwks.{JwksEnv}
use kubernaut_apifrontend.Auth.Claims.{UserIdentity, unix_nanos, build_identity}
use kubernaut_apifrontend.Auth.Jwt.{JwtEnv, JwtValidator}
use kubernaut_apifrontend.Auth.Jwt.Grants.{IsVerified, IsReviewed}
use kubernaut_apifrontend.Auth.Middleware.{next_handler, authenticate}
use kubernaut_apifrontend.Auth.Middleware.Passing.{
  Authenticates, passes, no_header, unprintable, other_scheme, bad_token,
  authenticate-Authenticates,
}
use kubernaut_apifrontend.Auth.Delegation.{
  Outbound, token_expired_delegation, sent, is_past, delegate,
}

-- An expiry in seconds that lies before the present time in nanoseconds.
abbrev pub HasEnded : ℕ → Option ℤ → Type 0
HasEnded now none = ⊥
HasEnded now (some s) = unix_nanos s <ℤ pos now

is_past-HasEnded : (now : ℕ) (expiry : Option ℤ) → is_past now expiry ≡ true → HasEnded now expiry
unfolding is_past
is_past-HasEnded now none h = absurd (cc)
is_past-HasEnded now (some s) h = lt_of_ltb_ℤ (unix_nanos s) (pos now) h

not_HasEnded : (now : ℕ) (expiry : Option ℤ) → is_past now expiry ≡ false → HasEnded now expiry → ⊥
unfolding is_past
not_HasEnded now none h k = k
not_HasEnded now (some s) h k =
    absurd (let z = ltb_ℤ_of_lt (unix_nanos s) (pos now) k in let y = sym z ∙ h in cc)

-- The request is refused once the token has expired. Until then it carries the given header, or the
-- one that it had, if the token is empty.
abbrev pub Forwards : ℕ → UserIdentity → Option String → String → Outbound → Type 0
Forwards now id prior header r =
    (HasEnded now id.expires_at × (r ≡ token_expired_delegation))
    ⊎ ((HasEnded now id.expires_at → ⊥)
        × (((header ≢ "Bearer ") × (r ≡ sent (some header)))
            ⊎ ((header ≡ "Bearer ") × (r ≡ sent prior))))

append-ne : (t p : String) → t ≢ "" → String.◌++◌ p t ≢ p
append-ne t String.[] n e = n (sym (append.nil t) ∙ e)
append-ne t (String.◌∷◌ c p) n e =
    let shorter : String.◌∷◌ c (String.◌++◌ p t) ≡ String.◌∷◌ c p = sym (append.cons c p t) ∙ e in
    append-ne t p n cc

has_token : {s t : String} → s ≡ t → str_eq s "" ≡ false → t ≢ ""
has_token {s} same given q = absurd (let y = (eq_iff s "").1 (same ∙ q) in cc)

delegate-Forwards :
    (now : ℕ) (id : UserIdentity) (prior : Option String) (token header : String)
    → id.raw_token ≡ token
    → header ≡ String.◌++◌ "Bearer " token
    → Forwards now id prior header (delegate now (some id) prior)
unfolding delegate
delegate-Forwards now id prior token header same is_header =
    elim (Bool-cases (is_past now id.expires_at)) [
      | inl late ↦ inl (is_past-HasEnded now id.expires_at late, rw late refl)
      | inr early ↦ elim (Bool-cases (str_eq id.raw_token "")) [
        | inl blank ↦
            let empty : token ≡ "" = sym same ∙ (eq_iff id.raw_token "").0 blank in
            inr (
              not_HasEnded now id.expires_at early,
              inr (is_header ∙ rw empty refl, rw early (rw blank refl)),
            )
        | inr given ↦ inr (
          not_HasEnded now id.expires_at early,
          inl (
            (λ e. absurd (append-ne token "Bearer " (has_token same given) (sym is_header ∙ e))),
            rw early (rw given (rw is_header (rw same refl))),
          ),
        )
      ]
    ]

module _ {e : JwksEnv} (j : JwtEnv e) where
  granted_token :
      (v : JwtValidator j) (w : e.World) (token : String) (id : UserIdentity)
      → IsVerified j v w token id ⊎ IsReviewed j v w token id
      → id.raw_token ≡ token
  unfolding build_identity
  granted_token v w token id (inl k) = ap (λ (x : UserIdentity). x.raw_token) k.identity
  granted_token v w token id (inr k) = ap (λ (x : UserIdentity). x.raw_token) k.identity

  -- What the middleware let through is forwarded as it came: for the identity in the next handler's
  -- context, an outbound request carries the Authorization header of the inbound one as long as the
  -- token has not expired, and is refused afterwards. Only for an empty token is the outbound header
  -- left as it was.
  pub authenticate-Forwards :
      (random : ℕ) (v : JwtValidator j) (w : e.World) (header : String) (id : UserIdentity)
      (deadline : Option ℤ)
      → random < 10
      → (authenticate j random v w header).2.reply ≡ next_handler id deadline
      → (now : ℕ) (prior : Option String)
      → Forwards now id prior header (delegate now (some id) prior)
  authenticate-Forwards random v w header id deadline small entered now prior =
      go (authenticate-Authenticates j random v w header small)
    where
      go :
          Authenticates j v w header (authenticate j random v w header).2
          → Forwards now id prior header (delegate now (some id) prior)
      go (passes token id' deadline' is_header plain _ k reply _ _) =
          let same : id' ≡ id = (let z = sym reply ∙ entered in cc) in
          delegate-Forwards now id prior token header
            (sym (ap (λ (x : UserIdentity). x.raw_token) same) ∙ granted_token v w token id' k)
            is_header
      go (no_header _ reply _) = absurd (let z = sym reply ∙ entered in cc)
      go (unprintable _ reply _) = absurd (let z = sym reply ∙ entered in cc)
      go (other_scheme _ _ _ reply _) = absurd (let z = sym reply ∙ entered in cc)
      go (bad_token _ _ _ _ _ reply _) = absurd (let z = sym reply ∙ entered in cc)
