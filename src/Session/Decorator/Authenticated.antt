-- ===== src/Session/Decorator/Authenticated.antt =====
-- Sessions that the decorator (internal/session/decorator.go) lets through carry an identity.
use kubernaut_apifrontend.Common.{
  ◌≡◌, refl, ◌≢◌, ◌⊎◌, inl, inr, Option, none, some, str_eq, eq_iff, Bool-cases, arith,
}
use kubernaut_apifrontend.Session.Crd.{Env, CreateRequest, config, refused, unauthenticated}
use kubernaut_apifrontend.Session.Service.{CrdSessionService}
use kubernaut_apifrontend.Session.Lifecycle.{create}
use kubernaut_apifrontend.Session.Decorator.{
  CreateContext, Identity, create_config_of, decorated_create,
}

module _ (e : Env) where
  open e use {World}

  -- With a create context, a request without a user name is refused and nothing changes, and any
  -- other reaches the service with that user's name and groups in its configuration.
  pub decorated_create_cases :
      (s : CrdSessionService) (w : World) (sc : CreateContext) (identity : Option Identity)
      (req : CreateRequest)
      → (((identity ≡ none) ⊎ ((i : Identity) × (identity ≡ some i) × (i.username ≡ "")))
          × (decorated_create e s w (some sc) identity req ≡ (w, s, refused unauthenticated)))
        ⊎ ((i : Identity) × (identity ≡ some i)
            × (i.username ≢ "")
            × ((create_config_of sc i).user.username ≡ i.username)
            × ((create_config_of sc i).user.groups ≡ i.groups)
            × (decorated_create e s w (some sc) identity req
                ≡ create e s w (record req { create_config = config (create_config_of sc i) })))
  unfolding decorated_create
  decorated_create_cases s w sc none req = inl (inl refl, refl)
  decorated_create_cases s w sc (some i) req = elim (Bool-cases (str_eq i.username "")) [
    | inl empty ↦ inl (inr (i, refl, (eq_iff i.username "").0 empty), ground arith)
    | inr named ↦ inr (
      i,
      refl,
      λ h. let c = (eq_iff i.username "").1 h in cc,
      refl,
      refl,
      simp (named, decorated_create) refl,
    )
  ]
