-- ===== src/Tools/Errors/Cases.antt =====
-- To split on what a call of the Kubernetes client or a tool answers (internal/tools).
use kubernaut_apifrontend.Common.{◌≡◌, refl, ◌⊎◌, inl, inr, Bool, true, false, if◌then◌else◌}
use kubernaut_apifrontend.Tools.Errors.{
  KubeError, ToolError, Result, ok, err, Fetched, got, refused,
}

pub Fetched-cases {ℓ} :
    {A : Type ℓ} (r : Fetched A) → ((x : A) × (r ≡ got x)) ⊎ ((x : KubeError) × (r ≡ refused x))
Fetched-cases (got x) = inl (x, refl)
Fetched-cases (refused x) = inr (x, refl)

pub Result-cases {ℓ} :
    {A : Type ℓ} (r : Result A) → ((x : A) × (r ≡ ok x)) ⊎ ((x : ToolError) × (r ≡ err x))
Result-cases (ok x) = inl (x, refl)
Result-cases (err x) = inr (x, refl)

-- A guard that a successful call went past.
pub passes {ℓ} :
    {W A : Type ℓ} (b : Bool) (w : W) (x : ToolError) (rest : W × Result A) {r : A}
    → (if b then (w, err x) else rest).1 ≡ ok r
    → (b ≡ false) × ((if b then (w, err x) else rest) ≡ rest) × (rest.1 ≡ ok r)
passes true w x rest h = cc
passes false w x rest h = (refl, refl, h)
