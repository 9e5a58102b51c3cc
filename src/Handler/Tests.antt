-- ===== src/Handler/Tests.antt =====
-- A run of internal/handler's tool bridge, and the theorems applied to it.
use kubernaut_apifrontend.Common.{
  ℕ, suc, ◌-◌, ◌≡◌, ◌↔◌, refl, String, Bool, false, none, some, List, [], ◌∷◌, ltb, arith,
  if◌then◌else◌,
}
use kubernaut_apifrontend.Common.Dict.{Dict}
use kubernaut_apifrontend.Common.Int.{pos, pos_part}
use kubernaut_apifrontend.RateLimit.Rate.{RateLib}
use kubernaut_apifrontend.Handler.Bridge.{Caller, BridgeEnv, returned, check_rbac, wrap_tool}
use kubernaut_apifrontend.Handler.Bridge.Rbac.{IsAllowed, check_rbac-iff-IsAllowed}
use kubernaut_apifrontend.Handler.Bridge.Guarded.{
  Guarded, wrap_tool-Guarded, PermitLaw, wrap_tool-held,
}

-- A bucket is the number of its tokens.
abbrev take_token : ℕ → ℕ → ℕ × Bool
take_token now n = (n - 1, ltb 0 n)

abbrev counting : RateLib
counting = record {
  Rate = ℕ;
  Limiter = ℕ;
  per_minute = pos_part;
  new_limiter = λ r burst. pos_part burst;
  allow = take_token;
  set_limit = λ r l. l;
  set_burst = λ burst l. l;
  seconds_per_event = λ r. pos 1;
}

-- The world is the number of permits taken, of two.
acquire_one : ℕ → ℕ × Bool
acquire_one n = (if ltb n 2 then suc n else n, ltb n 2)

abbrev bridge : BridgeEnv counting
bridge = record {
  World = ℕ;
  now = λ w. 0;
  acquire = acquire_one;
  release = λ w. w - 1;
  handle = λ w. (w, returned (some "{}"));
  expired = λ w. false;
}

abbrev roles : Dict (List String)
roles = ("sre", "*" ∷ []) ∷ ("viewer", "kubernaut_watch" ∷ []) ∷ []

abbrev ann : Caller
ann = record { username = "ann"; groups = "viewer" ∷ [] }

check_rbac-iff-IsAllowed_example :
    (check_rbac roles (some ann) "kubernaut_watch" ≡ none)
    ↔ IsAllowed roles (some ann) "kubernaut_watch"
check_rbac-iff-IsAllowed_example = check_rbac-iff-IsAllowed roles "kubernaut_watch" (some ann)

wrap_tool-Guarded_example :
    Guarded bridge roles none 0
      (some ann)
      "kubernaut_watch"
      (wrap_tool bridge roles none 0 (some ann) "kubernaut_watch")
wrap_tool-Guarded_example = wrap_tool-Guarded bridge roles none 0 (some ann) "kubernaut_watch"

permits : PermitLaw bridge (λ w. w)
unfolding acquire_one
permits = record {
  taken = λ w h. ground arith;
  not_taken = λ w h. ground arith;
  given_back = λ w n h. omega (arith, h);
  left_alone = λ w. refl;
}

wrap_tool-held_example : (wrap_tool bridge roles none 1 (some ann) "kubernaut_watch").0 ≡ 1
wrap_tool-held_example =
    wrap_tool-held bridge (λ w. w) permits roles none 1 (some ann) "kubernaut_watch"
