-- ===== src/Resilience/Breaker.antt =====
-- CircuitBreakerTransport of internal/resilience/circuitbreaker.go. The breaker itself is gobreaker
-- and the request goes to the inner transport: both are outside, parameters over the world. The
-- gauge, the histogram and the callbacks of a state change are left out.
pub mod Failures
use kubernaut_apifrontend.Common.{
  ℕ, suc, ◌/◌, String, Bool, true, false, Option, none, some, List, [], ◌∷◌, ◌==◌, if◌then◌else◌,
  leb,
}

pub data CbState : Type 0 where
  closed half_open opened : CbState

pub data Err : Type 0 where
  transport_error : String → Err
  downstream_error : ℕ → Err
  open_state too_many_requests : Err

-- A response stands for its status code.
pub data RoundTrip : Type 0 where
  response : ℕ → RoundTrip
  failed : Err → RoundTrip

-- gobreaker, with its settings inside: Execute and State; and the inner transport.
pub record Outside : Type 1 where
  pub World : Type 0
  pub execute : (World → World × RoundTrip) → World → World × RoundTrip
  pub state : World → CbState
  pub next : World → World × RoundTrip

abbrev pub default_failure_statuses : List ℕ
default_failure_statuses = 502 ∷ 503 ∷ 504 ∷ []

pub record CircuitBreakerConfig : Type 0 where
  pub failure_threshold : ℕ
  pub failure_statuses : List ℕ

-- The threshold, and ReadyToTrip on the count of consecutive failures.
unfoldable pub failure_threshold_of : CircuitBreakerConfig → ℕ
failure_threshold_of cfg = if cfg.failure_threshold == 0 then 5 else cfg.failure_threshold

unfoldable pub ready_to_trip : CircuitBreakerConfig → ℕ → Bool
unfolding failure_threshold_of
ready_to_trip cfg consecutive_failures = leb (failure_threshold_of cfg) consecutive_failures

-- The statuses that count as failures: the configured ones, if there are any.
unfoldable pub statuses_of : CircuitBreakerConfig → List ℕ
statuses_of cfg = elim cfg.failure_statuses [
  | [] ↦ default_failure_statuses
  | _ ∷ _ ↦ cfg.failure_statuses
]

unfoldable pub is_failure_status : List ℕ → ℕ → Bool
is_failure_status [] code = false
is_failure_status (s ∷ rest) code =
    let later = is_failure_status rest code in if s == code then true else later

-- The low-cardinality label of an outcome.
unfoldable pub status_bucket : RoundTrip → String
status_bucket (failed x) = "error"
status_bucket (response code) =
    let class = code / 100 in
    if class == 2
    then "2xx"
    else (if class == 3
        then "3xx"
        else (if class == 4 then "4xx" else (if class == 5 then "5xx" else "other")))

module _ (o : Outside) (cfg : CircuitBreakerConfig) where
  open o use {World, execute, state, next}

  unfoldable pub judge : RoundTrip → RoundTrip
  unfolding statuses_of is_failure_status
  judge (failed x) = failed x
  judge (response code) =
      if is_failure_status (statuses_of cfg) code
      then failed (downstream_error code)
      else response code

  -- The function that the breaker executes.
  unfoldable pub guarded : World → World × RoundTrip
  unfolding judge
  guarded w = let (w', r) = next w in (w', judge r)

  unfoldable pub round_trip : World → World × RoundTrip
  unfolding guarded
  round_trip w = execute guarded w

  unfoldable pub healthy : World → Bool
  healthy w = elim (state w) [ opened ↦ false | _ ↦ true ]
