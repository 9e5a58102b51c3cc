-- ===== src/Resilience/Tests.antt =====
-- Runs of internal/resilience, and the theorems applied to them.
use kubernaut_apifrontend.Common.{
  ℕ, suc, ◌≤◌, ◌≡◌, refl, true, false, none, [], ◌∷◌, if◌then◌else◌, ltb,
}
use kubernaut_apifrontend.Common.Int.{pos}
use kubernaut_apifrontend.Resilience.Retry.{
  Request, Transport, RetryConfig, new_retry_transport, is_idempotent,
}
use kubernaut_apifrontend.Resilience.Retry
use kubernaut_apifrontend.Resilience.Retry.Traffic.{Traffic}
use kubernaut_apifrontend.Resilience.Retry.Attempts.{Final, IsWithin, round_trip-Limits}
use kubernaut_apifrontend.Resilience.Breaker.{Outside, CircuitBreakerConfig, response, closed}
use kubernaut_apifrontend.Resilience.Breaker.Failures.{ran, ExecuteLaw}

-- A server that answers 503 until the third call.
abbrev recovering : Transport
recovering = record {
  World = ℕ;
  context_err = λ w. none;
  get_body = λ w. (w, none);
  next = λ w. (suc w, Retry.response (if ltb w 2 then 503 else 200));
  sleep_with_context = λ w. (w, none);
}

abbrev cfg : RetryConfig
cfg = record { max_attempts = pos 3; retryable_statuses = 502 ∷ 503 ∷ []; idempotent_only = true }

abbrev get_request : Request
get_request = record { method = "GET"; no_body = true; has_get_body = false }

abbrev post_request : Request
post_request = record get_request { method = "POST" }

abbrev third : Retry.Run ℕ
third = Retry.round_trip recovering (new_retry_transport cfg) get_request 0

third_answer : (third.sent ≡ 3) × (third.answer ≡ Retry.response 200)
unfolding Retry.round_trip new_retry_transport
third_answer = (refl, refl)

round_trip-Limits_example :
    Traffic recovering 0 third.sent third.world
    × IsWithin recovering cfg.max_attempts third.sent
    × (third.sent ≤ suc third.counted)
    × Final cfg third.answer
round_trip-Limits_example = round_trip-Limits recovering cfg get_request 0

-- A breaker that never opens.
abbrev always : Outside
always = record {
  World = ℕ;
  execute = λ fn w. fn w;
  state = λ w. closed;
  next = λ w. (suc w, response 503);
}

always-ExecuteLaw : ExecuteLaw always
always-ExecuteLaw fn w = ran w refl

abbrev breaker : CircuitBreakerConfig
breaker = record { failure_threshold = 0; failure_statuses = [] }
