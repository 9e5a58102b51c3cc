-- ===== src/Resilience/Breaker/Failures.antt =====
-- What CircuitBreakerTransport (internal/resilience/circuitbreaker.go) hands out.
use kubernaut_apifrontend.Common.{ℕ, ◌≡◌, refl, ◌⊎◌, inl, inr, true, false, List, Bool-cases}
use kubernaut_apifrontend.Resilience.Breaker.{
  Err, open_state, too_many_requests, downstream_error, RoundTrip, response, failed, Outside,
  CircuitBreakerConfig, statuses_of, is_failure_status, judge, guarded, round_trip,
}

-- What gobreaker documents of Execute: it runs the function once and returns its result, or
-- rejects the call with one of its two errors and does not run it.
pub data Executes (o : Outside) (fn : o.World → o.World × RoundTrip) (w : o.World) : Type 0 where
  ran : (u : o.World) → (o.execute fn w).1 ≡ (fn u).1 → Executes o fn w
  is_open : (o.execute fn w).1 ≡ failed open_state → Executes o fn w
  is_busy : (o.execute fn w).1 ≡ failed too_many_requests → Executes o fn w

abbrev pub ExecuteLaw : Outside → Type 0
ExecuteLaw o = (fn : o.World → o.World × RoundTrip) (w : o.World) → Executes o fn w

-- How a round trip can end, by the answer `r` of the inner transport, if it was called.
pub data Ended (failing : List ℕ) (r : RoundTrip) : RoundTrip → Type 0 where
  passed :
      (code : ℕ)
      → r ≡ response code
      → is_failure_status failing code ≡ false
      → Ended failing r (response code)
  turned :
      (code : ℕ)
      → r ≡ response code
      → is_failure_status failing code ≡ true
      → Ended failing r (failed (downstream_error code))
  transport : (x : Err) → r ≡ failed x → Ended failing r (failed x)

module _ (o : Outside) (cfg : CircuitBreakerConfig) where
  open o use {World, next}

  judge-Ended : (r : RoundTrip) → Ended (statuses_of cfg) r (judge o cfg r)
  unfolding judge
  judge-Ended (failed x) = transport x refl
  judge-Ended (response code) = elim (Bool-cases (is_failure_status (statuses_of cfg) code)) [
    | inl bad ↦ rw bad (turned code refl bad)
    | inr good ↦ rw good (passed code refl good)
  ]

  -- A round trip is rejected by the breaker, or it ends as one call of the inner transport does,
  -- where a response with a failing status has become an error that names the status. No failing
  -- status is handed out as a response.
  pub round_trip-Ended :
      ExecuteLaw o
      → (w : World)
      → ((round_trip o cfg w).1 ≡ failed open_state)
        ⊎ (((round_trip o cfg w).1 ≡ failed too_many_requests)
            ⊎ ((u : World) × Ended (statuses_of cfg) (next u).1 (round_trip o cfg w).1))
  unfolding round_trip guarded
  round_trip-Ended law w = elim (law (guarded o cfg) w) [
    | ran u h ↦ inr (inr (u, rw h (judge-Ended (next u).1)))
    | is_open h ↦ inl h
    | is_busy h ↦ inr (inl h)
  ]
