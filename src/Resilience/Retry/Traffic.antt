-- ===== src/Resilience/Retry/Traffic.antt =====
-- Which calls a run of RetryTransport (internal/resilience/retry.go) makes of what is outside.
use kubernaut_apifrontend.Common.{
  ℕ, zero, suc, ◌≡◌, refl, inl, inr, Bool, true, false, Option, none, some, ◌&&◌, ltb, Bool-cases,
  Option-cases,
}
use kubernaut_apifrontend.Resilience.Retry.{
  Err, Request, Transport, RetryConfig, can_replay, Once, no_new_body, returned, again, judge,
  response, failed, is_retryable_status, is_retryable_error, RoundTrip, refresh, attempt_once,
  attempts, round_trip,
}

module _ (t : Transport) where
  open t use {World, context_err, get_body, next, sleep_with_context}

  -- From one world to another by calls of GetBody, of the wait, and by a number of calls of the inner
  -- transport.
  pub data Traffic (before : World) : ℕ → World → Type 0 where
    no_calls : Traffic before 0 before
    new_body : {n : ℕ} {w : World} → Traffic before n w → Traffic before n (get_body w).0
    sends : {n : ℕ} {w : World} → Traffic before n w → Traffic before (suc n) (next w).0
    waits : {n : ℕ} {w : World} → Traffic before n w → Traffic before n (sleep_with_context w).0

  -- The number of calls after an attempt.
  abbrev sent_after : ℕ → Once → ℕ
  sent_after n (no_new_body x) = n
  sent_after n (returned a) = suc n
  sent_after n (again x) = suc n

  sent_after-judge :
      (cfg : RetryConfig) (n : ℕ) (r : RoundTrip) → sent_after n (judge cfg r) ≡ suc n
  unfolding judge
  sent_after-judge cfg n (response code) =
      elim (Bool-cases (is_retryable_status cfg.retryable_statuses code)) [
        | inl bad ↦ rw bad refl
        | inr good ↦ rw good refl
      ]
  sent_after-judge cfg n (failed x) = elim (Bool-cases (is_retryable_error x)) [
    | inl bad ↦ rw bad refl
    | inr good ↦ rw good refl
  ]

  refresh-Traffic :
      (before w : World) (req : Request) (attempt n : ℕ)
      → Traffic before n w
      → Traffic before n (refresh t req attempt w).0
  unfolding refresh
  refresh-Traffic before w req attempt n h = elim (Bool-cases (ltb 1 attempt && req.has_get_body)) [
    | inl fresh ↦ rw fresh (new_body h)
    | inr old ↦ rw old h
  ]

  attempt_once-Traffic :
      (cfg : RetryConfig) (req : Request) (before : World) (attempt n : ℕ) (w : World)
      → Traffic before n w
      → Traffic before
          (sent_after n (attempt_once t cfg req attempt w).1)
          (attempt_once t cfg req attempt w).0
  unfolding attempt_once
  attempt_once-Traffic cfg req before attempt n w h =
      let ready = refresh-Traffic before w req attempt n h in
      let r = next (refresh t req attempt w).0 in
      elim (Option-cases (refresh t req attempt w).1) [
        | inl k ↦ rw (k, attempt_once) (rw (sent_after-judge cfg n r.1) (sends ready))
        | inr (x, k) ↦ rw (k, attempt_once) ready
      ]

  attempts-Traffic :
      (cfg : RetryConfig) (req : Request) (before : World) (left attempt sent counted : ℕ)
      (w : World)
      → Traffic before sent w
      → let r = attempts t cfg req left attempt sent counted w in Traffic before r.sent r.world
  unfolding attempts
  attempts-Traffic cfg req before zero attempt sent counted w h =
      go (attempt_once t cfg req attempt w).1 refl
        (attempt_once-Traffic cfg req before attempt sent w h)
    where
      go :
          (o : Once)
          → (attempt_once t cfg req attempt w).1 ≡ o
          → Traffic before
              (sent_after sent (attempt_once t cfg req attempt w).1)
              (attempt_once t cfg req attempt w).0
          → let r = attempts t cfg req zero attempt sent counted w in Traffic before r.sent r.world
      go (no_new_body x) k j = simp (k, attempts) (rw k at j)
      go (returned a) k j = simp (k, attempts) (rw k at j)
      go (again x) k j = simp (k, attempts) (rw k at j)
  attempts-Traffic cfg req before (suc left) attempt sent counted w h =
      go (attempt_once t cfg req attempt w).1 refl
        (attempt_once-Traffic cfg req before attempt sent w h)
        (λ v k. attempts-Traffic cfg req before left (suc attempt) (suc sent) (suc counted) v k)
    where
      Later : Type 0
      Later =
          (v : World)
          → Traffic before (suc sent) v
          → let r = attempts t cfg req left (suc attempt) (suc sent) (suc counted) v in
            Traffic before r.sent r.world

      Goal : Type 0
      Goal =
          let r = attempts t cfg req (suc left) attempt sent counted w in
          Traffic before r.sent r.world

      next_one :
          (x : Err)
          → (attempt_once t cfg req attempt w).1 ≡ again x
          → Traffic before (suc sent) (attempt_once t cfg req attempt w).0
          → Later
          → (c : Bool) → can_replay cfg req ≡ c
          → (stop : Option Err) → (sleep_with_context (attempt_once t cfg req attempt w).0).1 ≡ stop
          → Goal
      next_one x k j later false c stop q = simp (k, c, attempts) j
      next_one x k j later true c (some y) q = simp (k, c, q, attempts) (waits j)
      next_one x k j later true c none q =
          simp (k, c, q, attempts)
            (later (sleep_with_context (attempt_once t cfg req attempt w).0).0 (waits j))

      go :
          (o : Once)
          → (attempt_once t cfg req attempt w).1 ≡ o
          → Traffic before
              (sent_after sent (attempt_once t cfg req attempt w).1)
              (attempt_once t cfg req attempt w).0
          → Later
          → Goal
      go (no_new_body x) k j later = simp (k, attempts) (rw k at j)
      go (returned a) k j later = simp (k, attempts) (rw k at j)
      go (again x) k j later = next_one x k (rw k at j) later (can_replay cfg req) refl _ refl

  pub round_trip-Traffic :
      (cfg : RetryConfig) (req : Request) (w : World)
      → let r = round_trip t cfg req w in Traffic w r.sent r.world
  unfolding round_trip
  round_trip-Traffic cfg req w = elim (Option-cases (context_err w)) [
    | inl k ↦ simp (k, round_trip) (attempts-Traffic cfg req w _ 1 0 0 w no_calls)
    | inr (x, k) ↦ simp (k, round_trip) no_calls
  ]
