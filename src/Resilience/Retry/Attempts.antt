-- ===== src/Resilience/Retry/Attempts.antt =====
-- How often RetryTransport (internal/resilience/retry.go) sends a request, and what it answers.
use kubernaut_apifrontend.Common.{
  ℕ, zero, suc, ◌+◌, ◌-◌, ◌≤◌, ◌≡◌, refl, ◌⊎◌, inl, inr, Bool, true, false, Option, none, some,
  List, [], ◌∷◌, ◌==◌, ==_iff, arith, Bool-cases, Option-cases,
}
use kubernaut_apifrontend.Common.All.{Any}
use kubernaut_apifrontend.Common.Int.{ℤ, pos, pos_part, ◌≤ℤ◌, ◌<ℤ◌, ltb_ℤ, lt_of_ltb_ℤ, le_of_ltb_ℤ}
use kubernaut_apifrontend.Resilience.Retry.Traffic.{Traffic, round_trip-Traffic}
use kubernaut_apifrontend.Resilience.Retry.{
  Err, RoundTrip, response, failed, Request, Transport, RetryConfig, new_retry_transport,
  is_retryable_status, is_idempotent, can_replay, Run, Once, no_new_body, returned, again, judge,
  refresh, attempt_once, attempts, round_trip, is_retryable_error,
}

-- A response that is handed out has no retryable status.
abbrev pub Final : RetryConfig → RoundTrip → Type 0
Final cfg (response code) = Any (λ s. code ≡ s) cfg.retryable_statuses → ⊥
Final cfg (failed x) = Unit {0}

listed :
    (statuses : List ℕ) (code : ℕ)
    → Any (λ s. code ≡ s) statuses
    → is_retryable_status statuses code ≡ true
unfolding is_retryable_status
listed [] code h = absurd h
listed (s ∷ rest) code (inl same) = rw ((==_iff code s).1 same) refl
listed (s ∷ rest) code (inr more) = elim (Bool-cases (code == s)) [
  | inl here ↦ rw here refl
  | inr other ↦ rw other (listed rest code more)
]

unlisted :
    (statuses : List ℕ) (code : ℕ)
    → is_retryable_status statuses code ≡ false
    → Any (λ s. code ≡ s) statuses
    → ⊥
unlisted statuses code h k = absurd (let z = listed statuses code k in cc)

abbrev Judged : RetryConfig → Once → Type 0
Judged cfg (returned a) = Final cfg a
Judged cfg _ = Unit {0}

judge-Judged : (cfg : RetryConfig) (r : RoundTrip) → Judged cfg (judge cfg r)
unfolding judge
judge-Judged cfg (response code) =
    elim (Bool-cases (is_retryable_status cfg.retryable_statuses code)) [
      | inl bad ↦ rw bad tt
      | inr good ↦ rw good (unlisted cfg.retryable_statuses code good)
    ]
judge-Judged cfg (failed x) = elim (Bool-cases (is_retryable_error x)) [
  | inl bad ↦ rw bad tt
  | inr good ↦ rw good tt
]

module _ (t : Transport) where
  open t use {World, context_err, sleep_with_context}

  -- The calls, `left` of them beyond the next one; the increments; the answer.
  record Limits (cfg : RetryConfig) (req : Request) (left sent counted : ℕ) (r : Run World)
      : Type 0 where
    most : r.sent ≤ sent + suc left
    once : can_replay cfg req ≡ false → r.sent ≤ suc sent
    increments : r.sent + counted ≤ suc (r.counted + sent)
    final : Final cfg r.answer

  -- A run that stops after one more call.
  ended :
      {cfg : RetryConfig} {req : Request} {left sent counted : ℕ} (w : World) (n m : ℕ)
      {a : RoundTrip}
      → Final cfg a
      → n ≤ suc sent
      → n + counted ≤ suc (m + sent)
      → Limits cfg req left sent counted (record { world = w; sent = n; counted = m; answer = a })
  ended w n m final few counts = record {
    most = omega arith;
    once = λ h. few;
    increments = counts;
    final = final;
  }

  attempt_once-Judged :
      (cfg : RetryConfig) (req : Request) (attempt : ℕ) (w : World)
      → Judged cfg (attempt_once t cfg req attempt w).1
  unfolding attempt_once
  attempt_once-Judged cfg req attempt w = elim (Option-cases (refresh t req attempt w).1) [
    | inl k ↦ rw (k, attempt_once) (judge-Judged cfg (t.next (refresh t req attempt w).0).1)
    | inr (x, k) ↦ rw (k, attempt_once) tt
  ]

  attempts-Limits :
      (cfg : RetryConfig) (req : Request) (left attempt sent counted : ℕ) (w : World)
      → Limits cfg req left sent counted (attempts t cfg req left attempt sent counted w)
  unfolding attempts
  attempts-Limits cfg req zero attempt sent counted w =
      go (attempt_once t cfg req attempt w).1 refl (attempt_once-Judged cfg req attempt w)
    where
      go :
          (o : Once)
          → (attempt_once t cfg req attempt w).1 ≡ o
          → Judged cfg o
          → Limits cfg req zero sent counted (attempts t cfg req zero attempt sent counted w)
      go (no_new_body x) k j = simp (k, attempts) (ended _ _ _ tt (omega arith) (omega arith))
      go (returned a) k j = simp (k, attempts) (ended _ _ _ j (omega arith) (omega arith))
      go (again x) k j = simp (k, attempts) (ended _ _ _ tt (omega arith) (omega arith))
  attempts-Limits cfg req (suc left) attempt sent counted w =
      go (attempt_once t cfg req attempt w).1 refl (attempt_once-Judged cfg req attempt w) (
        attempts-Limits cfg req left (suc attempt) (suc sent) (suc counted)
          (sleep_with_context (attempt_once t cfg req attempt w).0).0)
    where
      Goal : Type 0
      Goal =
          Limits cfg req (suc left) sent counted
            (attempts t cfg req (suc left) attempt sent counted w)

      next_one :
          (x : Err)
          → (attempt_once t cfg req attempt w).1 ≡ again x
          → Limits cfg req left (suc sent) (suc counted) (
              attempts t cfg req left
                (suc attempt)
                (suc sent)
                (suc counted)
                (sleep_with_context (attempt_once t cfg req attempt w).0).0)
          → (c : Bool) → can_replay cfg req ≡ c
          → (stop : Option Err) → (sleep_with_context (attempt_once t cfg req attempt w).0).1 ≡ stop
          → Goal
      next_one x k ih false c stop q =
          simp (k, c, attempts) (ended _ _ _ tt (omega arith) (omega arith))
      next_one x k ih true c (some y) q =
          simp (k, c, q, attempts) (ended _ _ _ tt (omega arith) (omega arith))
      next_one x k ih true c none q =
          simp (k, c, q, attempts)
            (record {
              most = omega (arith, ih.most);
              once = λ h. absurd cc;
              increments = omega (arith, ih.increments);
              final = ih.final;
            })

      go :
          (o : Once)
          → (attempt_once t cfg req attempt w).1 ≡ o
          → Judged cfg o
          → Limits cfg req left (suc sent) (suc counted) (
              attempts t cfg req left
                (suc attempt)
                (suc sent)
                (suc counted)
                (sleep_with_context (attempt_once t cfg req attempt w).0).0)
          → Goal
      go (no_new_body x) k j ih = simp (k, attempts) (ended _ _ _ tt (omega arith) (omega arith))
      go (returned a) k j ih = simp (k, attempts) (ended _ _ _ j (omega arith) (omega arith))
      go (again x) k j ih = next_one x k ih (can_replay cfg req) refl _ refl

  pub round_trip-Bounded :
      (cfg : RetryConfig) (req : Request) (w : World)
      → pos 1 ≤ℤ cfg.max_attempts
      → let r = round_trip t cfg req w in
        (r.sent ≤ pos_part cfg.max_attempts) × (r.sent ≤ suc r.counted) × Final cfg r.answer
  unfolding round_trip
  round_trip-Bounded cfg req w h =
      let l = attempts-Limits cfg req (pos_part cfg.max_attempts - 1) 1 0 0 w in
      elim (Option-cases (context_err w)) [
        | inl k ↦ simp (k, round_trip) (omega (arith, l.most), omega (arith, l.increments), l.final)
        | inr (x, k) ↦ simp (k, round_trip) (omega arith, omega arith, tt)
      ]

  pub new_retry_transport-pos :
      (cfg : RetryConfig) → pos 1 ≤ℤ (new_retry_transport cfg).max_attempts
  unfolding new_retry_transport
  new_retry_transport-pos cfg = ground arith

  -- The calls that a configured limit allows.
  abbrev pub IsWithin : ℤ → ℕ → Type 0
  IsWithin limit sent =
      ((pos 1 ≤ℤ limit) × (sent ≤ pos_part limit)) ⊎ ((limit <ℤ pos 1) × (sent ≤ 1))

  clamped :
      (cfg : RetryConfig) (sent : ℕ)
      → sent ≤ pos_part (new_retry_transport cfg).max_attempts
      → IsWithin cfg.max_attempts sent
  unfolding new_retry_transport
  clamped cfg sent h = elim (Bool-cases (ltb_ℤ cfg.max_attempts (pos 1))) [
    | inl low ↦ inr (lt_of_ltb_ℤ cfg.max_attempts (pos 1) low, ground (arith, low, h))
    | inr fine ↦ inl (le_of_ltb_ℤ cfg.max_attempts (pos 1) fine, ground (arith, fine, h))
  ]

  -- For any configuration given to NewRetryTransport: a request leads to some number of calls of the
  -- inner transport, and otherwise to calls of GetBody and of the wait alone; that number is at most
  -- MaxAttempts, or 1 for a limit below 1; each further call is counted before it; and a response that is
  -- handed out has a status that is not among the retryable ones of the configuration.
  pub round_trip-Limits :
      (cfg : RetryConfig) (req : Request) (w : World)
      → let r = round_trip t (new_retry_transport cfg) req w in
        Traffic t w r.sent r.world
        × IsWithin cfg.max_attempts r.sent
        × (r.sent ≤ suc r.counted)
        × Final cfg r.answer
  unfolding new_retry_transport
  round_trip-Limits cfg req w =
      let r = round_trip t (new_retry_transport cfg) req w in
      let (most, counted, final) =
        round_trip-Bounded (new_retry_transport cfg) req w (new_retry_transport-pos cfg) in
      (
        round_trip-Traffic t (new_retry_transport cfg) req w,
        clamped cfg r.sent most,
        counted,
        same_final r.answer final,
      )
    where
      same_final : (a : RoundTrip) → Final (new_retry_transport cfg) a → Final cfg a
      same_final (response code) h = h
      same_final (failed x) h = tt

  can_replay_post :
      (cfg : RetryConfig) (req : Request)
      → cfg.idempotent_only ≡ true
      → is_idempotent req.method ≡ false
      → can_replay cfg req ≡ false
  unfolding can_replay
  can_replay_post cfg req h k = simp (h, k, can_replay) refl

  can_replay_stream :
      (cfg : RetryConfig) (req : Request)
      → req.no_body ≡ false
      → req.has_get_body ≡ false
      → can_replay cfg req ≡ false
  unfolding can_replay
  can_replay_stream cfg req h k = simp (h, k, can_replay) (ground arith)

  -- A request is never sent twice if its method is not idempotent and the configuration wants
  -- idempotent methods only, or if its body cannot be read again.
  pub round_trip_once :
      (cfg : RetryConfig) (req : Request) (w : World)
      → ((cfg.idempotent_only ≡ true) × (is_idempotent req.method ≡ false))
        ⊎ ((req.no_body ≡ false) × (req.has_get_body ≡ false))
      → (round_trip t cfg req w).sent ≤ 1
  unfolding round_trip
  round_trip_once cfg req w h =
      let l = attempts-Limits cfg req (pos_part cfg.max_attempts - 1) 1 0 0 w in
      elim (Option-cases (context_err w)) [
        | inl k ↦ simp (k, round_trip) (l.once (replayed h))
        | inr (x, k) ↦ simp (k, round_trip) (omega arith)
      ]
    where
      replayed :
          ((cfg.idempotent_only ≡ true) × (is_idempotent req.method ≡ false))
            ⊎ ((req.no_body ≡ false) × (req.has_get_body ≡ false))
          → can_replay cfg req ≡ false
      replayed (inl (a, b)) = can_replay_post cfg req a b
      replayed (inr (a, b)) = can_replay_stream cfg req a b
