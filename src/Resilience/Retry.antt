-- ===== src/Resilience/Retry.antt =====
-- RetryTransport of internal/resilience/retry.go. The inner transport, a request's GetBody and the
-- wait between attempts are outside: fields of `Transport`, over a state of the world. The length of
-- the wait is left out, since it is random and made of floats.
pub mod Attempts
pub mod Traffic
use kubernaut_apifrontend.Common.{
  ℕ, zero, suc, String, Bool, true, false, Option, none, some, List, [], ◌∷◌, ◌==◌, if◌then◌else◌,
  str_eq, ltb, not, ◌&&◌, ◌||◌, ◌-◌,
}
use kubernaut_apifrontend.Common.Int.{ℤ, pos, pos_part, ltb_ℤ}

-- The errors that `isRetryableError` looks for, and all others.
pub data Err : Type 0 where
  conn_reset conn_refused eof unexpected_eof : Err
  other_error : String → Err
  retryable_status : ℕ → Err

-- A response stands for its status code.
pub data RoundTrip : Type 0 where
  response : ℕ → RoundTrip
  failed : Err → RoundTrip

pub record Request : Type 0 where
  pub method : String
  -- `Body == nil || Body == http.NoBody`, and `GetBody != nil`.
  pub no_body : Bool
  pub has_get_body : Bool

pub record Transport : Type 1 where
  pub World : Type 0
  pub context_err : World → Option Err
  pub get_body : World → World × Option Err
  pub next : World → World × RoundTrip
  pub sleep_with_context : World → World × Option Err

pub record RetryConfig : Type 0 where
  pub max_attempts : ℤ
  pub retryable_statuses : List ℕ
  pub idempotent_only : Bool

unfoldable pub new_retry_transport : RetryConfig → RetryConfig
new_retry_transport cfg = record cfg {
  max_attempts = if ltb_ℤ cfg.max_attempts (pos 1) then pos 1 else cfg.max_attempts;
}

unfoldable pub is_idempotent : String → Bool
is_idempotent m =
    str_eq m "GET" || str_eq m "HEAD" || str_eq m "OPTIONS" || str_eq m "PUT" || str_eq m "DELETE"

unfoldable pub is_retryable_error : Err → Bool
is_retryable_error conn_reset = true
is_retryable_error conn_refused = true
is_retryable_error eof = true
is_retryable_error unexpected_eof = true
is_retryable_error _ = false

unfoldable pub is_retryable_status : List ℕ → ℕ → Bool
is_retryable_status [] code = false
is_retryable_status (s ∷ rest) code = if code == s then true else is_retryable_status rest code

unfoldable pub can_replay : RetryConfig → Request → Bool
unfolding is_idempotent
can_replay cfg req =
    if cfg.idempotent_only && not (is_idempotent req.method)
    then false
    else req.no_body || req.has_get_body

-- The run of a request: the world, how many times the inner transport was called and the retry
-- counter incremented, and the answer.
pub record Run (World : Type 0) : Type 0 where
  pub world : World
  pub sent : ℕ
  pub counted : ℕ
  pub answer : RoundTrip

-- How an attempt ends: without a body, with an answer that is returned, or with one that is retried.
pub data Once : Type 0 where
  no_new_body : Err → Once
  returned : RoundTrip → Once
  again : Err → Once

unfoldable pub judge : RetryConfig → RoundTrip → Once
unfolding is_retryable_status is_retryable_error
judge cfg (response code) =
    if is_retryable_status cfg.retryable_statuses code
    then again (retryable_status code)
    else returned (response code)
judge cfg (failed x) = if is_retryable_error x then again x else returned (failed x)

module _ (t : Transport) where
  open t use {World, context_err, get_body, next, sleep_with_context}

  -- The new body of an attempt after the first one.
  unfoldable pub refresh : Request → ℕ → World → World × Option Err
  refresh req attempt w = if ltb 1 attempt && req.has_get_body then get_body w else (w, none)

  unfoldable pub attempt_once : RetryConfig → Request → ℕ → World → World × Once
  unfolding refresh judge
  attempt_once cfg req attempt w =
      let (w₁, bad) = refresh req attempt w in
      let (w₂, r) = next w₁ in elim bad [ some x ↦ (w₁, no_new_body x) | none ↦ (w₂, judge cfg r) ]

  -- The loop at the attempt of the given number, with `left` attempts after it; `sent` and
  -- `counted` are the calls and increments so far. The last attempt neither counts nor waits.
  unfoldable pub attempts : RetryConfig → Request → ℕ → ℕ → ℕ → ℕ → World → Run World
  unfolding attempt_once can_replay
  attempts cfg req zero attempt sent counted w =
      let (w', o) = attempt_once cfg req attempt w in
      elim o [
        | no_new_body x ↦ record { world = w'; sent = sent; counted = counted; answer = failed x }
        | returned a ↦ record { world = w'; sent = suc sent; counted = counted; answer = a }
        | again x ↦ record { world = w'; sent = suc sent; counted = counted; answer = failed x }
      ]
  attempts cfg req (suc left) attempt sent counted w =
      let (w', o) = attempt_once cfg req attempt w in
      let (w'', stop) = sleep_with_context w' in
      let rest = attempts cfg req left (suc attempt) (suc sent) (suc counted) w'' in
      elim o [
        | no_new_body x ↦ record { world = w'; sent = sent; counted = counted; answer = failed x }
        | returned a ↦ record { world = w'; sent = suc sent; counted = counted; answer = a }
        | again x ↦
            if not (can_replay cfg req)
            then record { world = w'; sent = suc sent; counted = counted; answer = failed x }
            else elim stop [
              | some y ↦ record {
                world = w'';
                sent = suc sent;
                counted = suc counted;
                answer = failed y;
              }
              | none ↦ rest
            ]
      ]

  unfoldable pub round_trip : RetryConfig → Request → World → Run World
  unfolding attempts
  round_trip cfg req w = elim (context_err w) [
    | some x ↦ record { world = w; sent = 0; counted = 0; answer = failed x }
    | none ↦ attempts cfg req (pos_part cfg.max_attempts - 1) 1 0 0 w
  ]
