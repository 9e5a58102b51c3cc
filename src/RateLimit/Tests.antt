-- ===== src/RateLimit/Tests.antt =====
-- Runs of internal/ratelimit with buckets that are never refilled, and the theorems applied to them.
use kubernaut_apifrontend.Common.{
  ℕ, ◌+◌, ◌-◌, ◌≤◌, String, ◌≡◌, Bool, true, Option, some, List, [], ◌∷◌, arith, ltb,
}
use kubernaut_apifrontend.Common.Int.{pos, pos_part, ◌≤ℤ◌}
use kubernaut_apifrontend.RateLimit.Rate.{RateLib, BucketLaw}
use kubernaut_apifrontend.RateLimit.Ip.{IpLimiter, PerIpConfig}
use kubernaut_apifrontend.RateLimit.User.{
  UserLimiter, PerUserConfig, new_user_limiter, session_count,
}
use kubernaut_apifrontend.RateLimit.User.Slots.{
  Call, acquire, release, tick, held, run, session_count-run,
}
use kubernaut_apifrontend.RateLimit.Semaphore.{Act, new_llm_semaphore, start}
use kubernaut_apifrontend.RateLimit.Semaphore
use kubernaut_apifrontend.RateLimit.Semaphore.Bound.{llm_semaphore_exact}

-- A bucket is the number of its tokens; a rate is a whole number, at least 1.
abbrev take_token : ℕ → ℕ → ℕ × Bool
take_token now n = (n - 1, ltb 0 n)

abbrev counting : RateLib
counting = record {
  Rate = ℕ;
  Limiter = ℕ;
  per_minute = pos_part;
  new_limiter = λ r burst. pos_part burst;
  allow = take_token;
  set_limit = λ r l. l;
  set_burst = λ burst l. l;
  seconds_per_event = λ r. pos 1;
}

counting-BucketLaw : BucketLaw counting
counting-BucketLaw = record {
  tokens = λ now n. n;
  fresh = λ now r burst. omega arith;
  taken = taken;
  kept = λ now n. omega arith;
}
  where
    taken : (now n : ℕ) → ltb 0 n ≡ true → (n - 1) + 1 ≤ n
    taken now n h = ground arith

abbrev per_ip : PerIpConfig counting
per_ip = record {
  requests_per_second = 1;
  burst = pos 2;
  cleanup_interval = pos 0;
  max_age = pos 0;
}

abbrev addresses : List String
addresses = "10.0.0.1" ∷ "10.0.0.1" ∷ "10.0.0.2" ∷ "10.0.0.1" ∷ []

abbrev ip_limiter : IpLimiter counting
ip_limiter = record { limiters = []; cfg = per_ip }

abbrev per_user : PerUserConfig
per_user = record {
  requests_per_minute = pos 60;
  max_concurrent_sessions = pos 2;
  tool_calls_per_minute = pos 60;
  cleanup_interval = pos 0;
  max_age = pos 0;
}

abbrev calls : List Call
calls =
    acquire 1 "kim"
    ∷ acquire 2 "lee"
    ∷ acquire 3 "kim"
    ∷ tick 90
    ∷ acquire 4 "kim"
    ∷ release "kim"
    ∷ []

session_count-run_example :
    (session_count counting (run counting calls (new_user_limiter counting per_user)) "kim"
      ≡ pos (held (pos 2) "kim" calls 0))
    × (held (pos 2) "kim" calls 0 ≤ 2)
session_count-run_example = session_count-run counting per_user "kim" calls (omega arith)

abbrev fetch_trace : List (ℕ × String)
fetch_trace = (0, "idp") ∷ (5, "idp") ∷ (31000000000, "idp") ∷ []

-- Both goroutines read the counter before either swaps; one of them must read it again.
abbrev race : List Act
race =
    Act.acquire 0
    ∷ Act.acquire 1
    ∷ Act.step 0
    ∷ Act.step 1
    ∷ Act.step 0
    ∷ Act.step 1
    ∷ Act.step 1
    ∷ []

llm_semaphore_exact_example :
    (pos 0 ≤ℤ (Semaphore.run (new_llm_semaphore (pos 1)) race start).current)
    × ((Semaphore.run (new_llm_semaphore (pos 1)) race start).current ≤ℤ new_llm_semaphore (pos 1))
    × (pos_part (Semaphore.run (new_llm_semaphore (pos 1)) race start).current
          + (Semaphore.run (new_llm_semaphore (pos 1)) race start).released
        ≡ (Semaphore.run (new_llm_semaphore (pos 1)) race start).acquired)
llm_semaphore_exact_example = llm_semaphore_exact (pos 1) race

abbrev user_limiter : UserLimiter counting
user_limiter = record { cfg = per_user; requests = []; sessions = []; tools = [] }

abbrev kim : Option String
kim = some "kim"
