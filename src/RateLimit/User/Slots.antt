-- ===== src/RateLimit/User/Slots.antt =====
-- The session slots of UserLimiter (internal/ratelimit/ratelimit.go) against a counter per user.
use kubernaut_apifrontend.Common.{
  ℕ, suc, ◌-◌, ◌≤◌, ◌<◌, String, ◌≡◌, refl, subst, sym, ◌∙◌, inl, inr, false, ◌&&◌, List, [], ◌∷◌,
  arith, Bool-cases, Option-cases, if◌then◌else◌, str_eq, eq_iff,
}
use kubernaut_apifrontend.Common.Dict.{lookup, insert, lookup-insert}
use kubernaut_apifrontend.Common.Sweep.{
  HasUniqueKeys, lookup-sweep, sweep-HasUniqueKeys, insert-HasUniqueKeys,
}
use kubernaut_apifrontend.Common.Int.{ℤ, pos, ◌≤ℤ◌, ltb_ℤ, pos_part, lt_of_ltb_ℤ}
use kubernaut_apifrontend.RateLimit.Rate.{RateLib}
use kubernaut_apifrontend.RateLimit.User.{
  Slot, UserLimiter, PerUserConfig, new_user_limiter, session_count, acquire_session,
  release_session, allow_request, allow_tool_call, update_request_rate, update_tool_rate,
  cleanup_tick, keep_slot, max_int32, inc_int32, dec_int32,
}

-- The calls that the server makes.
pub data Call : Type 0 where
  acquire request tool : ℕ → String → Call
  release : String → Call
  tick : ℕ → Call
  request_rate tool_rate : ℤ → Call

-- The specification: a number for one user, that the calls of others and the cleanup leave alone.
pub held : ℤ → String → List Call → ℕ → ℕ
held max u [] n = n
held max u (acquire now v ∷ more) n =
    held max u more (if str_eq v u && ltb_ℤ (pos n) max then suc n else n)
held max u (release v ∷ more) n = held max u more (if str_eq v u then n - 1 else n)
held max u (_ ∷ more) n = held max u more n

held-le :
    (max : ℤ) (u : String) (calls : List Call) (n : ℕ)
    → n ≤ pos_part max
    → held max u calls n ≤ pos_part max
unfolding held
held-le max u [] n h = h
held-le max u (acquire now v ∷ more) n h = held-le max u more _ (ground arith)
held-le max u (release v ∷ more) n h = held-le max u more _ (ground arith)
held-le max u (request now v ∷ more) n h = held-le max u more n h
held-le max u (tool now v ∷ more) n h = held-le max u more n h
held-le max u (tick now ∷ more) n h = held-le max u more n h
held-le max u (request_rate r ∷ more) n h = held-le max u more n h
held-le max u (tool_rate r ∷ more) n h = held-le max u more n h

inc_int32_pos : (n : ℕ) → n < max_int32 → inc_int32 (pos n) ≡ pos (suc n)
unfolding inc_int32
inc_int32_pos n h = ground arith

dec_int32_pos : (n : ℕ) → 0 < n → dec_int32 (pos n) ≡ pos (n - 1)
unfolding dec_int32
dec_int32_pos n h = ground arith

counted :
    (n : ℕ) (max : ℤ)
    → max ≤ℤ pos max_int32
    → (if ltb_ℤ (pos n) max then inc_int32 (pos n) else pos n)
      ≡ pos (if ltb_ℤ (pos n) max then suc n else n)
counted n max fits = elim (Bool-cases (ltb_ℤ (pos n) max)) [
  | inl free ↦ rw free (inc_int32_pos n (omega (arith, lt_of_ltb_ℤ (pos n) max free)))
  | inr full ↦ rw full
]

-- The cleanup drops a slot only with its counter at 0.
dropped_zero :
    (now : ℕ) (max_age : ℤ) (s : Slot) → keep_slot now max_age s ≡ false → s.counter ≡ pos 0
unfolding keep_slot
dropped_zero now max_age s h = ground arith

module _ (lib : RateLib) where
  pub call : Call → UserLimiter lib → UserLimiter lib
  call (acquire now v) l = (acquire_session lib now v l).0
  call (request now v) l = (allow_request lib now v l).0
  call (tool now v) l = (allow_tool_call lib now v l).0
  call (release v) l = release_session lib v l
  call (tick now) l = cleanup_tick lib now l
  call (request_rate n) l = update_request_rate lib n l
  call (tool_rate n) l = update_tool_rate lib n l

  pub run : List Call → UserLimiter lib → UserLimiter lib
  run [] l = l
  run (c ∷ more) l = run more (call c l)

  session_count-insert :
      (v u : String) (slot : Slot) (l : UserLimiter lib)
      → session_count lib (record l { sessions = insert v slot l.sessions }) u
        ≡ (if str_eq v u then slot.counter else session_count lib l u)
  unfolding session_count
  session_count-insert v u slot l = ground (arith, eq_iff v u, lookup-insert v u slot l.sessions)

  session_count-acquire :
      (now : ℕ) (v u : String) (l : UserLimiter lib) (n : ℕ)
      → l.cfg.max_concurrent_sessions ≤ℤ pos max_int32
      → session_count lib l u ≡ pos n
      → session_count lib (acquire_session lib now v l).0 u
        ≡ pos (if str_eq v u && ltb_ℤ (pos n) l.cfg.max_concurrent_sessions then suc n else n)
  unfolding acquire_session
  session_count-acquire now v u l n fits h =
      let current = session_count lib l v in
      let max = l.cfg.max_concurrent_sessions in
      let next = if ltb_ℤ current max then inc_int32 current else current in
      let q = session_count-insert v u (record { counter = next; last_seen = now }) l in
      elim (Bool-cases (str_eq v u)) [
        | inr other ↦ q ∙ rw (other) h
        | inl same ↦
            let e : current ≡ pos n =
              subst (λ z. session_count lib l z ≡ pos n) (sym ((eq_iff v u).0 same)) h in
            q ∙ rw (same, e) (counted n max fits)
      ]

  session_count-release :
      (v u : String) (l : UserLimiter lib) (n : ℕ)
      → session_count lib l u ≡ pos n
      → session_count lib (release_session lib v l) u ≡ pos (if str_eq v u then n - 1 else n)
  unfolding release_session session_count
  session_count-release v u l n h = elim (Option-cases (lookup v l.sessions)) [
    | inl k ↦ ground (arith, eq_iff v u)
    | inr (s, k) ↦
        let slot : Slot = record s { counter = dec_int32 s.counter } in
        ground (arith, eq_iff v u, lookup-insert v u slot l.sessions, dec_int32_pos n)
  ]

  session_count-tick :
      (now : ℕ) (u : String) (l : UserLimiter lib)
      → HasUniqueKeys l.sessions
      → session_count lib (cleanup_tick lib now l) u ≡ session_count lib l u
  unfolding session_count cleanup_tick
  session_count-tick now u l h =
      let swept = lookup-sweep (keep_slot now l.cfg.max_age) u l.sessions h in
      elim (Option-cases (lookup u l.sessions)) [
        | inl k ↦ ground (arith, swept)
        | inr (s, k) ↦ ground (arith, swept, dropped_zero now l.cfg.max_age s)
      ]

  release-HasUniqueKeys :
      (v : String) (l : UserLimiter lib)
      → HasUniqueKeys l.sessions
      → HasUniqueKeys (release_session lib v l).sessions
  unfolding release_session
  release-HasUniqueKeys v l h = elim (Option-cases (lookup v l.sessions)) [
    | inl k ↦ ground arith
    | inr (s, k) ↦
        let slot : Slot = record s { counter = dec_int32 s.counter } in
        ground (arith, insert-HasUniqueKeys v slot l.sessions h)
  ]

  -- What a limiter keeps between calls, for the user `u` with `n` slots.
  record Counts (max : ℤ) (u : String) (n : ℕ) (l : UserLimiter lib) : Type 0 where
    limit : l.cfg.max_concurrent_sessions ≡ max
    unique : HasUniqueKeys l.sessions
    count : session_count lib l u ≡ pos n

  acquire-Counts :
      (max : ℤ) (now : ℕ) (v u : String) (l : UserLimiter lib) (n : ℕ)
      → max ≤ℤ pos max_int32
      → Counts max u n l
      → Counts max u
          (if str_eq v u && ltb_ℤ (pos n) max then suc n else n)
          (acquire_session lib now v l).0
  unfolding acquire_session
  acquire-Counts max now v u l n fits c = record {
    limit = c.limit;
    unique = insert-HasUniqueKeys v _ l.sessions c.unique;
    count =
        subst
          (λ m.
            session_count lib (acquire_session lib now v l).0 u
            ≡ pos (if str_eq v u && ltb_ℤ (pos n) m then suc n else n))
          c.limit (session_count-acquire now v u l n (rw (c.limit) fits) c.count);
  }

  release-Counts :
      (max : ℤ) (v u : String) (l : UserLimiter lib) (n : ℕ)
      → Counts max u n l
      → Counts max u (if str_eq v u then n - 1 else n) (release_session lib v l)
  unfolding release_session
  release-Counts max v u l n c = record {
    limit = ground (arith, c.limit);
    unique = release-HasUniqueKeys v l c.unique;
    count = session_count-release v u l n c.count;
  }

  tick-Counts :
      (max : ℤ) (now : ℕ) (u : String) (l : UserLimiter lib) (n : ℕ)
      → Counts max u n l
      → Counts max u n (cleanup_tick lib now l)
  unfolding cleanup_tick
  tick-Counts max now u l n c = record {
    limit = c.limit;
    unique = sweep-HasUniqueKeys (keep_slot now l.cfg.max_age) l.sessions c.unique;
    count = session_count-tick now u l c.unique ∙ c.count;
  }

  run-Counts :
      (max : ℤ) (u : String) (calls : List Call) (l : UserLimiter lib) (n : ℕ)
      → max ≤ℤ pos max_int32
      → Counts max u n l
      → Counts max u (held max u calls n) (run calls l)
  unfolding run call held session_count allow_request allow_tool_call update_request_rate
      update_tool_rate
  run-Counts max u [] l n fits c = c
  run-Counts max u (acquire now v ∷ more) l n fits c =
      run-Counts max u more _ _ fits (acquire-Counts max now v u l n fits c)
  run-Counts max u (release v ∷ more) l n fits c =
      run-Counts max u more _ _ fits (release-Counts max v u l n c)
  run-Counts max u (tick now ∷ more) l n fits c =
      run-Counts max u more _ _ fits (tick-Counts max now u l n c)
  run-Counts max u (request now v ∷ more) l n fits c =
      run-Counts max u more _ n fits
        (record { limit = c.limit; unique = c.unique; count = c.count })
  run-Counts max u (tool now v ∷ more) l n fits c =
      run-Counts max u more _ n fits
        (record { limit = c.limit; unique = c.unique; count = c.count })
  run-Counts max u (request_rate r ∷ more) l n fits c =
      run-Counts max u more _ n fits
        (record { limit = c.limit; unique = c.unique; count = c.count })
  run-Counts max u (tool_rate r ∷ more) l n fits c =
      run-Counts max u more _ n fits
        (record { limit = c.limit; unique = c.unique; count = c.count })

  -- A fresh limiter after any calls: each user's counter is the specification's number, which
  -- other users, requests, tool calls, new rates and the cleanup do not change, and it is at
  -- most the configured maximum.
  pub session_count-run :
      (cfg : PerUserConfig) (u : String) (calls : List Call)
      → cfg.max_concurrent_sessions ≤ℤ pos max_int32
      → (session_count lib (run calls (new_user_limiter lib cfg)) u
          ≡ pos (held cfg.max_concurrent_sessions u calls 0))
        × (held cfg.max_concurrent_sessions u calls 0 ≤ pos_part cfg.max_concurrent_sessions)
  unfolding new_user_limiter session_count
  session_count-run cfg u calls fits = (
    (run-Counts cfg.max_concurrent_sessions u calls (new_user_limiter lib cfg) 0 fits
        (record { limit = refl; unique = tt; count = refl })).count,
    held-le cfg.max_concurrent_sessions u calls 0 (omega arith),
  )
