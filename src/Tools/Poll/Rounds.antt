-- ===== src/Tools/Poll/Rounds.antt =====
-- How HandlePollInvestigation (internal/tools/ka_tools.go) ends.
use kubernaut_apifrontend.Common.{
  ℕ, zero, suc, ◌+◌, ◌≤◌, ◌≡◌, ◌≢◌, refl, ap, subst, ◌∙◌, ◌<◌, ◌⊎◌, inl, inr, String, false, none,
  some, arith, Bool-cases, Option-cases, str_eq, eq_iff,
}
use kubernaut_apifrontend.Tools.Poll.{
  Answer, answered, failed_call, KaClient, polling, fetching, context_error, PollStatus, completed,
  failed, cancelled, in_progress, PollOutcome, polled, poll_error, fetch_result, poll_rounds,
  handle_poll_investigation,
}

Answer-cases :
    (r : Answer) → ((s : String) × (r ≡ answered s)) ⊎ ((x : String) × (r ≡ failed_call x))
Answer-cases (answered s) = inl (s, refl)
Answer-cases (failed_call x) = inr (x, refl)

abbrev pub IsRunning : String → Type 0
IsRunning s = (s ≢ "completed") × (s ≢ "failed") × (s ≢ "cancelled")

is_running :
    (s : String)
    → str_eq s "completed" ≡ false
    → str_eq s "failed" ≡ false
    → str_eq s "cancelled" ≡ false
    → IsRunning s
is_running s a b c = (
  (λ e. ground (arith, eq_iff s "completed")),
  (λ e. ground (arith, eq_iff s "failed")),
  (λ e. ground (arith, eq_iff s "cancelled")),
)

module _ (ka : KaClient) (id : String) where
  open ka use {World, status, result, wait}

  abbrev asked : World → World
  asked w = (status w id).0

  abbrev waited : World → World
  waited w = (wait (asked w)).0

  -- The world after a number of polls that found the investigation running, with the waits.
  pub data Running : World → ℕ → World → Type 0 where
    here : (w : World) → Running w 0 w
    poll :
        (w : World) (s : String) (n : ℕ) (w' : World)
        → (status w id).1 ≡ answered s
        → IsRunning s
        → (wait (asked w)).1 ≡ none
        → Running (waited w) n w'
        → Running w (suc n) w'

  abbrev reports : PollStatus → String → ℕ → PollOutcome
  reports s summary i = polled (record { status = s; summary = summary; poll_count = i })

  -- How a poll in a world ends the call, as the `i`-th; `last` says that it is the last allowed.
  pub data Ended (w : World) (i : ℕ) (last : Type 0) (r : World × PollOutcome) : Type 0 where
    call_failed :
        (x : String)
        → (status w id).1 ≡ failed_call x
        → r ≡ (asked w, poll_error (polling x))
        → Ended w i last r
    not_fetched :
        (x : String)
        → (status w id).1 ≡ answered "completed"
        → (result (asked w) id).1 ≡ failed_call x
        → r ≡ ((result (asked w) id).0, poll_error (fetching x))
        → Ended w i last r
    is_completed :
        (s : String)
        → (status w id).1 ≡ answered "completed"
        → (result (asked w) id).1 ≡ answered s
        → r ≡ ((result (asked w) id).0, reports completed s i)
        → Ended w i last r
    is_failed :
        (status w id).1 ≡ answered "failed" → r ≡ (asked w, reports failed "" i) → Ended w i last r
    is_cancelled :
        (status w id).1 ≡ answered "cancelled"
        → r ≡ (asked w, reports cancelled "" i)
        → Ended w i last r
    still_running :
        (s : String)
        → (status w id).1 ≡ answered s
        → IsRunning s
        → last
        → r ≡ (asked w, reports in_progress "" i)
        → Ended w i last r
    interrupted :
        (s x : String)
        → (status w id).1 ≡ answered s
        → IsRunning s
        → (wait (asked w)).1 ≡ some x
        → r ≡ (waited w, poll_error (context_error x))
        → Ended w i last r

  Ended-last :
      {w : World} {i : ℕ} {last last' : Type 0} {r : World × PollOutcome}
      → (last → last')
      → Ended w i last r
      → Ended w i last' r
  Ended-last f (call_failed x p e) = call_failed x p e
  Ended-last f (not_fetched x p q e) = not_fetched x p q e
  Ended-last f (is_completed s p q e) = is_completed s p q e
  Ended-last f (is_failed p e) = is_failed p e
  Ended-last f (is_cancelled p e) = is_cancelled p e
  Ended-last f (still_running s p q l e) = still_running s p q (f l) e
  Ended-last f (interrupted s x p q l e) = interrupted s x p q l e

  -- `polls` more polls after the first `done`, at most one more than `left`.
  record Rounds (left : ℕ) (w : World) (done : ℕ) (r : World × PollOutcome) : Type 0 where
    more : ℕ
    at : World
    within : more ≤ left
    running : Running w more at
    ended : Ended at (suc (done + more)) (more ≡ left) r

  at_once :
      (left : ℕ) (w : World) (done : ℕ) (r : World × PollOutcome)
      → Ended w (suc done) (0 ≡ left) r
      → Rounds left w done r
  at_once left w done r e = record {
    more = 0;
    at = w;
    within = omega arith;
    running = here w;
    ended =
        let p : suc done ≡ suc (done + 0) = omega arith in subst (λ i. Ended w i (0 ≡ left) r) p e;
  }

  one_more :
      (left : ℕ) (w : World) (done : ℕ) (r : World × PollOutcome) (s : String)
      → (status w id).1 ≡ answered s
      → IsRunning s
      → (wait (asked w)).1 ≡ none
      → Rounds left (waited w) (suc done) r
      → Rounds (suc left) w done r
  one_more left w done r s p q e h = record {
    more = suc h.more;
    at = h.at;
    within = omega (arith, h.within);
    running = poll w s h.more h.at p q e h.running;
    ended =
        let i : suc (suc done + h.more) ≡ suc (done + suc h.more) = omega arith in
        subst (λ j. Ended h.at j (suc h.more ≡ suc left) r) i
          (Ended-last (λ (l : h.more ≡ left). ap suc l) h.ended);
  }

  fetch_result-Ended :
      (w : World) (i : ℕ) (last : Type 0)
      → (status w id).1 ≡ answered "completed"
      → Ended w i last (fetch_result ka id (asked w) i)
  unfolding fetch_result
  fetch_result-Ended w i last p = elim (Answer-cases (result (asked w) id).1) [
    | inl (s, q) ↦ rw (q, fetch_result) (is_completed s p q refl)
    | inr (x, q) ↦ rw (q, fetch_result) (not_fetched x p q refl)
  ]

  -- The rounds that follow a wait.
  abbrev Later : ℕ → World → ℕ → Type 0
  Later zero w done = Unit
  Later (suc left) w done =
      Rounds left (waited w) (suc done) (poll_rounds ka id (suc left) (waited w) (suc done))

  -- Where the status is none of those that end the call.
  waits-Rounds :
      (left : ℕ) (w : World) (done : ℕ) (s : String)
      → (status w id).1 ≡ answered s
      → str_eq s "completed" ≡ false
      → str_eq s "failed" ≡ false
      → str_eq s "cancelled" ≡ false
      → Later left w done
      → Rounds left w done (poll_rounds ka id (suc left) w done)
  unfolding poll_rounds
  waits-Rounds zero w done s p a b c later =
      rw (p, poll_rounds)
        (rw (a, poll_rounds)
          (rw (b, poll_rounds)
            (rw (c, poll_rounds)
              (at_once 0 w done _ (still_running s p (is_running s a b c) refl refl)))))
  waits-Rounds (suc left) w done s p a b c later = elim (Option-cases (wait (asked w)).1) [
    | inl q ↦
        rw (p, poll_rounds)
          (rw (a, poll_rounds)
            (rw (b, poll_rounds)
              (rw (c, poll_rounds)
                (rw (q, poll_rounds) (one_more left w done _ s p (is_running s a b c) q later)))))
    | inr (x, q) ↦
        rw (p, poll_rounds)
          (rw (a, poll_rounds)
            (rw (b, poll_rounds)
              (rw (c, poll_rounds)
                (rw (q, poll_rounds)
                  (at_once (suc left) w done _ (interrupted s x p (is_running s a b c) q refl))))))
  ]

  -- The first round, with the rounds that may follow.
  round-Rounds :
      (left : ℕ) (w : World) (done : ℕ)
      → Later left w done
      → Rounds left w done (poll_rounds ka id (suc left) w done)
  unfolding poll_rounds
  round-Rounds left w done later = elim (Answer-cases (status w id).1) [
    | inr (x, p) ↦ rw (p, poll_rounds) (at_once left w done _ (call_failed x p refl))
    | inl (s, p) ↦ elim (Bool-cases (str_eq s "completed")) [
      | inl a ↦
          rw (p, poll_rounds)
            (rw (a, poll_rounds)
              (at_once left w done _ (
                fetch_result-Ended w (suc done) (0 ≡ left)
                  (p ∙ ap answered ((eq_iff s "completed").0 a)))))
      | inr a ↦ elim (Bool-cases (str_eq s "failed")) [
        | inl b ↦
            rw (p, poll_rounds)
              (rw (a, poll_rounds)
                (rw (b, poll_rounds)
                  (at_once left w done _
                    (is_failed (p ∙ ap answered ((eq_iff s "failed").0 b)) refl))))
        | inr b ↦ elim (Bool-cases (str_eq s "cancelled")) [
          | inl c ↦
              rw (p, poll_rounds)
                (rw (a, poll_rounds)
                  (rw (b, poll_rounds)
                    (rw (c, poll_rounds)
                      (at_once left w done _
                        (is_cancelled (p ∙ ap answered ((eq_iff s "cancelled").0 c)) refl)))))
          | inr c ↦ waits-Rounds left w done s p a b c later
        ]
      ]
    ]
  ]

  poll_rounds-Rounds :
      (left : ℕ) (w : World) (done : ℕ) → Rounds left w done (poll_rounds ka id (suc left) w done)
  poll_rounds-Rounds zero w done = round-Rounds zero w done tt
  poll_rounds-Rounds (suc left) w done =
      round-Rounds (suc left) w done (poll_rounds-Rounds left (waited w) (suc done))

  -- With a positive number of polls, the call ends after at most that many: after polls that found
  -- the investigation running, each followed by a wait, one poll ends it. Its number is the poll
  -- count that is answered. The call answers that the investigation is in progress only if the last
  -- poll that it may make found it running, and an error only where a call or a wait failed.
  pub handle_poll_investigation_ends :
      (max_polls : ℕ) (w : World)
      → 1 ≤ max_polls
      → (n : ℕ) × (at : World) × Running w n at
        × (n < max_polls)
        × Ended at (suc n) (suc n ≡ max_polls) (handle_poll_investigation ka id max_polls w)
  unfolding handle_poll_investigation
  handle_poll_investigation_ends zero w h = absurd (omega arith)
  handle_poll_investigation_ends (suc left) w h =
      let r = poll_rounds-Rounds left w 0 in
      (
        r.more,
        r.at,
        r.running,
        omega (arith, r.within),
        let p : suc (0 + r.more) ≡ suc r.more = omega arith in
            subst (λ i. Ended r.at i (suc r.more ≡ suc left) (poll_rounds ka id (suc left) w 0)) p
              (Ended-last (λ (l : r.more ≡ left). ap suc l) r.ended),
      )
