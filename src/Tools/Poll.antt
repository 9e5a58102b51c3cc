-- ===== src/Tools/Poll.antt =====
-- HandlePollInvestigation of internal/tools/ka_tools.go. The agent's REST client is outside, as calls
-- over a world; the texts of progress are left out.
pub mod Rounds
use kubernaut_apifrontend.Common.{
  ℕ, zero, suc, ◌+◌, String, Bool, true, false, Option, none, some, if◌then◌else◌, str_eq,
}

-- An answer of the client, or the error that it gives.
pub data Answer : Type 0 where
  answered : String → Answer
  failed_call : String → Answer

-- Status and Result for a session, and the wait for the interval: its error if the context ends.
pub record KaClient : Type 1 where
  pub World : Type 0
  pub status : World → String → World × Answer
  pub result : World → String → World × Answer
  pub wait : World → World × Option String

pub data PollError : Type 0 where
  polling fetching : String → PollError
  context_error : String → PollError

pub data PollStatus : Type 0 where
  completed failed cancelled in_progress : PollStatus

pub record PollInvestigationResult : Type 0 where
  pub status : PollStatus
  pub summary : String
  pub poll_count : ℕ

pub data PollOutcome : Type 0 where
  polled : PollInvestigationResult → PollOutcome
  poll_error : PollError → PollOutcome

module _ (ka : KaClient) (session_id : String) where
  open ka use {World, status, result, wait}

  unfoldable pub fetch_result : World → ℕ → World × PollOutcome
  fetch_result w i =
      let (w', r) = result w session_id in
      (
        w',
        elim r [
          | failed_call x ↦ poll_error (fetching x)
          | answered summary ↦
              polled (record { status = completed; summary = summary; poll_count = i })
        ],
      )

  -- The rounds from the `i`-th on, of which `left` more follow this one. The function is given
  -- what the last round leaves to be answered, that is maxPolls.
  unfoldable pub poll_rounds : ℕ → World → ℕ → World × PollOutcome
  unfolding fetch_result
  poll_rounds zero w polls =
      (w, polled (record { status = in_progress; summary = ""; poll_count = polls }))
  poll_rounds (suc left) w done =
      let i = suc done in
      let (w₁, r) = status w session_id in
      elim r [
        | failed_call x ↦ (w₁, poll_error (polling x))
        | answered s ↦ elim (str_eq s "completed") [
          | true ↦ fetch_result w₁ i
          | false ↦ elim (str_eq s "failed") [
            | true ↦ (w₁, polled (record { status = failed; summary = ""; poll_count = i }))
            | false ↦ elim (str_eq s "cancelled") [
              | true ↦ (w₁, polled (record { status = cancelled; summary = ""; poll_count = i }))
              | false ↦ elim left [
                | zero ↦
                    (w₁, polled (record { status = in_progress; summary = ""; poll_count = i }))
                | suc _ ↦
                    let (w₂, x) = wait w₁ in
                    elim x [
                      | some y ↦ (w₂, poll_error (context_error y))
                      | none ↦ poll_rounds left w₂ i
                    ]
              ]
            ]
          ]
        ]
      ]

  -- A number of polls below 1 makes no call.
  unfoldable pub handle_poll_investigation : ℕ → World → World × PollOutcome
  unfolding poll_rounds
  handle_poll_investigation max_polls w = poll_rounds max_polls w 0
