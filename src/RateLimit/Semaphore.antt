-- ===== src/RateLimit/Semaphore.antt =====
-- LLMSemaphore of internal/ratelimit/ratelimit.go, step by step: the slots are taken and given back
-- by compare-and-swap loops of goroutines that interleave in any way.
pub mod Bound
use kubernaut_apifrontend.Common.{
  ℕ, suc, Bool, true, false, List, [], ◌∷◌, if◌then◌else◌, ◌||◌, ◌&&◌, not, ◌==◌,
}
use kubernaut_apifrontend.Common.Int.{ℤ, pos, ltb_ℤ}
use kubernaut_apifrontend.RateLimit.User.{inc_int32, dec_int32, max_int32}

-- The maximum that NewLLMSemaphore stores: `maxSlots <= 0 || maxSlots > math.MaxInt32`.
unfoldable pub new_llm_semaphore : ℤ → ℤ
new_llm_semaphore max_slots =
    if not (ltb_ℤ (pos 0) max_slots) || ltb_ℤ (pos max_int32) max_slots
    then pos max_int32
    else max_slots

-- Where a goroutine stands: outside, at the top of a loop, or between its load and its swap, with
-- the value that it loaded.
pub data Pc : Type 0 where
  idle acquiring releasing : Pc
  swap_up swap_down : ℤ → Pc

-- The counter, the goroutines by number, and how many calls of each kind took effect.
pub record LlmSemaphore : Type 0 where
  pub current : ℤ
  pub pcs : ℕ → Pc
  pub acquired : ℕ
  pub released : ℕ

unfoldable pub start : LlmSemaphore
start = record { current = pos 0; pcs = λ _. idle; acquired = 0; released = 0 }

abbrev pub move : ℕ → Pc → (ℕ → Pc) → ℕ → Pc
move i p pcs j = if i == j then p else pcs j

abbrev eq_ℤ : ℤ → ℤ → Bool
eq_ℤ a b = not (ltb_ℤ a b) && not (ltb_ℤ b a)

-- The next step of goroutine `i`, which stands at the given place.
unfoldable pub step_at : ℤ → ℕ → Pc → LlmSemaphore → LlmSemaphore
unfolding inc_int32 dec_int32
step_at max i idle s = s
step_at max i acquiring s = record s {
  pcs = move i (if ltb_ℤ s.current max then swap_up s.current else idle) s.pcs;
}
step_at max i (swap_up n) s =
    if eq_ℤ s.current n
    then record s { current = inc_int32 n; pcs = move i idle s.pcs; acquired = suc s.acquired }
    else record s { pcs = move i acquiring s.pcs }
step_at max i releasing s = record s {
  pcs = move i (if ltb_ℤ (pos 0) s.current then swap_down s.current else idle) s.pcs;
}
step_at max i (swap_down n) s =
    if eq_ℤ s.current n
    then record s { current = dec_int32 n; pcs = move i idle s.pcs; released = suc s.released }
    else record s { pcs = move i releasing s.pcs }

-- A goroutine calls Acquire or Release, or makes its next step.
pub data Act : Type 0 where
  acquire release step : ℕ → Act

begin : ℕ → Pc → Pc → LlmSemaphore → LlmSemaphore
begin i p idle s = record s { pcs = move i p s.pcs }
begin i p _ s = s

unfoldable pub act : ℤ → Act → LlmSemaphore → LlmSemaphore
unfolding begin step_at
act max (acquire i) s = begin i acquiring (s.pcs i) s
act max (release i) s = begin i releasing (s.pcs i) s
act max (step i) s = step_at max i (s.pcs i) s

unfoldable pub run : ℤ → List Act → LlmSemaphore → LlmSemaphore
unfolding act
run max [] s = s
run max (a ∷ more) s = run max more (act max a s)
