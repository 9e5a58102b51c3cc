-- ===== src/RateLimit/Semaphore/Bound.antt =====
-- The semaphore of internal/ratelimit/ratelimit.go is never exceeded and loses no update.
use kubernaut_apifrontend.Common.{
  ℕ, suc, ◌+◌, ◌≡◌, subst, ◌-◌, inl, inr, true, List, [], ◌∷◌, arith, Bool-cases, if◌then◌else◌,
  ◌==◌,
}
use kubernaut_apifrontend.Common.Int.{
  ℤ, pos, pos_part, ◌≤ℤ◌, ◌<ℤ◌, ltb_ℤ, lt_of_ltb_ℤ, neg_part_of_nonneg,
}
use kubernaut_apifrontend.RateLimit.User.{inc_int32, dec_int32, max_int32}
use kubernaut_apifrontend.RateLimit.Semaphore.{
  new_llm_semaphore, Pc, idle, acquiring, releasing, swap_up, swap_down, LlmSemaphore, start, move,
  eq_ℤ, step_at, begin, Act, acquire, release, step, act, run,
}

-- What a goroutine knows of the value that it loaded.
abbrev pub Loaded : ℤ → Pc → Type 0
Loaded max (swap_up n) = n <ℤ max
Loaded max (swap_down n) = pos 0 <ℤ n
Loaded max _ = Unit {0}

-- `current` is the number of slots that are taken.
pub record Inv (max : ℤ) (s : LlmSemaphore) : Type 0 where
  pub nonneg : pos 0 ≤ℤ s.current
  pub bounded : s.current ≤ℤ max
  pub exact : pos_part s.current + s.released ≡ s.acquired
  pub loaded : (i : ℕ) → Loaded max (s.pcs i)

eq_of_eq_ℤ : (a b : ℤ) → eq_ℤ a b ≡ true → a ≡ b
eq_of_eq_ℤ a b h = ground arith

inc_int32_lem : (c : ℤ) → pos 0 ≤ℤ c → c <ℤ pos max_int32 → inc_int32 c ≡ pos (suc (pos_part c))
unfolding inc_int32
inc_int32_lem c h k = ground arith

dec_int32_lem : (c : ℤ) → pos 0 <ℤ c → dec_int32 c ≡ pos (pos_part c - 1)
unfolding dec_int32
dec_int32_lem c h = ground arith

move-Loaded :
    (max : ℤ) (i : ℕ) (p : Pc) (pcs : ℕ → Pc)
    → Loaded max p
    → ((j : ℕ) → Loaded max (pcs j))
    → (j : ℕ) → Loaded max (move i p pcs j)
move-Loaded max i p pcs h all j = elim (Bool-cases (i == j)) [
  | inl same ↦ rw same h
  | inr other ↦ rw other (all j)
]

load_up : (max c : ℤ) → Loaded max (if ltb_ℤ c max then swap_up c else idle)
load_up max c = elim (Bool-cases (ltb_ℤ c max)) [
  | inl free ↦ rw free (lt_of_ltb_ℤ c max free)
  | inr full ↦ rw full tt
]

load_down : (max c : ℤ) → Loaded max (if ltb_ℤ (pos 0) c then swap_down c else idle)
load_down max c = elim (Bool-cases (ltb_ℤ (pos 0) c)) [
  | inl held ↦ rw held (lt_of_ltb_ℤ (pos 0) c held)
  | inr none_held ↦ rw none_held tt
]

module _ (max : ℤ) (fits : max ≤ℤ pos max_int32) where
  moved-Inv :
      (i : ℕ) (p : Pc) (s : LlmSemaphore)
      → Loaded max p
      → Inv max s
      → Inv max (record s { pcs = move i p s.pcs })
  moved-Inv i p s h v = record {
    nonneg = v.nonneg;
    bounded = v.bounded;
    exact = v.exact;
    loaded = move-Loaded max i p s.pcs h v.loaded;
  }

  taken-Inv :
      (i : ℕ) (n : ℤ) (s : LlmSemaphore)
      → n <ℤ max
      → s.current ≡ n
      → Inv max s
      → Inv max
          (record s { current = inc_int32 n; pcs = move i idle s.pcs; acquired = suc s.acquired })
  taken-Inv i n s h e v =
      let nonneg : pos 0 ≤ℤ n = subst (λ c. pos 0 ≤ℤ c) e v.nonneg in
      let exact : pos_part n + s.released ≡ s.acquired =
        subst (λ c. pos_part c + s.released ≡ s.acquired) e v.exact in
      let q = inc_int32_lem n nonneg (omega arith) in
      record {
        nonneg = rw q (omega arith);
        bounded = rw q (omega (arith, neg_part_of_nonneg n (omega arith)));
        exact = rw q (omega arith);
        loaded = move-Loaded max i idle s.pcs tt v.loaded;
      }

  given-Inv :
      (i : ℕ) (n : ℤ) (s : LlmSemaphore)
      → pos 0 <ℤ n
      → s.current ≡ n
      → Inv max s
      → Inv max
          (record s { current = dec_int32 n; pcs = move i idle s.pcs; released = suc s.released })
  given-Inv i n s h e v =
      let bounded : n ≤ℤ max = subst (λ c. c ≤ℤ max) e v.bounded in
      let exact : pos_part n + s.released ≡ s.acquired =
        subst (λ c. pos_part c + s.released ≡ s.acquired) e v.exact in
      let q = dec_int32_lem n h in
      record {
        nonneg = rw q (omega arith);
        bounded = rw q (omega (arith, neg_part_of_nonneg n (omega arith)));
        exact = rw q (omega arith);
        loaded = move-Loaded max i idle s.pcs tt v.loaded;
      }

  step_at-Inv :
      (i : ℕ) (p : Pc) (s : LlmSemaphore) → Loaded max p → Inv max s → Inv max (step_at max i p s)
  unfolding step_at
  step_at-Inv i idle s k v = v
  step_at-Inv i acquiring s k v = moved-Inv i _ s (load_up max s.current) v
  step_at-Inv i (swap_up n) s k v = elim (Bool-cases (eq_ℤ s.current n)) [
    | inl same ↦ rw same (taken-Inv i n s k (eq_of_eq_ℤ s.current n same) v)
    | inr changed ↦ rw changed (moved-Inv i acquiring s tt v)
  ]
  step_at-Inv i releasing s k v = moved-Inv i _ s (load_down max s.current) v
  step_at-Inv i (swap_down n) s k v = elim (Bool-cases (eq_ℤ s.current n)) [
    | inl same ↦ rw same (given-Inv i n s k (eq_of_eq_ℤ s.current n same) v)
    | inr changed ↦ rw changed (moved-Inv i releasing s tt v)
  ]

  begin-Inv :
      (i : ℕ) (p at : Pc) (s : LlmSemaphore) → Loaded max p → Inv max s → Inv max (begin i p at s)
  unfolding begin
  begin-Inv i p idle s k v = moved-Inv i p s k v
  begin-Inv i p _ s k v = v

  act-Inv : (a : Act) (s : LlmSemaphore) → Inv max s → Inv max (act max a s)
  unfolding act
  act-Inv (acquire i) s v = begin-Inv i acquiring (s.pcs i) s tt v
  act-Inv (release i) s v = begin-Inv i releasing (s.pcs i) s tt v
  act-Inv (step i) s v = step_at-Inv i (s.pcs i) s (v.loaded i) v

  run-Inv : (acts : List Act) (s : LlmSemaphore) → Inv max s → Inv max (run max acts s)
  unfolding run
  run-Inv [] s v = v
  run-Inv (a ∷ more) s v = run-Inv more (act max a s) (act-Inv a s v)

new_llm_semaphore-range :
    (n : ℤ) → (pos 0 <ℤ new_llm_semaphore n) × (new_llm_semaphore n ≤ℤ pos max_int32)
unfolding new_llm_semaphore
new_llm_semaphore-range n = ground arith

start-Inv : (max : ℤ) → pos 0 <ℤ max → Inv max start
unfolding start
start-Inv max h = record {
  nonneg = omega arith;
  bounded = omega arith;
  exact = omega arith;
  loaded = λ _. tt;
}

-- For any configured number of slots, however many goroutines call Acquire and Release in
-- whatever order and however their loads and swaps interleave: the counter stays between 0 and
-- the maximum, and it is the number of acquisitions that took effect less that of the releases.
pub llm_semaphore_exact :
    (slots : ℤ) (acts : List Act)
    → let max = new_llm_semaphore slots in
      let s = run max acts start in
      (pos 0 ≤ℤ s.current) × (s.current ≤ℤ max) × (pos_part s.current + s.released ≡ s.acquired)
llm_semaphore_exact slots acts =
    let (positive, fits) = new_llm_semaphore-range slots in
    let v =
      run-Inv (new_llm_semaphore slots) fits acts start
        (start-Inv (new_llm_semaphore slots) positive) in
    (v.nonneg, v.bounded, v.exact)
