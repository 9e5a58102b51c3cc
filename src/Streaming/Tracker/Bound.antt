-- ===== src/Streaming/Tracker/Bound.antt =====
-- The limit, the gauge and the drain of ConnectionTracker (internal/streaming/tracker.go).
use kubernaut_apifrontend.Common.{
  ℕ, ◌+◌, ◌≤◌, String, ◌≡◌, refl, inl, inr, Bool, true, false, Option, none, some, List, [], ◌∷◌,
  ◌++◌, arith, ap, ◌∙◌, Bool-cases, if◌then◌else◌, length, subst, ◌==◌,
}
use kubernaut_apifrontend.Common.Dict.{Dict, insert, delete, length-insert-le, length-delete-le}
use kubernaut_apifrontend.Common.Int.{ℤ, pos, pos_part, ltb_ℤ, lt_of_ltb_ℤ}
use kubernaut_apifrontend.Common.All.{All, All-append}
use mathlib.Core.List.{append_assoc}
use kubernaut_apifrontend.Streaming.Tracker.{
  TrackedConnection, ConnectionTracker, new_connection_tracker, set_gauge, with_conns, add, remove,
  count, Effect, wait, cancel, frames, cancels, drain_all,
}

pub data Call : Type 0 where
  add_call : TrackedConnection → Call
  remove_call : String → Call
  drain_call : Call

pub call : Call → ConnectionTracker → ConnectionTracker
call (add_call c) t = (add c t).0
call (remove_call id) t = remove id t
call drain_call t = (drain_all t).0

pub run : List Call → ConnectionTracker → ConnectionTracker
run [] t = t
run (c ∷ more) t = run more (call c t)

-- The gauge, where there is one, shows the number of connections.
abbrev pub Shows : Option ℕ → ℕ → Type 0
Shows none n = Unit {0}
Shows (some m) n = m ≡ n

record Inv (max : ℤ) (t : ConnectionTracker) : Type 0 where
  limit : t.max_connections ≡ max
  bounded : count t ≤ pos_part max
  shown : Shows t.gauge (count t)

with_conns-Inv :
    (max : ℤ) (t : ConnectionTracker) (conns : Dict TrackedConnection)
    → length conns ≤ pos_part max
    → Inv max t
    → Inv max (with_conns t conns)
unfolding with_conns set_gauge
with_conns-Inv max t conns h v = record { limit = v.limit; bounded = h; shown = shown t.gauge }
  where
    shown : (g : Option ℕ) → Shows (set_gauge (length conns) g) (length conns)
    shown none = tt
    shown (some m) = refl

add-Inv :
    (max : ℤ) (c : TrackedConnection) (t : ConnectionTracker)
    → ltb_ℤ (pos 0) max ≡ true
    → Inv max t
    → Inv max (add c t).0
unfolding add
add-Inv max c t h v =
    let on : ltb_ℤ (pos 0) t.max_connections ≡ true = ap (ltb_ℤ (pos 0)) v.limit ∙ h in
    elim (Bool-cases (ltb_ℤ (pos (length t.conns)) t.max_connections)) [
      | inr full ↦ simp (on, full, add) v
      | inl free ↦
          let room = lt_of_ltb_ℤ (pos (length t.conns)) t.max_connections free in
          let low : length t.conns + 1 ≤ pos_part max =
            subst (λ m. length t.conns + 1 ≤ pos_part m) v.limit
              (small (length t.conns) t.max_connections free) in
          simp (on, free, add)
            (with_conns-Inv max t (insert c.id c t.conns)
              (omega (arith, low, length-insert-le c.id c t.conns)) v)
    ]
  where
    small : (n : ℕ) (m : ℤ) → ltb_ℤ (pos n) m ≡ true → n + 1 ≤ pos_part m
    small n m h = ground arith

drain_all-tracker : (t : ConnectionTracker) → (drain_all t).0 ≡ with_conns t []
unfolding drain_all
drain_all-tracker t = elim (Bool-cases (length t.conns == 0)) [
  | inl empty ↦ simp (empty, drain_all) refl
  | inr full ↦ simp (full, drain_all) refl
]

call-Inv :
    (max : ℤ) (c : Call) (t : ConnectionTracker)
    → ltb_ℤ (pos 0) max ≡ true
    → Inv max t
    → Inv max (call c t)
unfolding call
call-Inv max (add_call c) t h v = add-Inv max c t h v
call-Inv max (remove_call id) t h v =
    unfold remove in
    with_conns-Inv max t (delete id t.conns) (omega (arith, v.bounded, length-delete-le id t.conns))
      v
call-Inv max drain_call t h v = rw (drain_all-tracker t) (with_conns-Inv max t [] (omega arith) v)

run-Inv :
    (max : ℤ) (calls : List Call) (t : ConnectionTracker)
    → ltb_ℤ (pos 0) max ≡ true
    → Inv max t
    → Inv max (run calls t)
unfolding run
run-Inv max [] t h v = v
run-Inv max (c ∷ more) t h v = run-Inv max more (call c t) h (call-Inv max c t h v)

-- A new gauge reads 0.
abbrev pub new_gauge : Bool → Option ℕ
new_gauge configured = if configured then some 0 else none

-- With a positive limit, whatever calls are made: a tracker keeps at most that many connections,
-- and its gauge, where there is one, shows their number.
pub run_bounded :
    (calls : List Call) (drain_wait max : ℤ) (configured : Bool)
    → ltb_ℤ (pos 0) max ≡ true
    → let t = run calls (record (new_connection_tracker (new_gauge configured) drain_wait) {
      max_connections = max;
    }) in
      (count t ≤ pos_part max) × Shows t.gauge (count t)
unfolding new_connection_tracker
run_bounded calls drain_wait max configured h =
    let v = run-Inv max calls _ h (fresh configured) in (v.bounded, v.shown)
  where
    fresh :
        (b : Bool)
        → Inv max
            (record (new_connection_tracker (new_gauge b) drain_wait) { max_connections = max })
    fresh true = record { limit = refl; bounded = omega arith; shown = refl }
    fresh false = record { limit = refl; bounded = omega arith; shown = tt }

abbrev pub is_cancel : Effect → Bool
is_cancel (cancel id) = true
is_cancel _ = false

frames-is_cancel : (m : Dict TrackedConnection) → All (λ x. is_cancel x ≡ false) (frames m)
unfolding frames
frames-is_cancel [] = tt
frames-is_cancel ((k, c) ∷ m) = elim (Bool-cases c.flusher) [
  | inl flushes ↦ rw flushes (refl, frames-is_cancel m)
  | inr plain ↦ rw plain (frames-is_cancel m)
]

waits-is_cancel :
    (d : ℤ) → All (λ x. is_cancel x ≡ false) (if ltb_ℤ (pos 0) d then wait d ∷ [] else [])
waits-is_cancel d = elim (Bool-cases (ltb_ℤ (pos 0) d)) [
  | inl some_time ↦ rw some_time (refl, tt)
  | inr at_once ↦ rw at_once tt
]

length-cancels : (m : Dict TrackedConnection) → length (cancels m) ≡ length m
unfolding cancels
length-cancels [] = refl
length-cancels ((k, c) ∷ m) = omega (arith, length-cancels m)

-- DrainAll empties the tracker and answers the number of connections that it had; it cancels
-- exactly these, each once, after the shutdown frames and the wait.
pub drain_all_effects :
    (t : ConnectionTracker)
    → (count (drain_all t).0 ≡ 0)
      × ((drain_all t).2 ≡ count t)
      × (length (cancels t.conns) ≡ count t)
      × ((before : List Effect) × ((drain_all t).1 ≡ before ++ cancels t.conns)
          × All (λ x. is_cancel x ≡ false) before)
unfolding drain_all
drain_all_effects t = (
  rw (drain_all-tracker t) (unfold with_conns in refl),
  returned,
  length-cancels t.conns,
  effects t.conns refl,
)
  where
    returned : (drain_all t).2 ≡ count t
    returned = elim (Bool-cases (length t.conns == 0)) [
      | inl empty ↦ simp (empty, drain_all) (ground arith)
      | inr full ↦ simp (full, drain_all) refl
    ]

    effects :
        (m : Dict TrackedConnection)
        → t.conns ≡ m
        → (before : List Effect) × ((drain_all t).1 ≡ before ++ cancels t.conns)
          × All (λ x. is_cancel x ≡ false) before
    effects [] k = ([], simp (k, drain_all, cancels) refl, tt)
    effects (x ∷ m) k =
        let full : (length t.conns == 0) ≡ false = rw k (ground arith) in
        let waits : List Effect =
          if ltb_ℤ (pos 0) t.drain_wait then wait t.drain_wait ∷ [] else [] in
        (
          frames t.conns ++ waits,
          simp (full, drain_all, append_assoc) refl,
          All-append (λ e. is_cancel e ≡ false) (frames t.conns) waits (frames-is_cancel t.conns)
              (waits-is_cancel t.drain_wait),
        )
