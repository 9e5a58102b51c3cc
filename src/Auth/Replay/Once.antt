-- ===== src/Auth/Replay/Once.antt =====
-- A token ID is let through once (internal/auth/replay_cache.go).
use kubernaut_apifrontend.Common.{
  ℕ, String, ◌≡◌, refl, ◌≢◌, inl, inr, ap, ◌∙◌, true, false, some, List, [], ◌∷◌, arith, Bool-cases,
  Option-cases, str_eq, eq_iff,
}
use kubernaut_apifrontend.Common.All.{All}
use kubernaut_apifrontend.Common.Dict.{lookup, lookup-insert, lookup-insert_self}
use kubernaut_apifrontend.Common.Sweep.{
  HasUniqueKeys, keep_some, lookup-sweep, sweep-HasUniqueKeys, insert-HasUniqueKeys,
}
use kubernaut_apifrontend.Common.Int.{ℤ, pos, ◌≤ℤ◌, ◌+ℤ◌, ltb_ℤ_of_le}
use kubernaut_apifrontend.Auth.Replay.{ReplayCache, seen, still_valid, evict}

pub data Call : Type 0 where
  seen_call : ℕ → String → Call
  tick : ℕ → Call

abbrev pub time : Call → ℕ
time (seen_call now jti) = now
time (tick now) = now

unfoldable pub call : Call → ReplayCache → ReplayCache
call (seen_call now jti) c = (seen now jti c).0
call (tick now) c = evict now c

unfoldable pub run : List Call → ReplayCache → ReplayCache
run [] c = c
run (x ∷ more) c = run more (call x c)

-- The cache knows `jti`, with the given expiry.
pub record Knows (jti : String) (expiry : ℤ) (c : ReplayCache) : Type 0 where
  pub unique : HasUniqueKeys c.entries
  pub known : lookup jti c.entries ≡ some expiry

pub seen-Knows :
    (now : ℕ) (other jti : String) (expiry : ℤ) (c : ReplayCache)
    → Knows jti expiry c
    → Knows jti expiry (seen now other c).0
unfolding seen
seen-Knows now other jti expiry c k = elim (Bool-cases (str_eq other "")) [
  | inl empty ↦ simp (empty, seen) k
  | inr full ↦ elim (Option-cases (lookup other c.entries)) [
    | inr (x, q) ↦ simp (full, q, seen) k
    | inl q ↦
        simp (full, q, seen)
          (record {
            unique = insert-HasUniqueKeys other (pos now +ℤ c.ttl) c.entries k.unique;
            known = ground (
              arith,
              eq_iff other jti,
              k.known,
              lookup-insert other jti (pos now +ℤ c.ttl) c.entries,
            );
          })
  ]
]

pub evict-Knows :
    (now : ℕ) (jti : String) (expiry : ℤ) (c : ReplayCache)
    → pos now ≤ℤ expiry
    → Knows jti expiry c
    → Knows jti expiry (evict now c)
unfolding evict
evict-Knows now jti expiry c early k = record {
  unique = sweep-HasUniqueKeys (still_valid now) c.entries k.unique;
  known =
      lookup-sweep (still_valid now) jti c.entries k.unique
      ∙ (ap (keep_some (still_valid now)) k.known
          ∙ (let q : still_valid now expiry ≡ true =
                unfold still_valid in rw (ltb_ℤ_of_le expiry (pos now) early) in
              rw q));
}

run-Knows :
    (calls : List Call) (jti : String) (expiry : ℤ) (c : ReplayCache)
    → All (λ x. pos (time x) ≤ℤ expiry) calls
    → Knows jti expiry c
    → Knows jti expiry (run calls c)
unfolding run call
run-Knows [] jti expiry c early k = k
run-Knows (seen_call now other ∷ more) jti expiry c early k =
    run-Knows more jti expiry _ early.1 (seen-Knows now other jti expiry c k)
run-Knows (tick now ∷ more) jti expiry c early k =
    run-Knows more jti expiry _ early.1 (evict-Knows now jti expiry c early.0 k)

pub full_id : (jti : String) → jti ≢ "" → str_eq jti "" ≡ false
full_id jti n = elim (Bool-cases (str_eq jti "")) [
  | inl empty ↦ absurd (n ((eq_iff jti "").0 empty))
  | inr full ↦ full
]

pub first-Knows :
    (c : ReplayCache) (jti : String) (t : ℕ)
    → HasUniqueKeys c.entries
    → str_eq jti "" ≡ false
    → (seen t jti c).1 ≡ false
    → Knows jti (pos t +ℤ c.ttl) (seen t jti c).0
unfolding seen
first-Knows c jti t unique full fresh = elim (Option-cases (lookup jti c.entries)) [
  | inr (x, q) ↦ absurd (let p : true ≡ false = simp (full, q, seen) at fresh in cc)
  | inl q ↦
      simp (full, q, seen)
        (record {
          unique = insert-HasUniqueKeys jti (pos t +ℤ c.ttl) c.entries unique;
          known = lookup-insert_self jti (pos t +ℤ c.ttl) c.entries;
        })
]

pub refused :
    (now : ℕ) (jti : String) (expiry : ℤ) (c : ReplayCache)
    → str_eq jti "" ≡ false
    → Knows jti expiry c
    → (seen now jti c).1 ≡ true
unfolding seen
refused now jti expiry c full k = simp (full, k.known, seen) refl

-- A token ID that was let through is refused at any later call, whatever other calls and
-- evictions there are in between, as long as none of these happens after the TTL.
pub seen_once :
    (c : ReplayCache) (jti : String) (t now : ℕ) (calls : List Call)
    → HasUniqueKeys c.entries
    → jti ≢ ""
    → (seen t jti c).1 ≡ false
    → All (λ x. pos (time x) ≤ℤ pos t +ℤ c.ttl) calls
    → (seen now jti (run calls (seen t jti c).0)).1 ≡ true
seen_once c jti t now calls unique some_id fresh early =
    let full = full_id jti some_id in
    refused now jti (pos t +ℤ c.ttl) (run calls (seen t jti c).0) full (
      run-Knows calls jti (pos t +ℤ c.ttl) (seen t jti c).0 early
        (first-Knows c jti t unique full fresh))
