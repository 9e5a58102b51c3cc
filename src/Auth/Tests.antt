-- ===== src/Auth/Tests.antt =====
-- A run of internal/auth's replay cache, and the theorem applied to it.
mod Tokens
use kubernaut_apifrontend.Common.{
  ◌≡◌, refl, true, List, [], ◌∷◌, ◌++◌, ℕ, zero, suc, arith, truncate,
}
use kubernaut_apifrontend.Common.Int.{pos, ◌+ℤ◌}
use kubernaut_apifrontend.Auth.Replay.{new_replay_cache, seen}
use kubernaut_apifrontend.Auth.Replay.Once.{Call, seen_call, tick, run, seen_once}
use kubernaut_apifrontend.Auth.Sanitize.{
  Decoded, rune, bad_byte, max_claim_len, is_kept, write_rune, sanitize_claim_value,
}
use kubernaut_apifrontend.Auth.Sanitize.Truncation.{
  kept_bytes, sanitize_claim_value-kept_bytes, sanitize_claim_value_cut,
}

abbrev calls : List Call
calls = seen_call 4 "b" ∷ tick 9 ∷ []

-- 255 letters "a" and "é", U+00E9.
abbrev letters : ℕ → List Decoded
letters zero = []
letters (suc n) = rune b'a' ∷ letters n

sanitize_claim_value_cut_example :
    sanitize_claim_value (letters 255 ++ rune 233 ∷ []) ≡ kept_bytes (letters 255) ++ 195 ∷ []
unfolding is_kept kept_bytes write_rune
sanitize_claim_value_cut_example =
    sanitize_claim_value_cut (letters 255) [] 233 refl refl (omega arith) (omega arith)
