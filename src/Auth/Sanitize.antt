-- ===== src/Auth/Sanitize.antt =====
-- SanitizeClaimValue of internal/auth/sanitize.go. The text is what utf8.DecodeRuneInString reads of
-- it: runes, and bytes that begin no rune. The builder is its bytes.
pub mod Truncation
use kubernaut_apifrontend.Common.{
  ℕ, ◌+◌, ◌/◌, ◌%◌, Bool, true, false, List, [], ◌∷◌, ◌++◌, ◌==◌, leb, ltb, not, ◌&&◌, ◌||◌,
  if◌then◌else◌, length, take, truncate,
}

pub data Decoded : Type 0 where
  bad_byte : Decoded
  rune : ℕ → Decoded

abbrev pub max_claim_len : ℕ
max_claim_len = 256

-- The bytes that WriteRune appends.
unfoldable pub write_rune : ℕ → List ℕ
write_rune r =
    if ltb r 128
    then r ∷ []
    else (if ltb r 2048
        then (192 + r / 64) ∷ (128 + r % 64) ∷ []
        else (if ltb r 65536
            then (224 + r / 4096) ∷ (128 + r / 64 % 64) ∷ (128 + r % 64) ∷ []
            else (240 + r / 262144)
              ∷ (128 + r / 4096 % 64)
              ∷ (128 + r / 64 % 64)
              ∷ (128 + r % 64)
              ∷ []))

-- unicode.IsControl.
is_control : ℕ → Bool
is_control r = ltb r 32 || (leb 127 r && ltb r 160)

-- U+202A to U+202E and U+2066 to U+2069.
unfoldable pub is_bidi_override : ℕ → Bool
is_bidi_override r = (leb 8234 r && leb r 8238) || (leb 8294 r && leb r 8297)

-- The runes that the loop does not skip.
unfoldable pub is_kept : ℕ → Bool
unfolding is_control is_bidi_override
is_kept r =
    not (r == 0) && not (is_control r && not (r == 32) && not (r == 9)) && not (is_bidi_override r)

-- The loop, with what the builder holds.
unfoldable pub sanitize_loop : List Decoded → List ℕ → List ℕ
unfolding is_kept write_rune
sanitize_loop [] b = b
sanitize_loop (bad_byte ∷ rest) b = sanitize_loop rest b
sanitize_loop (rune r ∷ rest) b =
    let skipped = sanitize_loop rest b in
    let written = sanitize_loop rest (b ++ write_rune r) in
    if is_kept r
    then (if leb max_claim_len (length (b ++ write_rune r)) then b ++ write_rune r else written)
    else skipped

unfoldable pub sanitize_claim_value : List Decoded → List ℕ
unfolding sanitize_loop
sanitize_claim_value s = truncate max_claim_len (sanitize_loop s [])
