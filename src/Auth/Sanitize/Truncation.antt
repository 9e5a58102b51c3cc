-- ===== src/Auth/Sanitize/Truncation.antt =====
-- What SanitizeClaimValue (internal/auth/sanitize.go) keeps of a claim, and how it is cut.
use kubernaut_apifrontend.Common.{
  ℕ, suc, ◌+◌, ◌/◌, ◌%◌, ◌≤◌, ◌≡◌, refl, ap, sym, ◌∙◌, inl, inr, true, false, List, [], ◌∷◌, ◌++◌,
  arith, Bool-cases, if◌then◌else◌, length, leb, ltb, truncate, truncate-append, truncate_lem,
  take-append_one, take, leb→le, ltb, le→ltb_false, lt→ltb, ◌<◌,
}
use mathlib.Core.List.{append_assoc, append-nil}
use kubernaut_apifrontend.Auth.Sanitize.{
  Decoded, bad_byte, rune, max_claim_len, write_rune, is_kept, sanitize_loop, sanitize_claim_value,
}

-- The specification: all the runes that are kept, encoded.
unfoldable pub kept_bytes : List Decoded → List ℕ
kept_bytes [] = []
kept_bytes (bad_byte ∷ rest) = kept_bytes rest
kept_bytes (rune r ∷ rest) =
    let more = kept_bytes rest in if is_kept r then write_rune r ++ more else more

sanitize_loop-kept_bytes :
    (s : List Decoded) (b : List ℕ)
    → truncate max_claim_len (sanitize_loop s b) ≡ truncate max_claim_len (b ++ kept_bytes s)
unfolding sanitize_loop kept_bytes
sanitize_loop-kept_bytes [] b = rw (append-nil b) refl
sanitize_loop-kept_bytes (bad_byte ∷ rest) b = sanitize_loop-kept_bytes rest b
sanitize_loop-kept_bytes (rune r ∷ rest) b = elim (Bool-cases (is_kept r)) [
  | inr skipped ↦ rw skipped (sanitize_loop-kept_bytes rest b)
  | inl kept ↦
      let longer = b ++ write_rune r in
      let shift : b ++ (write_rune r ++ kept_bytes rest) ≡ longer ++ kept_bytes rest =
        sym (append_assoc b (write_rune r) (kept_bytes rest)) in
      elim (Bool-cases (leb max_claim_len (length longer))) [
        | inl full ↦
            rw (kept, full, shift)
              (sym (
                truncate-append max_claim_len longer (kept_bytes rest)
                  (leb→le max_claim_len (length longer) full)))
        | inr room ↦ rw (kept, room, shift) (sanitize_loop-kept_bytes rest longer)
      ]
]

-- The early end of the loop changes nothing: the result is the kept runes of the whole text,
-- encoded and cut to 256 bytes.
pub sanitize_claim_value-kept_bytes :
    (s : List Decoded) → sanitize_claim_value s ≡ truncate max_claim_len (kept_bytes s)
unfolding sanitize_claim_value
sanitize_claim_value-kept_bytes s = sanitize_loop-kept_bytes s []

kept_bytes-append : (s t : List Decoded) → kept_bytes (s ++ t) ≡ kept_bytes s ++ kept_bytes t
unfolding kept_bytes
kept_bytes-append [] t = refl
kept_bytes-append (bad_byte ∷ s) t = kept_bytes-append s t
kept_bytes-append (rune r ∷ s) t = elim (Bool-cases (is_kept r)) [
  | inr skipped ↦ rw skipped (kept_bytes-append s t)
  | inl kept ↦ rw (kept, kept_bytes-append s t, append_assoc) refl
]

kept_bytes_two :
    (r : ℕ) (t : List Decoded)
    → is_kept r ≡ true
    → 128 ≤ r
    → r < 2048
    → kept_bytes (rune r ∷ t) ≡ (192 + r / 64) ∷ (128 + r % 64) ∷ kept_bytes t
unfolding kept_bytes write_rune
kept_bytes_two r t kept low high =
    let q : ltb r 128 ≡ false = le→ltb_false r 128 low in
    let p : ltb r 2048 ≡ true = lt→ltb r 2048 high in rw (kept, q, p) refl

-- The cut can fall inside a rune: after 255 bytes of kept text, a kept rune of two bytes leaves
-- its first byte alone at the end of the result, which is then no valid UTF-8.
pub sanitize_claim_value_cut :
    (s t : List Decoded) (r : ℕ)
    → length (kept_bytes s) ≡ 255
    → is_kept r ≡ true
    → 128 ≤ r
    → r < 2048
    → sanitize_claim_value (s ++ rune r ∷ t) ≡ kept_bytes s ++ (192 + r / 64) ∷ []
sanitize_claim_value_cut s t r long kept low high =
    let xs = kept_bytes s in
    let y = 192 + r / 64 in
    let ys = (128 + r % 64) ∷ kept_bytes t in
    let all : kept_bytes (s ++ rune r ∷ t) ≡ xs ++ y ∷ ys =
      kept_bytes-append s (rune r ∷ t) ∙ ap (λ z. xs ++ z) (kept_bytes_two r t kept low high) in
    let end : max_claim_len ≡ suc (length xs) = omega arith in
    sanitize_claim_value-kept_bytes (s ++ rune r ∷ t)
    ∙ (ap (truncate max_claim_len) all
        ∙ (truncate_lem max_claim_len (xs ++ y ∷ ys)
            ∙ (ap (λ n. take n (xs ++ y ∷ ys)) end ∙ take-append_one xs y ys)))
