-- ===== src/Tools/Create/Naming.antt =====
-- The names that HandleCreateRR gives (internal/tools/af_create_rr.go).
use kubernaut_apifrontend.Common.{
  ℕ, zero, suc, ◌+◌, ◌-◌, ◌*◌, ◌/◌, ◌%◌, ◌^◌, ◌≤◌, ◌<◌, ◌≡◌, refl, sym, ap, ◌∙◌, String, List, [],
  ◌∷◌, ◌++◌, map, arith, length, length-append, truncate, truncate-append, truncate_lem, take_all,
  codes, ltb, Bool-cases, inl, inr,
}
use mathlib.Core.List.{append_assoc, append_cancel_left}
use kubernaut_apifrontend.Tools.Remediation.{to_lower}
use kubernaut_apifrontend.Tools.Create.{
  decimal, long_rr_name, rr_name, max_rr_name_len, int64_digits,
}

-- The number that decimal digits spell behind `n`.
abbrev scan : ℕ → List ℕ → ℕ
scan n [] = n
scan n (d ∷ more) = scan (n * 10 + (d - b'0')) more

pow_suc : (f : ℕ) → 10 ^ suc f ≡ 10 * 10 ^ f
pow_suc f = omega arith

-- As many digits are enough for a number below that power of ten.
decimal-scan : (f n : ℕ) (out : List ℕ) → n < 10 ^ f → scan 0 (decimal f n out) ≡ scan n out
unfolding decimal
decimal-scan zero n out h = let e : n ≡ 0 = omega arith in rw e refl
decimal-scan (suc f) n out h = elim (Bool-cases (ltb n 10)) [
  | inl small ↦ rw small (ap (λ k. scan k out) (omega arith))
  | inr large ↦
      let less : n / 10 < 10 ^ f = omega (arith, pow_suc f, h) in
      rw large
        (decimal-scan f (n / 10) ((b'0' + n % 10) ∷ out) less ∙ ap (λ k. scan k out) (omega arith))
]

-- What stands before the digits.
abbrev name_prefix : String → String → List ℕ
name_prefix kind name =
    codes "rr-" ++ (map to_lower (codes kind) ++ (b'-' ∷ (map to_lower (codes name) ++ b'-' ∷ [])))

length-map {ℓ κ} :
    {A : Type ℓ} {B : Type κ} (f : A → B) (xs : List A) → length (map f xs) ≡ length xs
length-map f [] = refl
length-map f (x ∷ xs) = omega (arith, length-map f xs)

long_rr_name-prefix :
    (kind name : String) (t : ℕ)
    → long_rr_name kind name t ≡ name_prefix kind name ++ decimal int64_digits t []
unfolding long_rr_name
long_rr_name-prefix kind name t = simp append_assoc

length-name_prefix :
    (kind name : String)
    → length (name_prefix kind name) ≡ length (codes kind) + length (codes name) + 5
length-name_prefix kind name = omega (
  arith,
  length-append (codes "rr-")
      (map to_lower (codes kind) ++ (b'-' ∷ (map to_lower (codes name) ++ b'-' ∷ []))),
  length-append (map to_lower (codes kind)) (b'-' ∷ (map to_lower (codes name) ++ b'-' ∷ [])),
  length-append (map to_lower (codes name)) (b'-' ∷ []),
  length-map to_lower (codes kind),
  length-map to_lower (codes name),
)

-- The name of a request for a kind and a name of 58 characters or more together does not depend on
-- the time: the cut to 63 bytes takes the whole time stamp away, so that every request for that
-- target is given the same name.
pub rr_name_timeless :
    (kind name : String) (t t' : ℕ)
    → 58 ≤ length (codes kind) + length (codes name)
    → rr_name kind name t ≡ rr_name kind name t'
unfolding rr_name
rr_name_timeless kind name t t' h = same t ∙ sym (same t')
  where
    same :
        (t : ℕ)
        → truncate max_rr_name_len (long_rr_name kind name t)
          ≡ truncate max_rr_name_len (name_prefix kind name)
    same t =
        ap (truncate max_rr_name_len) (long_rr_name-prefix kind name t)
        ∙ truncate-append max_rr_name_len (name_prefix kind name) (decimal int64_digits t [])
            (omega (arith, length-name_prefix kind name))

-- Names that fit whole differ whenever the times differ.
pub rr_name_unique :
    (kind name : String) (t t' : ℕ)
    → t < 10 ^ int64_digits
    → t' < 10 ^ int64_digits
    → length (long_rr_name kind name t) ≤ max_rr_name_len
    → length (long_rr_name kind name t') ≤ max_rr_name_len
    → rr_name kind name t ≡ rr_name kind name t'
    → t ≡ t'
unfolding rr_name
rr_name_unique kind name t t' b b' h h' e =
    let whole = truncate_all (long_rr_name kind name t) h in
    let whole' = truncate_all (long_rr_name kind name t') h' in
    let digits =
      append_cancel_left (name_prefix kind name) (decimal int64_digits t [])
        (decimal int64_digits t' [])
        (sym (long_rr_name-prefix kind name t)
          ∙ (sym whole ∙ (e ∙ (whole' ∙ long_rr_name-prefix kind name t')))) in
    sym (decimal-scan int64_digits t [] b)
    ∙ (ap (scan 0) digits ∙ decimal-scan int64_digits t' [] b')
  where
    truncate_all : (xs : List ℕ) → length xs ≤ max_rr_name_len → truncate max_rr_name_len xs ≡ xs
    truncate_all xs h = truncate_lem max_rr_name_len xs ∙ take_all max_rr_name_len xs h
