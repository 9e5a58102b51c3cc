-- ===== src/Common/Lists.antt =====
-- Lists measured and indexed by native numbers, under the library's names.
use Prim.Native.Nat.{ℕ, zero, suc, ◌+◌, ◌≤◌, min}
use mathlib.Core.Path.{◌≡◌, refl, ap, sym, ◌∙◌}
use mathlib.Core.List.{List, [], ◌∷◌, ◌++◌}
use native.Mathlib.Omega.{arith}
use kubernaut_apifrontend.Common.Tests.{ltb, if◌then◌else◌}

module _ {ℓ} {A : Type ℓ} where
  abbrev pub length : List A → ℕ
  length [] = 0
  length (x ∷ xs) = suc (length xs)

  pub length-append : (xs ys : List A) → length (xs ++ ys) ≡ length xs + length ys
  length-append [] ys = omega arith
  length-append (x ∷ xs) ys = omega (arith, length-append xs ys)

module _ {ℓ} {A : Type ℓ} where
  abbrev pub take : ℕ → List A → List A
  take zero xs = []
  take (suc n) [] = []
  take (suc n) (x ∷ xs) = x ∷ take n xs

  pub length-take : (n : ℕ) (xs : List A) → length (take n xs) ≡ min n (length xs)
  length-take zero xs = omega arith
  length-take (suc n) [] = omega arith
  length-take (suc n) (x ∷ xs) = omega (arith, length-take n xs)

  -- `if len(s) > n { s = s[:n] }`
  abbrev pub truncate : ℕ → List A → List A
  truncate n xs = if ltb n (length xs) then take n xs else xs

  pub length-truncate-le : (n : ℕ) (xs : List A) → length (truncate n xs) ≤ n
  length-truncate-le n xs = ground (arith, length-take n xs)

  pub take-append : (n : ℕ) (xs ys : List A) → n ≤ length xs → take n (xs ++ ys) ≡ take n xs
  take-append zero xs ys h = refl
  take-append (suc n) [] ys h = absurd (omega arith)
  take-append (suc n) (x ∷ xs) ys h = ap (λ zs. x ∷ zs) (take-append n xs ys (omega arith))

  pub take_all : (n : ℕ) (xs : List A) → length xs ≤ n → take n xs ≡ xs
  take_all zero [] h = refl
  take_all zero (x ∷ xs) h = absurd (omega arith)
  take_all (suc n) [] h = refl
  take_all (suc n) (x ∷ xs) h = ap (λ zs. x ∷ zs) (take_all n xs (omega arith))

  -- One entry beyond the prefix.
  pub take-append_one :
      (xs : List A) (y : A) (ys : List A) → take (suc (length xs)) (xs ++ y ∷ ys) ≡ xs ++ y ∷ []
  take-append_one [] y ys = refl
  take-append_one (x ∷ xs) y ys = ap (λ zs. x ∷ zs) (take-append_one xs y ys)

  pub truncate_lem : (n : ℕ) (xs : List A) → truncate n xs ≡ take n xs
  truncate_lem n xs = ground (arith, take_all n xs)

  pub truncate-append :
      (n : ℕ) (xs ys : List A) → n ≤ length xs → truncate n (xs ++ ys) ≡ truncate n xs
  truncate-append n xs ys h =
      truncate_lem n (xs ++ ys) ∙ (take-append n xs ys h ∙ sym (truncate_lem n xs))
