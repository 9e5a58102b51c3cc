-- ===== src/Tools/Errors/Trimmed.antt =====
-- What TrimSliceToFit (internal/tools/helpers.go) keeps.
use kubernaut_apifrontend.Common.{
  ℕ, zero, suc, ◌-◌, ◌≤◌, ◌<◌, ◌≡◌, refl, ◌⊎◌, inl, inr, true, false, List, [], ◌∷◌, leb, length,
  take, take_all, length-take, arith, ap, sym, subst, Bool-cases, leb→le,
}
use kubernaut_apifrontend.Tools.Errors.{
  drop_last, trim_loop, trim_slice_to_fit, max_tool_output_bytes,
}
use native.Mathlib.Decide.{dec_lt}

drop_last-take {ℓ} :
    {A : Type ℓ} (k : ℕ) (xs : List A)
    → suc (suc k) ≤ length xs
    → drop_last (take (suc (suc k)) xs) ≡ take (suc k) xs
unfolding drop_last
drop_last-take zero [] h = absurd (omega arith)
drop_last-take zero (x ∷ []) h = absurd (omega arith)
drop_last-take zero (x ∷ y ∷ more) h = refl
drop_last-take (suc k) [] h = absurd (omega arith)
drop_last-take (suc k) (x ∷ []) h = absurd (omega arith)
drop_last-take (suc k) (x ∷ y ∷ more) h =
    ap (λ zs. x ∷ zs) (drop_last-take k (y ∷ more) (omega arith))

module _ {ℓ} {A : Type ℓ} (size : List A → ℕ) where
  -- `kept` is the longest prefix that fits, of those with one to `n` items, or the first item
  -- alone where none fits.
  pub record Longest (items : List A) (n : ℕ) (kept : List A) : Type ℓ where
    pub prefix : kept ≡ take (length kept) items
    pub some_left : 1 ≤ length kept
    pub within : length kept ≤ n
    pub fits : (size kept ≤ max_tool_output_bytes) ⊎ (length kept ≡ 1)
    pub longest : (m : ℕ) → length kept < m → m ≤ n → max_tool_output_bytes < size (take m items)

  prefix-Longest :
      (items : List A) (k : ℕ)
      → suc k ≤ length items
      → (size (take (suc k) items) ≤ max_tool_output_bytes) ⊎ (k ≡ 0)
      → Longest items (suc k) (take (suc k) items)
  prefix-Longest items k h fits =
      let e : length (take (suc k) items) ≡ suc k = omega (arith, length-take (suc k) items) in
      record {
        prefix = ap (λ n. take n items) (sym e);
        some_left = omega (arith, e);
        within = omega (arith, e);
        fits = elim fits [ inl f ↦ inl f | inr z ↦ inr (omega (arith, e, z)) ];
        longest = λ m a b. absurd (omega (arith, e, a, b));
      }

  widen-Longest :
      (items kept : List A) (n : ℕ)
      → max_tool_output_bytes < size (take (suc n) items)
      → Longest items n kept
      → Longest items (suc n) kept
  widen-Longest items kept n big l = record {
    prefix = l.prefix;
    some_left = l.some_left;
    within = omega (arith, l.within);
    fits = l.fits;
    longest = λ m a b. elim (dec_lt n m) [
      | yes p ↦ let e : m ≡ suc n = omega arith in rw e big
      | no p ↦ l.longest m a (omega (arith, p))
    ];
  }

  trim_loop-Longest :
      (k : ℕ) (items : List A)
      → suc k ≤ length items
      → max_tool_output_bytes < size (take (suc k) items)
      → Longest items (suc k) (trim_loop size k (take (suc k) items))
  unfolding trim_loop
  trim_loop-Longest zero items h big = prefix-Longest items 0 h (inr refl)
  trim_loop-Longest (suc k) items h big =
      rw (drop_last-take k items h)
        (elim (Bool-cases (leb (size (take (suc k) items)) max_tool_output_bytes)) [
          | inl yes_fits ↦ rw yes_fits (
              widen-Longest items _ (suc k) big
                (prefix-Longest items k (omega arith) (inl (leb→le _ _ yes_fits))))
          | inr too_big ↦ rw too_big (
              widen-Longest items _ (suc k) big
                (trim_loop-Longest k items (omega arith) (ground arith)))
        ])

  -- A list that fits is kept. Otherwise it is marked as trimmed, and what is left of it is its
  -- longest prefix that fits, or the first item alone if no prefix with an item fits; nothing is
  -- left of the empty list.
  pub trim_slice_to_fit-Longest :
      (items : List A)
      → ((size items ≤ max_tool_output_bytes) × (trim_slice_to_fit size items ≡ (items, false)))
        ⊎ ((max_tool_output_bytes < size items)
            × ((trim_slice_to_fit size items).1 ≡ true)
            × ((items ≡ []) ⊎ Longest items (length items) (trim_slice_to_fit size items).0))
  unfolding trim_slice_to_fit trim_loop
  trim_slice_to_fit-Longest items = elim (Bool-cases (leb (size items) max_tool_output_bytes)) [
    | inl small ↦ inl (leb→le _ _ small, rw small)
    | inr big ↦ inr (ground arith, rw big, rw big (go items (ground arith)))
  ]
    where
      go :
          (xs : List A)
          → max_tool_output_bytes < size xs
          → (xs ≡ []) ⊎ Longest xs (length xs) (trim_loop size (length xs - 1) xs)
      go [] h = inl refl
      go (x ∷ more) h =
          let e = take_all (suc (length more)) (x ∷ more) (omega arith) in
          let p : suc (length more) - 1 ≡ length more = omega arith in
          inr (
            rw p (
              subst (λ ys. Longest (x ∷ more) (suc (length more)) (trim_loop size (length more) ys))
                e (trim_loop-Longest (length more) (x ∷ more) (omega arith) (rw e h))))
