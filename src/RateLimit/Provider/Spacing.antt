-- ===== src/RateLimit/Provider/Spacing.antt =====
-- JWKS fetches of one provider are kept apart (ProviderLimiter of internal/ratelimit/ratelimit.go).
use kubernaut_apifrontend.Common.{
  ℕ, String, ◌≡◌, refl, subst, ◌∙◌, inl, inr, false, Option, none, some, List, [], ◌∷◌, Bool-cases,
  if◌then◌else◌, str_eq, eq_iff, ◌&&◌,
}
use kubernaut_apifrontend.Common.Dict.{lookup, insert, lookup-insert}
use kubernaut_apifrontend.Common.Int.{ℤ, sub_ℕ, ◌≤ℤ◌, le_of_ltb_ℤ}
use kubernaut_apifrontend.RateLimit.Provider.{ProviderLimiter, too_early, allow_fetch}

-- The times at which the calls of a trace let a fetch of `p` through.
pub fetches : String → List (ℕ × String) → ProviderLimiter → List ℕ
fetches p [] l = []
fetches p ((now, provider) ∷ more) l =
    let (l', allowed) = allow_fetch now provider l in
    let rest = fetches p more l' in if allowed && str_eq provider p then now ∷ rest else rest

-- Each time is at least `interval` after the one before it, the first after `last`.
abbrev pub SpacedAfter : ℤ → Option ℕ → List ℕ → Type 0
SpacedAfter interval last [] = Unit {0}
SpacedAfter interval none (t ∷ ts) = SpacedAfter interval (some t) ts
SpacedAfter interval (some last) (t ∷ ts) =
    (interval ≤ℤ sub_ℕ t last) × SpacedAfter interval (some t) ts

allowed_late :
    (l : ProviderLimiter) (now : ℕ) (p : String) (ts : List ℕ)
    → too_early l now p ≡ false
    → SpacedAfter l.interval (some now) ts
    → SpacedAfter l.interval (lookup p l.last_fetch) (now ∷ ts)
unfolding too_early
allowed_late l now p ts h k = go (lookup p l.last_fetch) refl
  where
    go :
        (last : Option ℕ)
        → lookup p l.last_fetch ≡ last
        → SpacedAfter l.interval (lookup p l.last_fetch) (now ∷ ts)
    go none e = rw e k
    go (some last) e = rw e (le_of_ltb_ℤ (sub_ℕ now last) l.interval (rw (e, too_early) at h), k)

fetched : ProviderLimiter → ℕ → String → ProviderLimiter
fetched l now provider = record l { last_fetch = insert provider now l.last_fetch }

-- Whatever calls are made, for whatever providers and with whatever clock: the fetches of one
-- provider that are let through are at least the interval apart, the first also from a fetch made
-- before.
pub fetches-SpacedAfter :
    (p : String) (trace : List (ℕ × String)) (l : ProviderLimiter)
    → SpacedAfter l.interval (lookup p l.last_fetch) (fetches p trace l)
unfolding fetches allow_fetch fetched
fetches-SpacedAfter p [] l = go (lookup p l.last_fetch)
  where
    go : (last : Option ℕ) → SpacedAfter l.interval last []
    go last = tt
fetches-SpacedAfter p ((now, provider) ∷ more) l =
    let m = l.last_fetch in
    let ts = fetches p more (fetched l now provider) in
    let ind = fetches-SpacedAfter p more (fetched l now provider) in
    elim (Bool-cases (too_early l now provider)) [
      | inl early ↦ rw (early, fetches) (fetches-SpacedAfter p more l)
      | inr late ↦ elim (Bool-cases (str_eq provider p)) [
        | inl same ↦
            let q : lookup p (insert provider now m) ≡ some now =
              lookup-insert provider p now m ∙ rw same in
            rw (late, same, fetches)
              (allowed_late l now p ts
                (subst (λ z. too_early l now z ≡ false) ((eq_iff provider p).0 same) late)
                (subst (λ z. SpacedAfter l.interval z ts) q ind))
        | inr other ↦
            let q : lookup p (insert provider now m) ≡ lookup p m =
              lookup-insert provider p now m ∙ rw other in
            rw (late, other, fetches) (subst (λ z. SpacedAfter l.interval z ts) q ind)
      ]
    ]
