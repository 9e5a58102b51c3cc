-- ===== src/Auth/Jwks/Recent.antt =====
-- The keys that GetKeys (internal/auth/jwks_cache.go) answers were fetched not long ago.
use kubernaut_apifrontend.Common.{
  ℕ, ◌≡◌, refl, subst, ◌⊎◌, inl, inr, String, true, false, some, List, [], ◌∷◌, arith, Bool-cases,
  Option-cases, str_eq, eq_iff,
}
use kubernaut_apifrontend.Common.All.{Any}
use kubernaut_apifrontend.Common.Dict.{lookup, insert, lookup-insert}
use kubernaut_apifrontend.Common.Int.{
  ℤ, pos, ◌≤ℤ◌, ◌<ℤ◌, ◌+ℤ◌, ltb_ℤ, ltb_ℤ_of_lt, lt_of_ltb_ℤ, le_of_ltb_ℤ, sub_ℕ_parts, +ℤ_parts,
}
use kubernaut_apifrontend.Auth.Jwks.{
  http_response, FetchResult, fetched, fetch_error, JwksEnv, KeysResult, keys, CacheEntry,
  JwksCache, new_jwks_cache, fetch_jwks, age, fresh_entry, fall_back, refresh_keys, get_keys,
  has_breaker,
}

-- A breaker answers keys only where the function that it was given does, in some world.
abbrev pub ExecuteLaw : JwksEnv → Type 0
ExecuteLaw e =
    (url : String) (f : e.World → e.World × FetchResult e.Keys) (w : e.World) (k : e.Keys)
    → (e.execute url f w).1 ≡ fetched k
    → (v : e.World) × ((f v).1 ≡ fetched k)

FetchResult-cases :
    {Keys : Type 0} (r : FetchResult Keys) → ((k : Keys) × (r ≡ fetched k)) ⊎ (r ≡ fetch_error)
FetchResult-cases (fetched k) = inl (k, refl)
FetchResult-cases fetch_error = inr refl

module _ (e : JwksEnv) where
  open e use {World, Keys, now, http_get, execute}

  -- One of the calls, for this URL, got the keys from its breaker at this time, and they stood in a
  -- response of the URL with status 200.
  pub record FetchedAt (calls : List (World × String)) (url : String) (k : Keys) (t : ℕ)
      : Type 0 where
    pub began : World
    pub called : Any (λ c. c ≡ (began, url)) calls
    pub answered : (execute url (fetch_jwks e url) began).1 ≡ fetched k
    pub stored_at : now (execute url (fetch_jwks e url) began).0 ≡ t
    pub served_in : World
    pub served : (http_get url served_in).1 ≡ http_response 200 (some k)

  fetch_jwks-served :
      (url : String) (v : World) (k : Keys)
      → (fetch_jwks e url v).1 ≡ fetched k
      → (http_get url v).1 ≡ http_response 200 (some k)
  unfolding fetch_jwks
  fetch_jwks-served url v k h = ground arith

  -- The cache after a list of calls.
  unfoldable pub run : List (World × String) → JwksCache e → JwksCache e
  run [] c = c
  run ((w, url) ∷ more) c = run more (get_keys e c w url).1

  record Sound (calls : List (World × String)) (stale refresh : ℤ) (c : JwksCache e) : Type 0 where
    stale_is : c.max_staleness ≡ stale
    refresh_is : c.refresh_interval ≡ refresh
    stored :
        (url : String) (entry : CacheEntry e)
        → lookup url c.entries ≡ some entry
        → FetchedAt calls url entry.keys entry.fetched_at

  -- What a call answers is recent in the world after it.
  pub record Recent (calls : List (World × String)) (stale : ℤ) (url : String) (k : Keys)
      (w : World) : Type 0 where
    pub time : ℕ
    pub at : FetchedAt calls url k time
    pub not_old : pos (now w) ≤ℤ pos time +ℤ stale

  module _ (law : ExecuteLaw e) (stale refresh : ℤ) (positive : pos 0 <ℤ stale)
      (shorter : refresh ≤ℤ stale) (calls : List (World × String)) where
    abbrev IsCall : World → String → Type 0
    IsCall w url = Any (λ c. c ≡ (w, url)) calls

    execute-FetchedAt :
        (url : String) (w : World) (k : Keys)
        → IsCall w url
        → (execute url (fetch_jwks e url) w).1 ≡ fetched k
        → FetchedAt calls url k (now (execute url (fetch_jwks e url) w).0)
    execute-FetchedAt url w k call h =
        let p = law url (fetch_jwks e url) w k h in
        record {
          began = w;
          called = call;
          answered = h;
          stored_at = refl;
          served_in = p.0;
          served = fetch_jwks-served url p.0 k p.1;
        }

    entry-Recent :
        (c : JwksCache e) (w : World) (url : String) (entry : CacheEntry e)
        → Sound calls stale refresh c
        → lookup url c.entries ≡ some entry
        → age e w entry ≤ℤ stale
        → Recent calls stale url entry.keys w
    unfolding age
    entry-Recent c w url entry s h young = record {
      time = entry.fetched_at;
      at = s.stored url entry h;
      not_old = omega (
        arith,
        young,
        sub_ℕ_parts (now w) entry.fetched_at,
        +ℤ_parts (pos entry.fetched_at) stale,
      );
    }

    fall_back-Recent :
        (c : JwksCache e) (w : World) (url : String) (k : Keys)
        → Sound calls stale refresh c
        → fall_back e c w url ≡ keys k
        → Recent calls stale url k w
    unfolding fall_back
    fall_back-Recent c w url k s h = elim (Option-cases (lookup url c.entries)) [
      | inl gone ↦ absurd (ground arith)
      | inr (entry, found) ↦
          let on : ltb_ℤ (pos 0) c.max_staleness ≡ true =
            rw s.stale_is (ltb_ℤ_of_lt (pos 0) stale positive) in
          let young : ltb_ℤ c.max_staleness (age e w entry) ≡ false =
            ground (arith, found, h, on) in
          let same : entry.keys ≡ k = ground (arith, found, h) in
          subst (λ x. Recent calls stale url x w) same
            (entry-Recent c w url entry s found (
              subst (λ m. age e w entry ≤ℤ m) s.stale_is
                (le_of_ltb_ℤ c.max_staleness (age e w entry) young)))
    ]

    fresh-Recent :
        (c : JwksCache e) (w : World) (url : String) (entry : CacheEntry e)
        → Sound calls stale refresh c
        → fresh_entry e c w url ≡ some entry
        → Recent calls stale url entry.keys w
    unfolding fresh_entry
    fresh-Recent c w url entry s h =
        let found : lookup url c.entries ≡ some entry = ground arith in
        let young : ltb_ℤ (age e w entry) c.refresh_interval ≡ true = ground arith in
        let less = lt_of_ltb_ℤ (age e w entry) c.refresh_interval young in
        entry-Recent c w url entry s found (
          let z : age e w entry <ℤ refresh = subst (λ m. age e w entry <ℤ m) s.refresh_is less in
          omega (arith, z, shorter))

    stored_after :
        (c : JwksCache e) (url : String) (k : Keys) (t : ℕ)
        → FetchedAt calls url k t
        → Sound calls stale refresh c
        → (other : String) (entry : CacheEntry e)
        → lookup other (insert url (record { keys = k; fetched_at = t }) c.entries) ≡ some entry
        → FetchedAt calls other entry.keys entry.fetched_at
    stored_after c url k t at s other entry h = elim (Bool-cases (str_eq url other)) [
      | inr differs ↦ s.stored other entry (
          ground (
            arith,
            differs,
            h,
            lookup-insert url other (record { keys = k; fetched_at = t }) c.entries,
          ))
      | inl equal ↦
          let e₁ : (entry.keys ≡ k) × (entry.fetched_at ≡ t) = ground (
            arith,
            equal,
            h,
            lookup-insert url other (record { keys = k; fetched_at = t }) c.entries,
          ) in
          rw e₁.0 (rw e₁.1 (subst (λ u. FetchedAt calls u k t) ((eq_iff url other).0 equal) at))
    ]

    -- A call answers recent keys, and leaves a sound cache.
    record Good (url : String) (r : World × JwksCache e × KeysResult Keys) : Type 0 where
      sound : Sound calls stale refresh r.1
      recent : (k : Keys) → r.2 ≡ keys k → Recent calls stale url k r.0

    refresh_keys-Good :
        (c : JwksCache e) (w : World) (url : String)
        → IsCall w url
        → Sound calls stale refresh c
        → Good url (refresh_keys e c w url)
    unfolding refresh_keys
    refresh_keys-Good c w url call s =
        elim (FetchResult-cases (execute url (fetch_jwks e url) w).1) [
          | inr failed ↦
              rw (failed, refresh_keys)
                (record {
                  sound = s;
                  recent = λ k h. fall_back-Recent c (execute url (fetch_jwks e url) w).0 url k s h;
                })
          | inl (k, answered) ↦
              let at = execute-FetchedAt url w k call answered in
              let w' = (execute url (fetch_jwks e url) w).0 in
              let new : CacheEntry e = record { keys = k; fetched_at = now w' } in
              rw (answered, refresh_keys)
                (record {
                  sound = record {
                    stale_is = s.stale_is;
                    refresh_is = s.refresh_is;
                    stored =
                        λ other entry h. stored_after c url k new.fetched_at at s other entry h;
                  };
                  recent = λ k' h. record {
                    time = now w';
                    at =
                        let same : k ≡ k' = cc in
                        subst (λ x. FetchedAt calls url x (now w')) same at;
                    not_old = omega (arith, positive, +ℤ_parts (pos (now w')) stale);
                  };
                })
        ]

    get_keys-Good :
        (c : JwksCache e) (w : World) (url : String)
        → IsCall w url
        → Sound calls stale refresh c
        → Good url (get_keys e c w url)
    unfolding get_keys
    get_keys-Good c w url call s = elim (Bool-cases (has_breaker url c.breakers)) [
      | inr unknown ↦ rw (unknown, get_keys) (record { sound = s; recent = λ k h. absurd (cc) })
      | inl known ↦ elim (Option-cases (fresh_entry e c w url)) [
        | inl fetch ↦ rw (known, get_keys) (rw (fetch, get_keys) (refresh_keys-Good c w url call s))
        | inr (entry, fresh) ↦
            rw (known, get_keys)
              (rw (fresh, get_keys)
                (record {
                  sound = s;
                  recent = λ k h.
                      (let same : entry.keys ≡ k = cc in
                        subst (λ x. Recent calls stale url x w) same
                          (fresh-Recent c w url entry s fresh));
                }))
      ]
    ]

    run-Sound :
        (more : List (World × String)) (c : JwksCache e)
        → ((w : World) (url : String) → Any (λ p. p ≡ (w, url)) more → IsCall w url)
        → Sound calls stale refresh c
        → Sound calls stale refresh (run more c)
    unfolding run
    run-Sound [] c listed s = s
    run-Sound ((w, url) ∷ more) c listed s =
        run-Sound more (get_keys e c w url).1 (λ v u h. listed v u (inr h))
          (get_keys-Good c w url (listed w url (inl refl)) s).sound

    new-Sound :
        (urls : List String) → Sound calls stale refresh (new_jwks_cache e urls stale refresh)
    unfolding new_jwks_cache lookup
    new-Sound urls = record {
      stale_is = refl;
      refresh_is = refl;
      stored = λ url entry h. absurd (cc);
    }

  module _ (law : ExecuteLaw e) (stale refresh : ℤ) (positive : pos 0 <ℤ stale)
      (shorter : refresh ≤ℤ stale) where
    -- Whatever calls a cache has answered, each in its own world, and whatever the breakers do: keys
    -- that GetKeys answers for a URL were fetched by one of these calls or by the present one, for
    -- that very URL, from a response with status 200; and in the world after the call that fetch
    -- lies at most the maximal staleness back. This takes a positive staleness that is no less than
    -- the refresh interval.
    pub get_keys-Recent :
        (urls : List String) (calls : List (World × String)) (w : World) (url : String) (k : Keys)
        → (get_keys e (run calls (new_jwks_cache e urls stale refresh)) w url).2 ≡ keys k
        → Recent
            ((w, url) ∷ calls)
            stale
            url
            k
            (get_keys e (run calls (new_jwks_cache e urls stale refresh)) w url).0
    get_keys-Recent urls calls w url k h =
        let c = run calls (new_jwks_cache e urls stale refresh) in
        let all = (w, url) ∷ calls in
        let sound : Sound all stale refresh c =
          run-Sound law stale refresh positive shorter all calls _ (λ v u m. inr m)
            (new-Sound law stale refresh positive shorter all urls) in
        (get_keys-Good law stale refresh positive shorter all c w url (inl refl) sound).recent k h
