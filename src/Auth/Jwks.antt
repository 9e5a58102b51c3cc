-- ===== src/Auth/Jwks.antt =====
-- JWKSCache of internal/auth/jwks_cache.go. The circuit breakers (gobreaker), the HTTP client and the
-- decoder of key sets are outside, as calls over a world; the gauge is left out.
pub mod Recent
use kubernaut_apifrontend.Common.{
  ℕ, ◌*◌, String, Bool, true, false, Option, none, some, List, [], ◌∷◌, ◌&&◌, not, ◌==◌, ◌||◌, leb,
  if◌then◌else◌, str_eq,
}
use kubernaut_apifrontend.Common.Dict.{Dict, lookup, insert}
use kubernaut_apifrontend.Common.Int.{ℤ, pos, sub_ℕ, ltb_ℤ}
use kubernaut_apifrontend.Resilience.Breaker.{CbState, opened}

-- What the HTTP client answers: no response, or one with its status and, where its body decodes
-- within 1 MiB, its key set.
pub data HttpAnswer (Keys : Type 0) : Type 0 where
  http_error : HttpAnswer Keys
  http_response : ℕ → Option Keys → HttpAnswer Keys

pub data FetchResult (Keys : Type 0) : Type 0 where
  fetched : Keys → FetchResult Keys
  fetch_error : FetchResult Keys

-- `execute` is the Execute of the breaker of a URL, and `state` its State.
pub record JwksEnv : Type 1 where
  pub World : Type 0
  pub Keys : Type 0
  pub now : World → ℕ
  pub http_get : String → World → World × HttpAnswer Keys
  pub execute : String → (World → World × FetchResult Keys) → World → World × FetchResult Keys
  pub state : String → World → CbState

-- ReadyToTrip on the count of consecutive failures.
unfoldable pub jwks_ready_to_trip : ℕ → Bool
jwks_ready_to_trip consecutive_failures = leb 3 consecutive_failures

abbrev pub second : ℕ
second = 1000000000

abbrev pub default_max_staleness : ℤ
default_max_staleness = pos (3600 * second)

abbrev pub default_refresh_interval : ℤ
default_refresh_interval = pos (300 * second)

pub data KeysError : Type 0 where
  no_breaker keys_stale keys_circuit_open keys_fetch_failed : KeysError

pub data KeysResult (Keys : Type 0) : Type 0 where
  keys : Keys → KeysResult Keys
  keys_error : KeysError → KeysResult Keys

unfoldable pub is_opened : CbState → Bool
is_opened opened = true
is_opened _ = false

unfoldable pub has_breaker : String → List String → Bool
has_breaker url [] = false
has_breaker url (u ∷ more) = str_eq u url || has_breaker url more

module _ (e : JwksEnv) where
  open e use {World, Keys, now, http_get, execute, state}

  pub record CacheEntry : Type 0 where
    pub keys : Keys
    pub fetched_at : ℕ

  -- The URLs that have a breaker stand for the map of breakers.
  pub record JwksCache : Type 0 where
    pub entries : Dict CacheEntry
    pub max_staleness : ℤ
    pub refresh_interval : ℤ
    pub breakers : List String

  unfoldable pub new_jwks_cache : List String → ℤ → ℤ → JwksCache
  new_jwks_cache urls max_staleness refresh_interval = record {
    entries = [];
    max_staleness = max_staleness;
    refresh_interval = refresh_interval;
    breakers = urls;
  }

  unfoldable pub fetch_jwks : String → World → World × FetchResult Keys
  fetch_jwks url w =
      let (w', r) = http_get url w in
      (
        w',
        elim r [
          | http_error ↦ fetch_error
          | http_response status body ↦
              if status == 200
              then elim body [ none ↦ fetch_error | some k ↦ fetched k ]
              else fetch_error
        ],
      )

  unfoldable pub age : World → CacheEntry → ℤ
  age w entry = sub_ℕ (now w) entry.fetched_at

  -- The entry that is answered without a fetch.
  unfoldable pub fresh_entry : JwksCache → World → String → Option CacheEntry
  unfolding age lookup
  fresh_entry c w url =
      if ltb_ℤ (pos 0) c.refresh_interval
      then elim (lookup url c.entries) [
        | none ↦ none
        | some entry ↦ if ltb_ℤ (age w entry) c.refresh_interval then some entry else none
      ]
      else none

  -- After a fetch that failed or was not let through.
  unfoldable pub fall_back : JwksCache → World → String → KeysResult Keys
  unfolding age lookup is_opened
  fall_back c w url = elim (lookup url c.entries) [
    | some entry ↦
        if ltb_ℤ (pos 0) c.max_staleness && ltb_ℤ c.max_staleness (age w entry)
        then keys_error keys_stale
        else keys entry.keys
    | none ↦
        if is_opened (state url w)
        then keys_error keys_circuit_open
        else keys_error keys_fetch_failed
  ]

  unfoldable pub refresh_keys : JwksCache → World → String → World × JwksCache × KeysResult Keys
  unfolding fall_back fetch_jwks insert
  refresh_keys c w url =
      let (w', r) = execute url (fetch_jwks url) w in
      elim r [
        | fetch_error ↦ (w', c, fall_back c w' url)
        | fetched k ↦ (
          w',
          record c { entries = insert url (record { keys = k; fetched_at = now w' }) c.entries },
          keys k,
        )
      ]

  unfoldable pub get_keys : JwksCache → World → String → World × JwksCache × KeysResult Keys
  unfolding has_breaker fresh_entry refresh_keys
  get_keys c w url =
      if not (has_breaker url c.breakers)
      then (w, c, keys_error no_breaker)
      else elim (fresh_entry c w url) [
        | some entry ↦ (w, c, keys entry.keys)
        | none ↦ refresh_keys c w url
      ]

  unfoldable pub all_closed : World → List String → Bool
  unfolding is_opened
  all_closed w [] = true
  all_closed w (url ∷ more) =
      let rest = all_closed w more in if is_opened (state url w) then false else rest

  unfoldable pub healthy : JwksCache → World → Bool
  unfolding all_closed
  healthy c w = all_closed w c.breakers
