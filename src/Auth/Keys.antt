-- ===== src/Auth/Keys.antt =====
-- src/auth/keys.rs: the cached key set and how a key is resolved for a token's header. The parameters
-- are `jsonwebtoken`'s keys and the fetcher: `fetch n` is the answer of fetch number `n`. A time is
-- the number of nanoseconds of the clock that `Instant` reads.
use zonemail.Prelude.{
  ℕ, ◌+◌, ◌-◌, ◌==◌, leb, Text, codes, Bool, true, false, ◌&&◌, ◌||◌, Option, none, some, List, [],
  ◌∷◌, ◌++◌, filter, is_empty, trim_end_matches, trim_start_matches, Result, ok, err, if◌then◌else◌,
}

-- the algorithms that `parse_algorithm` names
pub data Algorithm : Type 0 where
  hs256 hs384 hs512 es256 es384 rs256 rs384 rs512 ps256 ps384 ps512 eddsa : Algorithm

-- `jsonwebtoken`'s `Header`, as far as it is read
pub record Header : Type 0 where
  pub alg : Algorithm
  pub kid : Option Text

-- `AuthError`
pub data AuthError : Type 0 where
  algorithm_disallowed : Algorithm → AuthError
  unknown_kid source_unavailable : AuthError
  verify : Text → AuthError

-- `Result<_, AuthError>`
pub data Checked (A : Type 0) : Type 0 where
  passed : A → Checked A
  refused : AuthError → Checked A

-- `jsonwebtoken`'s keys: `key_id` is a key's `common.key_id`, `from_jwk` is
-- `DecodingKey::from_jwk(_).ok()`, and `find_key` is `JwkSet::find`.
pub record JwkOps (Jwk DecodingKey : Type 0) : Type 0 where
  pub key_id : Jwk → Option Text
  pub from_jwk : Jwk → Option DecodingKey
  pub find_key : List Jwk → Text → Option Jwk

-- `CachedSet`
pub record CachedSet (Jwk : Type 0) : Type 0 where
  pub jwk_set : List Jwk
  pub fetched_at : ℕ

-- `KeySet`, with the number of fetches made
pub record KeySet (Jwk : Type 0) : Type 0 where
  pub cache : Option (CachedSet Jwk)
  pub fetcher : Option (ℕ → Result (List Jwk))
  pub ttl : ℕ
  pub fetches : ℕ

-- `join_url`
abbrev pub starts_with : Text → Text → Bool
starts_with [] t = true
starts_with (c ∷ cs) [] = false
starts_with (c ∷ cs) (d ∷ ds) = (c == d) && starts_with cs ds

unfoldable pub join_url : Text → Text → Text
join_url base path =
    if starts_with (codes "http://") path || starts_with (codes "https://") path
    then path
    else (let base' = trim_end_matches (λ c. c == b'/') base in
        let path' = trim_start_matches (λ c. c == b'/') path in
        if is_empty path' then base' else base' ++ codes "/" ++ path')

module _ {Jwk : Type 0} where
  -- `KeySet::static_set`, made at the time `now`
  abbrev pub static_set : List Jwk → ℕ → KeySet Jwk
  static_set set now = record {
    cache = some (record { jwk_set = set; fetched_at = now });
    fetcher = none;
    ttl = 0;
    fetches = 0;
  }

  -- `KeySet::remote`
  abbrev pub remote : (ℕ → Result (List Jwk)) → ℕ → KeySet Jwk
  remote fetch ttl = record { cache = none; fetcher = some fetch; ttl = ttl; fetches = 0 }

  -- `KeySet::is_remote`
  abbrev pub is_remote : KeySet Jwk → Bool
  is_remote ks = elim ks.fetcher [ none ↦ false | some _ ↦ true ]

  -- `KeySet::current`
  abbrev pub current : KeySet Jwk → Option (List Jwk)
  current ks = elim ks.cache [ none ↦ none | some c ↦ some c.jwk_set ]

  -- `KeySet::should_refetch`
  unfoldable pub should_refetch : ℕ → KeySet Jwk → Bool
  should_refetch now ks = elim ks.cache [ none ↦ true | some c ↦ leb ks.ttl (now - c.fetched_at) ]

  -- `KeySet::store`
  abbrev pub store : ℕ → List Jwk → KeySet Jwk → KeySet Jwk
  store now set ks = record ks { cache = some (record { jwk_set = set; fetched_at = now }) }

  -- one round of `KeySet::spawn_refresh`
  abbrev pub refreshed : ℕ → Result (List Jwk) → KeySet Jwk → KeySet Jwk
  refreshed now (ok set) ks = store now set ks
  refreshed now (err e) ks = ks

  unfoldable pub refresh : ℕ → KeySet Jwk → KeySet Jwk
  refresh now ks = elim ks.fetcher [
    | none ↦ ks
    | some fetch ↦ refreshed now (fetch ks.fetches) (record ks { fetches = ks.fetches + 1 })
  ]

module _ {Jwk DecodingKey : Type 0} (ops : JwkOps Jwk DecodingKey) where
  abbrev no_kid : Jwk → Bool
  no_kid k = elim (ops.key_id k) [ none ↦ true | some _ ↦ false ]

  abbrev from_only : List Jwk → Option DecodingKey
  from_only [] = none
  from_only (k ∷ []) = ops.from_jwk k
  from_only (k ∷ l ∷ ks) = none

  abbrev from_found : Option Jwk → Option DecodingKey
  from_found none = none
  from_found (some k) = ops.from_jwk k

  -- `pick_key`
  unfoldable pub pick_key : List Jwk → Option Text → Option DecodingKey
  pick_key set none = from_only (filter no_kid set)
  pick_key set (some kid) = from_found (ops.find_key set kid)

  abbrev pub key_or : AuthError → Option DecodingKey → Checked DecodingKey
  key_or e none = refused e
  key_or e (some k) = passed k

  -- the part of `resolve` after the fetch: the cache, whatever its age
  abbrev pub from_cache : Option Text → KeySet Jwk → Checked DecodingKey
  from_cache kid ks = elim (current ks) [
    | none ↦ refused source_unavailable
    | some set ↦ key_or unknown_kid (pick_key set kid)
  ]

  -- `resolve` from the outcome of the fetch on, which came at the time `later`
  abbrev pub fetched :
      Option Text → ℕ → Result (List Jwk) → KeySet Jwk → Checked DecodingKey × KeySet Jwk
  fetched kid later (ok set) ks = (key_or unknown_kid (pick_key set kid), store later set ks)
  fetched kid later (err e) ks = (from_cache kid ks, ks)

  -- `resolve` from the miss on, with the fetcher
  abbrev pub missed :
      Option Text
      → ℕ
      → ℕ
      → Option (ℕ → Result (List Jwk))
      → KeySet Jwk
      → Checked DecodingKey × KeySet Jwk
  missed kid now later none ks = (from_cache kid ks, ks)
  missed kid now later (some fetch) ks =
      if should_refetch now ks
      then fetched kid later (fetch ks.fetches) (record ks { fetches = ks.fetches + 1 })
      else (from_cache kid ks, ks)

  abbrev pub cached_key : Option Text → Option (List Jwk) → Option DecodingKey
  cached_key kid none = none
  cached_key kid (some set) = pick_key set kid

  -- `resolve` from the first look at the cache on
  abbrev pub looked_up :
      Option Text → ℕ → ℕ → Option DecodingKey → KeySet Jwk → Checked DecodingKey × KeySet Jwk
  looked_up kid now later (some key) ks = (passed key, ks)
  looked_up kid now later none ks = missed kid now later ks.fetcher ks

  -- `KeySet::resolve`, for a request at the time `now`
  unfoldable pub resolve : Option Text → ℕ → ℕ → KeySet Jwk → Checked DecodingKey × KeySet Jwk
  resolve kid now later ks = looked_up kid now later (cached_key kid (current ks)) ks
