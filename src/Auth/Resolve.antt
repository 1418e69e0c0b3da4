-- ===== src/Auth/Resolve.antt =====
-- src/auth/keys.rs: `KeySet::resolve` and the cache.
use zonemail.Prelude.{
  ℕ, ◌+◌, ◌-◌, ◌≤◌, ◌<◌, ◌≡◌, ◌↔◌, refl, inl, inr, Text, false, Option, none, some, List, Result,
  ok, err, Bool-cases, Option-cases, arith,
}
use zonemail.Auth.Keys.{
  source_unavailable, Checked, passed, refused, JwkOps, CachedSet, KeySet, current, should_refetch,
  pick_key, from_cache, fetched, missed, cached_key, looked_up, resolve,
}

-- the cache holds a set younger than its lifetime
abbrev pub IsFresh : {Jwk : Type 0} → ℕ → KeySet Jwk → Type 0
IsFresh {Jwk} now ks = (c : CachedSet Jwk) × (ks.cache ≡ some c) × (now - c.fetched_at < ks.ttl)

module _ {Jwk DecodingKey : Type 0} (ops : JwkOps Jwk DecodingKey) (kid : Option Text)
    (now later : ℕ) where
  -- what an outcome of `resolve` says of the cache that it leaves
  pub record Explains (out : Checked DecodingKey × KeySet Jwk) : Type 0 where
    pub key :
        (k : DecodingKey)
        → out.0 ≡ passed k
        → (set : List Jwk) × (current out.1 ≡ some set) × (pick_key ops set kid ≡ some k)
    pub unavailable : (out.0 ≡ refused source_unavailable) ↔ (current out.1 ≡ none)

  from_cache-Explains : (ks : KeySet Jwk) → Explains (from_cache ops kid ks, ks)
  from_cache-Explains ks = elim (Option-cases (current ks)) [
    | inl e ↦ record {
      key = λ k h. ground (arith, e, h);
      unavailable = (λ h. e, λ h. ground (arith, e));
    }
    | inr (set, e) ↦ elim (Option-cases (pick_key ops set kid)) [
      | inl p ↦ record {
        key = λ k h. ground (arith, e, p, h);
        unavailable = (λ h. ground (arith, e, p, h), λ h. ground (arith, e, h));
      }
      | inr (k, p) ↦ record {
        key = λ j h. (set, e, ground (arith, e, p, h));
        unavailable = (λ h. ground (arith, e, p, h), λ h. ground (arith, e, h));
      }
    ]
  ]

  fetched-Explains :
      (answer : Result (List Jwk)) (ks : KeySet Jwk) → Explains (fetched ops kid later answer ks)
  fetched-Explains (err e) ks = from_cache-Explains ks
  fetched-Explains (ok set) ks = elim (Option-cases (pick_key ops set kid)) [
    | inl p ↦ record {
      key = λ k h. ground (arith, p, h);
      unavailable = (λ h. ground (arith, p, h), λ h. ground (arith, h));
    }
    | inr (k, p) ↦ record {
      key = λ j h. (set, refl, ground (arith, p, h));
      unavailable = (λ h. ground (arith, p, h), λ h. ground (arith, h));
    }
  ]

  missed-Explains :
      (fetcher : Option (ℕ → Result (List Jwk))) (ks : KeySet Jwk)
      → Explains (missed ops kid now later fetcher ks)
  missed-Explains none ks = from_cache-Explains ks
  missed-Explains (some fetch) ks = elim (Bool-cases (should_refetch now ks)) [
    | inl s ↦ rw s (fetched-Explains (fetch ks.fetches) (record ks { fetches = ks.fetches + 1 }))
    | inr s ↦ rw s (from_cache-Explains ks)
  ]

  cached_key-some :
      (c : Option (List Jwk)) (k : DecodingKey)
      → cached_key ops kid c ≡ some k
      → (set : List Jwk) × (c ≡ some set) × (pick_key ops set kid ≡ some k)
  cached_key-some none k h = ground (arith, h)
  cached_key-some (some set) k h = (set, refl, h)

  looked_up-Explains :
      (ks : KeySet Jwk) (found : Option DecodingKey)
      → cached_key ops kid (current ks) ≡ found
      → Explains (looked_up ops kid now later found ks)
  looked_up-Explains ks none h = missed-Explains ks.fetcher ks
  looked_up-Explains ks (some k) h =
      let (set, e, p) = cached_key-some (current ks) k h in
      record {
        key = λ j q. (set, e, ground (arith, p, q));
        unavailable = (λ q. ground (arith, q), λ q. ground (arith, e, q));
      }

  -- A key that is resolved is the one that the header picks from the set that is then in the cache,
  -- and the source is called unavailable exactly if the cache is then empty.
  pub resolve-Explains : (ks : KeySet Jwk) → Explains (resolve ops kid now later ks)
  unfolding resolve
  resolve-Explains ks = looked_up-Explains ks (cached_key ops kid (current ks)) refl

  looked_up_fresh :
      (ks : KeySet Jwk) (fetcher : Option (ℕ → Result (List Jwk)))
      → should_refetch now ks ≡ false
      → (missed ops kid now later fetcher ks).1 ≡ ks
  looked_up_fresh ks none h = refl
  looked_up_fresh ks (some fetch) h = rw h refl

  IsFresh-should_refetch : (ks : KeySet Jwk) → IsFresh now ks → should_refetch now ks ≡ false
  unfolding should_refetch
  IsFresh-should_refetch ks (c, e, young) = ground (arith, e, young)

  fetched_lem :
      (answer : Result (List Jwk)) (ks : KeySet Jwk)
      → ((fetched ops kid later answer ks).1.fetches ≡ ks.fetches)
        × ((e : Text) → answer ≡ err e → (fetched ops kid later answer ks).1.cache ≡ ks.cache)
  fetched_lem (ok set) ks = (refl, λ e h. ground (arith, h))
  fetched_lem (err e) ks = (refl, λ e h. refl)

  missed_lem :
      (fetcher : Option (ℕ → Result (List Jwk))) (ks : KeySet Jwk)
      → ((missed ops kid now later fetcher ks).1.fetches ≤ ks.fetches + 1)
        × (((fetch : ℕ → Result (List Jwk))
              → fetcher ≡ some fetch
              → (e : Text) × (fetch ks.fetches ≡ err e))
            → (missed ops kid now later fetcher ks).1.cache ≡ ks.cache)
  missed_lem none ks = (omega arith, λ h. refl)
  missed_lem (some fetch) ks = elim (Bool-cases (should_refetch now ks)) [
    | inl s ↦
        let more : KeySet Jwk = record ks { fetches = ks.fetches + 1 } in
        let (n, kept) = fetched_lem (fetch ks.fetches) more in
        rw s (omega (arith, n), λ h. let (e, f) = h fetch refl in kept e f)
    | inr s ↦ rw s (omega arith, λ h. refl)
  ]

  looked_up_lem :
      (found : Option DecodingKey) (ks : KeySet Jwk)
      → ((looked_up ops kid now later found ks).1.fetches ≤ ks.fetches + 1)
        × (IsFresh now ks → (looked_up ops kid now later found ks).1 ≡ ks)
        × (((fetch : ℕ → Result (List Jwk))
              → ks.fetcher ≡ some fetch
              → (e : Text) × (fetch ks.fetches ≡ err e))
            → (looked_up ops kid now later found ks).1.cache ≡ ks.cache)
  looked_up_lem (some k) ks = (omega arith, λ h. refl, λ h. refl)
  looked_up_lem none ks =
      let (n, kept) = missed_lem ks.fetcher ks in
      (n, λ h. looked_up_fresh ks ks.fetcher (IsFresh-should_refetch ks h), kept)

  -- `resolve` fetches at most once, and not at all over a fresh cache, which it leaves as it is; a
  -- fetch that fails leaves the cache as it was.
  pub resolve_fetches :
      (ks : KeySet Jwk)
      → ((resolve ops kid now later ks).1.fetches ≤ ks.fetches + 1)
        × (IsFresh now ks → (resolve ops kid now later ks).1 ≡ ks)
        × (((fetch : ℕ → Result (List Jwk))
              → ks.fetcher ≡ some fetch
              → (e : Text) × (fetch ks.fetches ≡ err e))
            → (resolve ops kid now later ks).1.cache ≡ ks.cache)
  unfolding resolve
  resolve_fetches ks = looked_up_lem (cached_key ops kid (current ks)) ks
